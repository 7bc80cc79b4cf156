-- ===== src/Views/Bounded.antt =====
-- src/gui.c: the lists' indices and the store over every sequence of the window's handlers.
use Prim.Native.Nat.{Ordering}
use mathlib.Core.List.{Perm}
use mathlib.Core.Option.{some_inj}
use mathlib.Core.Path.{subst}
use trace_glass.Base.{
  ℕ, ◌≤◌, ◌≡◌, refl, Bool, false, not, ◌&&◌, Option, none, some, List, length, arith, if_cases,
  ◌==◌,
}
use trace_glass.Views.{
  GuiView, view_overview, view_processes, view_network, view_timeline, view_alerts, Row, Desktop,
  Gui, at_view, view_number,
}
use trace_glass.Views.Handlers.{
  Draining, drain_loop, after_drain, drain_events, rebuild_filtered_views, toggle_pause, clear_view,
  clear_current_view, current_view, render, on_search_change, on_filter_change, on_filter_timer,
}
use trace_glass.Views.Rebuild.{rebuild_event_lists, rebuild_overview_lists}
use trace_glass.Views.Settled.{
  Act, Acts, here, next, search_changed, filter_changed, timer_fired, pause_clicked, clear_clicked,
  column_clicked, tab_selected, event_pushed, drained,
}
use trace_glass.Views.Sort.{handle_column_click, clicked}
use trace_glass.Views.Sound.{
  IsSound, reframed, drain_loop-IsSound, rebuild_overview_lists-IsSound, sort_view-IsSound,
  rebuild_event_lists-IsSound, render-IsSound, rebuild_tree_then,
}

module _ (d : Desktop)
    (permutes : (order : ℕ → ℕ → Ordering) (rows : List Row)
      → Perm (d.sort_items order rows) rows) where
  after_drain-IsSound :
      (first : Bool) (t : Draining) (h : Gui)
      → after_drain d first t ≡ some h
      → IsSound t.gui
      → IsSound h
  unfolding after_drain
  after_drain-IsSound first t h e s =
      let P : Option Gui → Type 0 = λ o. o ≡ some h → IsSound h in
      if_cases P (not t.any_accepted) (λ quiet done. subst IsSound (some_inj.0 done) s)
        (λ accepted.
          if_cases P (t.gui.rendering_paused)
            (λ paused done. subst IsSound (some_inj.0 done) (reframed t.gui s))
            (λ active.
              if_cases P (t.tree_changed)
                (λ changed done.
                  rebuild_tree_then d permutes (render d first) t.gui h
                    (render-IsSound d permutes first) done s)
                (λ same done.
                  subst IsSound (some_inj.0 done) (render-IsSound d permutes first t.gui s))))
        e

  drain_events-IsSound :
      (fuel : ℕ) (g h : Gui) → drain_events d fuel g ≡ some h → IsSound g → IsSound h
  unfolding drain_events
  drain_events-IsSound fuel g h e s =
      let start : Draining = record { gui = g; tree_changed = false; any_accepted = false } in
      (elim (drain_loop d fuel start)
          as (λ o.
            drain_loop d fuel start ≡ o
            → (elim o [ none ↦ none | some t ↦ after_drain d (length g.store.events == 0) t ])
              ≡ some h
            → IsSound h) [
              | none ↦ λ ran f. absurd (ground (arith, f))
              | some t ↦ λ ran f.
                  after_drain-IsSound (length g.store.events == 0) t h f
                    (drain_loop-IsSound d permutes fuel start t ran s)
            ])
        refl e

  rebuilt-IsSound :
      (g : Gui) → IsSound g → IsSound (rebuild_overview_lists d (rebuild_event_lists d g))
  rebuilt-IsSound g s =
      rebuild_overview_lists-IsSound d permutes (rebuild_event_lists d g)
        (rebuild_event_lists-IsSound d permutes g s)

  rebuild_filtered_views-IsSound : (g : Gui) → IsSound g → IsSound (rebuild_filtered_views d g)
  unfolding rebuild_filtered_views
  rebuild_filtered_views-IsSound g s =
      if_cases IsSound (g.rendering_paused) (λ paused. reframed g s) (λ active. rebuilt-IsSound g s)

  toggle_pause-IsSound : (g h : Gui) → toggle_pause d g ≡ some h → IsSound g → IsSound h
  unfolding toggle_pause
  toggle_pause-IsSound g h e s =
      let toggled = record g { rendering_paused = not g.rendering_paused } in
      let turned : IsSound toggled = reframed g s in
      if_cases (λ o. o ≡ some h → IsSound h) (not toggled.rendering_paused && toggled.render_dirty)
        (λ resumed done.
          rebuild_tree_then d permutes
            (λ k. record (rebuild_overview_lists d k) { render_dirty = false })
            (rebuild_event_lists d toggled) h
            (λ k sound.
              reframed (rebuild_overview_lists d k)
                (rebuild_overview_lists-IsSound d permutes k sound))
            done (rebuild_event_lists-IsSound d permutes toggled turned))
        (λ stays done. subst IsSound (some_inj.0 done) turned) e

  cleared_floors :
      (view : GuiView) (g : Gui)
      → ((other : GuiView) → g.view_floor other ≤ length g.store.events)
      → (other : GuiView)
      → at_view g.view_floor view (length g.store.events) other ≤ length g.store.events
  cleared_floors view g floors other =
      if_cases (λ k. k ≤ length g.store.events) (view_number other == view_number view)
        (λ here. omega arith) (λ elsewhere. floors other)

  clear_view-IsSound : (view : GuiView) (g : Gui) → IsSound g → IsSound (clear_view view g)
  unfolding clear_view
  clear_view-IsSound view_processes g s = s
  clear_view-IsSound view_overview g s = record {
    valid = s.valid;
    in_range = record {
      floors = cleared_floors view_overview g s.in_range.floors;
      lists = s.in_range.lists;
      overview = record { recent = tt; recent_alerts = tt };
    };
  }
  clear_view-IsSound view_network g s = record {
    valid = s.valid;
    in_range = record {
      floors = cleared_floors view_network g s.in_range.floors;
      lists = record {
        timeline = s.in_range.lists.timeline;
        network = tt;
        alerts = s.in_range.lists.alerts;
      };
      overview = s.in_range.overview;
    };
  }
  clear_view-IsSound view_timeline g s = record {
    valid = s.valid;
    in_range = record {
      floors = cleared_floors view_timeline g s.in_range.floors;
      lists = record {
        timeline = tt;
        network = s.in_range.lists.network;
        alerts = s.in_range.lists.alerts;
      };
      overview = s.in_range.overview;
    };
  }
  clear_view-IsSound view_alerts g s = record {
    valid = s.valid;
    in_range = record {
      floors = cleared_floors view_alerts g s.in_range.floors;
      lists = record {
        timeline = s.in_range.lists.timeline;
        network = s.in_range.lists.network;
        alerts = tt;
      };
      overview = s.in_range.overview;
    };
  }

  handle_column_click-IsSound :
      (view : GuiView) (column : ℕ) (g : Gui)
      → IsSound g
      → IsSound (handle_column_click d view column g)
  unfolding handle_column_click
  handle_column_click-IsSound view_overview column g s = s
  handle_column_click-IsSound view_processes column g s = s
  handle_column_click-IsSound view_network column g s =
      sort_view-IsSound d permutes view_network false
        (record g {
          sort_states =
              at_view g.sort_states view_network (clicked d (g.sort_states view_network) column);
        })
        (reframed g s)
  handle_column_click-IsSound view_timeline column g s =
      sort_view-IsSound d permutes view_timeline false
        (record g {
          sort_states =
              at_view g.sort_states view_timeline (clicked d (g.sort_states view_timeline) column);
        })
        (reframed g s)
  handle_column_click-IsSound view_alerts column g s =
      sort_view-IsSound d permutes view_alerts false
        (record g {
          sort_states =
              at_view g.sort_states view_alerts (clicked d (g.sort_states view_alerts) column);
        })
        (reframed g s)

  Act-IsSound : {g h : Gui} → Act d g h → IsSound g → IsSound h
  unfolding on_search_change on_filter_change on_filter_timer clear_current_view
  Act-IsSound {g} (search_changed search) s = reframed g s
  Act-IsSound {g} (filter_changed selection) s =
      rebuild_filtered_views-IsSound
        (record g { controls = record (g.controls) { selection = selection } }) (reframed g s)
  Act-IsSound {g} (timer_fired pending) s =
      rebuild_filtered_views-IsSound (record g { filter_timer_active = false }) (reframed g s)
  Act-IsSound {g} (pause_clicked h e) s = toggle_pause-IsSound g h e s
  Act-IsSound {g} clear_clicked s = clear_view-IsSound (current_view g) g s
  Act-IsSound {g} (column_clicked view column) s = handle_column_click-IsSound view column g s
  Act-IsSound {g} (tab_selected selected) s = reframed g s
  Act-IsSound {g} (event_pushed queue) s = reframed g s
  Act-IsSound {g} (drained fuel h e) s = drain_events-IsSound fuel g h e s

  -- Where the store is valid, every row of the three event lists and of the two lists of the overview
  -- names an event that the store holds, and no view's floor is above the number of stored events,
  -- this stays so whatever the user does and whatever is drained, in any order, paused or not.
  -- Insertions into the lists and allocations may fail; ListView_SortItems is taken to permute the
  -- rows.
  pub Acts-IsSound : {g h : Gui} → Acts d g h → IsSound g → IsSound h
  Acts-IsSound here s = s
  Acts-IsSound (next acts act) s = Act-IsSound act (Acts-IsSound acts s)
