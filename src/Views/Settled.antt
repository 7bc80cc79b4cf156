-- ===== src/Views/Settled.antt =====
-- src/gui.c: the event lists over every sequence of the window's handlers.
use Prim.Native.Nat.{Ordering}
use mathlib.Core.List.{Perm}
use mathlib.Core.Option.{some_inj}
use mathlib.Core.Path.{subst}
use trace_glass.Base.{
  ℕ, ◌≡◌, refl, sym, ◌∙◌, Bool, true, false, not, Option, none, some, List, length, arith, if_cases,
  ◌==◌,
}
use trace_glass.Queue.{Machine}
use trace_glass.Utils.{Text}
use trace_glass.Views.{GuiView, view_network, view_timeline, view_alerts, Row, Desktop, Gui}
use trace_glass.Views.Drains.{Drains, drain_loop-Drains}
use trace_glass.Views.Fresh.{Listed, rebuild_overview_lists-AreRecent}
use trace_glass.Views.Handlers.{
  Draining, drain_loop, after_drain, drain_events, toggle_pause, clear_current_view, render,
  current_view, on_search_change, on_filter_change, on_filter_timer,
}
use trace_glass.Views.Rebuild.{rebuild_overview_lists}
use trace_glass.Views.Shown.{IsFresh}
use trace_glass.Views.Sort.{sort_view, handle_column_click}
use trace_glass.Views.Clicks.{
  IsSettled, rebuild_tree_cases, rebuild_filtered_views-IsSettled, toggle_pause-IsSettled,
  clear_view-IsSettled, sort_view-IsSettled, handle_column_click-IsSettled,
}

-- One message of the window, or one change by another thread.
pub data Act (d : Desktop) (g : Gui) : Gui → Type 0 where
  search_changed : (search : Text) → Act d g (on_search_change search g)
  filter_changed : (selection : Option ℕ) → Act d g (on_filter_change d selection g)
  timer_fired : g.filter_timer_active ≡ true → Act d g (on_filter_timer d g)
  pause_clicked : (h : Gui) → toggle_pause d g ≡ some h → Act d g h
  clear_clicked : Act d g (clear_current_view g)
  column_clicked : (view : GuiView) (column : ℕ) → Act d g (handle_column_click d view column g)
  tab_selected : (selected : Option ℕ) → Act d g (record g { navigation = selected })
  event_pushed : (queue : Machine) → Act d g (record g { queue = queue })
  drained : (fuel : ℕ) (h : Gui) → drain_events d fuel g ≡ some h → Act d g h

pub data Acts (d : Desktop) (g : Gui) : Gui → Type 0 where
  here : Acts d g g
  next : {h k : Gui} → Acts d g h → Act d h k → Acts d g k

module _ (d : Desktop) (always : (rows : List Row) (row : Row) → d.accepts_row rows row ≡ true)
    (permutes : (order : ℕ → ℕ → Ordering) (rows : List Row)
      → Perm (d.sort_items order rows) rows) where
  render-IsSettled :
      (first : Bool) (g : Gui)
      → (g.filter_timer_active ≡ false → g.render_dirty ≡ false → Listed d g)
      → (g.render_dirty ≡ true → g.rendering_paused ≡ true)
      → IsSettled d (render d first g)
  unfolding rebuild_overview_lists
  render-IsSettled first g listed dirty =
      let drawn = rebuild_overview_lists d g in
      let by_time = sort_view d view_timeline first drawn in
      let settled : IsSettled d drawn = record {
        fresh = λ quiet clean.
            (listed quiet clean, rebuild_overview_lists-AreRecent d always permutes g);
        dirty = dirty;
      } in
      sort_view-IsSettled d always permutes view_alerts first
        (sort_view d view_network first by_time)
        (sort_view-IsSettled d always permutes view_network first by_time
          (sort_view-IsSettled d always permutes view_timeline first drawn settled))

  after_drain-IsSettled :
      (first : Bool) (s t : Draining) (h : Gui)
      → Drains d always permutes s t
      → after_drain d first t ≡ some h
      → IsSettled d s.gui
      → IsSettled d h
  unfolding after_drain
  after_drain-IsSettled first s t h drains e settled =
      let r = drains.renders in
      let fresh : t.gui.filter_timer_active ≡ false → t.gui.render_dirty ≡ false → IsFresh d s.gui =
        λ quiet clean. settled.fresh (sym r.timer ∙ quiet) (sym r.dirty ∙ clean) in
      let dirty : t.gui.render_dirty ≡ true → t.gui.rendering_paused ≡ true =
        λ stale. r.paused ∙ settled.dirty (sym r.dirty ∙ stale) in
      if_cases (λ o. o ≡ some h → IsSettled d h) (not t.any_accepted)
        (λ none_accepted done.
          let (before, (events, lists)) = drains.idle (ground (arith, none_accepted)) in
          subst (IsSettled d) (some_inj.0 done) (record {
            fresh = λ quiet clean.
                rw (r.controls, r.view_floor, r.overview, events, lists) (fresh quiet clean);
            dirty = dirty;
          }))
        (λ accepted.
          if_cases (λ o. o ≡ some h → IsSettled d h) (t.gui.rendering_paused)
            (λ paused done. subst (IsSettled d) (some_inj.0 done) (record {
              fresh = λ quiet clean. absurd (ground (arith, clean));
              dirty = λ stale. paused;
            }))
            (λ active.
              let listed : t.gui.filter_timer_active ≡ false
                  → t.gui.render_dirty ≡ false
                  → Listed d t.gui =
                λ quiet clean. r.listed (sym r.paused ∙ active) (fresh quiet clean).0 in
              if_cases (λ o. o ≡ some h → IsSettled d h) (t.tree_changed)
                (λ changed.
                  rebuild_tree_cases d
                    (λ o.
                      (elim o [ none ↦ none | some g ↦ some (render d first g) ]) ≡ some h
                      → IsSettled d h)
                    (t.gui) (λ fault. absurd (ground (arith, fault)))
                    (λ items done.
                      subst (IsSettled d) (some_inj.0 done)
                        (render-IsSettled first (record (t.gui) { tree = items }) listed dirty)))
                (λ same done.
                  subst (IsSettled d) (some_inj.0 done)
                    (render-IsSettled first t.gui listed dirty))))
        e

  drain_events-IsSettled :
      (fuel : ℕ) (g h : Gui) → drain_events d fuel g ≡ some h → IsSettled d g → IsSettled d h
  unfolding drain_events
  drain_events-IsSettled fuel g h e settled =
      let s : Draining = record { gui = g; tree_changed = false; any_accepted = false } in
      (elim (drain_loop d fuel s)
          as (λ o.
            drain_loop d fuel s ≡ o
            → (elim o [ none ↦ none | some t ↦ after_drain d (length g.store.events == 0) t ])
              ≡ some h
            → IsSettled d h) [
              | none ↦ λ ran f. absurd (ground (arith, f))
              | some t ↦ λ ran f.
                  after_drain-IsSettled (length g.store.events == 0) s t h
                    (drain_loop-Drains d always permutes fuel s t ran) f settled
            ])
        refl e

  Act-IsSettled : {g h : Gui} → Act d g h → IsSettled d g → IsSettled d h
  unfolding on_search_change on_filter_change on_filter_timer clear_current_view
  Act-IsSettled {g} (search_changed search) s = record {
    fresh = λ quiet clean. absurd (ground (arith, quiet));
    dirty = s.dirty;
  }
  Act-IsSettled {g} (filter_changed selection) s =
      rebuild_filtered_views-IsSettled d always permutes
        (record g { controls = record (g.controls) { selection = selection } }) s.dirty
  Act-IsSettled {g} (timer_fired pending) s =
      rebuild_filtered_views-IsSettled d always permutes (record g { filter_timer_active = false })
        s.dirty
  Act-IsSettled {g} (pause_clicked h e) s = toggle_pause-IsSettled d always permutes g h e s
  Act-IsSettled {g} clear_clicked s = clear_view-IsSettled d always permutes (current_view g) g s
  Act-IsSettled {g} (column_clicked view column) s =
      handle_column_click-IsSettled d always permutes view column g s
  Act-IsSettled {g} (tab_selected selected) s = record { fresh = s.fresh; dirty = s.dirty }
  Act-IsSettled {g} (event_pushed queue) s = record { fresh = s.fresh; dirty = s.dirty }
  Act-IsSettled {g} (drained fuel h e) s = drain_events-IsSettled fuel g h e s

  -- Whatever the user does and whatever is drained, in any order: unless the view is paused with
  -- changes behind it, or the filter's timer is running, each event list shows exactly the stored
  -- events behind its floor that pass the filters, in some order, and the overview shows the newest
  -- of them, eight activities and five alerts at most. A list is only left behind while the view is
  -- paused. Rows are taken to be inserted and sorted without failure.
  pub Acts-IsSettled : {g h : Gui} → Acts d g h → IsSettled d g → IsSettled d h
  Acts-IsSettled here s = s
  Acts-IsSettled (next acts act) s = Act-IsSettled act (Acts-IsSettled acts s)
