-- ===== src/Views/Handlers.antt =====
-- src/gui.c: the handlers that change the lists. `none` is a fault, or no fuel left.
use trace_glass.Base.{
  ℕ, zero, suc, Bool, true, false, not, ◌&&◌, ◌||◌, Option, none, some, List, [], ◌∷◌, ◌==◌,
  if◌then◌else◌, length,
}
use trace_glass.Detection.{detection_evaluate, max_alerts_per_event}
use trace_glass.Events.{TraceGlassEvent, is_process_start, is_process_stop}
use trace_glass.Queue.{pop_event}
use trace_glass.Store.{event_store_add}
use trace_glass.Utils.{Text}
use trace_glass.Views.{
  GuiView, view_overview, view_processes, view_network, view_timeline, view_alerts, Desktop, Gui,
  at_view,
}
use trace_glass.Views.Rebuild.{rebuild_event_lists, rebuild_overview_lists, rebuild_tree}
use trace_glass.Views.Rows.{add_event_rows}
use trace_glass.Views.Sort.{sort_view}

unfoldable pub current_view : Gui → GuiView
current_view g = elim (g.navigation) [
  | none ↦ view_overview
  | some selected ↦
      if selected == 1
      then view_processes
      else if selected == 2
      then view_network
      else if selected == 3
      then view_timeline
      else if selected == 4
      then view_alerts
      else view_overview
]

-- `clear_current_view` on the view that is selected.
unfoldable pub clear_view : GuiView → Gui → Gui
clear_view view_processes g = g
clear_view view_overview g = record g {
  view_floor = at_view g.view_floor view_overview (length g.store.events);
  overview = record { recent = []; recent_alerts = [] };
}
clear_view view_network g = record g {
  view_floor = at_view g.view_floor view_network (length g.store.events);
  lists = record (g.lists) { network = [] };
}
clear_view view_timeline g = record g {
  view_floor = at_view g.view_floor view_timeline (length g.store.events);
  lists = record (g.lists) { timeline = [] };
}
clear_view view_alerts g = record g {
  view_floor = at_view g.view_floor view_alerts (length g.store.events);
  lists = record (g.lists) { alerts = [] };
}

unfoldable pub clear_current_view : Gui → Gui
unfolding clear_view current_view
clear_current_view g = clear_view (current_view g) g

-- The branch of `main_window_proc` for the search text.
unfoldable pub on_search_change : Text → Gui → Gui
on_search_change search g = record g {
  controls = record (g.controls) { search = search };
  filter_timer_active = true;
}

-- A loop's state: the window, `tree_changed` and `any_accepted`.
pub record Draining : Type 0 where
  pub gui : Gui
  pub tree_changed : Bool
  pub any_accepted : Bool

module _ (d : Desktop) where
  -- The event after the call, and its result.
  unfoldable pub add_accepted_event : TraceGlassEvent → Gui → Gui × TraceGlassEvent × Bool
  unfolding event_store_add add_event_rows
  add_accepted_event event g =
      let added =
        event_store_add (d.allocate_process g.store) (d.allocate_event g.store) g.store event in
      let stored = record g { store = added.store } in
      if not added.succeeded || not added.accepted
      then (stored, added.event, false)
      else if g.rendering_paused
      then (stored, added.event, true)
      else (
        record stored {
          lists =
              add_event_rows d g.controls g.view_floor added.event (length g.store.events) g.lists;
        },
        added.event,
        true,
      )

  unfoldable pub add_alerts : List TraceGlassEvent → Gui → Gui
  unfolding add_accepted_event
  add_alerts [] g = g
  add_alerts (alert ∷ alerts) g = add_alerts alerts (add_accepted_event alert g).0

  -- The body of the loop of `drain_events`, on one event.
  unfoldable pub drain_event : TraceGlassEvent → Draining → Draining
  unfolding add_alerts add_accepted_event
  drain_event event s =
      let (g, stored, accepted) = add_accepted_event event s.gui in
      if not accepted then record s { gui = g } else record {
        gui = add_alerts (detection_evaluate d.platform stored max_alerts_per_event) g;
        tree_changed =
            s.tree_changed || is_process_start stored.type || is_process_stop stored.type;
        any_accepted = true;
      }

  -- `while (pop_event(…))`, on fuel.
  unfoldable pub drain_loop : ℕ → Draining → Option Draining
  unfolding pop_event drain_event
  drain_loop zero s = none
  drain_loop (suc fuel) s = elim (pop_event s.gui.queue) [
    | none ↦ none
    | some (queue, none) ↦ some (record s { gui = record (s.gui) { queue = queue } })
    | some (queue, some event) ↦
        drain_loop fuel (drain_event event (record s { gui = record (s.gui) { queue = queue } }))
  ]

  abbrev pub render : Bool → Gui → Gui
  render first g = sort_view d view_alerts first (
      sort_view d view_network first (sort_view d view_timeline first (rebuild_overview_lists d g)))

  -- What follows the loop; `first` is `count_before == 0`.
  unfoldable pub after_drain : Bool → Draining → Option Gui
  unfolding rebuild_tree rebuild_overview_lists sort_view
  after_drain first s =
      if not s.any_accepted
      then some s.gui
      else if s.gui.rendering_paused
      then some (record (s.gui) { render_dirty = true })
      else if s.tree_changed
      then (elim (rebuild_tree d s.gui) [ none ↦ none | some g ↦ some (render first g) ])
      else some (render first s.gui)

  unfoldable pub drain_events : ℕ → Gui → Option Gui
  unfolding drain_loop after_drain
  drain_events fuel g =
      elim (drain_loop fuel (record { gui = g; tree_changed = false; any_accepted = false })) [
        | none ↦ none
        | some s ↦ after_drain (length g.store.events == 0) s
      ]

  unfoldable pub rebuild_filtered_views : Gui → Gui
  unfolding rebuild_event_lists rebuild_overview_lists
  rebuild_filtered_views g =
      if g.rendering_paused
      then record g { render_dirty = true }
      else rebuild_overview_lists d (rebuild_event_lists d g)

  unfoldable pub toggle_pause : Gui → Option Gui
  unfolding rebuild_event_lists rebuild_tree rebuild_overview_lists
  toggle_pause g =
      let toggled = record g { rendering_paused = not g.rendering_paused } in
      if not toggled.rendering_paused && toggled.render_dirty
      then (elim (rebuild_tree d (rebuild_event_lists d toggled)) [
        | none ↦ none
        | some h ↦ some (record (rebuild_overview_lists d h) { render_dirty = false })
      ])
      else some toggled

  -- The branches of `main_window_proc` for the event filter and the search's timer.
  unfoldable pub on_filter_change : Option ℕ → Gui → Gui
  unfolding rebuild_filtered_views
  on_filter_change selection g =
      rebuild_filtered_views (record g { controls = record (g.controls) { selection = selection } })

  unfoldable pub on_filter_timer : Gui → Gui
  unfolding rebuild_filtered_views
  on_filter_timer g = rebuild_filtered_views (record g { filter_timer_active = false })
