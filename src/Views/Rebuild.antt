-- ===== src/Views/Rebuild.antt =====
-- src/gui.c: the lists built anew from the store.
use trace_glass.Base.{
  ℕ, suc, ◌+◌, Bool, true, false, not, ◌&&◌, ◌||◌, Option, none, some, List, [], ◌∷◌, ltb, leb,
  if◌then◌else◌, length,
}
use mathlib.Core.List.{reverse}
use trace_glass.Events.{TraceGlassEvent, is_alert}
use trace_glass.ProcessTree.{rebuild_process_tree}
use trace_glass.Views.{
  GuiView, view_overview, view_network, view_timeline, view_alerts, Desktop, Controls, EventLists,
  OverviewLists, Gui,
}
use trace_glass.Views.Rows.{
  event_matches_search, event_matches_type_filter, insert_list_item, add_event_rows, recent_row,
  recent_alert_row,
}
use trace_glass.Views.Sort.{sort_view}

abbrev pub recent_event_limit : ℕ
recent_event_limit = 8

abbrev pub recent_alert_limit : ℕ
recent_alert_limit = 5

module _ (d : Desktop) where
  -- The loop over the events, from one index on.
  unfoldable pub rebuild_loop :
      Controls → (GuiView → ℕ) → ℕ → List TraceGlassEvent → EventLists → EventLists
  unfolding add_event_rows
  rebuild_loop c view_floor index [] lists = lists
  rebuild_loop c view_floor index (event ∷ events) lists =
      rebuild_loop c view_floor (index + 1) events (add_event_rows d c view_floor event index lists)

  unfoldable pub rebuild_event_lists : Gui → Gui
  unfolding rebuild_loop sort_view
  rebuild_event_lists g =
      let empty : EventLists = record { timeline = []; network = []; alerts = [] } in
      let filled = record g {
        lists = rebuild_loop g.controls g.view_floor 0 g.store.events empty;
      } in
      sort_view d view_alerts true
        (sort_view d view_network true (sort_view d view_timeline true filled))

  -- One round of the overview's loop. The lists start empty, so that their lengths are
  -- `activity_count` and `alert_count`.
  unfoldable pub add_recent : Controls → TraceGlassEvent → ℕ → OverviewLists → OverviewLists
  unfolding event_matches_search event_matches_type_filter insert_list_item
  add_recent c event event_index o =
      if not (event_matches_search d c.search event)
        || not (event_matches_type_filter d c.selection event)
      then o
      else if is_alert event.type
      then if leb recent_alert_limit (length o.recent_alerts) then o else record o {
        recent_alerts = insert_list_item d o.recent_alerts (recent_alert_row d event event_index);
      }
      else if leb recent_event_limit (length o.recent)
      then o
      else record o { recent = insert_list_item d o.recent (recent_row d event event_index) }

  abbrev pub are_full : OverviewLists → Bool
  are_full o =
      leb recent_event_limit (length o.recent) && leb recent_alert_limit (length o.recent_alerts)

  -- The loop over the events, the newest first: the index of one is the number of those before it.
  -- A round that ends by `continue` leaves the lists as they are, so not both full.
  unfoldable pub overview_loop : Controls → ℕ → List TraceGlassEvent → OverviewLists → OverviewLists
  unfolding add_recent
  overview_loop c floor [] o = o
  overview_loop c floor (event ∷ earlier) o = elim (ltb floor (suc (length earlier))) [
    | false ↦ o
    | true ↦
        let next = add_recent c event (length earlier) o in
        elim (are_full next) [ true ↦ next | false ↦ overview_loop c floor earlier next ]
  ]

  unfoldable pub rebuild_overview_lists : Gui → Gui
  unfolding overview_loop
  rebuild_overview_lists g = record g {
    overview =
        overview_loop g.controls (g.view_floor view_overview) (reverse g.store.events)
          (record { recent = []; recent_alerts = [] });
  }

  -- `rebuild_process_tree`; `none` is a read outside of its arrays.
  unfoldable pub rebuild_tree : Gui → Option Gui
  unfolding rebuild_process_tree
  rebuild_tree g =
      elim (rebuild_process_tree d.platform.string_printf d.accepts_item
        (d.allocate_tree g.store.processes) g.store.processes) [
          | none ↦ none
          | some items ↦ some (record g { tree = items })
        ]
