-- ===== src/Views/Fill.antt =====
-- src/gui.c: the loop of `rebuild_event_lists`, and the rows for one more event, where every insertion
-- of a row succeeds.
use mathlib.Core.List.{append-nil, append_assoc}
use trace_glass.Base.{
  ℕ, ◌+◌, ◌≡◌, refl, sym, ◌∙◌, true, ◌&&◌, List, [], ◌∷◌, ◌++◌, leb, if◌then◌else◌, arith,
}
use trace_glass.Events.{TraceGlassEvent, is_network, is_alert}
use trace_glass.Views.{
  GuiView, view_network, view_timeline, view_alerts, Row, Desktop, Controls, EventLists,
}
use trace_glass.Views.Rebuild.{rebuild_loop}
use trace_glass.Views.Rows.{
  insert_list_item, add_timeline_row, add_network_row, add_alert_row, add_event_rows, timeline_row,
  network_row, alert_row,
}
use trace_glass.Views.Shown.{one, shown, on_timeline, on_network, on_alerts}

module _ (d : Desktop) (always : (rows : List Row) (row : Row) → d.accepts_row rows row ≡ true)
    (c : Controls) where
  pub insert_list_item-eq :
      (rows : List Row) (row : Row) → insert_list_item d rows row ≡ rows ++ row ∷ []
  unfolding insert_list_item
  insert_list_item-eq rows row = rw (always rows row) refl

  module _ (view_floor : GuiView → ℕ) where
    abbrev timeline_of : ℕ → List TraceGlassEvent → List Row
    timeline_of = shown (on_timeline d c) (timeline_row d) (view_floor view_timeline)

    abbrev network_of : ℕ → List TraceGlassEvent → List Row
    network_of = shown (on_network d c) (network_row d) (view_floor view_network)

    abbrev alerts_of : ℕ → List TraceGlassEvent → List Row
    alerts_of = shown (on_alerts d c) (alert_row d) (view_floor view_alerts)

    -- The lists with rows added at their ends.
    pub record Extends (lists : EventLists) (t n a : List Row) (next : EventLists) : Type 0 where
      pub timeline : next.timeline ≡ lists.timeline ++ t
      pub network : next.network ≡ lists.network ++ n
      pub alerts : next.alerts ≡ lists.alerts ++ a

    timeline_added :
        (event : TraceGlassEvent) (index : ℕ) (rows : List Row)
        → (if leb (view_floor view_timeline) index
            then add_timeline_row d c event index rows
            else rows)
          ≡ rows ++ one (on_timeline d c) (timeline_row d) (view_floor view_timeline) event index
    unfolding add_timeline_row one
    timeline_added event index rows =
        ground (arith, insert_list_item-eq rows (timeline_row d event index), append-nil rows)

    network_added :
        (event : TraceGlassEvent) (index : ℕ) (rows : List Row)
        → (if is_network event.type && leb (view_floor view_network) index
            then add_network_row d c event index rows
            else rows)
          ≡ rows ++ one (on_network d c) (network_row d) (view_floor view_network) event index
    unfolding add_network_row one
    network_added event index rows =
        ground (arith, insert_list_item-eq rows (network_row d event index), append-nil rows)

    alert_added :
        (event : TraceGlassEvent) (index : ℕ) (rows : List Row)
        → (if is_network event.type && leb (view_floor view_network) index
            then rows
            else if is_alert event.type && leb (view_floor view_alerts) index
            then add_alert_row d c event index rows
            else rows)
          ≡ rows ++ one (on_alerts d c) (alert_row d) (view_floor view_alerts) event index
    unfolding add_alert_row one
    alert_added event index rows =
        ground (arith, insert_list_item-eq rows (alert_row d event index), append-nil rows)

    pub add_event_rows-Extends :
        (event : TraceGlassEvent) (index : ℕ) (lists : EventLists)
        → Extends lists
            (one (on_timeline d c) (timeline_row d) (view_floor view_timeline) event index)
            (one (on_network d c) (network_row d) (view_floor view_network) event index)
            (one (on_alerts d c) (alert_row d) (view_floor view_alerts) event index)
            (add_event_rows d c view_floor event index lists)
    unfolding add_event_rows
    add_event_rows-Extends event index lists = record {
      timeline = timeline_added event index lists.timeline;
      network = network_added event index lists.network;
      alerts = alert_added event index lists.alerts;
    }

    pub rebuild_loop-Extends :
        (index : ℕ) (events : List TraceGlassEvent) (lists : EventLists)
        → Extends lists
            (timeline_of index events)
            (network_of index events)
            (alerts_of index events)
            (rebuild_loop d c view_floor index events lists)
    unfolding rebuild_loop shown
    rebuild_loop-Extends index [] lists = record {
      timeline = sym (append-nil _);
      network = sym (append-nil _);
      alerts = sym (append-nil _);
    }
    rebuild_loop-Extends index (event ∷ events) lists =
        let here = add_event_rows-Extends event index lists in
        let rest =
          rebuild_loop-Extends (index + 1) events
            (add_event_rows d c view_floor event index lists) in
        record {
          timeline = rest.timeline ∙ rw here.timeline (append_assoc lists.timeline _ _);
          network = rest.network ∙ rw here.network (append_assoc lists.network _ _);
          alerts = rest.alerts ∙ rw here.alerts (append_assoc lists.alerts _ _);
        }
