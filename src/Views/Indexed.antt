-- ===== src/Views/Indexed.antt =====
-- src/gui.c: the rows of the lists name events that the store holds, whichever rows ListView_InsertItem
-- accepts, where ListView_SortItems permutes the rows.
use mathlib.Core.List.{Permᴰ}
use mathlib.Core.Path.{subst}
use native.Mathlib.Bridge.{le_prop}
use trace_glass.Base.{
  ℕ, suc, ◌+◌, ◌≤◌, ◌<◌, Bool, true, false, not, ◌&&◌, ◌||◌, if◌then◌else◌, List, [], ◌∷◌, length,
  arith, All, All-append, if_cases, ltb, leb, Bool-cases, inl, inr,
}
use trace_glass.Events.{TraceGlassEvent, is_network, is_alert}
use trace_glass.Views.{
  GuiView, view_network, view_timeline, view_alerts, Row, Desktop, Controls, EventLists,
  OverviewLists,
}
use trace_glass.Views.Rebuild.{
  rebuild_loop, add_recent, are_full, recent_alert_limit, recent_event_limit, overview_loop,
}
use trace_glass.Views.Rows.{
  event_matches_search, event_matches_type_filter, insert_list_item, add_timeline_row,
  add_network_row, add_alert_row, add_event_rows, timeline_row, network_row, alert_row, recent_row,
  recent_alert_row,
}

abbrev pub AreBelow : ℕ → List Row → Type 0
AreBelow n = All (λ (row : Row). row.index < n)

pub AreBelow-prop : (n : ℕ) (rows : List Row) → IsProp (AreBelow n rows)
AreBelow-prop n [] = hlevel
AreBelow-prop n (row ∷ rows) =
    let here : IsProp (row.index < n) = le_prop in
    let rest = AreBelow-prop n rows in hlevel (here, rest)

pub AreBelow-permuted :
    (n : ℕ) {rows others : List Row} → Permᴰ rows others → AreBelow n rows → AreBelow n others
AreBelow-permuted n Permᴰ.nil below = below
AreBelow-permuted n (Permᴰ.cons same rest) below =
    (subst (λ (r : Row). r.index < n) same below.0, AreBelow-permuted n rest below.1)
AreBelow-permuted n (Permᴰ.swap same same') below = (
  subst (λ (r : Row). r.index < n) same' below.1.0,
  (subst (λ (r : Row). r.index < n) same below.0, below.1.1),
)
AreBelow-permuted n (Permᴰ.trans first next) below =
    AreBelow-permuted n next (AreBelow-permuted n first below)

AreBelow-mono : (m n : ℕ) (rows : List Row) → m ≤ n → AreBelow m rows → AreBelow n rows
AreBelow-mono m n [] h below = tt
AreBelow-mono m n (row ∷ rows) h below = (omega (arith, below.0), AreBelow-mono m n rows h below.1)

-- Every row of the three lists, and of the two of the overview, names one of the first `n` events.
pub record ListsBelow (n : ℕ) (lists : EventLists) : Type 0 where
  pub timeline : AreBelow n lists.timeline
  pub network : AreBelow n lists.network
  pub alerts : AreBelow n lists.alerts

pub record OverviewBelow (n : ℕ) (o : OverviewLists) : Type 0 where
  pub recent : AreBelow n o.recent
  pub recent_alerts : AreBelow n o.recent_alerts

pub ListsBelow-mono :
    (m n : ℕ) (lists : EventLists) → m ≤ n → ListsBelow m lists → ListsBelow n lists
ListsBelow-mono m n lists h below = record {
  timeline = AreBelow-mono m n lists.timeline h below.timeline;
  network = AreBelow-mono m n lists.network h below.network;
  alerts = AreBelow-mono m n lists.alerts h below.alerts;
}

pub OverviewBelow-mono :
    (m n : ℕ) (o : OverviewLists) → m ≤ n → OverviewBelow m o → OverviewBelow n o
OverviewBelow-mono m n o h below = record {
  recent = AreBelow-mono m n o.recent h below.recent;
  recent_alerts = AreBelow-mono m n o.recent_alerts h below.recent_alerts;
}

module _ (d : Desktop) where
  insert_list_item-AreBelow :
      (n : ℕ) (rows : List Row) (row : Row)
      → row.index < n
      → AreBelow n rows
      → AreBelow n (insert_list_item d rows row)
  unfolding insert_list_item
  insert_list_item-AreBelow n rows row h below =
      if_cases (AreBelow n) (d.accepts_row rows row)
        (λ taken. All-append (λ (r : Row). r.index < n) rows (row ∷ []) below (h, tt))
        (λ refused. below)

  kept_or_inserted :
      (n : ℕ) (filtered : Bool) (rows : List Row) (row : Row)
      → row.index < n
      → AreBelow n rows
      → AreBelow n (if filtered then rows else insert_list_item d rows row)
  kept_or_inserted n true rows row h below = below
  kept_or_inserted n false rows row h below = insert_list_item-AreBelow n rows row h below

  chosen :
      (n : ℕ) (test : Bool) (xs ys : List Row)
      → AreBelow n xs
      → AreBelow n ys
      → AreBelow n (if test then xs else ys)
  chosen n true xs ys below below' = below
  chosen n false xs ys below below' = below'

  pub add_event_rows-ListsBelow :
      (n : ℕ) (c : Controls) (view_floor : GuiView → ℕ) (event : TraceGlassEvent) (index : ℕ)
      (lists : EventLists)
      → index < n
      → ListsBelow n lists
      → ListsBelow n (add_event_rows d c view_floor event index lists)
  unfolding add_event_rows add_timeline_row add_network_row add_alert_row timeline_row network_row
      alert_row
  add_event_rows-ListsBelow n c view_floor event index lists h below =
      let unmatched = not (event_matches_search d c.search event) in
      let on_network = is_network event.type && leb (view_floor view_network) index in
      let on_alerts = is_alert event.type && leb (view_floor view_alerts) index in
      record {
        timeline =
            chosen n (leb (view_floor view_timeline) index)
              (add_timeline_row d c event index lists.timeline) lists.timeline
              (kept_or_inserted n (unmatched || not (event_matches_type_filter d c.selection event))
                lists.timeline (timeline_row d event index) h below.timeline)
              below.timeline;
        network =
            chosen n on_network (add_network_row d c event index lists.network) lists.network
              (kept_or_inserted n unmatched lists.network (network_row d event index) h
                below.network)
              below.network;
        alerts =
            chosen n on_network lists.alerts
              (if on_alerts then add_alert_row d c event index lists.alerts else lists.alerts)
              below.alerts
              (chosen n on_alerts (add_alert_row d c event index lists.alerts) lists.alerts
                (kept_or_inserted n unmatched lists.alerts (alert_row d event index) h below.alerts)
                below.alerts);
      }

  pub rebuild_loop-ListsBelow :
      (n : ℕ) (c : Controls) (view_floor : GuiView → ℕ) (index : ℕ) (events : List TraceGlassEvent)
      (lists : EventLists)
      → index + length events ≤ n
      → ListsBelow n lists
      → ListsBelow n (rebuild_loop d c view_floor index events lists)
  unfolding rebuild_loop
  rebuild_loop-ListsBelow n c view_floor index [] lists h below = below
  rebuild_loop-ListsBelow n c view_floor index (event ∷ events) lists h below =
      rebuild_loop-ListsBelow n c view_floor (index + 1) events _ (omega arith)
        (add_event_rows-ListsBelow n c view_floor event index lists (omega arith) below)

  add_recent-OverviewBelow :
      (n : ℕ) (c : Controls) (event : TraceGlassEvent) (index : ℕ) (o : OverviewLists)
      → index < n
      → OverviewBelow n o
      → OverviewBelow n (add_recent d c event index o)
  unfolding add_recent recent_row recent_alert_row
  add_recent-OverviewBelow n c event index o h below =
      let P : OverviewLists → Type 0 = λ o. OverviewBelow n o in
      if_cases P
        (not (event_matches_search d c.search event)
          || not (event_matches_type_filter d c.selection event))
        (λ filtered. below)
        (λ matches.
          if_cases P (is_alert event.type)
            (λ alert.
              if_cases P (leb recent_alert_limit (length o.recent_alerts)) (λ full. below)
                (λ room.
                  let drawn : OverviewBelow n (record o {
                    recent_alerts =
                        insert_list_item d o.recent_alerts (recent_alert_row d event index);
                  }) =
                    record {
                      recent = below.recent;
                      recent_alerts =
                          insert_list_item-AreBelow n o.recent_alerts
                            (recent_alert_row d event index) h below.recent_alerts;
                    } in
                  drawn))
            (λ activity.
              if_cases P (leb recent_event_limit (length o.recent)) (λ full. below)
                (λ room.
                  let drawn : OverviewBelow n (record o {
                    recent = insert_list_item d o.recent (recent_row d event index);
                  }) =
                    record {
                      recent =
                          insert_list_item-AreBelow n o.recent (recent_row d event index) h
                            below.recent;
                      recent_alerts = below.recent_alerts;
                    } in
                  drawn)))

  pub overview_loop-OverviewBelow :
      (n : ℕ) (c : Controls) (floor : ℕ) (events : List TraceGlassEvent) (o : OverviewLists)
      → length events ≤ n
      → OverviewBelow n o
      → OverviewBelow n (overview_loop d c floor events o)
  unfolding overview_loop
  overview_loop-OverviewBelow n c floor [] o h below = below
  overview_loop-OverviewBelow n c floor (event ∷ earlier) o h below =
      let next = add_recent d c event (length earlier) o in
      let drawn = add_recent-OverviewBelow n c event (length earlier) o (omega arith) below in
      let rest = overview_loop-OverviewBelow n c floor earlier next (omega arith) drawn in
      elim (Bool-cases (ltb floor (suc (length earlier)))) [
        | inr over ↦ rw (overview_loop, over) below
        | inl on ↦ elim (Bool-cases (are_full d next)) [
          | inl full ↦ rw (overview_loop, on, full) drawn
          | inr room ↦ rw (overview_loop, on, room) rest
        ]
      ]
