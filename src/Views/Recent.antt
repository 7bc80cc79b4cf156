-- ===== src/Views/Recent.antt =====
-- src/gui.c: the loop of `rebuild_overview_lists`, where every insertion of a row succeeds.
use mathlib.Core.List.{append_assoc}
use trace_glass.Base.{
  ℕ, suc, ◌≤◌, ◌≡◌, refl, sym, ap, ◌∙◌, Bool, true, false, not, ◌&&◌, ◌||◌, List, [], ◌∷◌, ◌++◌,
  leb, ltb, if◌then◌else◌, length, take, take-all, length-take-le, take-take-append,
  take-append_full, take-append_nil, arith, length-append, Bool-cases, inl, inr,
}
use trace_glass.Events.{TraceGlassEvent, is_alert}
use trace_glass.Views.{Row, Desktop, Controls, OverviewLists}
use trace_glass.Views.Rebuild.{
  recent_event_limit, recent_alert_limit, add_recent, are_full, overview_loop,
}
use trace_glass.Views.Rows.{
  event_matches_search, event_matches_type_filter, insert_list_item, alert_row, recent_row,
  recent_alert_row,
}
use trace_glass.Views.Shown.{one, newest, newest_below, on_recent, on_recent_alerts}
use trace_glass.Views.Fill.{insert_list_item-eq}

module _ (d : Desktop) (always : (rows : List Row) (row : Row) → d.accepts_row rows row ≡ true)
    (c : Controls) where
  -- A row is added at the end unless the list is full.
  capped :
      (n : ℕ) (rows : List Row) (row : Row)
      → length rows ≤ n
      → (if leb n (length rows) then rows else insert_list_item d rows row)
        ≡ take n (rows ++ row ∷ [])
  capped n rows row h = elim (Bool-cases (leb n (length rows))) [
    | inl full ↦ rw full (sym (take-append_full n rows (row ∷ []) (ground arith)))
    | inr room ↦
        rw (room, insert_list_item-eq d always c rows row)
          (sym (take-all n (rows ++ row ∷ []) (ground (arith, length-append rows (row ∷ [])))))
  ]

  module _ (floor : ℕ) where
    abbrev recents : List TraceGlassEvent → List Row
    recents = newest (on_recent d c) (recent_row d) floor

    abbrev recent_alerts_of : List TraceGlassEvent → List Row
    recent_alerts_of = newest (on_recent_alerts d c) (recent_alert_row d) floor

    -- The two lists within their limits.
    pub record Fits (o : OverviewLists) : Type 0 where
      pub recent : length o.recent ≤ recent_event_limit
      pub recent_alerts : length o.recent_alerts ≤ recent_alert_limit

    -- `add_recent` with its tests' results.
    recent_of :
        (search type alert : Bool) (row alert_row : Row) (o : OverviewLists)
        → Fits o
        → (if not search || not type
            then o
            else if alert
            then if leb recent_alert_limit (length o.recent_alerts)
              then o
              else record o { recent_alerts = insert_list_item d o.recent_alerts alert_row }
            else if leb recent_event_limit (length o.recent)
            then o
            else record o { recent = insert_list_item d o.recent row }).recent
          ≡ take recent_event_limit
              (o.recent ++ (if not alert && (search && type) then row ∷ [] else []))
    recent_of false type true row alert_row o f = sym (take-append_nil 8 o.recent f.recent)
    recent_of false type false row alert_row o f = sym (take-append_nil 8 o.recent f.recent)
    recent_of true false true row alert_row o f = sym (take-append_nil 8 o.recent f.recent)
    recent_of true false false row alert_row o f = sym (take-append_nil 8 o.recent f.recent)
    recent_of true true true row alert_row o f =
        elim (Bool-cases (leb recent_alert_limit (length o.recent_alerts))) [
          | inl full ↦ rw full (sym (take-append_nil 8 o.recent f.recent))
          | inr room ↦ rw room (sym (take-append_nil 8 o.recent f.recent))
        ]
    recent_of true true false row alert_row o f =
        elim (Bool-cases (leb recent_event_limit (length o.recent))) [
          | inl full ↦ rw full (rw full at (capped 8 o.recent row f.recent))
          | inr room ↦ rw room (rw room at (capped 8 o.recent row f.recent))
        ]

    recent_alerts_step :
        (search type alert : Bool) (row alert_row : Row) (o : OverviewLists)
        → Fits o
        → (if not search || not type
            then o
            else if alert
            then if leb recent_alert_limit (length o.recent_alerts)
              then o
              else record o { recent_alerts = insert_list_item d o.recent_alerts alert_row }
            else if leb recent_event_limit (length o.recent)
            then o
            else record o { recent = insert_list_item d o.recent row }).recent_alerts
          ≡ take recent_alert_limit
              (o.recent_alerts ++ (if alert && (search && type) then alert_row ∷ [] else []))
    recent_alerts_step false type true row alert_row o f =
        sym (take-append_nil 5 o.recent_alerts f.recent_alerts)
    recent_alerts_step false type false row alert_row o f =
        sym (take-append_nil 5 o.recent_alerts f.recent_alerts)
    recent_alerts_step true false true row alert_row o f =
        sym (take-append_nil 5 o.recent_alerts f.recent_alerts)
    recent_alerts_step true false false row alert_row o f =
        sym (take-append_nil 5 o.recent_alerts f.recent_alerts)
    recent_alerts_step true true true row alert_row o f =
        elim (Bool-cases (leb recent_alert_limit (length o.recent_alerts))) [
          | inl full ↦ rw full (rw full at (capped 5 o.recent_alerts alert_row f.recent_alerts))
          | inr room ↦ rw room (rw room at (capped 5 o.recent_alerts alert_row f.recent_alerts))
        ]
    recent_alerts_step true true false row alert_row o f =
        elim (Bool-cases (leb recent_event_limit (length o.recent))) [
          | inl full ↦ rw full (sym (take-append_nil 5 o.recent_alerts f.recent_alerts))
          | inr room ↦ rw room (sym (take-append_nil 5 o.recent_alerts f.recent_alerts))
        ]

    one_above :
        (test : TraceGlassEvent → Bool) (row : TraceGlassEvent → ℕ → Row) (event : TraceGlassEvent)
        (index : ℕ)
        → floor ≤ index
        → one test row floor event index ≡ (if test event then row event index ∷ [] else [])
    unfolding one
    one_above test row event index above =
        let h : leb floor index ≡ true = ground arith in rw h refl

    add_recent-recent :
        (event : TraceGlassEvent) (index : ℕ) (o : OverviewLists)
        → floor ≤ index
        → Fits o
        → (add_recent d c event index o).recent
          ≡ take recent_event_limit
              (o.recent ++ one (on_recent d c) (recent_row d) floor event index)
    unfolding add_recent
    add_recent-recent event index o above f =
        rw (one_above (on_recent d c) (recent_row d) event index above) (
          recent_of (event_matches_search d c.search event)
            (event_matches_type_filter d c.selection event) (is_alert event.type)
            (recent_row d event index) (recent_alert_row d event index) o f)

    add_recent-recent_alerts :
        (event : TraceGlassEvent) (index : ℕ) (o : OverviewLists)
        → floor ≤ index
        → Fits o
        → (add_recent d c event index o).recent_alerts
          ≡ take recent_alert_limit
              (o.recent_alerts ++ one (on_recent_alerts d c) (recent_alert_row d) floor event index)
    unfolding add_recent
    add_recent-recent_alerts event index o above f =
        rw (one_above (on_recent_alerts d c) (recent_alert_row d) event index above) (
          recent_alerts_step (event_matches_search d c.search event)
            (event_matches_type_filter d c.selection event) (is_alert event.type)
            (recent_row d event index) (recent_alert_row d event index) o f)

    -- What a list keeps of the rows behind its own.
    absorb :
        (n : ℕ) (rows next here rest : List Row)
        → next ≡ take n (rows ++ here)
        → take n (next ++ rest) ≡ take n (rows ++ (here ++ rest))
    absorb n rows next here rest e =
        rw e (take-take-append n (rows ++ here) rest ∙ ap (take n) (append_assoc rows here rest))

    pub record Overviews (events : List TraceGlassEvent) (o next : OverviewLists) : Type 0 where
      pub recent : next.recent ≡ take recent_event_limit (o.recent ++ recents events)
      pub recent_alerts :
          next.recent_alerts ≡ take recent_alert_limit (o.recent_alerts ++ recent_alerts_of events)

    are_full-length :
        (o : OverviewLists)
        → Fits o
        → are_full d o ≡ true
        → (length o.recent ≡ recent_event_limit) × (length o.recent_alerts ≡ recent_alert_limit)
    are_full-length o f full =
        both (length o.recent) (length o.recent_alerts) f.recent f.recent_alerts full
      where
        both : (n m : ℕ) → n ≤ 8 → m ≤ 5 → (leb 8 n && leb 5 m) ≡ true → (n ≡ 8) × (m ≡ 5)
        both n m h k e = ground arith

    overview_loop-below :
        (event : TraceGlassEvent) (earlier : List TraceGlassEvent) (o : OverviewLists)
        → ltb floor (suc (length earlier)) ≡ false
        → overview_loop d c floor (event ∷ earlier) o ≡ o
    unfolding overview_loop
    overview_loop-below event earlier o below = rw (overview_loop, below) refl

    overview_loop-above :
        (event : TraceGlassEvent) (earlier : List TraceGlassEvent) (o next : OverviewLists)
        → ltb floor (suc (length earlier)) ≡ true
        → add_recent d c event (length earlier) o ≡ next
        → overview_loop d c floor (event ∷ earlier) o
          ≡ (if are_full d next then next else overview_loop d c floor earlier next)
    unfolding overview_loop
    overview_loop-above event earlier o next above e =
        rw (overview_loop, above, ← e)
          (elim (Bool-cases (are_full d (add_recent d c event (length earlier) o))) [
            | inl full ↦ rw full refl
            | inr room ↦ rw room refl
          ])

    pub overview_loop-Overviews :
        (events : List TraceGlassEvent) (o : OverviewLists)
        → Fits o
        → Overviews events o (overview_loop d c floor events o)
    unfolding overview_loop newest
    overview_loop-Overviews [] o f = record {
      recent = sym (take-append_nil 8 o.recent f.recent);
      recent_alerts = sym (take-append_nil 5 o.recent_alerts f.recent_alerts);
    }
    overview_loop-Overviews (event ∷ earlier) o f =
        elim (Bool-cases (ltb floor (suc (length earlier)))) [
          | inr below ↦
              let events = event ∷ earlier in
              let no = newest_below (on_recent d c) (recent_row d) floor events (ground arith) in
              let none' =
                newest_below (on_recent_alerts d c) (recent_alert_row d) floor events
                  (ground arith) in
              rw (overview_loop-below event earlier o below) (record {
                recent =
                    sym (ap (λ r. take 8 (o.recent ++ r)) no ∙ take-append_nil 8 o.recent f.recent);
                recent_alerts = sym (
                    ap (λ r. take 5 (o.recent_alerts ++ r)) none'
                    ∙ take-append_nil 5 o.recent_alerts f.recent_alerts);
              })
          | inl above ↦
              let next = add_recent d c event (length earlier) o in
              let r = add_recent-recent event (length earlier) o (ground arith) f in
              let a = add_recent-recent_alerts event (length earlier) o (ground arith) f in
              let fits : Fits next = record {
                recent = rw r (length-take-le 8 _);
                recent_alerts = rw a (length-take-le 5 _);
              } in
              let r' = absorb 8 o.recent next.recent _ (recents earlier) r in
              let a' = absorb 5 o.recent_alerts next.recent_alerts _ (recent_alerts_of earlier) a in
              rw (overview_loop-above event earlier o next above refl)
                (elim (Bool-cases (are_full d next)) [
                  | inl full ↦ rw full (record {
                    recent =
                        sym (take-append_full 8 next.recent _ (are_full-length next fits full).0)
                        ∙ r';
                    recent_alerts =
                        sym (
                          take-append_full 5 next.recent_alerts _
                            (are_full-length next fits full).1)
                        ∙ a';
                  })
                  | inr room ↦
                      let rest = overview_loop-Overviews earlier next fits in
                      rw room (record {
                        recent = rest.recent ∙ r';
                        recent_alerts = rest.recent_alerts ∙ a';
                      })
                ])
        ]
