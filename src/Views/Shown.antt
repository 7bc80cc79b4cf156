-- ===== src/Views/Shown.antt =====
-- What the lists of src/gui.c have to show, written down without the loops that fill them: the rows
-- of the stored events that pass the filters, from the list's floor on.
use mathlib.Core.List.{Perm, reverse, append-nil, append_assoc}
use trace_glass.Base.{
  ℕ, ◌+◌, ◌≤◌, ◌≡◌, refl, sym, ap, ◌∙◌, Bool, not, ◌&&◌, List, [], ◌∷◌, ◌++◌, leb, if◌then◌else◌,
  length, take, arith,
}
use trace_glass.Events.{TraceGlassEvent, is_network, is_alert}
use trace_glass.Views.{
  GuiView, view_overview, view_network, view_timeline, view_alerts, Row, Desktop, Controls,
  EventLists, OverviewLists, Gui,
}
use trace_glass.Views.Rebuild.{recent_event_limit, recent_alert_limit}
use trace_glass.Views.Rows.{
  event_matches_search, event_matches_type_filter, timeline_row, network_row, alert_row, recent_row,
  recent_alert_row,
}

-- An event's row, if the list shows it.
unfoldable pub one :
    (TraceGlassEvent → Bool) → (TraceGlassEvent → ℕ → Row) → ℕ → TraceGlassEvent → ℕ → List Row
one test row floor event index = if leb floor index && test event then row event index ∷ [] else []

module _ (test : TraceGlassEvent → Bool) (row : TraceGlassEvent → ℕ → Row) (floor : ℕ) where
  -- The rows of the events from one index on, in the order of the store.
  unfoldable pub shown : ℕ → List TraceGlassEvent → List Row
  unfolding one
  shown index [] = []
  shown index (event ∷ events) = one test row floor event index ++ shown (index + 1) events

  -- The rows of the events, the newest first.
  unfoldable pub newest : List TraceGlassEvent → List Row
  unfolding one
  newest [] = []
  newest (event ∷ earlier) = one test row floor event (length earlier) ++ newest earlier

  shown-concat :
      (index : ℕ) (events : List TraceGlassEvent) (event : TraceGlassEvent)
      → shown index (events ++ event ∷ [])
        ≡ shown index events ++ one test row floor event (index + length events)
  unfolding shown
  shown-concat index [] event = append-nil _ ∙ ap (one test row floor event) (omega arith)
  shown-concat index (e ∷ events) event = rw (shown-concat (index + 1) events event) (
      sym (append_assoc (one test row floor e index) _ _)
      ∙ ap
          (λ i.
            (one test row floor e index ++ shown (index + 1) events) ++ one test row floor event i)
          (omega arith))

  pub shown_concat_all :
      (events : List TraceGlassEvent) (event : TraceGlassEvent)
      → shown 0 (events ++ event ∷ []) ≡ shown 0 events ++ one test row floor event (length events)
  shown_concat_all events event =
      shown-concat 0 events event
      ∙ ap (λ i. shown 0 events ++ one test row floor event i) (omega arith)

  -- Nothing stands below the floor.
  pub shown_below :
      (index : ℕ) (events : List TraceGlassEvent)
      → index + length events ≤ floor
      → shown index events ≡ []
  unfolding shown one
  shown_below index [] h = refl
  shown_below index (e ∷ events) h =
      let rest = shown_below (index + 1) events (omega arith) in ground (arith, rest)

  pub newest_below : (events : List TraceGlassEvent) → length events ≤ floor → newest events ≡ []
  unfolding newest one
  newest_below [] h = refl
  newest_below (e ∷ earlier) h =
      let rest = newest_below earlier (omega arith) in ground (arith, rest)

module _ (d : Desktop) (c : Controls) where
  abbrev pub on_timeline : TraceGlassEvent → Bool
  on_timeline e = event_matches_search d c.search e && event_matches_type_filter d c.selection e

  abbrev pub on_network : TraceGlassEvent → Bool
  on_network e = is_network e.type && event_matches_search d c.search e

  abbrev pub on_alerts : TraceGlassEvent → Bool
  on_alerts e = is_alert e.type && event_matches_search d c.search e

  abbrev pub on_recent : TraceGlassEvent → Bool
  on_recent e = not (is_alert e.type) && on_timeline e

  abbrev pub on_recent_alerts : TraceGlassEvent → Bool
  on_recent_alerts e = is_alert e.type && on_timeline e

-- Each event list shows the rows that it has to, in some order.
pub record AreListed (d : Desktop) (c : Controls) (view_floor : GuiView → ℕ)
    (events : List TraceGlassEvent) (lists : EventLists) : Type 0 where
  pub timeline :
      Perm lists.timeline
        (shown (on_timeline d c) (timeline_row d) (view_floor view_timeline) 0 events)
  pub network :
      Perm lists.network (shown (on_network d c) (network_row d) (view_floor view_network) 0 events)
  pub alerts :
      Perm lists.alerts (shown (on_alerts d c) (alert_row d) (view_floor view_alerts) 0 events)

-- The overview shows the newest events, up to its limits.
pub record AreRecent (d : Desktop) (c : Controls) (floor : ℕ) (events : List TraceGlassEvent)
    (o : OverviewLists) : Type 0 where
  pub recent :
      o.recent
      ≡ take recent_event_limit (newest (on_recent d c) (recent_row d) floor (reverse events))
  pub recent_alerts :
      o.recent_alerts
      ≡ take recent_alert_limit
          (newest (on_recent_alerts d c) (recent_alert_row d) floor (reverse events))

-- The five lists show what the store, the floors and the controls ask for.
abbrev pub IsFresh : Desktop → Gui → Type 0
IsFresh d g =
    AreListed d g.controls g.view_floor g.store.events g.lists
    × AreRecent d g.controls (g.view_floor view_overview) g.store.events g.overview
