-- ===== src/Store/Counts.antt =====
-- The session counters of src/event_store.c against the events that are stored.
use trace_glass.Base.{
  ℕ, ◌+◌, ◌%◌, ◌≡◌, ◌⊎◌, inl, inr, refl, Bool, true, false, [], ◌∷◌, ◌++◌, arith, count_if,
  count_if-le, count_if-append,
}
use trace_glass.Events.{
  EventType, process_start, process_stop, network, file, registry, alert, unlisted, is_network,
  is_alert, TraceGlassEvent,
}
use trace_glass.Store.Cases.{add_start_cases, add_stop_cases, append_event_cases}
use trace_glass.Store.Invariant.{IsValid, store_of}
use trace_glass.Capacity.{word}
use trace_glass.Store.{
  EventStore, Step, return, proceed, add_by_type, Added, finish, event_store_add,
}

abbrev pub network_event : TraceGlassEvent → Bool
network_event e = is_network e.type

abbrev pub alert_event : TraceGlassEvent → Bool
alert_event e = is_alert e.type

-- The two counters are the numbers of stored events of their type.
pub record IsCounted (s : EventStore) : Type 0 where
  pub networks : s.network_count ≡ count_if network_event s.events
  pub alerts : s.alert_count ≡ count_if alert_event s.events

-- The counters just before the event is appended.
record IsAhead (s : EventStore) (e : TraceGlassEvent) : Type 0 where
  networks : s.network_count ≡ count_if network_event s.events + count_if network_event (e ∷ [])
  alerts : s.alert_count ≡ count_if alert_event s.events + count_if alert_event (e ∷ [])

abbrev Ahead : TraceGlassEvent → Step → Type 0
Ahead e (return s result) = IsCounted s
Ahead e (proceed s) = IsAhead s e

-- A counter that counts stored events is far from wrapping.
count-lt-word :
    (f : TraceGlassEvent → Bool) (s : EventStore)
    → IsValid s
    → (count_if f s.events + 1) % word ≡ count_if f s.events + 1
count-lt-word f s v = omega (arith, count_if-le f s.events, v.events_fit, v.events_sized)

keep-IsAhead :
    (s : EventStore) (e : TraceGlassEvent)
    → IsCounted s
    → network_event e ≡ false
    → alert_event e ≡ false
    → IsAhead s e
keep-IsAhead s e c n a = record {
  networks = ground (arith, c.networks);
  alerts = ground (arith, c.alerts);
}

add_by_type-Ahead :
    (type : EventType) (allocate : ℕ → Bool) (s : EventStore) (e : TraceGlassEvent)
    → e.type ≡ type
    → IsValid s
    → IsCounted s
    → Ahead e (add_by_type type allocate s e)
unfolding add_by_type
add_by_type-Ahead process_start allocate s e q v c =
    let k = keep-IsAhead s e c (rw q) (rw q) in
    add_start_cases (Ahead e) allocate s e
      (λ i r f hit. record { networks = c.networks; alerts = c.alerts }) (λ f g. c)
      (λ n f reserved. record { networks = k.networks; alerts = k.alerts })
add_by_type-Ahead process_stop allocate s e q v c =
    let k = keep-IsAhead s e c (rw q) (rw q) in
    add_stop_cases (Ahead e) allocate s e (λ i r f hit n. c)
      (λ i r f hit t. record { networks = k.networks; alerts = k.alerts }) (λ f g. c)
      (λ n f reserved. record { networks = k.networks; alerts = k.alerts })
add_by_type-Ahead network allocate s e q v c = record {
  networks = ground (arith, c.networks, count-lt-word network_event s v, q);
  alerts = ground (arith, c.alerts, q);
}
add_by_type-Ahead alert allocate s e q v c = record {
  networks = ground (arith, c.networks, q);
  alerts = ground (arith, c.alerts, count-lt-word alert_event s v, q);
}
add_by_type-Ahead file allocate s e q v c = keep-IsAhead s e c (rw q) (rw q)
add_by_type-Ahead registry allocate s e q v c = keep-IsAhead s e c (rw q) (rw q)
add_by_type-Ahead unlisted allocate s e q v c = keep-IsAhead s e c (rw q) (rw q)

finish-IsCounted :
    (allocate : ℕ → Bool) (e : TraceGlassEvent) (t : Step)
    → Ahead e t
    → (finish allocate e t).succeeded ≡ true
    → IsCounted (finish allocate e t).store
unfolding finish
finish-IsCounted allocate e (return s result) c done = c
finish-IsCounted allocate e (proceed s) c ok =
    append_event_cases (λ a. a.succeeded ≡ true → IsCounted a.store) allocate s e
      (λ g done. absurd (ground arith))
      (λ n reserved done. record {
        networks = rw (count_if-append network_event s.events _) c.networks;
        alerts = rw (count_if-append alert_event s.events _) c.alerts;
      })
      ok

-- In a valid store whose counters of network events and of alerts are exactly the numbers of such
-- events stored, a call that succeeds keeps that so on every branch, duplicates included.
pub event_store_add-IsCounted :
    (allocate_process allocate_event : ℕ → Bool) (s : EventStore) (e : TraceGlassEvent)
    → IsValid s
    → IsCounted s
    → (event_store_add allocate_process allocate_event s e).succeeded ≡ true
    → IsCounted (event_store_add allocate_process allocate_event s e).store
unfolding event_store_add
event_store_add-IsCounted allocate_process allocate_event s e v c =
    finish-IsCounted allocate_event e (add_by_type e.type allocate_process s e)
      (add_by_type-Ahead e.type allocate_process s e refl v c)

-- The events and the numbering of two stores are the same.
pub record SameHistory (s t : EventStore) : Type 0 where
  pub events : t.events ≡ s.events
  pub sequence : t.next_sequence ≡ s.next_sequence

add_by_type-SameHistory :
    (type : EventType) (allocate : ℕ → Bool) (s : EventStore) (e : TraceGlassEvent)
    → SameHistory s (store_of (add_by_type type allocate s e))
unfolding add_by_type
add_by_type-SameHistory process_start allocate s e =
    add_start_cases (λ t. SameHistory s (store_of t)) allocate s e
      (λ i r f hit. record { events = refl; sequence = refl })
      (λ f g. record { events = refl; sequence = refl })
      (λ n f reserved. record { events = refl; sequence = refl })
add_by_type-SameHistory process_stop allocate s e =
    add_stop_cases (λ t. SameHistory s (store_of t)) allocate s e
      (λ i r f hit n. record { events = refl; sequence = refl })
      (λ i r f hit t. record { events = refl; sequence = refl })
      (λ f g. record { events = refl; sequence = refl })
      (λ n f reserved. record { events = refl; sequence = refl })
add_by_type-SameHistory network allocate s e = record { events = refl; sequence = refl }
add_by_type-SameHistory _ allocate s e = record { events = refl; sequence = refl }

-- What a call adds to the history.
abbrev pub Appends : EventStore → TraceGlassEvent → Added → Type 0
Appends s e a =
    ((a.accepted ≡ true)
      × (a.succeeded ≡ true)
      × (a.event ≡ record e { sequence = s.next_sequence })
      × (a.store.events ≡ s.events ++ a.event ∷ []))
    ⊎ ((a.accepted ≡ false) × (a.event ≡ e) × SameHistory s a.store)

finish-Appends :
    (allocate : ℕ → Bool) (s : EventStore) (e : TraceGlassEvent) (t : Step)
    → SameHistory s (store_of t)
    → Appends s e (finish allocate e t)
unfolding finish
finish-Appends allocate s e (return t result) h = inr (refl, refl, h)
finish-Appends allocate s e (proceed t) h =
    append_event_cases (Appends s e) allocate t e (λ g. inr (refl, refl, h))
      (λ n reserved. inl (refl, refl, rw h.sequence, rw h.events))

-- An accepted event is appended with the next number, and nothing stored before it changes; a call
-- that does not accept its event leaves the stored events and the numbering as they were.
pub event_store_add-Appends :
    (allocate_process allocate_event : ℕ → Bool) (s : EventStore) (e : TraceGlassEvent)
    → Appends s e (event_store_add allocate_process allocate_event s e)
unfolding event_store_add
event_store_add-Appends allocate_process allocate_event s e =
    finish-Appends allocate_event s e (add_by_type e.type allocate_process s e)
      (add_by_type-SameHistory e.type allocate_process s e)

-- In a valid store with right counters, a network event that finds no room for itself has been
-- counted all the same: the call fails, and the counters no longer agree with the stored events.
pub network_refused_miscounts :
    (allocate_process allocate_event : ℕ → Bool) (s : EventStore) (e : TraceGlassEvent)
    → IsValid s
    → IsCounted s
    → e.type ≡ network
    → (event_store_add allocate_process allocate_event s e).succeeded ≡ false
    → ¬ IsCounted (event_store_add allocate_process allocate_event s e).store
unfolding event_store_add add_by_type finish
network_refused_miscounts allocate_process allocate_event s e v c q =
    let counted = record s { network_count = (s.network_count + 1) % word } in
    let step : add_by_type e.type allocate_process s e ≡ proceed counted = ground arith in
    rw step (
      append_event_cases (λ a. a.succeeded ≡ false → ¬ IsCounted a.store) allocate_event counted e
        (λ g failed after.
          absurd (omega (arith, after.networks, c.networks, count-lt-word network_event s v)))
        (λ n reserved failed. absurd (ground arith)))
