-- ===== src/Store/Cases.antt =====
-- The ways through `event_store_add` of src/event_store.c, as rules for proofs about it.
use trace_glass.Base.{
  ℕ, ◌+◌, ◌%◌, ◌≡◌, ◌⊎◌, inl, inr, Bool, true, false, none, some, [], ◌∷◌, ◌++◌, Bool-cases,
  Option-cases, length, set,
}
use trace_glass.Events.{TraceGlassEvent}
use trace_glass.Capacity.Growth.{Reserved, reserve-Reserved}
use trace_glass.Store.Find.{Hit, find_process-Hit}
use trace_glass.Capacity.{word, reserve}
use trace_glass.Store.{
  ProcessRecord, EventStore, event_size, process_size, reserve_events, reserve_processes,
  event_store_find_process, update_record_from_event, new_record, Step, return, proceed, add_start,
  add_stop, lower_active, Added, numbered, append_event,
}

module _ (allocate : ℕ → Bool) (s : EventStore) (required : ℕ) where
  pub reserve_processes-cases :
      (reserve_processes allocate s required ≡ none)
      ⊎ ((c : ℕ) × (reserve_processes allocate s required
            ≡ some (record s { process_capacity = c }))
          × Reserved process_size s.process_capacity required c)
  unfolding reserve_processes
  reserve_processes-cases =
      elim (Option-cases (reserve 128 process_size allocate s.process_capacity required)) [
        | inl e ↦ inl (rw (e, reserve_processes))
        | inr (c, e) ↦ inr (
          c,
          rw (e, reserve_processes),
          reserve-Reserved 128 process_size _ required c allocate e,
        )
      ]

  pub reserve_events-cases :
      (reserve_events allocate s required ≡ none)
      ⊎ ((c : ℕ) × (reserve_events allocate s required ≡ some (record s { event_capacity = c }))
          × Reserved event_size s.event_capacity required c)
  unfolding reserve_events
  reserve_events-cases =
      elim (Option-cases (reserve 256 event_size allocate s.event_capacity required)) [
        | inl e ↦ inl (rw (e, reserve_events))
        | inr (c, e) ↦
            inr (c, rw (e, reserve_events), reserve-Reserved 256 event_size _ required c allocate e)
      ]

-- The record that a start or a stop of an unknown process adds.
abbrev pub started : TraceGlassEvent → ProcessRecord
started e = record (new_record e) { active = true; start_time = e.timestamp }

abbrev pub stopped : TraceGlassEvent → ProcessRecord
stopped e = record (new_record e) { active = false; stop_time = e.timestamp }

-- What a stop makes of the record that it finds.
abbrev pub ended : ProcessRecord → TraceGlassEvent → ProcessRecord
ended r e = record (update_record_from_event r e) { active = false; stop_time = e.timestamp }

-- A record at the end of the array, in a new capacity.
abbrev pub with_record : EventStore → ℕ → ProcessRecord → ℕ → EventStore
with_record s c r active = record s {
  process_capacity = c;
  processes = s.processes ++ r ∷ [];
  active_process_count = active;
}

-- The store after an accepted event.
abbrev pub with_event : EventStore → ℕ → TraceGlassEvent → EventStore
with_event s c e = record s {
  event_capacity = c;
  events = s.events ++ numbered s e ∷ [];
  next_sequence = (s.next_sequence + 1) % word;
}

module _ {ℓ} (P : Step → Type ℓ) (allocate : ℕ → Bool) (s : EventStore) (e : TraceGlassEvent) where
  pub add_start_cases :
      ((i : ℕ) (r : ProcessRecord)
        → event_store_find_process s.processes e.process ≡ some i
        → Hit s.processes e.process i r
        → P (
            return
              (record s { processes = set s.processes i (update_record_from_event r e) })
              true))
      → (event_store_find_process s.processes e.process ≡ none
          → reserve_processes allocate s (length s.processes + 1) ≡ none
          → P (return s false))
      → ((c : ℕ)
          → event_store_find_process s.processes e.process ≡ none
          → Reserved process_size s.process_capacity (length s.processes + 1) c
          → P (proceed (with_record s c (started e) ((s.active_process_count + 1) % word))))
      → P (add_start allocate s e)
  unfolding add_start
  add_start_cases known refused added =
      elim (Option-cases (event_store_find_process s.processes e.process)) [
        | inr (i, f) ↦
            let (r, hit) = find_process-Hit s.processes e.process i f in
            rw (f, add_start, hit.at) (known i r f hit)
        | inl f ↦ elim (reserve_processes-cases allocate s (length s.processes + 1)) [
          | inl g ↦ rw (f, add_start, g) (refused f g)
          | inr (c, g, reserved) ↦ rw (f, add_start, g) (added c f reserved)
        ]
      ]

  pub add_stop_cases :
      ((i : ℕ) (r : ProcessRecord)
        → event_store_find_process s.processes e.process ≡ some i
        → Hit s.processes e.process i r
        → r.active ≡ false
        → P (return s true))
      → ((i : ℕ) (r : ProcessRecord)
          → event_store_find_process s.processes e.process ≡ some i
          → Hit s.processes e.process i r
          → r.active ≡ true
          → P (
              proceed (record s {
                processes = set s.processes i (ended r e);
                active_process_count = lower_active true s.active_process_count;
              })))
      → (event_store_find_process s.processes e.process ≡ none
          → reserve_processes allocate s (length s.processes + 1) ≡ none
          → P (return s false))
      → ((c : ℕ)
          → event_store_find_process s.processes e.process ≡ none
          → Reserved process_size s.process_capacity (length s.processes + 1) c
          → P (proceed (with_record s c (stopped e) s.active_process_count)))
      → P (add_stop allocate s e)
  unfolding add_stop
  add_stop_cases stale running refused added =
      elim (Option-cases (event_store_find_process s.processes e.process)) [
        | inr (i, f) ↦
            let (r, hit) = find_process-Hit s.processes e.process i f in
            elim (Bool-cases r.active) [
              | inl t ↦ rw (f, add_stop, hit.at, t) (running i r f hit t)
              | inr n ↦ rw (f, add_stop, hit.at, n) (stale i r f hit n)
            ]
        | inl f ↦ elim (reserve_processes-cases allocate s (length s.processes + 1)) [
          | inl g ↦ rw (f, add_stop, g) (refused f g)
          | inr (c, g, reserved) ↦ rw (f, add_stop, g) (added c f reserved)
        ]
      ]

module _ {ℓ} (P : Added → Type ℓ) (allocate : ℕ → Bool) (s : EventStore) (e : TraceGlassEvent) where
  pub append_event_cases :
      (reserve_events allocate s (length s.events + 1) ≡ none
        → P (record { store = s; event = e; succeeded = false; accepted = false }))
      → ((c : ℕ)
          → Reserved event_size s.event_capacity (length s.events + 1) c
          → P (record {
            store = with_event s c e;
            event = numbered s e;
            succeeded = true;
            accepted = true;
          }))
      → P (append_event allocate s e)
  unfolding append_event
  append_event_cases refused added = elim (reserve_events-cases allocate s (length s.events + 1)) [
    | inl g ↦ rw (g, append_event) (refused g)
    | inr (c, g, reserved) ↦ rw (g, append_event) (added c reserved)
  ]
