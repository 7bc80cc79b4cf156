-- ===== src/Store/Invariant.antt =====
-- The well-formedness of the store of src/event_store.c, and that every call keeps it, whichever of
-- its allocations fail.
use trace_glass.Base.{
  ℕ, ◌+◌, ◌/◌, ◌≤◌, ◌<◌, ◌≡◌, inl, inr, refl, Bool, some, List, [], ◌∷◌, ◌++◌, arith, length, set,
  get_elem?, get_elem?-concat_cases, count_if, count_if-le, count_if-append, count_if-set,
  length-append, length-set,
}
use trace_glass.Events.{
  EventType, process_start, process_stop, network, file, registry, alert, unlisted, TraceGlassEvent,
}
use trace_glass.Capacity.Growth.{Reserved}
use trace_glass.Store.Cases.{
  started, stopped, ended, add_start_cases, add_stop_cases, append_event_cases,
}
use trace_glass.Capacity.{size_max, word}
use trace_glass.Store.{
  ProcessRecord, EventStore, event_size, process_size, event_store_initialize,
  update_record_from_event, Step, return, proceed, add_start, add_stop, add_by_type, numbered,
  append_event, finish, event_store_add,
}

abbrev pub is_active : ProcessRecord → Bool
is_active r = r.active

-- The event at index `i` carries the number `i + 1`.
abbrev pub AreNumbered : List TraceGlassEvent → Type 0
AreNumbered events =
    (i : ℕ) (e : TraceGlassEvent) → get_elem? events i ≡ some e → e.sequence ≡ i + 1

pub record IsValid (s : EventStore) : Type 0 where
  pub events_fit : length s.events ≤ s.event_capacity
  pub events_sized : s.event_capacity ≤ size_max / event_size
  pub processes_fit : length s.processes ≤ s.process_capacity
  pub processes_sized : s.process_capacity ≤ size_max / process_size
  pub active_counted : s.active_process_count ≡ count_if is_active s.processes
  pub sequenced : s.next_sequence ≡ length s.events + 1
  pub are_numbered : AreNumbered s.events

-- `event_store_initialize` makes a valid store.
pub initialize-IsValid : IsValid event_store_initialize
initialize-IsValid = record {
  events_fit = omega arith;
  events_sized = omega arith;
  processes_fit = omega arith;
  processes_sized = omega arith;
  active_counted = refl;
  sequenced = refl;
  are_numbered = λ i e h. absurd (ground arith);
}

abbrev pub store_of : Step → EventStore
store_of (return s result) = s
store_of (proceed s) = s

-- A record added at the end.
append-IsValid :
    (s : EventStore) (c n : ℕ) (r : ProcessRecord)
    → IsValid s
    → Reserved process_size s.process_capacity (length s.processes + 1) c
    → n ≡ count_if is_active s.processes + count_if is_active (r ∷ [])
    → IsValid (record s {
      process_capacity = c;
      processes = s.processes ++ r ∷ [];
      active_process_count = n;
    })
append-IsValid s c n r v g e = record {
  events_fit = v.events_fit;
  events_sized = v.events_sized;
  processes_fit = omega (arith, g.enough, length-append s.processes (r ∷ []));
  processes_sized = omega (arith, g.sized, v.processes_sized);
  active_counted = omega (arith, count_if-append is_active s.processes (r ∷ []));
  sequenced = v.sequenced;
  are_numbered = v.are_numbered;
}

-- A record written over.
set-IsValid :
    (s : EventStore) (n i : ℕ) (old r : ProcessRecord)
    → IsValid s
    → get_elem? s.processes i ≡ some old
    → n + count_if is_active (old ∷ []) ≡ s.active_process_count + count_if is_active (r ∷ [])
    → IsValid (record s { processes = set s.processes i r; active_process_count = n })
set-IsValid s n i old r v g e = record {
  events_fit = v.events_fit;
  events_sized = v.events_sized;
  processes_fit = rw (length-set s.processes i r) v.processes_fit;
  processes_sized = v.processes_sized;
  active_counted = omega (arith, count_if-set is_active s.processes i r g, v.active_counted);
  sequenced = v.sequenced;
  are_numbered = v.are_numbered;
}

-- Fewer records than a `size_t` can count.
active-lt-word : (s : EventStore) → IsValid s → s.active_process_count + 1 < word
active-lt-word s v =
    omega (
      arith,
      v.active_counted,
      count_if-le is_active s.processes,
      v.processes_fit,
      v.processes_sized,
    )

add_start-IsValid :
    (allocate : ℕ → Bool) (s : EventStore) (e : TraceGlassEvent)
    → IsValid s
    → IsValid (store_of (add_start allocate s e))
unfolding update_record_from_event
add_start-IsValid allocate s e v =
    add_start_cases (λ t. IsValid (store_of t)) allocate s e
      (λ i r f hit. set-IsValid s s.active_process_count i r _ v hit.at (ground arith)) (λ f g. v)
      (λ c f reserved.
        append-IsValid s c _ (started e) v reserved
          (ground (arith, active-lt-word s v, v.active_counted)))

add_stop-IsValid :
    (allocate : ℕ → Bool) (s : EventStore) (e : TraceGlassEvent)
    → IsValid s
    → IsValid (store_of (add_stop allocate s e))
add_stop-IsValid allocate s e v =
    add_stop_cases (λ t. IsValid (store_of t)) allocate s e (λ i r f hit n. v)
      (λ i r f hit t.
        set-IsValid s _ i r (ended r e) v hit.at (
          ground
            (arith, count_if-set is_active s.processes i (ended r e) hit.at, v.active_counted)))
      (λ f g. v)
      (λ c f reserved.
        append-IsValid s c _ (stopped e) v reserved (ground (arith, v.active_counted)))

add_by_type-IsValid :
    (type : EventType) (allocate : ℕ → Bool) (s : EventStore) (e : TraceGlassEvent)
    → IsValid s
    → IsValid (store_of (add_by_type type allocate s e))
unfolding add_by_type
add_by_type-IsValid process_start allocate s e v = add_start-IsValid allocate s e v
add_by_type-IsValid process_stop allocate s e v = add_stop-IsValid allocate s e v
add_by_type-IsValid network allocate s e v = record {
  events_fit = v.events_fit;
  events_sized = v.events_sized;
  processes_fit = v.processes_fit;
  processes_sized = v.processes_sized;
  active_counted = v.active_counted;
  sequenced = v.sequenced;
  are_numbered = v.are_numbered;
}
add_by_type-IsValid alert allocate s e v = record {
  events_fit = v.events_fit;
  events_sized = v.events_sized;
  processes_fit = v.processes_fit;
  processes_sized = v.processes_sized;
  active_counted = v.active_counted;
  sequenced = v.sequenced;
  are_numbered = v.are_numbered;
}
add_by_type-IsValid file allocate s e v = v
add_by_type-IsValid registry allocate s e v = v
add_by_type-IsValid unlisted allocate s e v = v

AreNumbered-append :
    (events : List TraceGlassEvent) (e : TraceGlassEvent)
    → e.sequence ≡ length events + 1
    → AreNumbered events
    → AreNumbered (events ++ e ∷ [])
AreNumbered-append events e q all i f h = elim (get_elem?-concat_cases events e f i h) [
  | inl old ↦ all i f old
  | inr (at, new) ↦ rw (← new, at) q
]

append_event-IsValid :
    (allocate : ℕ → Bool) (s : EventStore) (e : TraceGlassEvent)
    → IsValid s
    → IsValid (append_event allocate s e).store
append_event-IsValid allocate s e v =
    append_event_cases (λ a. IsValid a.store) allocate s e (λ g. v)
      λ c reserved. record {
        events_fit = omega (arith, reserved.enough, length-append s.events (numbered s e ∷ []));
        events_sized = omega (arith, reserved.sized, v.events_sized);
        processes_fit = v.processes_fit;
        processes_sized = v.processes_sized;
        active_counted = v.active_counted;
        sequenced = omega (
          arith,
          length-append s.events (numbered s e ∷ []),
          v.sequenced,
          v.events_fit,
          v.events_sized,
        );
        are_numbered = AreNumbered-append s.events (numbered s e) v.sequenced v.are_numbered;
      }

finish-IsValid :
    (allocate : ℕ → Bool) (e : TraceGlassEvent) (t : Step)
    → IsValid (store_of t)
    → IsValid (finish allocate e t).store
unfolding finish
finish-IsValid allocate e (return s result) v = v
finish-IsValid allocate e (proceed s) v = append_event-IsValid allocate s e v

-- Every call keeps the store valid, whatever event it is given, and whichever of its two
-- allocations succeed: the used cells stay within the capacities and the capacities within a
-- `size_t` of bytes, the count of running processes is the number of records marked active, and the
-- stored events are numbered 1, 2, 3, … without a gap.
pub event_store_add-IsValid :
    (allocate_process allocate_event : ℕ → Bool) (s : EventStore) (e : TraceGlassEvent)
    → IsValid s
    → IsValid (event_store_add allocate_process allocate_event s e).store
unfolding event_store_add
event_store_add-IsValid allocate_process allocate_event s e v =
    finish-IsValid allocate_event e (add_by_type e.type allocate_process s e)
      (add_by_type-IsValid e.type allocate_process s e v)
