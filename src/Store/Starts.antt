-- ===== src/Store/Starts.antt =====
-- Starts of processes in src/event_store.c, as their consumers see them.
use trace_glass.Base.{
  ℕ, ◌≡◌, ◌≢◌, refl, ◌∙◌, Bool, true, false, some, List, [], ◌∷◌, ◌++◌, arith, length, set,
  get_elem?,
}
use mathlib.Core.Path.{subst}
use trace_glass.Events.{process_start, ProcessKey, TraceGlassEvent}
use trace_glass.Store.Cases.{started, add_start_cases}
use trace_glass.Store.Invariant.{store_of}
use trace_glass.Store.Keys.{new_record-key, finish-processes}
use trace_glass.Store.{
  ProcessRecord, EventStore, event_store_find_process, update_record_from_event, add_start,
  add_by_type, finish, event_store_add,
}
use trace_glass.Store.Lookup.{get_elem?-last, add-by_type, find-last}

-- The state of affairs after a start of the process `key` that was accepted.
pub record Running (processes : List ProcessRecord) (key : ProcessKey) (r : ProcessRecord)
    : Type 0 where
  pub index : ℕ
  pub found : event_store_find_process processes key ≡ some index
  pub at : get_elem? processes index ≡ some r
  pub running : r.active ≡ true
  pub identity : r.key ≡ key

-- A start with a pid other than 0 is accepted only as a new record, which a lookup by its identity
-- then returns: running, with the identity and the time of the event.
pub accepted_start-Running :
    (allocate_process allocate_event : ℕ → Bool) (s : EventStore) (e : TraceGlassEvent)
    → e.type ≡ process_start
    → e.process.pid ≢ 0
    → (event_store_add allocate_process allocate_event s e).accepted ≡ true
    → Running
        (event_store_add allocate_process allocate_event s e).store.processes
        e.process
        (started e)
unfolding add_by_type
accepted_start-Running allocate_process allocate_event s e q h =
    rw (add-by_type process_start allocate_process allocate_event s e q) (
      rw (finish-processes allocate_event e (add_start allocate_process s e)) (
        add_start_cases
          (λ t.
            (finish allocate_event e t).accepted ≡ true
            → Running (store_of t).processes e.process (started e))
          allocate_process s e (λ i r f hit. unfold finish in λ a. absurd (ground arith))
          (λ f g. unfold finish in λ a. absurd (ground arith))
          (λ c f reserved a. record {
            index = length s.processes;
            found =
                subst
                  (λ k.
                    event_store_find_process (s.processes ++ started e ∷ []) k
                    ≡ some (length s.processes))
                  (new_record-key e)
                  (find-last s.processes (started e) (rw (new_record-key e) h) refl);
            at = get_elem?-last s.processes (started e);
            running = refl;
            identity = new_record-key e;
          })))

-- A start of a process that a lookup knows: its record is brought up to date, and that is all.
known_start :
    (allocate_process allocate_event : ℕ → Bool) (s : EventStore) (e : TraceGlassEvent) (i : ℕ)
    (r : ProcessRecord)
    → e.type ≡ process_start
    → event_store_find_process s.processes e.process ≡ some i
    → get_elem? s.processes i ≡ some r
    → event_store_add allocate_process allocate_event s e ≡ record {
      store = record s { processes = set s.processes i (update_record_from_event r e) };
      event = e;
      succeeded = true;
      accepted = false;
    }
unfolding add_by_type add_start finish
known_start allocate_process allocate_event s e i r q f g =
    add-by_type process_start allocate_process allocate_event s e q ∙ rw (f, add_start, g)

-- The collectors may report one start twice: after a start with a pid other than 0 that was
-- accepted, the next one of the same identity succeeds, is not accepted, and leaves events,
-- numbering and counters alone.
pub start_twice :
    (allocate_process allocate_event again_process again_event : ℕ → Bool) (s : EventStore)
    (e f : TraceGlassEvent)
    → e.type ≡ process_start
    → f.type ≡ process_start
    → f.process ≡ e.process
    → e.process.pid ≢ 0
    → (event_store_add allocate_process allocate_event s e).accepted ≡ true
    → let t = (event_store_add allocate_process allocate_event s e).store in
      let again = event_store_add again_process again_event t f in
      (again.succeeded ≡ true)
      × (again.accepted ≡ false)
      × (again.store ≡ record t { processes = again.store.processes })
start_twice allocate_process allocate_event again_process again_event s e f q q' same h a =
    let run = accepted_start-Running allocate_process allocate_event s e q h a in
    let t = (event_store_add allocate_process allocate_event s e).store in
    let known =
      known_start again_process again_event t f run.index (started e) q' (rw same run.found)
        run.at in
    rw known (refl, refl, refl)
