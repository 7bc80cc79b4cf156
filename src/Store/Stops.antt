-- ===== src/Store/Stops.antt =====
-- Stops of processes in src/event_store.c, as their consumers see them.
use trace_glass.Base.{
  get_elem?-set_self, ℕ, ◌≡◌, ◌≢◌, refl, ◌∙◌, Bool, true, false, some, List, arith, length,
  get_elem?, get_elem?-lt,
}
use trace_glass.Events.{process_stop, ProcessKey, TraceGlassEvent}
use trace_glass.Store.Find.{matches_exactly, find_process-Lookup}
use trace_glass.Store.Cases.{add_stop_cases, stopped, ended}
use trace_glass.Store.Invariant.{store_of}
use trace_glass.Store.Keys.{new_record-key, finish-processes}
use trace_glass.Store.{
  add_stop, ProcessRecord, EventStore, process_keys_match, event_store_find_process,
  update_record_from_event, add_by_type, finish, event_store_add,
}
use trace_glass.Store.Lookup.{
  Lookup-exact, get_elem?-last, NoneFrom-last, add-by_type, Lookup-later, set-NoneFrom,
}

-- The state of affairs after a stop of the process `key` that was accepted.
pub record IsStopped (processes : List ProcessRecord) (key : ProcessKey) : Type 0 where
  pub index : ℕ
  pub entry : ProcessRecord
  pub found : event_store_find_process processes key ≡ some index
  pub at : get_elem? processes index ≡ some entry
  pub stopped : entry.active ≡ false

ended-exact :
    (r : ProcessRecord) (e : TraceGlassEvent)
    → process_keys_match r.key e.process ≡ true
    → e.process.creation_time ≢ 0
    → matches_exactly (ended r e) e.process ≡ true
unfolding update_record_from_event process_keys_match
ended-exact r e m k = ground arith

stopped-exact :
    (e : TraceGlassEvent)
    → e.process.creation_time ≢ 0
    → matches_exactly (stopped e) e.process ≡ true
unfolding process_keys_match
stopped-exact e k = rw (new_record-key e) (ground arith)

-- An accepted stop with a pid other than 0 and a known creation time leaves a record that a lookup
-- by its identity returns, and which is not running.
pub accepted_stop-IsStopped :
    (allocate_process allocate_event : ℕ → Bool) (s : EventStore) (e : TraceGlassEvent)
    → e.type ≡ process_stop
    → e.process.pid ≢ 0
    → e.process.creation_time ≢ 0
    → (event_store_add allocate_process allocate_event s e).accepted ≡ true
    → IsStopped (event_store_add allocate_process allocate_event s e).store.processes e.process
unfolding add_by_type
accepted_stop-IsStopped allocate_process allocate_event s e q h k =
    rw (add-by_type process_stop allocate_process allocate_event s e q) (
      rw (finish-processes allocate_event e (add_stop allocate_process s e)) (
        add_stop_cases
          (λ t.
            (finish allocate_event e t).accepted ≡ true
            → IsStopped (store_of t).processes e.process)
          allocate_process s e (λ i r f hit n. unfold finish in λ a. absurd (ground arith))
          (λ i r f hit t a.
            let there =
              get_elem?-set_self s.processes i (ended r e) (get_elem?-lt s.processes i hit.at) in
            record {
              index = i;
              entry = ended r e;
              found =
                  Lookup-exact _ e.process _ i (ended r e) there (ended-exact r e hit.matched k)
                    (set-NoneFrom s.processes e.process i (ended r e) (
                      Lookup-later s.processes e.process i
                        (rw f at (find_process-Lookup s.processes e.process h))))
                    (find_process-Lookup _ e.process h);
              at = there;
              stopped = refl;
            })
          (λ f g. unfold finish in λ a. absurd (ground arith))
          (λ c f reserved a. record {
            index = length s.processes;
            entry = stopped e;
            found =
                Lookup-exact _ e.process _ (length s.processes) (stopped e)
                  (get_elem?-last s.processes (stopped e)) (stopped-exact e k)
                  (NoneFrom-last s.processes (stopped e) e.process matches_exactly)
                  (find_process-Lookup _ e.process h);
            at = get_elem?-last s.processes (stopped e);
            stopped = refl;
          })))

known_stop :
    (allocate_process allocate_event : ℕ → Bool) (s : EventStore) (e : TraceGlassEvent) (i : ℕ)
    (r : ProcessRecord)
    → e.type ≡ process_stop
    → event_store_find_process s.processes e.process ≡ some i
    → get_elem? s.processes i ≡ some r
    → r.active ≡ false
    → event_store_add allocate_process allocate_event s e
      ≡ record { store = s; event = e; succeeded = true; accepted = false }
unfolding add_by_type add_stop finish
known_stop allocate_process allocate_event s e i r q f g n =
    add-by_type process_stop allocate_process allocate_event s e q ∙ rw (f, add_stop, g, n)

-- A stop is accepted once: after one with a pid other than 0 and a known creation time, the next
-- report of the same stop succeeds, is not accepted, and changes nothing at all.
pub stop_twice :
    (allocate_process allocate_event again_process again_event : ℕ → Bool) (s : EventStore)
    (e f : TraceGlassEvent)
    → e.type ≡ process_stop
    → f.type ≡ process_stop
    → f.process ≡ e.process
    → e.process.pid ≢ 0
    → e.process.creation_time ≢ 0
    → (event_store_add allocate_process allocate_event s e).accepted ≡ true
    → let t = (event_store_add allocate_process allocate_event s e).store in
      event_store_add again_process again_event t f
      ≡ record { store = t; event = f; succeeded = true; accepted = false }
stop_twice allocate_process allocate_event again_process again_event s e f q q' same h k a =
    let over = accepted_stop-IsStopped allocate_process allocate_event s e q h k a in
    known_stop again_process again_event _ f over.index over.entry q' (rw same over.found) over.at
      over.stopped
