-- ===== src/Etw/Callback/Identity.antt =====
-- The identities in the events of `etw_event_callback` of src/etw_monitor.c.
use trace_glass.Base.{
  ℕ, ◌≤◌, ◌≡◌, ◌≢◌, ◌⊎◌, inl, refl, sym, ap, ◌∙◌, Bool, true, false, not, ◌&&◌, ◌||◌, Option, some,
  List, ◌==◌, ltb, if◌then◌else◌, arith, if_cases, codes,
}
use mathlib.Core.Option.{some_inj}
use mathlib.Core.Path.{subst}
use trace_glass.Etw.Callback.{
  EventRecord, event_process, event_parent, etw_event, etw_event_callback, start_event_id,
  stop_event_id, read_event_dword, read_event_qword,
}
use trace_glass.Events.{TraceGlassEvent, ProcessKey}
use trace_glass.Utils.{Text}
use trace_glass.ProcessMonitor.{Windows, query_process_identity}

-- The parent may have started the process, as far as the two times are known.
abbrev pub IsPossible : ProcessKey → ProcessKey → Type 0
IsPossible parent process =
    (parent.creation_time ≡ 0)
    ⊎ (process.creation_time ≡ 0)
    ⊎ (parent.creation_time ≤ process.creation_time)

event_parent-IsPossible :
    (w : Windows) (r : EventRecord) (process : ProcessKey)
    → IsPossible (event_parent w r process).0 process
unfolding event_parent
event_parent-IsPossible w r process =
    let pid = read_event_dword r (codes "ParentProcessID") (codes "ParentProcessId") in
    let parent = (query_process_identity w pid).key in
    let P : ProcessKey × Text → Type 0 = λ k. IsPossible k.0 process in
    if_cases P (pid == 0) (λ unknown. inl refl)
      (λ known.
        if_cases P
          (not (process.creation_time == 0)
            && not (parent.creation_time == 0)
            && ltb process.creation_time parent.creation_time)
          (λ late. inl refl) (λ early. in_time process.creation_time parent.creation_time early))
  where
    in_time :
        (process parent : ℕ)
        → (not (process == 0) && not (parent == 0) && ltb process parent) ≡ false
        → (parent ≡ 0) ⊎ (process ≡ 0) ⊎ (parent ≤ process)
    in_time process parent e = ground arith

etw_event-keys :
    (w : Windows) (buffer : List ℕ) (r : EventRecord)
    → ((etw_event w buffer r).process ≡ event_process w r)
      × ((etw_event w buffer r).parent ≡ (event_parent w r (event_process w r)).0)
unfolding etw_event
etw_event-keys w buffer r =
    let P : TraceGlassEvent → Type 0 = λ e.
      (e.process ≡ event_process w r) × (e.parent ≡ (event_parent w r (event_process w r)).0) in
    if_cases P (r.id == start_event_id) (λ start. (refl, refl)) (λ stop. (refl, refl))

-- Only a running monitor pushes events, and only for the starts and stops of its provider; the parent
-- that an event names was not created after the event's process, as far as both times are known.
pub etw_event_callback-IsPossible :
    (w : Windows) (buffer : List ℕ) (running : Bool) (r : EventRecord) (event : TraceGlassEvent)
    → etw_event_callback w buffer running r ≡ some event
    → (running ≡ true)
      × (r.of_provider ≡ true)
      × ((r.id ≡ start_event_id) ⊎ (r.id ≡ stop_event_id))
      × IsPossible event.parent event.process
unfolding etw_event_callback
etw_event_callback-IsPossible w buffer running r event e =
    let P : Option TraceGlassEvent → Type 0 = λ o.
      o ≡ some event
      → (running ≡ true)
        × (r.of_provider ≡ true)
        × ((r.id ≡ start_event_id) ⊎ (r.id ≡ stop_event_id))
        × IsPossible event.parent event.process in
    if_cases P (not running || not r.of_provider) (λ off f. absurd (ground (arith, f)))
      (λ on.
        if_cases P (not (r.id == start_event_id) && not (r.id == stop_event_id))
          (λ foreign f. absurd (ground (arith, f)))
          (λ own f.
            let (process, parent) = etw_event-keys w buffer r in
            let possible : IsPossible (etw_event w buffer r).parent (etw_event w buffer r).process =
              rw (process, parent) (event_parent-IsPossible w r (event_process w r)) in
            (
              ground (arith, on),
              ground (arith, on),
              ground (arith, own),
              subst (λ (v : TraceGlassEvent). IsPossible v.parent v.process) (some_inj.0 f)
                  possible,
            )))
      e

event_process_queried :
    (w : Windows) (r : EventRecord)
    → (query_process_identity w (event_process w r).pid).key.creation_time ≢ 0
    → event_process w r ≡ record {
      pid = (event_process w r).pid;
      creation_time = (query_process_identity w (event_process w r).pid).key.creation_time;
    }
unfolding event_process
event_process_queried w r known =
    let pid = (event_process w r).pid in
    let created = read_event_qword r (codes "CreateTime") (codes "CreationTime") in
    ap (λ time. record { pid = pid; creation_time = time })
      (kept (query_process_identity w pid).key.creation_time created known)
  where
    kept :
        (queried created : ℕ) → queried ≢ 0 → (if queried == 0 then created else queried) ≡ queried
    kept queried created ne = ground arith

-- If the process that holds a number now can be opened and tells its creation time, two events with
-- that number get the same key, whatever creation times the events themselves carry: the stop of a
-- process whose number is in use again is taken for a stop of its successor.
pub reused_pid_merges :
    (w : Windows) (r q : EventRecord)
    → (event_process w r).pid ≡ (event_process w q).pid
    → (query_process_identity w (event_process w r).pid).key.creation_time ≢ 0
    → event_process w r ≡ event_process w q
reused_pid_merges w r q same known =
    event_process_queried w r known
    ∙ (ap
          (λ pid. record {
            pid = pid;
            creation_time = (query_process_identity w pid).key.creation_time;
          })
          same
        ∙ sym (
            event_process_queried w q
              (subst (λ pid. (query_process_identity w pid).key.creation_time ≢ 0) same known)))
