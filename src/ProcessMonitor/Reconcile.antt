-- ===== src/ProcessMonitor/Reconcile.antt =====
-- What a poll of src/process_monitor.c emits, against linear searches through the two snapshots.
use trace_glass.Base.{
  inr, inl, ◌⊎◌, ℕ, zero, suc, ◌≡◌, refl, sym, ap, ◌∙◌, Bool, true, false, not, Option, none, some,
  List, [], ◌∷◌, ◌++◌, arith, Bool-cases, ◌==◌, get_elem?, if◌then◌else◌,
}
use trace_glass.Events.{ProcessKey, TraceGlassEvent}
use trace_glass.Snapshot.{ProcessSnapshotEntry, find_entry, find_entry_by_pid}
use trace_glass.Snapshot.Bound.{IsByPid, IsSorted, IsSorted-IsByPid}
use trace_glass.Snapshot.Search.{names, IsFirst, find_entry-IsFirst, find_entry_by_pid-IsFirst}
use trace_glass.ProcessMonitor.{
  Windows, ProcessMonitor, found_parent, emit_start_event, emit_stop_event, start_event, stop_event,
  emit_missing, changes, capture_processes, process_monitor_poll,
}

-- The first entry that passes a test.
unfoldable pub first_where :
    (ProcessSnapshotEntry → Bool) → List ProcessSnapshotEntry → Option ProcessSnapshotEntry
first_where test [] = none
first_where test (e ∷ entries) = if test e then some e else first_where test entries

IsFirst-none :
    (test : ProcessSnapshotEntry → Bool) (entries : List ProcessSnapshotEntry)
    → IsFirst entries test none
    → first_where test entries ≡ none
unfolding first_where
IsFirst-none test [] first = refl
IsFirst-none test (e ∷ entries) first =
    rw (first 0 e refl) (IsFirst-none test entries (λ i x g. first (suc i) x g))

IsFirst-some :
    (test : ProcessSnapshotEntry → Bool) (entries : List ProcessSnapshotEntry) (n : ℕ)
    → IsFirst entries test (some n)
    → (e : ProcessSnapshotEntry) × (get_elem? entries n ≡ some e)
      × (first_where test entries ≡ some e)
unfolding first_where
IsFirst-some test [] n (e, at, t, below) = absurd (ground arith)
IsFirst-some test (x ∷ entries) zero (e, at, t, below) =
    let same : x ≡ e = ground arith in (e, at, rw (same, t) refl)
IsFirst-some test (x ∷ entries) (suc n) (e, at, t, below) =
    let (e', at', first) =
      IsFirst-some test entries n (e, at, t, λ i y h g. below (suc i) y (omega arith) g) in
    (e', at', rw (below 0 x (omega arith) refl) first)

-- One of the entries may be the process of the key.
unfoldable pub knows : List ProcessSnapshotEntry → ProcessKey → Bool
knows [] key = false
knows (e ∷ entries) key = if names e key then true else knows entries key

knows-first_where :
    (entries : List ProcessSnapshotEntry) (key : ProcessKey)
    → elim (first_where (λ e. names e key) entries) [ none ↦ false | some e ↦ true ]
      ≡ knows entries key
unfolding knows first_where
knows-first_where [] key = refl
knows-first_where (e ∷ entries) key = elim (Bool-cases (names e key)) [
  | inl t ↦ rw t refl
  | inr f ↦ rw f (knows-first_where entries key)
]

find_entry-knows :
    (entries : List ProcessSnapshotEntry) (key : ProcessKey)
    → IsByPid entries
    → (find_entry entries key ≡ some none) × (knows entries key ≡ false)
      ⊎ ((i : ℕ) × (find_entry entries key ≡ some (some i)) × (knows entries key ≡ true))
find_entry-knows entries key sorted =
    let (o, run, first) = find_entry-IsFirst entries key sorted in by_result o run first
  where
    by_result :
        (o : Option ℕ)
        → find_entry entries key ≡ some o
        → IsFirst entries (λ e. names e key) o
        → (find_entry entries key ≡ some none) × (knows entries key ≡ false)
          ⊎ ((i : ℕ) × (find_entry entries key ≡ some (some i)) × (knows entries key ≡ true))
    by_result none run first = inl (
      run,
      rw (sym (knows-first_where entries key), IsFirst-none (λ e. names e key) entries first) refl,
    )
    by_result (some i) run first =
        let (e, at, found) = IsFirst-some (λ e. names e key) entries i first in
        inr (i, run, rw (sym (knows-first_where entries key), found) refl)

abbrev pub parent_in : List ProcessSnapshotEntry → ℕ → Option ProcessSnapshotEntry
parent_in entries pid = first_where (λ e. e.key.pid == pid) entries

found_parent-parent_in :
    (entries : List ProcessSnapshotEntry) (pid : ℕ)
    → IsByPid entries
    → found_parent entries pid ≡ some (parent_in entries pid)
unfolding found_parent
found_parent-parent_in entries pid sorted =
    let (o, run, first) = find_entry_by_pid-IsFirst entries pid sorted in by_result o run first
  where
    by_result :
        (o : Option ℕ)
        → find_entry_by_pid entries pid ≡ some o
        → IsFirst entries (λ e. e.key.pid == pid) o
        → found_parent entries pid ≡ some (parent_in entries pid)
    by_result none run first =
        rw (found_parent, run, IsFirst-none (λ e. e.key.pid == pid) entries first) refl
    by_result (some i) run first =
        let (e, at, found) = IsFirst-some (λ e. e.key.pid == pid) entries i first in
        rw (found_parent, run, at, found) refl

-- The events for the entries that the other snapshot does not know, in their order.
unfoldable pub missing :
    (ProcessSnapshotEntry → TraceGlassEvent)
    → List ProcessSnapshotEntry
    → List ProcessSnapshotEntry
    → List TraceGlassEvent
missing event others [] = []
missing event others (e ∷ entries) =
    if knows others e.key
    then missing event others entries
    else event e ∷ missing event others entries

emit_missing-missing :
    (emit : ProcessSnapshotEntry → Option TraceGlassEvent)
    (event : ProcessSnapshotEntry → TraceGlassEvent) (others entries : List ProcessSnapshotEntry)
    → ((e : ProcessSnapshotEntry) → emit e ≡ some (event e))
    → IsByPid others
    → emit_missing emit others entries ≡ some (missing event others entries)
unfolding emit_missing missing
emit_missing-missing emit event others [] h sorted = refl
emit_missing-missing emit event others (e ∷ entries) h sorted =
    let rest = emit_missing-missing emit event others entries h sorted in
    elim (find_entry-knows others e.key sorted) [
      | inl (run, k) ↦ rw (rest, run, h e, k) refl
      | inr (i, run, k) ↦ rw (rest, run, k) refl
    ]

-- The starts of what is new, then, after a first poll, the stops of what is gone.
abbrev pub expected_changes :
    Windows → ProcessMonitor → List ProcessSnapshotEntry → List TraceGlassEvent
expected_changes w monitor current =
    let starts =
      missing (λ e. start_event w (not monitor.initialized) e (parent_in current e.parent_pid))
        monitor.previous current in
    if monitor.initialized
    then starts
      ++ missing (λ e. stop_event w e (parent_in monitor.previous e.parent_pid)) current
          monitor.previous
    else starts

changes-expected :
    (w : Windows) (monitor : ProcessMonitor) (current : List ProcessSnapshotEntry)
    → IsByPid monitor.previous
    → IsByPid current
    → changes w monitor current ≡ some (expected_changes w monitor current)
unfolding changes emit_start_event emit_stop_event
changes-expected w monitor current before after =
    let starts =
      emit_missing-missing (emit_start_event w (not monitor.initialized) current)
        (λ e. start_event w (not monitor.initialized) e (parent_in current e.parent_pid))
        monitor.previous current
        (λ e. rw (emit_start_event, found_parent-parent_in current e.parent_pid after) refl)
        before in
    let stops =
      emit_missing-missing (emit_stop_event w monitor.previous)
        (λ e. stop_event w e (parent_in monitor.previous e.parent_pid)) current monitor.previous
        (λ e.
          rw (emit_stop_event, found_parent-parent_in monitor.previous e.parent_pid before) refl)
        after in
    elim (Bool-cases monitor.initialized) [
      | inl t ↦ rw (changes, starts, t, stops) refl
      | inr f ↦ rw (changes, starts, f) refl
    ]

-- A poll whose snapshot succeeds does not fault, on snapshots in the order that `qsort` gives: it
-- pushes a start for each entry of the new snapshot that no entry of the last one may be, with its
-- parent from the new snapshot; then, unless it is the first poll, a stop for each entry of the last
-- snapshot that no new one may be, with its parent from the last one. The new snapshot replaces the
-- last, and is again in that order.
pub process_monitor_poll-expected :
    (w : Windows) (monitor : ProcessMonitor) (current : List ProcessSnapshotEntry)
    → capture_processes w ≡ some current
    → IsSorted current
    → IsByPid monitor.previous
    → (process_monitor_poll w monitor
        ≡ some (record {
          monitor = record { previous = current; initialized = true };
          pushed = expected_changes w monitor current;
          succeeded = true;
        }))
      × IsByPid current
unfolding process_monitor_poll
process_monitor_poll-expected w monitor current captured sorted before =
    let after = IsSorted-IsByPid current sorted in
    (
      rw (process_monitor_poll, captured, changes-expected w monitor current before after) refl,
      after,
    )

knows-itself :
    (before after : List ProcessSnapshotEntry) (e : ProcessSnapshotEntry)
    → knows (before ++ e ∷ after) e.key ≡ true
unfolding knows
knows-itself [] after e = ground arith
knows-itself (x ∷ before) after e = elim (Bool-cases (names x e.key)) [
  | inl t ↦ rw t refl
  | inr f ↦ rw f (knows-itself before after e)
]

append-one :
    (before : List ProcessSnapshotEntry) (e : ProcessSnapshotEntry)
    (after : List ProcessSnapshotEntry)
    → (before ++ e ∷ []) ++ after ≡ before ++ e ∷ after
append-one [] e after = refl
append-one (x ∷ before) e after = ap (x ∷◌) (append-one before e after)

missing-same :
    (event : ProcessSnapshotEntry → TraceGlassEvent)
    (others before entries : List ProcessSnapshotEntry)
    → others ≡ before ++ entries
    → missing event others entries ≡ []
unfolding missing
missing-same event others before [] h = refl
missing-same event others before (e ∷ entries) h =
    let known : knows others e.key ≡ true =
      ap (λ l. knows l e.key) h ∙ knows-itself before entries e in
    rw known
      (missing-same event others (before ++ e ∷ []) entries (h ∙ sym (append-one before e entries)))

-- A later poll whose sorted snapshot is the one of the last poll pushes nothing and keeps the
-- state.
pub process_monitor_poll-same :
    (w : Windows) (current : List ProcessSnapshotEntry)
    → capture_processes w ≡ some current
    → IsSorted current
    → process_monitor_poll w (record { previous = current; initialized = true })
      ≡ some (record {
        monitor = record { previous = current; initialized = true };
        pushed = [];
        succeeded = true;
      })
process_monitor_poll-same w current captured sorted =
    let (run, after) =
      process_monitor_poll-expected w (record { previous = current; initialized = true }) current
        captured sorted (IsSorted-IsByPid current sorted) in
    let starts =
      missing-same (λ e. start_event w false e (parent_in current e.parent_pid)) current [] current
        refl in
    let stops =
      missing-same (λ e. stop_event w e (parent_in current e.parent_pid)) current [] current refl in
    run ∙ rw (starts, stops) refl
