-- ===== src/Snapshot.antt =====
-- include/process_monitor.h and the search of src/process_monitor.c: a snapshot of the running
-- processes, sorted, and its two binary searches. A pointer to an entry is its index, and the outer
-- `none` of a search is a read outside of the array, or no fuel left. An array has fewer entries than
-- a `size_t` counts, so that the sums of indices do not wrap.
pub mod Bound
pub mod Search
use Prim.Native.Nat.{Ordering}
use trace_glass.Base.{
  ℕ, zero, suc, ◌+◌, ◌-◌, ◌/◌, Bool, true, false, ◌&&◌, ◌||◌, Option, none, some, List, ltb, ◌==◌,
  if◌then◌else◌, length, get_elem?,
}
use trace_glass.Utils.{Text}
use trace_glass.Events.{ProcessKey}

pub record ProcessSnapshotEntry : Type 0 where
  pub key : ProcessKey
  pub parent_pid : ℕ
  pub name : Text
  pub path : Text

unfoldable pub compare_snapshot_entries : ProcessSnapshotEntry → ProcessSnapshotEntry → Ordering
compare_snapshot_entries left right =
    if ltb left.key.pid right.key.pid
    then Ordering.lt
    else if ltb right.key.pid left.key.pid
    then Ordering.gt
    else if ltb left.key.creation_time right.key.creation_time
    then Ordering.lt
    else if ltb right.key.creation_time left.key.creation_time
    then Ordering.gt
    else Ordering.eq

-- The first loop of both searches, on fuel: where it leaves `low`.
unfoldable pub narrow : ℕ → List ProcessSnapshotEntry → ℕ → ℕ → ℕ → Option ℕ
narrow zero entries pid low high = none
narrow (suc fuel) entries pid low high = elim (ltb low high) [
  | false ↦ some low
  | true ↦ elim (get_elem? entries (low + (high - low) / 2)) [
    | none ↦ none
    | some middle ↦ elim (ltb middle.key.pid pid) [
      | true ↦ narrow fuel entries pid (low + (high - low) / 2 + 1) high
      | false ↦ narrow fuel entries pid low (low + (high - low) / 2)
    ]
  ]
]

abbrev pub times_match : ProcessKey → ProcessKey → Bool
times_match left right =
    left.creation_time == right.creation_time || left.creation_time == 0 || right.creation_time == 0

-- The second loop of `find_entry`, over the entries of one pid.
unfoldable pub scan : ℕ → List ProcessSnapshotEntry → ProcessKey → ℕ → Option (Option ℕ)
scan zero entries key low = none
scan (suc fuel) entries key low = elim (get_elem? entries low) [
  | none ↦ some none
  | some e ↦ elim (e.key.pid == key.pid) [
    | false ↦ some none
    | true ↦ elim (times_match e.key key) [
      | true ↦ some (some low)
      | false ↦ scan fuel entries key (low + 1)
    ]
  ]
]

unfoldable pub find_entry : List ProcessSnapshotEntry → ProcessKey → Option (Option ℕ)
unfolding narrow scan
find_entry entries key = elim (narrow (suc (length entries)) entries key.pid 0 (length entries)) [
  | none ↦ none
  | some low ↦ scan (suc (length entries)) entries key low
]

unfoldable pub find_entry_by_pid : List ProcessSnapshotEntry → ℕ → Option (Option ℕ)
unfolding narrow
find_entry_by_pid entries pid =
    elim (narrow (suc (length entries)) entries pid 0 (length entries)) [
      | none ↦ none
      | some low ↦ elim (get_elem? entries low) [
        | none ↦ some none
        | some e ↦ if e.key.pid == pid then some (some low) else some none
      ]
    ]
