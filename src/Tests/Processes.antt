-- ===== src/Tests/Processes.antt =====
-- The searches and the poll of src/process_monitor.c at concrete inputs.
use trace_glass.Base.{
  if◌then◌else◌, ℕ, zero, suc, ◌≡◌, refl, true, Option, some, none, [], ◌∷◌, arith, codes, ◌==◌,
}
use trace_glass.Events.{zero_time}
use trace_glass.Snapshot.{ProcessSnapshotEntry, find_entry, compare_snapshot_entries}
use trace_glass.Snapshot.Bound.{IsSorted, IsByPid, IsSorted-IsByPid}
use trace_glass.Snapshot.Search.{names, IsFirst, find_entry-IsFirst}
use trace_glass.ProcessMonitor.{Windows, ProcessMonitor, capture_processes, process_monitor_poll}
use trace_glass.ProcessMonitor.Reconcile.{expected_changes, process_monitor_poll-expected}
use trace_glass.Tests.Data.{word_key, shell_key}

-- Two processes, of which Windows tells the creation time but no path; qsort need not move them.
abbrev pub windows : Windows
windows = record {
  snapshot = some (
      record { process_id = 40; parent_process_id = 4; exe_file = codes "WINWORD.EXE" }
      ∷ record { process_id = 44; parent_process_id = 40; exe_file = codes "pwsh.exe" }
      ∷ []);
  open_process = λ pid. some (record {
    creation_time = some (record { low = if pid == 40 then 1000 else 2000; high = 0 });
    image_name = none;
  });
  convert = λ t. some zero_time;
  utc = zero_time;
  to_local = λ t. none;
  string_printf = λ cells format arguments. format;
  allocate = λ bytes. true;
  qsort = λ entries. entries;
}

abbrev word : ProcessSnapshotEntry
word = record { key = word_key; parent_pid = 4; name = codes "WINWORD.EXE"; path = [] }

abbrev shell : ProcessSnapshotEntry
shell = record { key = shell_key; parent_pid = 40; name = codes "pwsh.exe"; path = [] }

captured : capture_processes windows ≡ some (word ∷ shell ∷ [])
unfolding capture_processes
captured = refl

two-IsSorted : IsSorted (word ∷ shell ∷ [])
unfolding compare_snapshot_entries
two-IsSorted zero zero e f h g k = absurd (omega arith)
two-IsSorted zero (suc zero) e f h g k = λ q. ground arith
two-IsSorted zero (suc (suc j)) e f h g k = absurd (ground arith)
two-IsSorted (suc zero) zero e f h g k = absurd (omega arith)
two-IsSorted (suc zero) (suc zero) e f h g k = absurd (omega arith)
two-IsSorted (suc zero) (suc (suc j)) e f h g k = absurd (ground arith)
two-IsSorted (suc (suc i)) j e f h g k = absurd (ground arith)

find_entry-IsFirst_example :
    (o : Option ℕ) × (find_entry (word ∷ shell ∷ []) shell_key ≡ some o)
    × IsFirst (word ∷ shell ∷ []) (λ x. names x shell_key) o
find_entry-IsFirst_example =
    find_entry-IsFirst (word ∷ shell ∷ []) shell_key
      (IsSorted-IsByPid (word ∷ shell ∷ []) two-IsSorted)

-- The word processor was known before.
abbrev knows_word : ProcessMonitor
knows_word = record { previous = word ∷ []; initialized = true }

one-IsByPid : IsByPid (word ∷ [])
one-IsByPid zero zero e f h g k = ground arith
one-IsByPid zero (suc j) e f h g k = absurd (ground arith)
one-IsByPid (suc i) j e f h g k = absurd (ground arith)

process_monitor_poll-expected_example :
    (process_monitor_poll windows knows_word
      ≡ some (record {
        monitor = record { previous = word ∷ shell ∷ []; initialized = true };
        pushed = expected_changes windows knows_word (word ∷ shell ∷ []);
        succeeded = true;
      }))
    × IsByPid (word ∷ shell ∷ [])
process_monitor_poll-expected_example =
    process_monitor_poll-expected windows knows_word (word ∷ shell ∷ []) captured two-IsSorted
      one-IsByPid
