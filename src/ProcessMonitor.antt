-- ===== src/ProcessMonitor.antt =====
-- src/process_monitor.c: the snapshot of the running processes, and the events for what changed since
-- the last one. Windows enters as the record of its answers to one poll; the events are returned in
-- the order in which `push_event` is called for them. An outer `none` is a fault of a search.
pub mod Reconcile
use trace_glass.Base.{
  ℕ, ◌+◌, ◌*◌, ◌%◌, ◌≡◌, Bool, true, false, not, ◌&&◌, ◌||◌, Option, none, some, List, [], ◌∷◌,
  ◌++◌, ltb, leb, ◌==◌, if◌then◌else◌, length, get_elem?, codes, is_some,
}
use trace_glass.Capacity.{word}
use trace_glass.Detection.{Argument, text, number}
use trace_glass.Events.{
  TraceGlassEvent, ProcessKey, SystemTime, process_start, process_stop, zero_event, zero_key,
  max_path, detail_length,
}
use trace_glass.Snapshot.{ProcessSnapshotEntry, find_entry, find_entry_by_pid}
use trace_glass.Times.{
  FileTime, filetime_to_u64, local_systemtime_from_filetime, get_local_system_time,
}
use trace_glass.Utils.{Text, copy_text}

-- A PROCESSENTRY32W, as far as it is read.
pub record ToolhelpEntry : Type 0 where
  pub process_id : ℕ
  pub parent_process_id : ℕ
  pub exe_file : Text

-- What a handle from OpenProcess gives: the creation time of GetProcessTimes, and the image name of
-- QueryFullProcessImageNameW; `none` is FALSE.
pub record ProcessHandle : Type 0 where
  pub creation_time : Option FileTime
  pub image_name : Option Text

pub record Windows : Type 0 where
  -- CreateToolhelp32Snapshot; no entry is a failure of Process32FirstW.
  pub snapshot : Option (List ToolhelpEntry)
  pub open_process : ℕ → Option ProcessHandle
  pub convert : FileTime → Option SystemTime
  pub utc : SystemTime
  pub to_local : SystemTime → Option SystemTime
  pub string_printf : ℕ → Text → List Argument → Text
  pub allocate : ℕ → Bool
  pub qsort : List ProcessSnapshotEntry → List ProcessSnapshotEntry

pub record Identity : Type 0 where
  pub key : ProcessKey
  pub path : Text
  pub obtained : Bool

abbrev time_of : Option FileTime → ℕ
time_of none = 0
time_of (some t) = filetime_to_u64 t

abbrev path_of : Option Text → Text
path_of none = []
path_of (some path) = path

-- With a key and a path to fill in, as every caller has.
unfoldable pub query_process_identity : Windows → ℕ → Identity
unfolding filetime_to_u64
query_process_identity w pid =
    let unknown : Identity = record {
      key = record { pid = pid; creation_time = 0 };
      path = [];
      obtained = false;
    } in
    if pid == 0 then unknown else (elim (w.open_process pid) [
      | none ↦ unknown
      | some p ↦ record {
        key = record { pid = pid; creation_time = time_of p.creation_time };
        path = path_of p.image_name;
        obtained = is_some p.creation_time || is_some p.image_name;
      }
    ])

-- The loop of `query_process_name`.
unfoldable pub name_loop : ℕ → ℕ → List ToolhelpEntry → Option Text
name_loop pid name_count [] = none
name_loop pid name_count (p ∷ rest) =
    let later = name_loop pid name_count rest in
    if p.process_id == pid then some (copy_text name_count p.exe_file) else later

-- The name, `none` for FALSE.
unfoldable pub query_process_name : Windows → ℕ → ℕ → Option Text
unfolding name_loop
query_process_name w pid name_count =
    if name_count == 0
    then none
    else (elim (w.snapshot) [ none ↦ none | some entries ↦ name_loop pid name_count entries ])

unfoldable pub snapshot_entry : Windows → ToolhelpEntry → ProcessSnapshotEntry
unfolding query_process_identity
snapshot_entry w p = record {
  key = (query_process_identity w p.process_id).key;
  parent_pid = p.parent_process_id;
  name = copy_text max_path p.exe_file;
  path = (query_process_identity w p.process_id).path;
}

abbrev pub entry_size : ℕ
entry_size = 1064

-- The loop over the snapshot; `none` is a failure of `realloc`.
unfoldable pub capture_loop :
    Windows
    → ℕ
    → List ProcessSnapshotEntry
    → List ToolhelpEntry
    → Option (List ProcessSnapshotEntry)
unfolding snapshot_entry
capture_loop w capacity entries [] = some entries
capture_loop w capacity entries (p ∷ rest) =
    let grown = if capacity == 0 then 128 else capacity * 2 % word in
    let full = length entries == capacity in
    let next =
      capture_loop w (if full then grown else capacity) (entries ++ snapshot_entry w p ∷ []) rest in
    if full && not (w.allocate (grown * entry_size % word)) then none else next

unfoldable pub capture_processes : Windows → Option (List ProcessSnapshotEntry)
unfolding capture_loop
capture_processes w = elim (w.snapshot) [
  | none ↦ none
  | some [] ↦ none
  | some (p ∷ rest) ↦ elim (capture_loop w 0 [] (p ∷ rest)) [
    | none ↦ none
    | some entries ↦ some (w.qsort entries)
  ]
]

unfoldable pub timestamp_from_creation_time : Windows → ℕ → SystemTime
unfolding local_systemtime_from_filetime get_local_system_time
timestamp_from_creation_time w creation_time =
    elim (local_systemtime_from_filetime w.convert creation_time) [
      | none ↦ get_local_system_time w.utc w.to_local
      | some t ↦ t
    ]

-- `parent != NULL && (…)`: the entry found may have started the process.
abbrev pub may_be_parent : ProcessSnapshotEntry → ProcessSnapshotEntry → Bool
may_be_parent parent entry =
    parent.key.creation_time == 0
    || entry.key.creation_time == 0
    || leb parent.key.creation_time entry.key.creation_time

-- The part of an event that starts and stops share, from the parent that was found.
unfoldable pub process_event : ProcessSnapshotEntry → Option ProcessSnapshotEntry → TraceGlassEvent
process_event entry found =
    let event : TraceGlassEvent = record zero_event {
      process = entry.key;
      parent = record { pid = entry.parent_pid; creation_time = 0 };
      process_name = copy_text max_path entry.name;
      executable_path = copy_text max_path entry.path;
    } in
    elim found [
      | none ↦ event
      | some parent ↦
          if may_be_parent parent entry
          then record event { parent = parent.key; parent_name = copy_text max_path parent.name }
          else event
    ]

abbrev or_unknown : Text → Text → Text
or_unknown [] other = other
or_unknown (c ∷ s) other = c ∷ s

unfoldable pub start_event :
    Windows → Bool → ProcessSnapshotEntry → Option ProcessSnapshotEntry → TraceGlassEvent
unfolding process_event timestamp_from_creation_time
start_event w baseline entry found =
    let event = process_event entry found in
    record event {
      type = process_start;
      timestamp = timestamp_from_creation_time w entry.key.creation_time;
      details =
          w.string_printf detail_length
            (if baseline
              then codes "Discovered at startup; parent %s (PID %lu); path %s"
              else codes "Started; parent %s (PID %lu); path %s")
            (text (or_unknown event.parent_name (codes "<unknown>"))
              ∷ number event.parent.pid
              ∷ text (or_unknown event.executable_path (codes "<access denied or unavailable>"))
              ∷ []);
    }

unfoldable pub stop_event :
    Windows → ProcessSnapshotEntry → Option ProcessSnapshotEntry → TraceGlassEvent
unfolding process_event get_local_system_time
stop_event w entry found = record (process_event entry found) {
  type = process_stop;
  timestamp = get_local_system_time w.utc w.to_local;
  details =
      w.string_printf detail_length (codes "Process stopped (PID %lu)") (number entry.key.pid ∷ []);
}

-- The entry that `find_entry_by_pid` points to.
unfoldable pub found_parent : List ProcessSnapshotEntry → ℕ → Option (Option ProcessSnapshotEntry)
unfolding find_entry_by_pid
found_parent entries pid = elim (find_entry_by_pid entries pid) [
  | none ↦ none
  | some none ↦ some none
  | some (some i) ↦ some (get_elem? entries i)
]

unfoldable pub emit_start_event :
    Windows → Bool → List ProcessSnapshotEntry → ProcessSnapshotEntry → Option TraceGlassEvent
unfolding found_parent start_event
emit_start_event w baseline entries entry = elim (found_parent entries entry.parent_pid) [
  | none ↦ none
  | some parent ↦ some (start_event w baseline entry parent)
]

unfoldable pub emit_stop_event :
    Windows → List ProcessSnapshotEntry → ProcessSnapshotEntry → Option TraceGlassEvent
unfolding found_parent stop_event
emit_stop_event w entries entry = elim (found_parent entries entry.parent_pid) [
  | none ↦ none
  | some parent ↦ some (stop_event w entry parent)
]

-- A loop of `process_monitor_poll`: an event for each entry that `others` does not know.
unfoldable pub emit_missing :
    (ProcessSnapshotEntry → Option TraceGlassEvent)
    → List ProcessSnapshotEntry
    → List ProcessSnapshotEntry
    → Option (List TraceGlassEvent)
unfolding find_entry
emit_missing emit others [] = some []
emit_missing emit others (entry ∷ rest) = elim (emit_missing emit others rest) [
  | none ↦ none
  | some events ↦ elim (find_entry others entry.key) [
    | none ↦ none
    | some (some i) ↦ some events
    | some none ↦ elim (emit entry) [ none ↦ none | some event ↦ some (event ∷ events) ]
  ]
]

pub record ProcessMonitor : Type 0 where
  pub previous : List ProcessSnapshotEntry
  pub initialized : Bool

abbrev pub process_monitor_initialize : ProcessMonitor
process_monitor_initialize = record { previous = []; initialized = false }

pub record Polled : Type 0 where
  pub monitor : ProcessMonitor
  pub pushed : List TraceGlassEvent
  pub succeeded : Bool

abbrev and_stops :
    List TraceGlassEvent → Option (List TraceGlassEvent) → Option (List TraceGlassEvent)
and_stops starts none = none
and_stops starts (some stops) = some (starts ++ stops)

-- The events of one poll, from the two snapshots.
unfoldable pub changes :
    Windows → ProcessMonitor → List ProcessSnapshotEntry → Option (List TraceGlassEvent)
unfolding emit_missing emit_start_event emit_stop_event
changes w monitor current =
    elim (emit_missing (emit_start_event w (not monitor.initialized) current) monitor.previous
      current) [
        | none ↦ none
        | some starts ↦
            if monitor.initialized
            then and_stops starts
                (emit_missing (emit_stop_event w monitor.previous) current monitor.previous)
            else some starts
      ]

unfoldable pub process_monitor_poll : Windows → ProcessMonitor → Option Polled
unfolding capture_processes changes
process_monitor_poll w monitor = elim (capture_processes w) [
  | none ↦ some (record { monitor = monitor; pushed = []; succeeded = false })
  | some current ↦ elim (changes w monitor current) [
    | none ↦ none
    | some events ↦ some (record {
      monitor = record { previous = current; initialized = true };
      pushed = events;
      succeeded = true;
    })
  ]
]

unfoldable pub process_monitor_destroy : ProcessMonitor → ProcessMonitor
process_monitor_destroy monitor = process_monitor_initialize
