-- ===== src/Etw/Callback.antt =====
-- `etw_event_callback` of src/etw_monitor.c, and the reads of an event's properties. An event is what
-- its header says and the bytes of its properties, `none` where TdhGetPropertySize or TdhGetProperty
-- fails. The result is the event that is pushed, if one is.
pub mod Properties
pub mod Identity
use trace_glass.Base.{
  ℕ, zero, suc, ◌+◌, ◌*◌, Bool, true, false, not, ◌&&◌, ◌||◌, Option, none, some, List, [], ◌∷◌,
  ◌++◌, ltb, leb, ◌==◌, if◌then◌else◌, length, set, drop, codes,
}
use trace_glass.Detection.{text, number}
use trace_glass.Events.{
  TraceGlassEvent, ProcessKey, SystemTime, process_start, process_stop, zero_event, zero_key,
  max_path, detail_length,
}
use trace_glass.ProcessMonitor.{Windows, query_process_identity, query_process_name}
use trace_glass.Times.{local_systemtime_from_filetime, get_local_system_time}
use trace_glass.Utils.{Text, copy_text, path_basename}

-- An EVENT_RECORD, as far as it is read.
pub record EventRecord : Type 0 where
  -- Whether the provider is TRACEGLASS_KERNEL_PROCESS_PROVIDER.
  pub of_provider : Bool
  pub id : ℕ
  pub process_id : ℕ
  pub time_stamp : ℕ
  pub property : Text → Option (List ℕ)

abbrev pub start_event_id : ℕ
start_event_id = 1

abbrev pub stop_event_id : ℕ
stop_event_id = 2

-- The bytes written to the buffer; `none` is FALSE.
unfoldable pub read_event_property : EventRecord → Text → ℕ → Option (List ℕ)
read_event_property r name buffer_capacity = elim (r.property name) [
  | none ↦ none
  | some bytes ↦
      if length bytes == 0 || ltb buffer_capacity (length bytes) then none else some bytes
]

-- The number that little-endian bytes hold.
abbrev pub from_bytes : List ℕ → ℕ
from_bytes [] = 0
from_bytes (b ∷ bytes) = b + 256 * from_bytes bytes

-- One of the two attempts at a number of so many bytes.
unfoldable pub read_number : EventRecord → ℕ → Text → Option ℕ
unfolding read_event_property
read_number r width name = elim (read_event_property r name width) [
  | none ↦ none
  | some bytes ↦ if leb width (length bytes) then some (from_bytes bytes) else none
]

-- `read_event_dword` and `read_event_qword`, which differ in the width.
unfoldable pub read_event_number : EventRecord → ℕ → Text → Text → ℕ
unfolding read_number
read_event_number r width first second = elim (read_number r width first) [
  | some value ↦ value
  | none ↦ elim (read_number r width second) [ some value ↦ value | none ↦ 0 ]
]

abbrev pub read_event_dword : EventRecord → Text → Text → ℕ
read_event_dword r = read_event_number r 4

abbrev pub read_event_qword : EventRecord → Text → Text → ℕ
read_event_qword r = read_event_number r 8

-- The WCHARs that bytes hold.
abbrev pub wide : List ℕ → List ℕ
wide [] = []
wide (low ∷ []) = []
wide (low ∷ high ∷ bytes) = (low + 256 * high) ∷ wide bytes

-- The text in front of the first zero cell.
abbrev pub until_zero : List ℕ → Text
until_zero [] = []
until_zero (c ∷ cells) = elim (c == 0) [ true ↦ [] | false ↦ c ∷ until_zero cells ]

-- `buffer` is what the 2048 bytes on the stack hold before the call.
unfoldable pub read_event_string : EventRecord → List ℕ → Text → ℕ → Text
unfolding read_event_property
read_event_string r buffer name destination_count =
    elim (read_event_property r name (length buffer)) [
      | none ↦ []
      | some bytes ↦
          if ltb (length bytes) 2
          then []
          else copy_text destination_count
              (until_zero (wide (set (set (bytes ++ drop (length bytes) buffer) 2046 0) 2047 0)))
    ]

abbrev or_text : Text → Text → Text
or_text [] other = other
or_text (c ∷ s) other = c ∷ s

abbrev name_or_none : Option Text → Text
name_or_none none = []
name_or_none (some name) = name

-- The key of the event's process: the event's own fields, then what the running process says.
unfoldable pub event_process : Windows → EventRecord → ProcessKey
unfolding query_process_identity read_event_number
event_process w r =
    let own = read_event_dword r (codes "ProcessID") (codes "ProcessId") in
    let pid = if own == 0 then r.process_id else own in
    let created = read_event_qword r (codes "CreateTime") (codes "CreationTime") in
    let queried = (query_process_identity w pid).key.creation_time in
    record { pid = pid; creation_time = if queried == 0 then created else queried }

unfoldable pub event_name : Windows → Text → Text → ℕ → Text
unfolding query_process_name path_basename
event_name w image path pid = elim image [
  | c ∷ rest ↦ copy_text max_path (path_basename (some (c ∷ rest)))
  | [] ↦ elim path [
    | c ∷ rest ↦ copy_text max_path (path_basename (some (c ∷ rest)))
    | [] ↦ name_or_none (query_process_name w pid max_path)
  ]
]

-- The parent's key and name.
unfoldable pub event_parent : Windows → EventRecord → ProcessKey → ProcessKey × Text
unfolding query_process_identity query_process_name path_basename read_event_number
event_parent w r process =
    let pid = read_event_dword r (codes "ParentProcessID") (codes "ParentProcessId") in
    let identity = query_process_identity w pid in
    if pid == 0
    then (zero_key, [])
    else if not (process.creation_time == 0)
        && not (identity.key.creation_time == 0)
        && ltb process.creation_time identity.key.creation_time
    then (record { pid = identity.key.pid; creation_time = 0 }, [])
    else (
      identity.key,
      elim (identity.path) [
        | c ∷ rest ↦ copy_text max_path (path_basename (some (c ∷ rest)))
        | [] ↦ name_or_none (query_process_name w identity.key.pid max_path)
      ],
    )

unfoldable pub event_timestamp : Windows → ℕ → SystemTime
unfolding local_systemtime_from_filetime get_local_system_time
event_timestamp w time_stamp = elim (local_systemtime_from_filetime w.convert time_stamp) [
  | none ↦ get_local_system_time w.utc w.to_local
  | some t ↦ t
]

unfoldable pub etw_event : Windows → List ℕ → EventRecord → TraceGlassEvent
unfolding event_process event_name event_parent event_timestamp read_event_string
etw_event w buffer r =
    let process = event_process w r in
    let image = read_event_string r buffer (codes "ImageName") max_path in
    let path = copy_text max_path (query_process_identity w process.pid).path in
    let (parent, parent_name) = event_parent w r process in
    let event : TraceGlassEvent = record zero_event {
      process = process;
      parent = parent;
      timestamp = event_timestamp w r.time_stamp;
      process_name = event_name w image path process.pid;
      parent_name = parent_name;
      executable_path = path;
    } in
    if r.id == start_event_id
    then record event {
      type = process_start;
      details =
          w.string_printf detail_length
            (codes "Process start observed through ETW; parent %s (PID %lu); path %s")
            (text (or_text parent_name (codes "<unknown>"))
              ∷ number parent.pid
              ∷ text (or_text path (codes "<unavailable>"))
              ∷ []);
    }
    else record event {
      type = process_stop;
      details =
          w.string_printf detail_length (codes "Process stop observed through ETW (PID %lu)")
            (number process.pid ∷ []);
    }

unfoldable pub etw_event_callback : Windows → List ℕ → Bool → EventRecord → Option TraceGlassEvent
unfolding etw_event
etw_event_callback w buffer running r =
    if not running || not r.of_provider
    then none
    else if not (r.id == start_event_id) && not (r.id == stop_event_id)
    then none
    else some (etw_event w buffer r)
