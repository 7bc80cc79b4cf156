-- ===== src/NetworkMonitor.antt =====
-- include/network_monitor.h and src/network_monitor.c: the established TCP connections, and an event
-- for each that the last table did not have. The answers of Windows to one poll, bsearch and qsort
-- are a record of parameters. The events are in the order of the calls of `push_event`.
pub mod New
use Prim.Native.Nat.{Ordering}
use trace_glass.Base.{
  ℕ, ◌+◌, Bool, true, false, not, ◌&&◌, ◌||◌, Option, none, some, List, [], ◌∷◌, ◌++◌, ltb, ◌==◌,
  if◌then◌else◌, length, codes, is_some,
}
use trace_glass.Detection.{text, number}
use trace_glass.Events.{
  TraceGlassEvent, network, zero_event, max_path, protocol_length, address_length, state_length,
  detail_length,
}
use trace_glass.ProcessMonitor.{Windows, ToolhelpEntry, query_process_identity, query_process_name}
use trace_glass.Times.{get_local_system_time}
use trace_glass.Utils.{Text, copy_text, path_basename}

pub record NetworkConnectionKey : Type 0 where
  pub pid : ℕ
  pub local_address : ℕ
  pub remote_address : ℕ
  pub local_port : ℕ
  pub remote_port : ℕ

pub record NetworkMonitor : Type 0 where
  pub previous : List NetworkConnectionKey
  pub winsock_initialized : Bool

-- A MIB_TCPROW_OWNER_PID.
pub record TcpRow : Type 0 where
  pub state : ℕ
  pub local_addr : ℕ
  pub local_port : ℕ
  pub remote_addr : ℕ
  pub remote_port : ℕ
  pub owning_pid : ℕ

pub record Sockets : Type 0 where
  pub windows : Windows
  -- The first call of GetExtendedTcpTable: its status and the size, and the second: its status, and
  -- the rows of the table.
  pub size_status : ℕ
  pub table_size : ℕ
  pub table_status : ℕ
  pub rows : List TcpRow
  pub malloc : Bool
  pub calloc : Bool
  pub ntohs : ℕ → ℕ
  -- InetNtopW; `none` is NULL.
  pub inet_ntop : ℕ → Option Text
  pub bsearch : NetworkConnectionKey → List NetworkConnectionKey → Bool
  pub qsort : List NetworkConnectionKey → List NetworkConnectionKey

-- COMPARE_FIELD, with what follows it.
abbrev pub compare_field : ℕ → ℕ → Ordering → Ordering
compare_field left right rest =
    if ltb left right then Ordering.lt else if ltb right left then Ordering.gt else rest

unfoldable pub compare_connection_keys : NetworkConnectionKey → NetworkConnectionKey → Ordering
compare_connection_keys left right = compare_field left.pid right.pid (
    compare_field left.local_address right.local_address (
      compare_field left.local_port right.local_port (
        compare_field left.remote_address right.remote_address
          (compare_field left.remote_port right.remote_port Ordering.eq))))

abbrev pub established : ℕ
established = 5

module _ (w : Sockets) where
  unfoldable pub connection_exists : List NetworkConnectionKey → NetworkConnectionKey → Bool
  connection_exists entries key = ltb 0 (length entries) && w.bsearch key entries

  unfoldable pub address_to_string : ℕ → ℕ → Text
  address_to_string address buffer_count = elim (w.inet_ntop address) [
    | none ↦ copy_text buffer_count (codes "0.0.0.0")
    | some address_text ↦ address_text
  ]

  -- The name of the process behind a path, which is empty where none was obtained.
  abbrev pub name_behind : Text → Option Text → Text
  name_behind [] none = copy_text max_path (codes "<unknown>")
  name_behind [] (some name) = name
  name_behind (c ∷ path) name = copy_text max_path (path_basename (some (c ∷ path)))

  unfoldable pub emit_network_event : NetworkConnectionKey → TraceGlassEvent
  unfolding query_process_identity query_process_name path_basename address_to_string
      get_local_system_time
  emit_network_event key =
      let identity = query_process_identity w.windows key.pid in
      let local_address = address_to_string key.local_address address_length in
      let remote_address = address_to_string key.remote_address address_length in
      record zero_event {
        type = network;
        process = identity.key;
        executable_path = copy_text max_path identity.path;
        process_name = name_behind identity.path (query_process_name w.windows key.pid max_path);
        protocol = copy_text protocol_length (codes "TCP");
        network_state = copy_text state_length (codes "ESTABLISHED");
        local_address = local_address;
        remote_address = remote_address;
        local_port = key.local_port;
        remote_port = key.remote_port;
        timestamp = get_local_system_time w.windows.utc w.windows.to_local;
        details =
            w.windows.string_printf detail_length
              (codes "Established TCP connection; local %s:%u; remote %s:%u")
              (text local_address
                ∷ number key.local_port
                ∷ text remote_address
                ∷ number key.remote_port
                ∷ []);
      }

  unfoldable pub row_key : TcpRow → NetworkConnectionKey
  row_key row = record {
    pid = row.owning_pid;
    local_address = row.local_addr;
    remote_address = row.remote_addr;
    local_port = w.ntohs row.local_port;
    remote_port = w.ntohs row.remote_port;
  }

  -- The loop over the rows: the keys of the established connections, and the events pushed.
  unfoldable pub row_loop :
      List NetworkConnectionKey → List TcpRow → List NetworkConnectionKey × List TraceGlassEvent
  unfolding row_key connection_exists emit_network_event
  row_loop previous [] = ([], [])
  row_loop previous (row ∷ rows) =
      let (current, events) = row_loop previous rows in
      if not (row.state == established)
      then (current, events)
      else if not (connection_exists previous (row_key row))
      then (row_key row ∷ current, emit_network_event (row_key row) ∷ events)
      else (row_key row ∷ current, events)

  abbrev pub sorted_keys : List NetworkConnectionKey → List NetworkConnectionKey
  sorted_keys current = if ltb 1 (length current) then w.qsort current else current

  -- GetExtendedTcpTable, twice, and the two allocations; `none` is a return of FALSE.
  unfoldable pub tcp_table : Option (List TcpRow)
  tcp_table =
      if not (w.size_status == 122) || w.table_size == 0
      then none
      else if not w.malloc
      then none
      else if not (w.table_status == 0)
      then none
      else if ltb 0 (length w.rows) && not w.calloc
      then none
      else some w.rows

  pub record NetworkPolled : Type 0 where
    pub monitor : NetworkMonitor
    pub pushed : List TraceGlassEvent
    pub succeeded : Bool

  unfoldable pub network_monitor_poll : NetworkMonitor → NetworkPolled
  unfolding tcp_table row_loop
  network_monitor_poll monitor = elim tcp_table [
    | none ↦ record { monitor = monitor; pushed = []; succeeded = false }
    | some rows ↦
        let (current, events) = row_loop monitor.previous rows in
        record {
          monitor = record monitor { previous = sorted_keys current };
          pushed = events;
          succeeded = true;
        }
  ]

-- `status` is the result of WSAStartup.
unfoldable pub network_monitor_initialize : ℕ → NetworkMonitor × Bool
network_monitor_initialize status =
    (record { previous = []; winsock_initialized = status == 0 }, status == 0)

-- `free`, WSACleanup if the flag is set, and `ZeroMemory`; the result says whether WSACleanup is called.
unfoldable pub network_monitor_destroy : NetworkMonitor → NetworkMonitor × Bool
network_monitor_destroy monitor =
    (record { previous = []; winsock_initialized = false }, monitor.winsock_initialized)
