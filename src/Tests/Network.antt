-- ===== src/Tests/Network.antt =====
-- The poll of src/network_monitor.c at concrete inputs.
use trace_glass.Base.{◌≡◌, refl, true, none, some, [], ◌∷◌, codes}
use trace_glass.Events.{zero_time}
use trace_glass.ProcessMonitor.{Windows}
use trace_glass.NetworkMonitor.{
  NetworkMonitor, TcpRow, Sockets, sorted_keys, tcp_table, network_monitor_poll,
}
use trace_glass.NetworkMonitor.New.{
  IsSorted, Finds, IsSortOf, contains, established_keys, new_events, network_monitor_poll-new,
}

abbrev windows : Windows
windows = record {
  snapshot = none;
  open_process = λ pid. none;
  convert = λ t. none;
  utc = zero_time;
  to_local = λ t. none;
  string_printf = λ cells format arguments. format;
  allocate = λ bytes. true;
  qsort = λ entries. entries;
}

abbrev web : TcpRow
web = record {
  state = 5;
  local_addr = 1;
  local_port = 5000;
  remote_addr = 2;
  remote_port = 443;
  owning_pid = 44;
}

abbrev listening : TcpRow
listening = record web { state = 2 }

-- bsearch is a search from the front, and qsort leaves the one key of the table where it is.
abbrev sockets : Sockets
sockets = record {
  windows = windows;
  size_status = 122;
  table_size = 64;
  table_status = 0;
  rows = listening ∷ web ∷ [];
  malloc = true;
  calloc = true;
  ntohs = λ port. port;
  inet_ntop = λ address. some (codes "10.0.0.1");
  bsearch = λ key entries. contains entries key;
  qsort = λ entries. entries;
}

abbrev fresh : NetworkMonitor
fresh = record { previous = []; winsock_initialized = true }

finds : Finds sockets
finds entries key sorted = refl

table : tcp_table sockets ≡ some (listening ∷ web ∷ [])
unfolding tcp_table
table = refl

web-IsSorted : IsSorted (established_keys sockets (listening ∷ web ∷ []))
unfolding established_keys
web-IsSorted = (tt, tt)

web-IsSortOf :
    IsSortOf
      (established_keys sockets (listening ∷ web ∷ []))
      (sockets.qsort (established_keys sockets (listening ∷ web ∷ [])))
web-IsSortOf = record { in_order = web-IsSorted; same = λ key. refl }

network_monitor_poll-new_example :
    (network_monitor_poll sockets fresh ≡ record {
      monitor = record fresh {
        previous = sorted_keys sockets (established_keys sockets (listening ∷ web ∷ []));
      };
      pushed =
          new_events sockets (fresh.previous) (established_keys sockets (listening ∷ web ∷ []));
      succeeded = true;
    })
    × IsSortOf
        (established_keys sockets (listening ∷ web ∷ []))
        (sorted_keys sockets (established_keys sockets (listening ∷ web ∷ [])))
network_monitor_poll-new_example =
    network_monitor_poll-new sockets fresh (listening ∷ web ∷ []) table finds tt web-IsSortOf
