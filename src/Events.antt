-- ===== src/Events.antt =====
-- include/events.h and src/events.c: the event record, and the names of its enumerations. A WCHAR
-- array field is the text that it holds (Utils). `unlisted` is an enumeration's value outside of its
-- enumerators, which the `default` branches handle.
use trace_glass.Base.{ℕ, [], Bool, true, false, codes}
use trace_glass.Utils.{Text}

pub data EventType : Type 0 where
  process_start process_stop network file registry alert unlisted : EventType

pub data AlertSeverity : Type 0 where
  none info low medium high unlisted : AlertSeverity

pub record ProcessKey : Type 0 where
  pub pid : ℕ
  pub creation_time : ℕ

-- The SYSTEMTIME of the Windows headers.
pub record SystemTime : Type 0 where
  pub year : ℕ
  pub month : ℕ
  pub day_of_week : ℕ
  pub day : ℕ
  pub hour : ℕ
  pub minute : ℕ
  pub second : ℕ
  pub milliseconds : ℕ

pub record TraceGlassEvent : Type 0 where
  pub type : EventType
  pub severity : AlertSeverity
  pub sequence : ℕ
  pub process : ProcessKey
  pub parent : ProcessKey
  pub timestamp : SystemTime
  pub process_name : Text
  pub parent_name : Text
  pub executable_path : Text
  pub protocol : Text
  pub local_address : Text
  pub remote_address : Text
  pub network_state : Text
  pub rule_name : Text
  pub local_port : ℕ
  pub remote_port : ℕ
  pub details : Text

-- The numbers of cells of the WCHAR arrays.
abbrev pub max_path : ℕ
max_path = 260

abbrev pub detail_length : ℕ
detail_length = 1024

abbrev pub protocol_length : ℕ
protocol_length = 16

abbrev pub address_length : ℕ
address_length = 64

abbrev pub state_length : ℕ
state_length = 32

abbrev pub rule_length : ℕ
rule_length = 96

-- What `ZeroMemory` leaves.
abbrev pub zero_key : ProcessKey
zero_key = record { pid = 0; creation_time = 0 }

abbrev pub zero_time : SystemTime
zero_time = record {
  year = 0;
  month = 0;
  day_of_week = 0;
  day = 0;
  hour = 0;
  minute = 0;
  second = 0;
  milliseconds = 0;
}

abbrev pub zero_event : TraceGlassEvent
zero_event = record {
  type = process_start;
  severity = none;
  sequence = 0;
  process = zero_key;
  parent = zero_key;
  timestamp = zero_time;
  process_name = [];
  parent_name = [];
  executable_path = [];
  protocol = [];
  local_address = [];
  remote_address = [];
  network_state = [];
  rule_name = [];
  local_port = 0;
  remote_port = 0;
  details = [];
}

abbrev pub is_process_start : EventType → Bool
is_process_start process_start = true
is_process_start _ = false

abbrev pub is_process_stop : EventType → Bool
is_process_stop process_stop = true
is_process_stop _ = false

abbrev pub is_network : EventType → Bool
is_network network = true
is_network _ = false

abbrev pub is_alert : EventType → Bool
is_alert alert = true
is_alert _ = false

unfoldable pub event_type_name : EventType → Text
event_type_name process_start = codes "PROCESS START"
event_type_name process_stop = codes "PROCESS STOP"
event_type_name network = codes "NETWORK"
event_type_name file = codes "FILE"
event_type_name registry = codes "REGISTRY"
event_type_name alert = codes "ALERT"
event_type_name unlisted = codes "UNKNOWN"

unfoldable pub event_category_name : EventType → Text
event_category_name process_start = codes "Process"
event_category_name process_stop = codes "Process"
event_category_name network = codes "Network"
event_category_name file = codes "File"
event_category_name registry = codes "Registry"
event_category_name alert = codes "Alert"
event_category_name unlisted = codes "Unknown"

unfoldable pub event_export_name : EventType → Text
event_export_name process_start = codes "process_start"
event_export_name process_stop = codes "process_stop"
event_export_name network = codes "network_connection"
event_export_name file = codes "file"
event_export_name registry = codes "registry"
event_export_name alert = codes "alert"
event_export_name unlisted = codes "unknown"

unfoldable pub alert_severity_name : AlertSeverity → Text
alert_severity_name info = codes "INFO"
alert_severity_name low = codes "LOW"
alert_severity_name medium = codes "MEDIUM"
alert_severity_name high = codes "HIGH"
alert_severity_name none = codes "NONE"
alert_severity_name unlisted = codes "NONE"
