-- ===== src/Tests/Data.antt =====
-- The inputs that the tests share.
use trace_glass.Base.{ℕ, Bool, true, false, codes}
use trace_glass.Events.{
  TraceGlassEvent, ProcessKey, process_start, process_stop, network, zero_event,
}

abbrev pub word_key : ProcessKey
word_key = record { pid = 40; creation_time = 1000 }

abbrev pub shell_key : ProcessKey
shell_key = record { pid = 44; creation_time = 2000 }

abbrev pub shell_start : TraceGlassEvent
shell_start = record zero_event {
  type = process_start;
  process = shell_key;
  parent = word_key;
  process_name = codes "pwsh.exe";
  parent_name = codes "WINWORD.EXE";
}

abbrev pub shell_stop : TraceGlassEvent
shell_stop = record shell_start { type = process_stop }

abbrev pub connection : TraceGlassEvent
connection = record shell_start { type = network; remote_port = 443 }

abbrev pub granted : ℕ → Bool
granted bytes = true

abbrev pub denied : ℕ → Bool
denied bytes = false
