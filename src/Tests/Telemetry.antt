-- ===== src/Tests/Telemetry.antt =====
-- The lifecycles of src/telemetry.c and src/etw_monitor.c at concrete inputs.
use trace_glass.Base.{ℕ, ◌+◌, ◌≡◌, ◌≢◌, refl, true, false, arith}
use trace_glass.Etw.{
  Host, EtwAnswers, EtwProcessMonitor, etw_process_monitor_start, etw_process_monitor_stop,
}
use trace_glass.Etw.Sessions.{
  Holds, etw_process_monitor_start-Holds, etw_process_monitor_stop_leaks,
}
use trace_glass.Telemetry.{initialize_telemetry, start_telemetry, shutdown_telemetry}
use trace_glass.Telemetry.Shutdown.{Released}
use trace_glass.Telemetry.Life.{initialized, started, Life-Released}

abbrev fresh_host : Host
fresh_host = record { sessions = 0; traces = 0; threads = 0; events = 0; startups = 0 }

abbrev all_granted : EtwAnswers
all_granted = record {
  allocates = true;
  start_status = 0;
  session = 3;
  enable_status = 0;
  trace = 5;
  thread = 9;
  error = 0;
  allocates_stop = true;
}

abbrev stop_event : ℕ
stop_event = 4

event_made : stop_event ≢ 0
event_made e = absurd (ground (arith, e))

Life-Released_example :
    Released fresh_host
      (shutdown_telemetry true
        (start_telemetry all_granted 11
          (initialize_telemetry 0 stop_event fresh_host).0
          (initialize_telemetry 0 stop_event fresh_host).1).0
        (start_telemetry all_granted 11
          (initialize_telemetry 0 stop_event fresh_host).0
          (initialize_telemetry 0 stop_event fresh_host).1).1).0
      (shutdown_telemetry true
        (start_telemetry all_granted 11
          (initialize_telemetry 0 stop_event fresh_host).0
          (initialize_telemetry 0 stop_event fresh_host).1).0
        (start_telemetry all_granted 11
          (initialize_telemetry 0 stop_event fresh_host).0
          (initialize_telemetry 0 stop_event fresh_host).1).1).1
Life-Released_example =
    Life-Released (started all_granted 11 refl (initialized 0 stop_event event_made))

abbrev enabled_monitor : EtwProcessMonitor
enabled_monitor = (etw_process_monitor_start all_granted fresh_host).0

abbrev traced_host : Host
traced_host = (etw_process_monitor_start all_granted fresh_host).1

enabled_monitor-Holds : Holds fresh_host enabled_monitor traced_host
enabled_monitor-Holds = (etw_process_monitor_start-Holds all_granted fresh_host refl).0

is_enabled : enabled_monitor.enabled ≡ true
unfolding etw_process_monitor_start
is_enabled = refl

etw_process_monitor_stop_leaks_example :
    let (stopped, left) = etw_process_monitor_stop false enabled_monitor traced_host in
    (left.sessions ≡ 0 + 1) × (etw_process_monitor_stop true stopped left ≡ (stopped, left))
etw_process_monitor_stop_leaks_example =
    etw_process_monitor_stop_leaks fresh_host enabled_monitor traced_host true enabled_monitor-Holds
      is_enabled
