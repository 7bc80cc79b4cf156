-- ===== src/Telemetry.antt =====
-- include/telemetry.h and src/telemetry.c: the engine that owns the two monitors, the trace session
-- and the worker. A handle that is 0 is NULL, and `worker_thread` that of the worker. The worker ends
-- after its stop event is set, so that the wait for it returns.

pub mod Balance
pub mod Shutdown
pub mod Life
use trace_glass.Base.{ℕ, ◌+◌, ◌-◌, Bool, true, false, not, ◌||◌, codes, ◌==◌, if◌then◌else◌}
use trace_glass.Etw.{
  Host, EtwProcessMonitor, EtwAnswers, zero_monitor, etw_process_monitor_start,
  etw_process_monitor_stop,
}
use trace_glass.NetworkMonitor.{NetworkMonitor, network_monitor_initialize, network_monitor_destroy}
use trace_glass.ProcessMonitor.{ProcessMonitor, process_monitor_initialize, process_monitor_destroy}
use trace_glass.Utils.{Text}

pub record TelemetryEngine : Type 0 where
  pub worker_thread : ℕ
  pub stop_event : ℕ
  pub process_monitor : ProcessMonitor
  pub network_monitor : NetworkMonitor
  pub etw_monitor : EtwProcessMonitor
  pub network_available : Bool
  pub running : Bool

abbrev pub release_winsock : NetworkMonitor → Host → Host
unfolding network_monitor_destroy
release_winsock monitor host =
    if (network_monitor_destroy monitor).1
    then record host { startups = host.startups - 1 }
    else host

-- `winsock_status` and `stop_event` are the results of WSAStartup and CreateEventW.
unfoldable pub initialize_telemetry : ℕ → ℕ → Host → TelemetryEngine × Host × Bool
unfolding network_monitor_initialize network_monitor_destroy
initialize_telemetry winsock_status stop_event host =
    let (monitor, available) = network_monitor_initialize winsock_status in
    let started = if available then record host { startups = host.startups + 1 } else host in
    let engine : TelemetryEngine = record {
      worker_thread = 0;
      stop_event = stop_event;
      process_monitor = process_monitor_initialize;
      network_monitor = monitor;
      etw_monitor = zero_monitor;
      network_available = available;
      running = false;
    } in
    if stop_event == 0
    then if available
      then (
        record engine { network_monitor = (network_monitor_destroy monitor).0 },
        release_winsock monitor started,
        false,
      )
      else (engine, started, false)
    else (engine, record started { events = host.events + 1 }, true)

-- `thread` is the result of CreateThread for the worker.
unfoldable pub start_telemetry :
    EtwAnswers → ℕ → TelemetryEngine → Host → TelemetryEngine × Host × Bool
unfolding etw_process_monitor_start etw_process_monitor_stop
start_telemetry w thread engine host =
    if engine.stop_event == 0 || engine.running
    then (engine, host, false)
    else (let (etw, traced, is_started) = etw_process_monitor_start w host in
        if thread == 0
        then (let (stopped, released) = etw_process_monitor_stop w.allocates_stop etw traced in
            (
              record engine { worker_thread = 0; etw_monitor = stopped; running = false },
              released,
              false,
            ))
        else (
          record engine { worker_thread = thread; etw_monitor = etw; running = true },
          record traced { threads = traced.threads + 1 },
          true,
        ))

-- The branch of `shutdown_telemetry` for a running engine.
unfoldable pub stop_worker : TelemetryEngine → Host → TelemetryEngine × Host
stop_worker engine host =
    if engine.running
    then if engine.worker_thread == 0 then (record engine { running = false }, host) else (
      record engine { worker_thread = 0; running = false },
      record host { threads = host.threads - 1 },
    )
    else (engine, host)

-- From the monitors on: what is destroyed once the worker and the session are stopped.
unfoldable pub release_monitors : TelemetryEngine → Host → TelemetryEngine × Host
unfolding process_monitor_destroy network_monitor_destroy
release_monitors engine host =
    let network =
      if engine.network_available
      then (network_monitor_destroy engine.network_monitor).0
      else engine.network_monitor in
    let released =
      if engine.network_available then release_winsock engine.network_monitor host else host in
    (
      record engine {
        process_monitor = process_monitor_destroy engine.process_monitor;
        network_monitor = network;
        network_available = false;
        stop_event = 0;
      },
      if engine.stop_event == 0 then released else record released { events = released.events - 1 },
    )

-- `allocates` says whether `create_trace_properties` succeeds.
unfoldable pub shutdown_telemetry : Bool → TelemetryEngine → Host → TelemetryEngine × Host
unfolding stop_worker etw_process_monitor_stop release_monitors
shutdown_telemetry allocates engine host =
    let (idle, joined) = stop_worker engine host in
    let (etw, untraced) = etw_process_monitor_stop allocates idle.etw_monitor joined in
    release_monitors (record idle { etw_monitor = etw }) untraced

unfoldable pub telemetry_etw_enabled : TelemetryEngine → Bool
telemetry_etw_enabled engine = engine.etw_monitor.enabled

unfoldable pub telemetry_etw_error : TelemetryEngine → ℕ
telemetry_etw_error engine = engine.etw_monitor.last_error

unfoldable pub telemetry_mode_name : TelemetryEngine → Text
unfolding telemetry_etw_enabled
telemetry_mode_name engine =
    if telemetry_etw_enabled engine then codes "ETW" else codes "Win32 Fallback"
