-- ===== src/Telemetry/Life.antt =====
-- src/telemetry.c: every life of an engine.
use trace_glass.Base.{◌≡◌, ◌≢◌, true, ℕ, arith}
use trace_glass.Etw.{Host, EtwAnswers}
use trace_glass.Etw.Sessions.{disabled-Holds}
use trace_glass.Telemetry.{
  TelemetryEngine, initialize_telemetry, start_telemetry, shutdown_telemetry,
}
use trace_glass.Telemetry.Balance.{
  IsBalanced, initialize_telemetry-IsBalanced, start_telemetry-IsBalanced,
}
use trace_glass.Telemetry.Shutdown.{Released, shutdown_telemetry-Released}

-- An engine is initialized, and then started and shut down in any order. `create_trace_properties`
-- does not fail while a session is to be stopped.
pub data Life (base : Host) : TelemetryEngine → Host → Type 0 where
  initialized :
      (winsock_status stop_event : ℕ)
      → stop_event ≢ 0
      → Life base
          (initialize_telemetry winsock_status stop_event base).0
          (initialize_telemetry winsock_status stop_event base).1
  started :
      {engine : TelemetryEngine} {host : Host} (w : EtwAnswers) (thread : ℕ)
      → w.allocates_stop ≡ true
      → Life base engine host
      → Life base (start_telemetry w thread engine host).0 (start_telemetry w thread engine host).1
  shut_down :
      {engine : TelemetryEngine} {host : Host}
      → Life base engine host
      → Life base (shutdown_telemetry true engine host).0 (shutdown_telemetry true engine host).1

Released-IsBalanced :
    (base : Host) (engine : TelemetryEngine) (host : Host)
    → Released base engine host
    → IsBalanced base engine host
Released-IsBalanced base engine host r = record {
  holds =
      disabled-Holds _ host engine.etw_monitor r.untraced r.sessions r.traces
        (ground (arith, r.threads, r.stopped)) (ground (arith, r.events, r.stop_event))
        (ground (arith, r.startups, r.winsock));
  traced = λ on. absurd (ground (arith, on, r.untraced));
  worker = λ on. absurd (ground (arith, on, r.stopped));
  idle = λ off. r.worker;
  stoppable = λ on. absurd (ground (arith, on, r.stopped));
  available = ground (arith, r.available, r.winsock);
}

Life-IsBalanced :
    {base : Host} {engine : TelemetryEngine} {host : Host}
    → Life base engine host
    → IsBalanced base engine host
Life-IsBalanced {base} (initialized winsock_status stop_event valid) =
    initialize_telemetry-IsBalanced base winsock_status stop_event valid
Life-IsBalanced {base} (started {engine} {host} w thread frees life) =
    start_telemetry-IsBalanced base engine host w thread frees (Life-IsBalanced life)
Life-IsBalanced {base} (shut_down {engine} {host} life) =
    Released-IsBalanced base _ _
      (shutdown_telemetry-Released base engine host (Life-IsBalanced life))

-- Whatever Windows answers, and however often an engine that was initialized is started and shut
-- down, a shutdown gives the system back all that the engine took: no session, trace, thread handle,
-- event or start of Winsock is left or given back twice, and the engine holds no handle. The memory
-- for the trace's properties is taken to be there whenever a session is to be stopped.
pub Life-Released :
    {base : Host} {engine : TelemetryEngine} {host : Host}
    → Life base engine host
    → Released base (shutdown_telemetry true engine host).0 (shutdown_telemetry true engine host).1
Life-Released {base} {engine} {host} life =
    shutdown_telemetry-Released base engine host (Life-IsBalanced life)
