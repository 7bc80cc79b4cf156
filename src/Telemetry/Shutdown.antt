-- ===== src/Telemetry/Shutdown.antt =====
-- src/telemetry.c: what a shutdown gives back to the system.
use trace_glass.Base.{
  if◌then◌else◌, ◌+◌, ◌≡◌, refl, sym, ◌∙◌, ap, Bool, true, false, not, ◌==◌, arith, if_cases,
}
use trace_glass.Etw.{Host, etw_process_monitor_stop}
use trace_glass.Etw.Sessions.{Holds, to_number, Holds-disabled, etw_process_monitor_stop-Holds}
use trace_glass.NetworkMonitor.{NetworkMonitor, network_monitor_destroy}
use trace_glass.Telemetry.{
  release_winsock, TelemetryEngine, shutdown_telemetry, stop_worker, release_monitors,
}
use trace_glass.Telemetry.Balance.{with_engine, IsBalanced}

-- The host as it was before, and an engine with nothing left to release.
pub record Released (base : Host) (engine : TelemetryEngine) (host : Host) : Type 0 where
  pub sessions : host.sessions ≡ base.sessions
  pub traces : host.traces ≡ base.traces
  pub threads : host.threads ≡ base.threads
  pub events : host.events ≡ base.events
  pub startups : host.startups ≡ base.startups
  pub untraced : engine.etw_monitor.enabled ≡ false
  pub winsock : engine.network_monitor.winsock_initialized ≡ false
  pub available : engine.network_available ≡ false
  pub stopped : engine.running ≡ false
  pub worker : engine.worker_thread ≡ 0
  pub stop_event : engine.stop_event ≡ 0

-- The part of `release_monitors` for the network monitor.
record IsReleased (base host released : Host) (monitor : NetworkMonitor) : Type 0 where
  sessions : released.sessions ≡ host.sessions
  traces : released.traces ≡ host.traces
  threads : released.threads ≡ host.threads
  events : released.events ≡ host.events
  startups : released.startups ≡ base.startups
  winsock : monitor.winsock_initialized ≡ false

release_winsock-IsReleased :
    (base host : Host) (monitor : NetworkMonitor) (available : Bool)
    → available ≡ monitor.winsock_initialized
    → host.startups ≡ base.startups + to_number monitor.winsock_initialized
    → IsReleased base host
        (if available then release_winsock monitor host else host)
        (if available then (network_monitor_destroy monitor).0 else monitor)
unfolding network_monitor_destroy
release_winsock-IsReleased base host monitor true same u =
    let one = u ∙ ap (λ b. base.startups + to_number b) (sym same) in
    rw⁻¹ same (record {
      sessions = refl;
      traces = refl;
      threads = refl;
      events = refl;
      startups = omega (arith, one);
      winsock = refl;
    })
release_winsock-IsReleased base host monitor false same u =
    let none_left = u ∙ ap (λ b. base.startups + to_number b) (sym same) in
    record {
      sessions = refl;
      traces = refl;
      threads = refl;
      events = refl;
      startups = omega (arith, none_left);
      winsock = sym same;
    }

release_monitors-Released :
    (base : Host) (engine : TelemetryEngine) (host : Host)
    → Holds (record (with_engine base engine) { threads = base.threads }) engine.etw_monitor host
    → engine.etw_monitor.enabled ≡ false
    → engine.network_available ≡ engine.network_monitor.winsock_initialized
    → engine.running ≡ false
    → engine.worker_thread ≡ 0
    → Released base (release_monitors engine host).0 (release_monitors engine host).1
unfolding release_monitors
release_monitors-Released base engine host h off available stopped worker =
    let (s, t, r) = Holds-disabled _ host engine.etw_monitor h off in
    let n =
      release_winsock-IsReleased base host engine.network_monitor engine.network_available available
        h.startups in
    let P : Host → Type 0 = λ left. Released base (release_monitors engine host).0 left in
    let done : (left : Host)
        → left.sessions ≡ base.sessions
        → left.traces ≡ base.traces
        → left.threads ≡ base.threads
        → left.events ≡ base.events
        → left.startups ≡ base.startups
        → P left =
      λ left s' t' r' e' u'. record {
        sessions = s';
        traces = t';
        threads = r';
        events = e';
        startups = u';
        untraced = off;
        winsock = n.winsock;
        available = refl;
        stopped = stopped;
        worker = worker;
        stop_event = refl;
      } in
    if_cases P (engine.stop_event == 0)
      (λ gone.
        let e = h.events ∙ ap (λ b. base.events + to_number (not b)) gone in
        done _ (n.sessions ∙ s) (n.traces ∙ t) (n.threads ∙ r) (n.events ∙ (e ∙ omega arith))
          n.startups)
      (λ there.
        let e = n.events ∙ (h.events ∙ ap (λ b. base.events + to_number (not b)) there) in
        done _ (n.sessions ∙ s) (n.traces ∙ t) (n.threads ∙ r) (omega (arith, e)) n.startups)

-- The end of a shutdown, once the worker is stopped.
after_worker-Released :
    (base : Host) (engine : TelemetryEngine) (host : Host)
    → Holds (record (with_engine base engine) { threads = base.threads }) engine.etw_monitor host
    → engine.network_available ≡ engine.network_monitor.winsock_initialized
    → engine.running ≡ false
    → engine.worker_thread ≡ 0
    → let (etw, untraced) = etw_process_monitor_stop true engine.etw_monitor host in
      let r = release_monitors (record engine { etw_monitor = etw }) untraced in
      Released base r.0 r.1
after_worker-Released base engine host h available stopped worker =
    let (etw, untraced) = etw_process_monitor_stop true engine.etw_monitor host in
    let (released, quiet) = etw_process_monitor_stop-Holds _ true engine.etw_monitor host refl h in
    release_monitors-Released base (record engine { etw_monitor = etw }) untraced released quiet
      available stopped worker

-- Whenever a balanced engine is shut down, the system holds what it held before the engine was
-- initialized.
pub shutdown_telemetry-Released :
    (base : Host) (engine : TelemetryEngine) (host : Host)
    → IsBalanced base engine host
    → Released base (shutdown_telemetry true engine host).0 (shutdown_telemetry true engine host).1
unfolding shutdown_telemetry stop_worker
shutdown_telemetry-Released base engine host b =
    let Q : TelemetryEngine × Host → Type 0 = λ r.
      let (etw, untraced) = etw_process_monitor_stop true r.0.etw_monitor r.1 in
      let q = release_monitors (record r.0 { etw_monitor = etw }) untraced in
      Released base q.0 q.1 in
    if_cases Q (engine.running)
      (λ on.
        if_cases Q (engine.worker_thread == 0) (λ gone. absurd (ground (arith, gone, b.worker on)))
          (λ there.
            let one =
              b.holds.threads
              ∙ ap (λ r. base.threads + to_number r + to_number engine.etw_monitor.enabled) on in
            after_worker-Released base (record engine { worker_thread = 0; running = false }) _
              (record {
                sessions = b.holds.sessions;
                traces = b.holds.traces;
                threads = omega (arith, one);
                events = b.holds.events;
                startups = b.holds.startups;
                trace = b.holds.trace;
                thread = b.holds.thread;
              })
              b.available refl refl))
      (λ off.
        let none' =
          b.holds.threads
          ∙ ap (λ r. base.threads + to_number r + to_number engine.etw_monitor.enabled) off in
        after_worker-Released base engine host
          (record {
            sessions = b.holds.sessions;
            traces = b.holds.traces;
            threads = omega (arith, none');
            events = b.holds.events;
            startups = b.holds.startups;
            trace = b.holds.trace;
            thread = b.holds.thread;
          })
          b.available off (b.idle off))
