-- ===== src/Telemetry/Balance.antt =====
-- src/telemetry.c: what the engine takes from the system, and what it knows of.
use trace_glass.Base.{
  ℕ, ◌+◌, ◌≡◌, ◌≢◌, refl, sym, ◌∙◌, ap, Bool, true, false, not, ◌||◌, ◌==◌, arith, if_cases,
  Bool-cases, inl, inr,
}
use trace_glass.Etw.{Host, EtwAnswers, etw_process_monitor_start}
use trace_glass.Etw.Sessions.{
  Holds, to_number, disabled-Holds, Holds-disabled, etw_process_monitor_start-Holds,
  etw_process_monitor_stop-Holds,
}
use trace_glass.NetworkMonitor.{network_monitor_initialize}
use trace_glass.Telemetry.{TelemetryEngine, initialize_telemetry, start_telemetry}

-- What the engine holds beside the trace session, added to a host.
abbrev pub with_engine : Host → TelemetryEngine → Host
with_engine base engine = record base {
  threads = base.threads + to_number engine.running;
  events = base.events + to_number (not (engine.stop_event == 0));
  startups = base.startups + to_number engine.network_monitor.winsock_initialized;
}

-- The host holds exactly what the engine knows of.
pub record IsBalanced (base : Host) (engine : TelemetryEngine) (host : Host) : Type 0 where
  pub holds : Holds (with_engine base engine) engine.etw_monitor host
  pub traced : engine.etw_monitor.enabled ≡ true → engine.running ≡ true
  pub worker : engine.running ≡ true → engine.worker_thread ≢ 0
  pub idle : engine.running ≡ false → engine.worker_thread ≡ 0
  pub stoppable : engine.running ≡ true → engine.stop_event ≢ 0
  pub available : engine.network_available ≡ engine.network_monitor.winsock_initialized

pub initialize_telemetry-IsBalanced :
    (base : Host) (winsock_status stop_event : ℕ)
    → stop_event ≢ 0
    → IsBalanced base
        (initialize_telemetry winsock_status stop_event base).0
        (initialize_telemetry winsock_status stop_event base).1
unfolding initialize_telemetry network_monitor_initialize
initialize_telemetry-IsBalanced base winsock_status stop_event valid =
    let present : (stop_event == 0) ≡ false = ground (arith, valid) in
    let one : base.events + 1 ≡ base.events + to_number (not (stop_event == 0)) =
      ap (λ b. base.events + to_number (not b)) (sym present) in
    elim (Bool-cases (winsock_status == 0)) [
      | inl up ↦
          rw (present, up)
            (record {
              holds = disabled-Holds _ _ _ refl refl refl (omega arith) one refl;
              traced = λ on. absurd (ground (arith, on));
              worker = λ on. absurd (ground (arith, on));
              idle = λ off. refl;
              stoppable = λ on. absurd (ground (arith, on));
              available = refl;
            })
      | inr down ↦
          rw (present, down)
            (record {
              holds = disabled-Holds _ _ _ refl refl refl (omega arith) one (omega arith);
              traced = λ on. absurd (ground (arith, on));
              worker = λ on. absurd (ground (arith, on));
              idle = λ off. refl;
              stoppable = λ on. absurd (ground (arith, on));
              available = refl;
            })
    ]

idle_counts :
    (base : Host) (engine : TelemetryEngine) (host : Host)
    → IsBalanced base engine host
    → engine.running ≡ false
    → (host.sessions ≡ base.sessions) × (host.traces ≡ base.traces) × (host.threads ≡ base.threads)
idle_counts base engine host b stopped =
    let off : engine.etw_monitor.enabled ≡ false = ground (arith, b.traced, stopped) in
    let (s, t, r) = Holds-disabled _ host engine.etw_monitor b.holds off in
    (s, t, r ∙ (ap (λ b. base.threads + to_number b) stopped ∙ omega arith))

pub start_telemetry-IsBalanced :
    (base : Host) (engine : TelemetryEngine) (host : Host) (w : EtwAnswers) (thread : ℕ)
    → w.allocates_stop ≡ true
    → IsBalanced base engine host
    → IsBalanced base
        (start_telemetry w thread engine host).0
        (start_telemetry w thread engine host).1
unfolding start_telemetry
start_telemetry-IsBalanced base engine host w thread frees b =
    let P : TelemetryEngine × Host × Bool → Type 0 = λ r. IsBalanced base r.0 r.1 in
    let (etw, traced, is_started) = etw_process_monitor_start w host in
    let (held, agrees) = etw_process_monitor_start-Holds w host frees in
    if_cases P (engine.stop_event == 0 || engine.running) (λ refused. b)
      (λ accepted.
        let stopped : engine.running ≡ false = ground (arith, accepted) in
        let valid : engine.stop_event ≢ 0 = ground (arith, accepted) in
        let (s, t, r) = idle_counts base engine host b stopped in
        if_cases P (thread == 0)
          (λ failed.
            let (back, quiet) =
              etw_process_monitor_stop-Holds host w.allocates_stop etw traced frees held in
            record {
              holds =
                  let (s', t', r') = Holds-disabled host _ _ back quiet in
                  disabled-Holds
                    (with_engine base (record engine { running = false; worker_thread = 0 })) _ _
                    quiet (s' ∙ s) (t' ∙ t) (omega (arith, r', r)) (back.events ∙ b.holds.events)
                    (back.startups ∙ b.holds.startups);
              traced = λ on. absurd (ground (arith, on, quiet));
              worker = λ on. absurd (ground (arith, on));
              idle = λ idle. refl;
              stoppable = λ on. absurd (ground (arith, on));
              available = b.available;
            })
          (λ made. record {
            holds = record {
              sessions = omega (arith, held.sessions, s);
              traces = omega (arith, held.traces, t);
              threads = omega (arith, held.threads, r);
              events = held.events ∙ b.holds.events;
              startups = held.startups ∙ b.holds.startups;
              trace = held.trace;
              thread = held.thread;
            };
            traced = λ on. refl;
            worker = λ on. ground (arith, made);
            idle = λ idle. absurd (ground (arith, idle));
            stoppable = λ on. valid;
            available = b.available;
          }))
