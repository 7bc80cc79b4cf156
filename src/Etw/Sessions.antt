-- ===== src/Etw/Sessions.antt =====
-- src/etw_monitor.c: what a start of the trace session takes from the system, and what its stop gives
-- back.
use trace_glass.Base.{
  ℕ, ◌+◌, ◌≡◌, ◌≢◌, refl, ◌∙◌, ap, Bool, true, false, not, ◌==◌, arith, if_cases,
}
use trace_glass.Etw.{
  Host, EtwProcessMonitor, EtwAnswers, zero_monitor, invalid_processtrace_handle, start_consumer,
  etw_process_monitor_start, etw_process_monitor_stop,
}

abbrev pub to_number : Bool → ℕ
to_number true = 1
to_number false = 0

-- A host that holds a session, a trace and a thread more than another if the monitor is enabled, and
-- the same otherwise.
pub record Holds (base : Host) (monitor : EtwProcessMonitor) (host : Host) : Type 0 where
  pub sessions : host.sessions ≡ base.sessions + to_number monitor.enabled
  pub traces : host.traces ≡ base.traces + to_number monitor.enabled
  pub threads : host.threads ≡ base.threads + to_number monitor.enabled
  pub events : host.events ≡ base.events
  pub startups : host.startups ≡ base.startups
  pub trace : monitor.enabled ≡ true → monitor.trace_handle ≢ invalid_processtrace_handle
  pub thread : monitor.enabled ≡ true → monitor.thread ≢ 0

-- A monitor that is not enabled, and a host with the counts of the base.
pub disabled-Holds :
    (base host : Host) (monitor : EtwProcessMonitor)
    → monitor.enabled ≡ false
    → host.sessions ≡ base.sessions
    → host.traces ≡ base.traces
    → host.threads ≡ base.threads
    → host.events ≡ base.events
    → host.startups ≡ base.startups
    → Holds base monitor host
disabled-Holds base host monitor off s t r e u = record {
  sessions = ground (arith, off, s);
  traces = ground (arith, off, t);
  threads = ground (arith, off, r);
  events = e;
  startups = u;
  trace = λ on. absurd (ground (arith, on, off));
  thread = λ on. absurd (ground (arith, on, off));
}

-- A disabled monitor holds nothing.
pub Holds-disabled :
    (base host : Host) (monitor : EtwProcessMonitor)
    → Holds base monitor host
    → monitor.enabled ≡ false
    → (host.sessions ≡ base.sessions) × (host.traces ≡ base.traces) × (host.threads ≡ base.threads)
Holds-disabled base host monitor h off =
    (ground (arith, h.sessions, off), ground (arith, h.traces, off), ground (arith, h.threads, off))

start_consumer-Holds :
    (w : EtwAnswers) (monitor : EtwProcessMonitor) (base host : Host)
    → w.allocates_stop ≡ true
    → monitor.enabled ≡ false
    → monitor.trace_handle ≢ invalid_processtrace_handle
    → host.sessions ≡ base.sessions + 1
    → host.traces ≡ base.traces + 1
    → host.threads ≡ base.threads
    → host.events ≡ base.events
    → host.startups ≡ base.startups
    → Holds base (start_consumer w monitor host).0 (start_consumer w monitor host).1
      × ((start_consumer w monitor host).0.enabled ≡ (start_consumer w monitor host).2)
unfolding start_consumer
start_consumer-Holds w monitor base host frees off valid s t r e u =
    let P : EtwProcessMonitor × Host × Bool → Type 0 =
      λ r. Holds base r.0 r.1 × (r.0.enabled ≡ r.2) in
    if_cases P (w.thread == 0)
      (λ failed.
        rw frees (disabled-Holds base _ _ off (omega (arith, s)) (omega (arith, t)) r e u, off))
      (λ fine. (
        record {
          sessions = s;
          traces = t;
          threads = omega (arith, r);
          events = e;
          startups = u;
          trace = λ on. valid;
          thread = λ on. ground (arith, fine);
        },
        refl,
      ))

-- A start that fails leaves nothing behind, and one that succeeds leaves an enabled monitor, where
-- `create_trace_properties` does not fail while a session is to be stopped.
pub etw_process_monitor_start-Holds :
    (w : EtwAnswers) (host : Host)
    → w.allocates_stop ≡ true
    → Holds host (etw_process_monitor_start w host).0 (etw_process_monitor_start w host).1
      × ((etw_process_monitor_start w host).0.enabled ≡ (etw_process_monitor_start w host).2)
unfolding etw_process_monitor_start
etw_process_monitor_start-Holds w host frees =
    let P : EtwProcessMonitor × Host × Bool → Type 0 =
      λ r. Holds host r.0 r.1 × (r.0.enabled ≡ r.2) in
    if_cases P (not w.allocates)
      (λ failed. (disabled-Holds host host _ refl refl refl refl refl refl, refl))
      (λ allocated.
        if_cases P (not (w.start_status == 0))
          (λ failed. (disabled-Holds host host _ refl refl refl refl refl refl, refl))
          (λ started.
            if_cases P (not (w.enable_status == 0))
              (λ failed. (disabled-Holds host _ _ refl (omega arith) refl refl refl refl, refl))
              (λ enabled.
                if_cases P (w.trace == invalid_processtrace_handle)
                  (λ failed. (disabled-Holds host _ _ refl (omega arith) refl refl refl refl, refl))
                  (λ valid.
                    start_consumer-Holds w
                      (record zero_monitor { session_handle = w.session; trace_handle = w.trace })
                      host _ frees refl (ground (arith, valid)) refl refl refl refl refl))))

-- A stop gives back what the start took.
pub etw_process_monitor_stop-Holds :
    (base : Host) (allocates : Bool) (monitor : EtwProcessMonitor) (host : Host)
    → allocates ≡ true
    → Holds base monitor host
    → Holds base
        (etw_process_monitor_stop allocates monitor host).0
        (etw_process_monitor_stop allocates monitor host).1
      × ((etw_process_monitor_stop allocates monitor host).0.enabled ≡ false)
unfolding etw_process_monitor_stop
etw_process_monitor_stop-Holds base allocates monitor host frees h =
    if_cases (λ (r : EtwProcessMonitor × Host). Holds base r.0 r.1 × (r.0.enabled ≡ false))
      (not monitor.enabled) (λ off. (h, ground (arith, off)))
      (λ enabled.
        let on : monitor.enabled ≡ true = ground (arith, enabled) in
        let valid : (monitor.trace_handle == invalid_processtrace_handle) ≡ false =
          ground (arith, h.trace on) in
        let thread : (monitor.thread == 0) ≡ false = ground (arith, h.thread on) in
        let s : host.sessions ≡ base.sessions + 1 =
          h.sessions ∙ ap (λ b. base.sessions + to_number b) on in
        let t : host.traces ≡ base.traces + 1 = h.traces ∙ ap (λ b. base.traces + to_number b) on in
        let r : host.threads ≡ base.threads + 1 =
          h.threads ∙ ap (λ b. base.threads + to_number b) on in
        rw (frees, valid, thread)
          (
            disabled-Holds base _ zero_monitor refl (omega (arith, s)) (omega (arith, t))
                (omega (arith, r)) h.events h.startups,
            refl,
          ))

-- If `create_trace_properties` fails in the stop of an enabled monitor, the session that its start
-- made is left in the system, and a further stop does nothing, since the monitor has forgotten it.
pub etw_process_monitor_stop_leaks :
    (base : Host) (monitor : EtwProcessMonitor) (host : Host) (allocates : Bool)
    → Holds base monitor host
    → monitor.enabled ≡ true
    → let (stopped, left) = etw_process_monitor_stop false monitor host in
      (left.sessions ≡ base.sessions + 1)
      × (etw_process_monitor_stop allocates stopped left ≡ (stopped, left))
unfolding etw_process_monitor_stop
etw_process_monitor_stop_leaks base monitor host allocates h on =
    rw on (h.sessions ∙ ap (λ b. base.sessions + to_number b) on, refl)
