-- ===== src/Etw.antt =====
-- include/etw_monitor.h and the lifecycle of src/etw_monitor.c. What the system holds for the program
-- is counted: `StartTraceW` makes a session and its stop ends it, `OpenTraceW` and `CreateThread` give
-- handles that `CloseTrace` and `CloseHandle` take back. The answers of one call are a record.
pub mod Callback
pub mod Sessions
use trace_glass.Base.{ℕ, ◌+◌, ◌-◌, Bool, true, false, not, ◌==◌, if◌then◌else◌}

-- What the system holds for the program.
pub record Host : Type 0 where
  pub sessions : ℕ
  pub traces : ℕ
  pub threads : ℕ
  pub events : ℕ
  -- Calls of WSAStartup without their WSACleanup.
  pub startups : ℕ

-- A handle that is 0 is NULL; 0 is also a session that is not there.
pub record EtwProcessMonitor : Type 0 where
  pub session_handle : ℕ
  pub trace_handle : ℕ
  pub thread : ℕ
  pub running : Bool
  pub enabled : Bool
  pub last_error : ℕ

abbrev pub invalid_processtrace_handle : ℕ
invalid_processtrace_handle = 0xFFFF_FFFF_FFFF_FFFF

abbrev pub error_outofmemory : ℕ
error_outofmemory = 14

-- What `ZeroMemory` leaves.
abbrev pub zero_monitor : EtwProcessMonitor
zero_monitor = record {
  session_handle = 0;
  trace_handle = 0;
  thread = 0;
  running = false;
  enabled = false;
  last_error = 0;
}

-- `allocates` and `allocates_stop` say whether `create_trace_properties` succeeds, the second where
-- the session is to be stopped.
pub record EtwAnswers : Type 0 where
  pub allocates : Bool
  pub start_status : ℕ
  pub session : ℕ
  pub enable_status : ℕ
  pub trace : ℕ
  pub thread : ℕ
  pub error : ℕ
  pub allocates_stop : Bool

abbrev pub stop_session : Bool → Host → Host
stop_session allocates host =
    if allocates then record host { sessions = host.sessions - 1 } else host

-- The steps of `etw_process_monitor_start` behind a consumer that is open.
unfoldable pub start_consumer :
    EtwAnswers → EtwProcessMonitor → Host → EtwProcessMonitor × Host × Bool
start_consumer w monitor host =
    if w.thread == 0
    then (
      record monitor {
        running = false;
        last_error = w.error;
        trace_handle = invalid_processtrace_handle;
        session_handle = 0;
      },
      stop_session w.allocates_stop (record host { traces = host.traces - 1 }),
      false,
    )
    else (
      record monitor { running = true; thread = w.thread; enabled = true; last_error = 0 },
      record host { threads = host.threads + 1 },
      true,
    )

unfoldable pub etw_process_monitor_start : EtwAnswers → Host → EtwProcessMonitor × Host × Bool
unfolding start_consumer
etw_process_monitor_start w host =
    let fresh = record zero_monitor { trace_handle = invalid_processtrace_handle } in
    let opened = record host { sessions = host.sessions + 1 } in
    if not w.allocates
    then (record fresh { last_error = error_outofmemory }, host, false)
    else if not (w.start_status == 0)
    then (record fresh { last_error = w.start_status }, host, false)
    else if not (w.enable_status == 0)
    then (record fresh { last_error = w.enable_status }, stop_session true opened, false)
    else if w.trace == invalid_processtrace_handle
    then (record fresh { last_error = w.error }, stop_session true opened, false)
    else start_consumer w (record fresh { session_handle = w.session; trace_handle = w.trace })
        (record opened { traces = host.traces + 1 })

-- `allocates` says whether `create_trace_properties` succeeds. The consumer's thread ends when its
-- trace is closed. ControlTraceW, CloseTrace and CloseHandle are taken to work; the code reads none of
-- their results.
unfoldable pub etw_process_monitor_stop : Bool → EtwProcessMonitor → Host → EtwProcessMonitor × Host
etw_process_monitor_stop allocates monitor host =
    if not monitor.enabled
    then (monitor, host)
    else (let stopped = stop_session allocates host in
        (
          zero_monitor,
          record stopped {
            traces =
                if monitor.trace_handle == invalid_processtrace_handle
                then host.traces
                else host.traces - 1;
            threads = if monitor.thread == 0 then host.threads else host.threads - 1;
          },
        ))
