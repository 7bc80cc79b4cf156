-- ===== src/Tests/Etw.antt =====
-- The events of src/etw_monitor.c at concrete inputs.
use trace_glass.Base.{
  ℕ, zero, suc, ◌≡◌, ◌≢◌, ◌⊎◌, refl, true, none, some, List, [], ◌∷◌, length, if◌then◌else◌, ◌==◌,
  arith, codes,
}
use trace_glass.Etw.Callback.{
  EventRecord, start_event_id, stop_event_id, read_event_string, event_process, etw_event,
  etw_event_callback,
}
use trace_glass.Etw.Callback.Identity.{IsPossible, etw_event_callback-IsPossible, reused_pid_merges}
use trace_glass.Etw.Callback.Properties.{terminated, read_event_string-terminated}
use trace_glass.ProcessMonitor.{query_process_identity}
use trace_glass.Tests.Processes.{windows}
use trace_glass.Utils.{copy_text}

-- Names of properties that the tests tell apart by their lengths.
abbrev stop_of : List ℕ → EventRecord
stop_of created = record {
  of_provider = true;
  id = stop_event_id;
  process_id = 44;
  time_stamp = 0;
  property = λ name.
      if length name == 10
      then some created
      else if length name == 9
      then some (terminated (codes "a.exe"))
      else none;
}

abbrev old_stop : EventRecord
old_stop = stop_of (1 ∷ 0 ∷ 0 ∷ 0 ∷ 0 ∷ 0 ∷ 0 ∷ 0 ∷ [])

abbrev new_stop : EventRecord
new_stop = stop_of (208 ∷ 7 ∷ 0 ∷ 0 ∷ 0 ∷ 0 ∷ 0 ∷ 0 ∷ [])

abbrev zeros : ℕ → List ℕ
zeros zero = []
zeros (suc n) = 0 ∷ zeros n

length-zeros : (n : ℕ) → length (zeros n) ≡ n
length-zeros zero = refl
length-zeros (suc n) = ground (arith, length-zeros n)

same_number : (event_process windows old_stop).pid ≡ (event_process windows new_stop).pid
unfolding event_process
same_number = refl

time_known :
    (query_process_identity windows (event_process windows old_stop).pid).key.creation_time ≢ 0
unfolding event_process query_process_identity
time_known e = absurd (ground (arith, e))

reused_pid_merges_example : event_process windows old_stop ≡ event_process windows new_stop
reused_pid_merges_example = reused_pid_merges windows old_stop new_stop same_number time_known

pushed :
    etw_event_callback windows (zeros 2048) true old_stop
    ≡ some (etw_event windows (zeros 2048) old_stop)
unfolding etw_event_callback
pushed = refl

etw_event_callback-IsPossible_example :
    (true ≡ true)
    × (old_stop.of_provider ≡ true)
    × ((old_stop.id ≡ start_event_id) ⊎ (old_stop.id ≡ stop_event_id))
    × IsPossible
        (etw_event windows (zeros 2048) old_stop).parent
        (etw_event windows (zeros 2048) old_stop).process
etw_event_callback-IsPossible_example =
    etw_event_callback-IsPossible windows (zeros 2048) true old_stop
      (etw_event windows (zeros 2048) old_stop) pushed

read_event_string-terminated_example :
    read_event_string old_stop (zeros 2048) (codes "ImageName") 260 ≡ copy_text 260 (codes "a.exe")
read_event_string-terminated_example =
    read_event_string-terminated old_stop (zeros 2048) (codes "ImageName") 260 (codes "a.exe")
      (length-zeros 2048)
      (
        λ e. absurd (ground (arith, e)),
        (
          λ e. absurd (ground (arith, e)),
          (
            λ e. absurd (ground (arith, e)),
            (λ e. absurd (ground (arith, e)), (λ e. absurd (ground (arith, e)), tt)),
          ),
        ),
      )
      (omega arith) refl
