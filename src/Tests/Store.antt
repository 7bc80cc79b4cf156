-- ===== src/Tests/Store.antt =====
-- The store of src/event_store.c at concrete inputs.
use trace_glass.Base.{◌≡◌, ◌≢◌, refl, true, false, none, [], ◌∷◌, arith}
use trace_glass.Store.{
  EventStore, event_store_initialize, event_store_add, event_store_find_process, process_size,
}
use trace_glass.Capacity.{reserve, grow}
use trace_glass.Capacity.Growth.{Reserved, reserve-Reserved, reserve-some}
use trace_glass.Store.Find.{Lookup, find_process-Lookup}
use trace_glass.Store.Cases.{started}
use trace_glass.Store.Invariant.{IsValid, initialize-IsValid, event_store_add-IsValid}
use trace_glass.Store.Keys.{IsUnambiguous, event_store_add-IsUnambiguous}
use trace_glass.Store.Counts.{
  IsCounted, event_store_add-IsCounted, Appends, event_store_add-Appends, network_refused_miscounts,
}
use trace_glass.Store.Starts.{Running, accepted_start-Running, start_twice}
use trace_glass.Store.Stops.{IsStopped, accepted_stop-IsStopped, stop_twice}
use trace_glass.Tests.Data.{shell_key, shell_start, shell_stop, connection, granted, denied}

-- The store after the start of the shell.
abbrev one_running : EventStore
one_running = (event_store_add granted granted event_store_initialize shell_start).store

one_running-IsValid : IsValid one_running
one_running-IsValid =
    event_store_add-IsValid granted granted event_store_initialize shell_start initialize-IsValid

no_process-IsUnambiguous : IsUnambiguous []
no_process-IsUnambiguous i j r x ne g = absurd (ground arith)

start_accepted :
    (event_store_add granted granted event_store_initialize shell_start).accepted ≡ true
unfolding event_store_add event_store_find_process
start_accepted = refl

stop_accepted : (event_store_add granted granted one_running shell_stop).accepted ≡ true
unfolding event_store_add event_store_find_process
stop_accepted = refl

event_store_add-IsValid_example :
    IsValid (event_store_add granted denied one_running shell_stop).store
event_store_add-IsValid_example =
    event_store_add-IsValid granted denied one_running shell_stop one_running-IsValid

event_store_add-IsUnambiguous_example :
    IsUnambiguous
      (event_store_add granted granted event_store_initialize shell_start).store.processes
event_store_add-IsUnambiguous_example =
    event_store_add-IsUnambiguous granted granted event_store_initialize shell_start
      no_process-IsUnambiguous

find_process-Lookup_example :
    Lookup
      (started shell_start ∷ [])
      shell_key
      (event_store_find_process (started shell_start ∷ []) shell_key)
find_process-Lookup_example =
    find_process-Lookup (started shell_start ∷ []) shell_key (λ e. absurd (ground arith))

empty-IsCounted : IsCounted event_store_initialize
empty-IsCounted = record { networks = refl; alerts = refl }

event_store_add-IsCounted_example :
    IsCounted (event_store_add granted granted event_store_initialize connection).store
unfolding event_store_add
event_store_add-IsCounted_example =
    event_store_add-IsCounted granted granted event_store_initialize connection initialize-IsValid
      empty-IsCounted refl

event_store_add-Appends_example :
    Appends one_running connection (event_store_add granted granted one_running connection)
event_store_add-Appends_example = event_store_add-Appends granted granted one_running connection

network_refused_miscounts_example :
    ¬ IsCounted (event_store_add granted denied event_store_initialize connection).store
unfolding event_store_add
network_refused_miscounts_example =
    network_refused_miscounts granted denied event_store_initialize connection initialize-IsValid
      empty-IsCounted refl refl

accepted_start-Running_example : Running one_running.processes shell_key (started shell_start)
accepted_start-Running_example =
    accepted_start-Running granted granted event_store_initialize shell_start refl
      (λ e. absurd (ground arith)) start_accepted

start_twice_example :
    let again = event_store_add denied denied one_running shell_start in
    (again.succeeded ≡ true)
    × (again.accepted ≡ false)
    × (again.store ≡ record one_running { processes = again.store.processes })
start_twice_example =
    start_twice granted granted denied denied event_store_initialize shell_start shell_start refl
      refl refl (λ e. absurd (ground arith)) start_accepted

accepted_stop-IsStopped_example :
    IsStopped (event_store_add granted granted one_running shell_stop).store.processes shell_key
accepted_stop-IsStopped_example =
    accepted_stop-IsStopped granted granted one_running shell_stop refl (λ e. absurd (ground arith))
      (λ e. absurd (ground arith)) stop_accepted

stop_twice_example :
    let t = (event_store_add granted granted one_running shell_stop).store in
    event_store_add denied denied t shell_stop
    ≡ record { store = t; event = shell_stop; succeeded = true; accepted = false }
stop_twice_example =
    stop_twice granted granted denied denied one_running shell_stop shell_stop refl refl refl
      (λ e. absurd (ground arith)) (λ e. absurd (ground arith)) stop_accepted

reserve-Reserved_example : Reserved process_size 128 200 256
unfolding reserve grow
reserve-Reserved_example = reserve-Reserved 128 process_size 128 200 256 granted refl

reserve-some_example : reserve 128 process_size granted 128 200 ≢ none
reserve-some_example =
    reserve-some 128 process_size granted 128 200 400 (omega arith) (omega arith) (omega arith)
      (omega arith) (omega arith) (λ bytes. refl)
