-- ===== src/Store.antt =====
-- include/event_store.h and src/event_store.c. The arrays are lists of their used cells, so
-- `event_count` and `process_count` are lengths; the capacities are what is allocated. A pointer to
-- a record is its index. `allocate` says whether `realloc` of so many bytes succeeds. Pointers to
-- the store and the event are taken as valid, so the guards against NULL are left out.
pub mod Find
pub mod Cases
pub mod Invariant
pub mod Keys
pub mod Counts
pub mod Lookup
pub mod Starts
pub mod Stops
use trace_glass.Base.{
  ℕ, zero, suc, ◌+◌, ◌-◌, ◌*◌, ◌/◌, ◌%◌, Bool, true, false, not, ◌&&◌, ◌||◌, Option, none, some,
  List, [], ◌∷◌, ◌++◌, ltb, leb, ◌==◌, if◌then◌else◌, is_some, length, get_elem?, set,
}
use trace_glass.Capacity.{word, reserve}
use trace_glass.Utils.{Text, copy_text}
use trace_glass.Events.{
  EventType, process_start, process_stop, network, alert, ProcessKey, SystemTime, TraceGlassEvent,
  zero_key, zero_time, max_path,
}

pub record ProcessRecord : Type 0 where
  pub key : ProcessKey
  pub parent : ProcessKey
  pub active : Bool
  pub name : Text
  pub parent_name : Text
  pub path : Text
  pub start_time : SystemTime
  pub stop_time : SystemTime

pub record EventStore : Type 0 where
  pub events : List TraceGlassEvent
  pub event_capacity : ℕ
  pub processes : List ProcessRecord
  pub process_capacity : ℕ
  pub active_process_count : ℕ
  pub network_count : ℕ
  pub alert_count : ℕ
  pub next_sequence : ℕ

-- `sizeof` of the two element types, in the ABI of the one supported platform.
abbrev pub event_size : ℕ
event_size = 4224

abbrev pub process_size : ℕ
process_size = 1632

unfoldable pub process_keys_match : ProcessKey → ProcessKey → Bool
process_keys_match left right =
    if not (left.pid == right.pid)
    then false
    else (left.creation_time == right.creation_time
        || left.creation_time == 0
        || right.creation_time == 0)

unfoldable pub reserve_events : (ℕ → Bool) → EventStore → ℕ → Option EventStore
unfolding reserve
reserve_events allocate store required =
    elim (reserve 256 event_size allocate store.event_capacity required) [
      | none ↦ none
      | some capacity ↦ some (record store { event_capacity = capacity })
    ]

unfoldable pub reserve_processes : (ℕ → Bool) → EventStore → ℕ → Option EventStore
unfolding reserve
reserve_processes allocate store required =
    elim (reserve 128 process_size allocate store.process_capacity required) [
      | none ↦ none
      | some capacity ↦ some (record store { process_capacity = capacity })
    ]

abbrev pub event_store_initialize : EventStore
event_store_initialize = record {
  events = [];
  event_capacity = 0;
  processes = [];
  process_capacity = 0;
  active_process_count = 0;
  network_count = 0;
  alert_count = 0;
  next_sequence = 1;
}

-- `record->key.creation_time == key.creation_time && key.creation_time != 0`
abbrev pub is_exact : ProcessRecord → ProcessKey → Bool
is_exact r key = r.key.creation_time == key.creation_time && not (key.creation_time == 0)

-- `active_match` after the round on the record at `index`.
abbrev pub next_match : ProcessRecord → ProcessKey → ℕ → Option ℕ → Option ℕ
next_match r key index active_match =
    if process_keys_match r.key key && r.active && not (is_some active_match)
    then some index
    else active_match

-- The loop of `event_store_find_process`, with `index` rounds to go.
unfoldable pub find_loop : List ProcessRecord → ProcessKey → ℕ → Option ℕ → Option ℕ
unfolding process_keys_match
find_loop processes key zero active_match = active_match
find_loop processes key (suc index) active_match = elim (get_elem? processes index) [
  | none ↦ none
  | some r ↦ elim (process_keys_match r.key key && is_exact r key) [
    | true ↦ some index
    | false ↦ find_loop processes key index (next_match r key index active_match)
  ]
]

unfoldable pub event_store_find_process : List ProcessRecord → ProcessKey → Option ℕ
unfolding find_loop
event_store_find_process processes key =
    if key.pid == 0 then none else find_loop processes key (length processes) none

abbrev pub or_else : Text → Text → Text
or_else [] old = old
or_else (c ∷ text) old = copy_text max_path (c ∷ text)

unfoldable pub update_record_from_event : ProcessRecord → TraceGlassEvent → ProcessRecord
update_record_from_event r event = record r {
  key =
      if event.process.creation_time == 0
      then r.key
      else record { pid = r.key.pid; creation_time = event.process.creation_time };
  parent = if event.parent.pid == 0 then r.parent else event.parent;
  name = or_else event.process_name r.name;
  parent_name = or_else event.parent_name r.parent_name;
  path = or_else event.executable_path r.path;
}

-- A fresh record: `ZeroMemory`, the two keys, and `update_record_from_event`.
unfoldable pub new_record : TraceGlassEvent → ProcessRecord
unfolding update_record_from_event
new_record event =
    update_record_from_event
      (record {
        key = event.process;
        parent = event.parent;
        active = false;
        name = [];
        parent_name = [];
        path = [];
        start_time = zero_time;
        stop_time = zero_time;
      })
      event

-- How the part of `event_store_add` in front of `reserve_events` ends: by a return, or not.
pub data Step : Type 0 where
  return : EventStore → Bool → Step
  proceed : EventStore → Step

unfoldable pub add_start : (ℕ → Bool) → EventStore → TraceGlassEvent → Step
unfolding update_record_from_event new_record reserve_processes
add_start allocate store event = elim (event_store_find_process store.processes event.process) [
  | some index ↦ elim (get_elem? store.processes index) [
    | none ↦ return store false
    | some r ↦
        return
          (record store {
            processes = set store.processes index (update_record_from_event r event);
          })
          true
  ]
  | none ↦ elim (reserve_processes allocate store (length store.processes + 1)) [
    | none ↦ return store false
    | some s ↦ proceed (record s {
      processes =
          s.processes
          ++ record (new_record event) { active = true; start_time = event.timestamp } ∷ [];
      active_process_count = (s.active_process_count + 1) % word;
    })
  ]
]

-- `--store->active_process_count`, behind its guard.
abbrev pub lower_active : Bool → ℕ → ℕ
lower_active active count = if active && ltb 0 count then count - 1 else count

unfoldable pub add_stop : (ℕ → Bool) → EventStore → TraceGlassEvent → Step
unfolding update_record_from_event new_record reserve_processes
add_stop allocate store event = elim (event_store_find_process store.processes event.process) [
  | some index ↦ elim (get_elem? store.processes index) [
    | none ↦ return store false
    | some r ↦
        if not r.active
        then return store true
        else proceed (record store {
          processes = set store.processes index (record (update_record_from_event r event) {
            active = false;
            stop_time = event.timestamp;
          });
          active_process_count = lower_active r.active store.active_process_count;
        })
  ]
  | none ↦ elim (reserve_processes allocate store (length store.processes + 1)) [
    | none ↦ return store false
    | some s ↦ proceed (record s {
      processes =
          s.processes
          ++ record (new_record event) { active = false; stop_time = event.timestamp } ∷ [];
      active_process_count = lower_active (new_record event).active s.active_process_count;
    })
  ]
]

-- The chain of tests on the event's type.
unfoldable pub add_by_type : EventType → (ℕ → Bool) → EventStore → TraceGlassEvent → Step
unfolding add_start add_stop
add_by_type process_start allocate store event = add_start allocate store event
add_by_type process_stop allocate store event = add_stop allocate store event
add_by_type network allocate store event =
    proceed (record store { network_count = (store.network_count + 1) % word })
add_by_type alert allocate store event =
    proceed (record store { alert_count = (store.alert_count + 1) % word })
add_by_type other allocate store event = proceed store

-- The store and the event after a call, its result, and `*accepted`.
pub record Added : Type 0 where
  pub store : EventStore
  pub event : TraceGlassEvent
  pub succeeded : Bool
  pub accepted : Bool

abbrev pub numbered : EventStore → TraceGlassEvent → TraceGlassEvent
numbered store event = record event { sequence = store.next_sequence }

unfoldable pub append_event : (ℕ → Bool) → EventStore → TraceGlassEvent → Added
unfolding reserve_events
append_event allocate store event = elim (reserve_events allocate store (length store.events + 1)) [
  | none ↦ record { store = store; event = event; succeeded = false; accepted = false }
  | some s ↦ record {
    store = record s {
      events = s.events ++ numbered s event ∷ [];
      next_sequence = (s.next_sequence + 1) % word;
    };
    event = numbered s event;
    succeeded = true;
    accepted = true;
  }
]

unfoldable pub finish : (ℕ → Bool) → TraceGlassEvent → Step → Added
unfolding append_event
finish allocate event (return store result) = record {
  store = store;
  event = event;
  succeeded = result;
  accepted = false;
}
finish allocate event (proceed store) = append_event allocate store event

-- `allocate_process` and `allocate_event` answer the calls of `realloc` for the two arrays.
unfoldable pub event_store_add : (ℕ → Bool) → (ℕ → Bool) → EventStore → TraceGlassEvent → Added
unfolding finish add_by_type
event_store_add allocate_process allocate_event store event =
    finish allocate_event event (add_by_type event.type allocate_process store event)

unfoldable pub event_store_destroy : EventStore → EventStore
event_store_destroy store = record event_store_initialize { next_sequence = 0 }
