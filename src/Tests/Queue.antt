-- ===== src/Tests/Queue.antt =====
-- The queue of src/event_queue.c at concrete inputs.
use trace_glass.Base.{
  if◌then◌else◌, ◌≤◌, ◌≡◌, ◌≢◌, refl, true, false, some, none, [], ◌∷◌, ◌++◌, arith, ◌==◌,
}
use trace_glass.Queue.{
  Ptr, Heap, EventQueue, Machine, event_queue_initialize, push_event, pop_event, link, push_locked,
  event_queue_destroy,
}
use trace_glass.Queue.Chain.{Holds, IsFresh}
use trace_glass.Queue.Push.{Pushed, push_event-Pushed}
use trace_glass.Queue.Pop.{Popped, pop_event-Popped}
use trace_glass.Queue.Release.{AreFreed, event_queue_destroy-AreFreed}
use trace_glass.Queue.Wakeup.{
  System, Turn, push, here, next, under_way, start, IsAwake, no_lost_wakeup, IsDeaf,
  failed_post-IsDeaf,
}
use trace_glass.Tests.Data.{shell_start, shell_stop}

abbrev pub no_nodes : Heap
no_nodes p = none

abbrev pub one_node : Heap
one_node p = if p == 8 then some (record { event = shell_start; next = 0 }) else none

-- Nothing is queued yet, with a window to notify.
abbrev idle : Machine
idle = record { queue = event_queue_initialize 5 1024; heap = no_nodes; posted = [] }

abbrev pub loaded : Machine
loaded = record {
  queue = record (event_queue_initialize 5 1024) {
    head = 8;
    tail = 8;
    notification_pending = true;
  };
  heap = one_node;
  posted = (5, 1024) ∷ [];
}

idle-Holds : Holds idle.queue idle.heap []
idle-Holds = record { chain = refl; distinct = tt; tail = refl }

pub loaded-Holds : Holds loaded.queue loaded.heap ((8, shell_start) ∷ [])
loaded-Holds = record {
  chain = (refl, (λ e. absurd (ground arith)), (0, refl, refl));
  distinct = (tt, tt);
  tail = refl;
}

push_event-Pushed_example :
    (m' : Machine) × (push_event 16 shell_stop loaded ≡ some (m', true))
    × Pushed loaded (((8, shell_start) ∷ []) ++ (16, shell_stop) ∷ []) m'
push_event-Pushed_example =
    push_event-Pushed 16 shell_stop loaded ((8, shell_start) ∷ []) refl loaded-Holds
      (λ e. absurd (ground arith)) refl

pop_event-Popped_example :
    (m' : Machine) × (pop_event loaded ≡ some (m', some shell_start)) × Popped loaded 8 [] m'
pop_event-Popped_example = pop_event-Popped loaded 8 shell_start [] refl loaded-Holds

event_queue_destroy-AreFreed_example :
    (m' : Machine) × (event_queue_destroy 2 loaded ≡ some m')
    × AreFreed m'.heap ((8, shell_start) ∷ [])
    × ((a : Ptr) → IsFresh a ((8, shell_start) ∷ []) → m'.heap a ≡ loaded.heap a)
    × Holds m'.queue m'.heap []
    × (m'.queue.notification_window ≡ 0)
    × (m'.queue.initialized ≡ false)
event_queue_destroy-AreFreed_example =
    event_queue_destroy-AreFreed 2 loaded ((8, shell_start) ∷ []) refl loaded-Holds (omega arith)

-- One producer has pushed, and has not posted its message yet.
abbrev pushed_queue : EventQueue
pushed_queue = record (event_queue_initialize 5 1024) {
  head = 8;
  tail = 8;
  notification_pending = true;
}

abbrev pushed_heap : Heap
pushed_heap = elim (push_locked 8 shell_start (event_queue_initialize 5 1024) no_nodes) [
  | none ↦ no_nodes
  | some (q, h, b) ↦ h
]

abbrev after_push : System
after_push = record {
  queue = pushed_queue;
  heap = pushed_heap;
  posting = 1;
  messages = 0;
  draining = false;
}

a_push : Turn (start 5 1024 no_nodes) after_push
unfolding push_locked link
a_push = push 8 shell_start pushed_queue pushed_heap true refl

no_lost_wakeup_example :
    (under_way after_push ≤ 1) × (after_push.queue.head ≢ 0 → under_way after_push ≡ 1)
no_lost_wakeup_example =
    no_lost_wakeup 5 1024 no_nodes after_push (λ e. absurd (ground arith)) (next here a_push)

after_push-IsAwake : IsAwake after_push
after_push-IsAwake = record { window = λ e. absurd (ground arith); one = refl; heard = λ ne. refl }

failed_post-IsDeaf_example : IsDeaf (record after_push { posting = 0 })
failed_post-IsDeaf_example =
    failed_post-IsDeaf after_push (record after_push { posting = 0 }) after_push-IsAwake refl here
