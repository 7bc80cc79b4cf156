-- ===== src/Queue.antt =====
-- include/event_queue.h and src/event_queue.c: a linked list of heap nodes behind one lock. An
-- address is a number and 0 is NULL; `malloc` enters as the address that it returns. What runs
-- between EnterCriticalSection and LeaveCriticalSection is one step. The outer `none` is an access
-- through an address that holds no node. The queue's own address is taken as valid.
pub mod Chain
pub mod Push
pub mod Pop
pub mod Release
pub mod Wakeup
use trace_glass.Base.{
  ℕ, zero, suc, Bool, true, false, not, ◌&&◌, Option, none, some, List, [], ◌∷◌, ◌++◌, ◌==◌,
  if◌then◌else◌,
}
use trace_glass.Events.{TraceGlassEvent}

abbrev pub Ptr : Type 0
Ptr = ℕ

pub record EventNode : Type 0 where
  pub event : TraceGlassEvent
  pub next : Ptr

abbrev pub Heap : Type 0
Heap = Ptr → Option EventNode

unfoldable pub write : Heap → Ptr → Option EventNode → Heap
write h p n q = if p == q then n else h q

pub record EventQueue : Type 0 where
  pub head : Ptr
  pub tail : Ptr
  pub notification_window : ℕ
  pub notification_message : ℕ
  pub notification_pending : Bool
  pub initialized : Bool

-- The queue, the heap that holds its nodes, and the calls of PostMessageW so far.
pub record Machine : Type 0 where
  pub queue : EventQueue
  pub heap : Heap
  pub posted : List (ℕ × ℕ)

abbrev pub event_queue_initialize : ℕ → ℕ → EventQueue
event_queue_initialize window message = record {
  head = 0;
  tail = 0;
  notification_window = window;
  notification_message = message;
  notification_pending = false;
  initialized = true;
}

unfoldable pub event_queue_set_window : ℕ → EventQueue → EventQueue
event_queue_set_window window q =
    if q.initialized then record q { notification_window = window } else q

-- The node behind the last one: the heap and the two ends of the list after it.
unfoldable pub link : Ptr → EventQueue → Heap → Option (EventQueue × Heap)
unfolding write
link node q h =
    if q.tail == 0 then some (record q { head = node; tail = node }, h) else (elim (h q.tail) [
      | none ↦ none
      | some last ↦
          some (record q { tail = node }, write h q.tail (some (record last { next = node })))
    ])

-- The critical section of `push_event`, with `should_notify`.
unfoldable pub push_locked :
    Ptr → TraceGlassEvent → EventQueue → Heap → Option (EventQueue × Heap × Bool)
push_locked node event q h =
    elim (link node q (write h node (some (record { event = event; next = 0 })))) [
      | none ↦ none
      | some (linked, g) ↦
          some (record linked { notification_pending = true }, g, not linked.notification_pending)
    ]

-- `if (should_notify && notification_window != NULL) PostMessageW(…)`
abbrev pub post : Bool → EventQueue → List (ℕ × ℕ) → List (ℕ × ℕ)
post should_notify q posted =
    if should_notify && not (q.notification_window == 0)
    then posted ++ (q.notification_window, q.notification_message) ∷ []
    else posted

-- `node` is what `malloc` returns.
unfoldable pub push_event : Ptr → TraceGlassEvent → Machine → Option (Machine × Bool)
unfolding push_locked
push_event node event m =
    if not m.queue.initialized
    then some (m, false)
    else if node == 0
    then some (m, false)
    else (elim (push_locked node event m.queue m.heap) [
      | none ↦ none
      | some (q, h, should_notify) ↦
          some (record { queue = q; heap = h; posted = post should_notify m.queue m.posted }, true)
    ])

-- The critical section of `pop_event`, and the release of the node behind it.
unfoldable pub pop_locked : EventQueue → Heap → Option (EventQueue × Heap × Option TraceGlassEvent)
pop_locked q h =
    if q.head == 0
    then some (record q { notification_pending = false }, h, none)
    else (elim (h q.head) [
      | none ↦ none
      | some node ↦ some (
        record q { head = node.next; tail = if node.next == 0 then 0 else q.tail },
        write h q.head none,
        some node.event,
      )
    ])

unfoldable pub pop_event : Machine → Option (Machine × Option TraceGlassEvent)
unfolding pop_locked
pop_event m =
    if not m.queue.initialized then some (m, none) else (elim (pop_locked m.queue m.heap) [
      | none ↦ none
      | some (q, h, event) ↦ some (record m { queue = q; heap = h }, event)
    ])

-- `while (node != NULL)` of `event_queue_destroy`, on fuel; `none` is a fault, or no fuel left.
unfoldable pub free_nodes : ℕ → Ptr → Heap → Option Heap
unfolding write
free_nodes zero node h = none
free_nodes (suc fuel) node h = elim (node == 0) [
  | true ↦ some h
  | false ↦ elim (h node) [ none ↦ none | some n ↦ free_nodes fuel n.next (write h node none) ]
]

unfoldable pub event_queue_destroy : ℕ → Machine → Option Machine
unfolding free_nodes
event_queue_destroy fuel m =
    if not m.queue.initialized then some m else (elim (free_nodes fuel m.queue.head m.heap) [
      | none ↦ none
      | some h ↦ some (record m {
        queue = record (m.queue) {
          head = 0;
          tail = 0;
          notification_window = 0;
          initialized = false;
        };
        heap = h;
      })
    ])
