-- ===== src/Queue/Pop.antt =====
-- `pop_event` of src/event_queue.c on the list of queued nodes: the oldest comes first, and its node
-- is released.
use trace_glass.Base.{
  ◌≡◌, ◌≢◌, refl, ◌∙◌, ap, true, false, none, some, [], ◌∷◌, ◌==◌, arith, if◌then◌else◌,
}
use trace_glass.Events.{TraceGlassEvent}
use trace_glass.Queue.Chain.{Cells, Chain, last_ptr, Holds, write-DoAgree, Chain-frame}
use trace_glass.Queue.{Ptr, EventNode, Heap, write, Machine, pop_event}

-- What a call of `pop_event` that returns an event leaves.
pub record Popped (m : Machine) (node : Ptr) (xs : Cells) (m' : Machine) : Type 0 where
  pub holds : Holds m'.queue m'.heap xs
  pub freed : m'.heap node ≡ none
  pub pending : m'.queue.notification_pending ≡ m.queue.notification_pending
  pub posted : m'.posted ≡ m.posted
  pub initialized : m'.queue.initialized ≡ true

tail-rest :
    (t p a q : Ptr) (e : TraceGlassEvent) (h : Heap) (xs : Cells)
    → t ≡ last_ptr ((a, e) ∷ xs)
    → Chain h q xs
    → (if q == 0 then 0 else t) ≡ last_ptr xs
tail-rest t p a q e h [] at c = ground arith
tail-rest t p a q e h ((b, f) ∷ xs) at (same, ne, r) =
    let full : (q == 0) ≡ false = ground arith in rw full at

pop_event-eq :
    (m : Machine) (node : EventNode)
    → m.queue.initialized ≡ true
    → m.queue.head ≢ 0
    → m.heap m.queue.head ≡ some node
    → pop_event m
      ≡ some (
        record m {
          queue = record (m.queue) {
            head = node.next;
            tail = if node.next == 0 then 0 else m.queue.tail;
          };
          heap = write m.heap m.queue.head none;
        },
        some node.event,
      )
unfolding pop_event
pop_event-eq m node ready valid read =
    let full : (m.queue.head == 0) ≡ false = ground arith in simp (ready, full, read)

-- `pop_event` on an initialized queue that holds events returns the oldest, releases its node, and
-- leaves the others as they were.
pub pop_event-Popped :
    (m : Machine) (node : Ptr) (event : TraceGlassEvent) (xs : Cells)
    → m.queue.initialized ≡ true
    → Holds m.queue m.heap ((node, event) ∷ xs)
    → (m' : Machine) × (pop_event m ≡ some (m', some event)) × Popped m node xs m'
unfolding write
pop_event-Popped m node event xs ready v =
    let (at, ne, (q, read, rest)) = v.chain in
    let read' : m.heap m.queue.head ≡ some (record { event = event; next = q }) =
      ap (m.heap) at ∙ read in
    (
      record m {
        queue = record (m.queue) { head = q; tail = if q == 0 then 0 else m.queue.tail };
        heap = write m.heap m.queue.head none;
      },
      pop_event-eq m _ ready (ground arith) read',
      record {
        holds = record {
          chain =
              Chain-frame m.heap _ q xs (rw at (write-DoAgree m.heap node none xs v.distinct.0))
                rest;
          distinct = v.distinct.1;
          tail = tail-rest m.queue.tail m.queue.head node q event m.heap xs v.tail rest;
        };
        freed = ground arith;
        pending = refl;
        posted = refl;
        initialized = ready;
      },
    )

-- `pop_event` on an initialized, empty queue returns FALSE; it only clears the pending flag.
pub pop_event_empty :
    (m : Machine)
    → m.queue.initialized ≡ true
    → Holds m.queue m.heap []
    → pop_event m
      ≡ some (record m { queue = record (m.queue) { notification_pending = false } }, none)
unfolding pop_event
pop_event_empty m ready v =
    let empty : (m.queue.head == 0) ≡ true = ground (arith, v.chain) in simp (ready, empty)
