-- ===== src/Queue/Push.antt =====
-- `push_event` of src/event_queue.c on the list of queued nodes: an event goes behind the others.
use trace_glass.Base.{
  inr, inl, ◌⊎◌, ◌≡◌, ◌≢◌, refl, sym, ◌∙◌, ap, true, false, not, none, some, [], ◌∷◌, ◌++◌, ◌==◌,
  arith,
}
use trace_glass.Events.{TraceGlassEvent}
use trace_glass.Queue.Chain.{
  Cells, last_ptr, Holds, write-DoAgree, Chain-frame, Chain-IsFresh, AreDistinct-concat,
  last_ptr-concat, Chain-last, Chain-link,
}
use trace_glass.Queue.{
  Ptr, EventNode, Heap, write, EventQueue, Machine, link, push_locked, post, push_event,
}

-- A link keeps all of the queue but its two ends.
record IsLinked (q : EventQueue) (xs : Cells) (r : EventQueue) (g : Heap) : Type 0 where
  holds : Holds r g xs
  pending : r.notification_pending ≡ q.notification_pending
  window : r.notification_window ≡ q.notification_window
  message : r.notification_message ≡ q.notification_message
  initialized : r.initialized ≡ q.initialized

link-full :
    (node t : Ptr) (q : EventQueue) (g : Heap) (n : EventNode)
    → q.tail ≡ t
    → t ≢ 0
    → g t ≡ some n
    → link node q g ≡ some (record q { tail = node }, write g t (some (record n { next = node })))
unfolding link
link-full node t q g n at ne read =
    let full : (q.tail == 0) ≡ false = ground arith in
    let read' : g q.tail ≡ some n = ap g at ∙ read in
    rw (full, link, read')
      (ap (λ u. some (record q { tail = node }, write g u (some (record n { next = node })))) at)

module _ (node : Ptr) (event : TraceGlassEvent) (q : EventQueue) (h : Heap) (valid : node ≢ 0)
    (unused : h node ≡ none) where
  abbrev with_node : Heap
  with_node = write h node (some (record { event = event; next = 0 }))

  link-IsLinked :
      (xs : Cells)
      → Holds q h xs
      → (r : EventQueue) × (g : Heap) × (link node q with_node ≡ some (r, g))
        × IsLinked q (xs ++ (node, event) ∷ []) r g
  unfolding link write
  link-IsLinked [] v =
      let empty : (q.tail == 0) ≡ true = ground (arith, v.tail) in
      (
        record q { head = node; tail = node },
        with_node,
        rw (empty, link) refl,
        record {
          holds = record {
            chain = (refl, valid, (0, ground arith, refl));
            distinct = (tt, tt);
            tail = refl;
          };
          pending = refl;
          window = refl;
          message = refl;
          initialized = refl;
        },
      )
  link-IsLinked (x ∷ xs) v =
      let (ne, (last, at)) = Chain-last h q.head x xs v.chain in
      let full : (q.tail == 0) ≡ false = ground (arith, v.tail) in
      let fresh = Chain-IsFresh h q.head node (x ∷ xs) v.chain unused in
      let same = write-DoAgree h node (some (record { event = event; next = 0 })) (x ∷ xs) fresh in
      let read : with_node (last_ptr (x ∷ xs)) ≡ some (record { event = last; next = 0 }) =
        ground arith in
      (
        record q { tail = node },
        write with_node (last_ptr (x ∷ xs)) (some (record { event = last; next = node })),
        link-full node (last_ptr (x ∷ xs)) q with_node _ v.tail ne read,
        record {
          holds = record {
            chain =
                Chain-link with_node q.head node event last x xs
                  (Chain-frame h with_node q.head (x ∷ xs) same v.chain) v.distinct read valid fresh
                  (ground arith);
            distinct = AreDistinct-concat (x ∷ xs) node event fresh v.distinct;
            tail = sym (last_ptr-concat (x ∷ xs) node event);
          };
          pending = refl;
          window = refl;
          message = refl;
          initialized = refl;
        },
      )

-- What a successful call of `push_event` leaves.
pub record Pushed (m : Machine) (ys : Cells) (m' : Machine) : Type 0 where
  pub holds : Holds m'.queue m'.heap ys
  pub pending : m'.queue.notification_pending ≡ true
  pub posted : m'.posted ≡ post (not m.queue.notification_pending) m.queue m.posted
  pub window : m'.queue.notification_window ≡ m.queue.notification_window
  pub initialized : m'.queue.initialized ≡ true

push_locked-eq :
    (node : Ptr) (event : TraceGlassEvent) (q r : EventQueue) (h g : Heap)
    → link node q (write h node (some (record { event = event; next = 0 }))) ≡ some (r, g)
    → push_locked node event q h
      ≡ some (record r { notification_pending = true }, g, not r.notification_pending)
unfolding push_locked
push_locked-eq node event q r h g linked = rw (linked, push_locked)

push_event-eq :
    (node : Ptr) (event : TraceGlassEvent) (m : Machine) (r : EventQueue) (g : Heap)
    → m.queue.initialized ≡ true
    → node ≢ 0
    → link node m.queue (write m.heap node (some (record { event = event; next = 0 })))
      ≡ some (r, g)
    → push_event node event m
      ≡ some (
        record {
          queue = record r { notification_pending = true };
          heap = g;
          posted = post (not r.notification_pending) m.queue m.posted;
        },
        true,
      )
unfolding push_event
push_event-eq node event m r g ready valid linked =
    let there : (node == 0) ≡ false = ground arith in
    simp (ready, there, push_locked-eq node event m.queue r m.heap g linked)

-- On an initialized queue, given an unused address by `malloc`, `push_event` returns TRUE, and the
-- queue holds the event behind those it held. The queue is pending then, and the notification
-- window was posted to exactly if it was not pending before and the window is not NULL.
pub push_event-Pushed :
    (node : Ptr) (event : TraceGlassEvent) (m : Machine) (xs : Cells)
    → m.queue.initialized ≡ true
    → Holds m.queue m.heap xs
    → node ≢ 0
    → m.heap node ≡ none
    → (m' : Machine) × (push_event node event m ≡ some (m', true))
      × Pushed m (xs ++ (node, event) ∷ []) m'
push_event-Pushed node event m xs ready v valid unused =
    let (r, g, e, linked) = link-IsLinked node event m.queue m.heap valid unused xs v in
    (
      record {
        queue = record r { notification_pending = true };
        heap = g;
        posted = post (not r.notification_pending) m.queue m.posted;
      },
      push_event-eq node event m r g ready valid e,
      record {
        holds = record {
          chain = linked.holds.chain;
          distinct = linked.holds.distinct;
          tail = linked.holds.tail;
        };
        pending = refl;
        posted = ap (λ b. post (not b) m.queue m.posted) linked.pending;
        window = linked.window;
        initialized = linked.initialized ∙ ready;
      },
    )

-- `push_event` fails, and changes nothing, where `malloc` returns NULL or the queue is not
-- initialized.
pub push_event_refused :
    (node : Ptr) (event : TraceGlassEvent) (m : Machine)
    → (m.queue.initialized ≡ false) ⊎ (node ≡ 0)
    → push_event node event m ≡ some (m, false)
unfolding push_event
push_event_refused node event m (inl off) = ground arith
push_event_refused node event m (inr failed) = ground arith
