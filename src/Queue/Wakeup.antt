-- ===== src/Queue/Wakeup.antt =====
-- The notification protocol between the producers of src/event_queue.c and the window procedure of
-- src/gui.c, over every interleaving of their critical sections. The window procedure drains the
-- queue once for each message that it receives (`drain_events`), and nothing else reads the queue.
use trace_glass.Base.{
  ℕ, suc, ◌+◌, ◌≤◌, ◌≡◌, ◌≢◌, refl, Bool, true, false, not, ◌&&◌, none, some, arith, ◌==◌,
  if◌then◌else◌,
}
use trace_glass.Events.{TraceGlassEvent}
use trace_glass.Queue.{Ptr, Heap, EventQueue, event_queue_initialize, link, push_locked, pop_locked}

-- The queue and its heap; the producers between LeaveCriticalSection and PostMessageW; the messages
-- posted and not yet received; whether the window procedure is in its loop.
pub record System : Type 0 where
  pub queue : EventQueue
  pub heap : Heap
  pub posting : ℕ
  pub messages : ℕ
  pub draining : Bool

pub data Turn (s : System) : System → Type 0 where
  push :
      (node : Ptr) (event : TraceGlassEvent) (q : EventQueue) (h : Heap) (should_notify : Bool)
      → push_locked node event s.queue s.heap ≡ some (q, h, should_notify)
      → Turn s (record s {
        queue = q;
        heap = h;
        posting =
            if should_notify && not (s.queue.notification_window == 0)
            then s.posting + 1
            else s.posting;
      })
  post_message :
      (n : ℕ) → s.posting ≡ suc n → Turn s (record s { posting = n; messages = s.messages + 1 })
  receive :
      (n : ℕ)
      → s.messages ≡ suc n
      → s.draining ≡ false
      → Turn s (record s { messages = n; draining = true })
  pop :
      (q : EventQueue) (h : Heap) (event : TraceGlassEvent)
      → s.draining ≡ true
      → pop_locked s.queue s.heap ≡ some (q, h, some event)
      → Turn s (record s { queue = q; heap = h })
  pop_empty :
      (q : EventQueue) (h : Heap)
      → s.draining ≡ true
      → pop_locked s.queue s.heap ≡ some (q, h, none)
      → Turn s (record s { queue = q; heap = h; draining = false })

pub data Run (s : System) : System → Type 0 where
  here : Run s s
  next : {t u : System} → Run s t → Turn t u → Run s u

abbrev pub to_number : Bool → ℕ
to_number true = 1
to_number false = 0

-- What is under way to make the window procedure read the queue.
abbrev pub under_way : System → ℕ
under_way s = s.posting + s.messages + to_number s.draining

pub record IsAwake (s : System) : Type 0 where
  pub window : s.queue.notification_window ≢ 0
  pub one : under_way s ≡ to_number s.queue.notification_pending
  pub heard : s.queue.head ≢ 0 → s.queue.notification_pending ≡ true

abbrev pub start : ℕ → ℕ → Heap → System
start window message heap = record {
  queue = event_queue_initialize window message;
  heap = heap;
  posting = 0;
  messages = 0;
  draining = false;
}

start-IsAwake :
    (window message : ℕ) (heap : Heap) → window ≢ 0 → IsAwake (start window message heap)
start-IsAwake window message heap h = record {
  window = h;
  one = refl;
  heard = λ ne. absurd (ne refl);
}

-- The critical sections, as far as the protocol goes.
push_locked-pending :
    (node : Ptr) (event : TraceGlassEvent) (q r : EventQueue) (h g : Heap) (should_notify : Bool)
    → push_locked node event q h ≡ some (r, g, should_notify)
    → (r.notification_pending ≡ true)
      × (should_notify ≡ not q.notification_pending)
      × (r.notification_window ≡ q.notification_window)
unfolding push_locked link
push_locked-pending node event q r h g should_notify e = ground arith

pop_locked-pending :
    (q r : EventQueue) (h g : Heap) (event : TraceGlassEvent)
    → pop_locked q h ≡ some (r, g, some event)
    → (r.notification_pending ≡ q.notification_pending)
      × (r.notification_window ≡ q.notification_window)
unfolding pop_locked
pop_locked-pending q r h g event e = ground arith

pop_locked-empty :
    (q r : EventQueue) (h g : Heap)
    → pop_locked q h ≡ some (r, g, none)
    → (r.head ≡ 0)
      × (r.notification_pending ≡ false)
      × (r.notification_window ≡ q.notification_window)
unfolding pop_locked
pop_locked-empty q r h g e = ground arith

Turn-IsAwake : {s t : System} → Turn s t → IsAwake s → IsAwake t
Turn-IsAwake {s} (push node event q h should_notify e) a =
    let (p, n, w) = push_locked-pending node event s.queue q s.heap h should_notify e in
    record {
      window = ground (arith, a.window);
      one = ground (arith, a.one, a.window);
      heard = λ ne. p;
    }
Turn-IsAwake {s} (post_message n e) a = record {
  window = a.window;
  one = ground (arith, a.one);
  heard = a.heard;
}
Turn-IsAwake {s} (receive n e d) a = record {
  window = a.window;
  one = ground (arith, a.one);
  heard = a.heard;
}
Turn-IsAwake {s} (pop q h event d e) a =
    let (p, w) = pop_locked-pending s.queue q s.heap h event e in
    record {
      window = ground (arith, a.window);
      one = ground (arith, a.one);
      heard = λ ne. ground (arith, a.one);
    }
Turn-IsAwake {s} (pop_empty q h d e) a =
    let (z, p, w) = pop_locked-empty s.queue q s.heap h e in
    record {
      window = ground (arith, a.window);
      one = ground (arith, a.one);
      heard = λ ne. absurd (ne z);
    }

Run-IsAwake : {s t : System} → IsAwake s → Run s t → IsAwake t
Run-IsAwake a here = a
Run-IsAwake a (next r step) = Turn-IsAwake step (Run-IsAwake a r)

-- From a new queue with a window, as long as each post succeeds and the window stays, and however
-- the producers and the window procedure interleave: at most one notification is under way at a
-- time, whether about to be posted, posted, or being served; and while the queue holds an event
-- there is exactly one, so no event waits unnoticed.
pub no_lost_wakeup :
    (window message : ℕ) (heap : Heap) (s : System)
    → window ≢ 0
    → Run (start window message heap) s
    → (under_way s ≤ 1) × (s.queue.head ≢ 0 → under_way s ≡ 1)
no_lost_wakeup window message heap s h r =
    let a = Run-IsAwake (start-IsAwake window message heap h) r in
    (ground (arith, a.one), λ ne. ground (arith, a.one, a.heard ne))

-- No message under way, and no room for one: the pending flag is set.
pub record IsDeaf (s : System) : Type 0 where
  pub pending : s.queue.notification_pending ≡ true
  pub quiet : under_way s ≡ 0

Turn-IsDeaf : {s t : System} → Turn s t → IsDeaf s → IsDeaf t
Turn-IsDeaf {s} (push node event q h should_notify e) d =
    let (p, n, w) = push_locked-pending node event s.queue q s.heap h should_notify e in
    record { pending = p; quiet = ground (arith, d.quiet, d.pending) }
Turn-IsDeaf (post_message n e) d = absurd (omega (arith, d.quiet))
Turn-IsDeaf (receive n e f) d = absurd (omega (arith, d.quiet))
Turn-IsDeaf (pop q h event f e) d = absurd (ground (arith, d.quiet))
Turn-IsDeaf (pop_empty q h f e) d = absurd (ground (arith, d.quiet))

-- `push_event` does not look at the result of PostMessageW. Where the one posting producer's call
-- fails, the pending flag stays set with no notification under way, and no later turn of anyone
-- brings one under way again.
pub failed_post-IsDeaf :
    (s t : System) → IsAwake s → s.posting ≡ 1 → Run (record s { posting = 0 }) t → IsDeaf t
failed_post-IsDeaf s t a one here = record {
  pending = ground (arith, a.one);
  quiet = ground (arith, a.one);
}
failed_post-IsDeaf s t a one (next r step) = Turn-IsDeaf step (failed_post-IsDeaf s _ a one r)
