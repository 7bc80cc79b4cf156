-- ===== src/Queue/Release.antt =====
-- `event_queue_destroy` of src/event_queue.c: no node is leaked, read after its release or released
-- twice.
use trace_glass.Base.{
  ℕ, zero, suc, ◌<◌, ◌≡◌, refl, ◌∙◌, ap, true, false, none, some, [], ◌∷◌, ◌==◌, arith, length,
}
use trace_glass.Queue.Chain.{Cells, IsFresh, AreDistinct, Chain, Holds, write-DoAgree, Chain-frame}
use trace_glass.Queue.{Ptr, Heap, write, Machine, free_nodes, event_queue_destroy}

-- What is left of the heap after the release of the cells.
abbrev pub AreFreed : Heap → Cells → Type 0
AreFreed h [] = Unit
AreFreed h ((a, e) ∷ xs) = (h a ≡ none) × AreFreed h xs

free_nodes-AreFreed :
    (fuel : ℕ) (p : Ptr) (h : Heap) (xs : Cells)
    → Chain h p xs
    → AreDistinct xs
    → length xs < fuel
    → (g : Heap) × (free_nodes fuel p h ≡ some g)
      × AreFreed g xs
      × ((a : Ptr) → IsFresh a xs → g a ≡ h a)
unfolding free_nodes write
free_nodes-AreFreed zero p h xs c d f = absurd (omega arith)
free_nodes-AreFreed (suc fuel) p h [] c d f =
    let end : (p == 0) ≡ true = ground arith in (h, rw (end, free_nodes) refl, tt, λ a fr. refl)
free_nodes-AreFreed (suc fuel) p h ((a, e) ∷ xs) (at, ne, (q, read, c)) d f =
    let more : (p == 0) ≡ false = ground arith in
    let read' : h p ≡ some (record { event = e; next = q }) = ap h at ∙ read in
    let fresh : IsFresh p xs = rw at d.0 in
    let rest = Chain-frame h (write h p none) q xs (write-DoAgree h p none xs fresh) c in
    let (g, run, freed, same) =
      free_nodes-AreFreed fuel q (write h p none) xs rest d.1 (omega arith) in
    let step : free_nodes (suc fuel) p h ≡ free_nodes fuel q (write h p none) =
      rw (more, free_nodes, read') refl in
    (g, step ∙ run, (same a d.0 ∙ ground arith, freed), λ b fr. same b fr.1 ∙ ground (arith, fr.0))

-- On an initialized queue, with fuel above its length, `event_queue_destroy` ends, releases every
-- node of the queue once and touches no other, and leaves the queue empty, without a window, and
-- refusing calls.
pub event_queue_destroy-AreFreed :
    (fuel : ℕ) (m : Machine) (xs : Cells)
    → m.queue.initialized ≡ true
    → Holds m.queue m.heap xs
    → length xs < fuel
    → (m' : Machine) × (event_queue_destroy fuel m ≡ some m')
      × AreFreed m'.heap xs
      × ((a : Ptr) → IsFresh a xs → m'.heap a ≡ m.heap a)
      × Holds m'.queue m'.heap []
      × (m'.queue.notification_window ≡ 0)
      × (m'.queue.initialized ≡ false)
unfolding event_queue_destroy
event_queue_destroy-AreFreed fuel m xs ready v enough =
    let (g, run, freed, same) =
      free_nodes-AreFreed fuel m.queue.head m.heap xs v.chain v.distinct enough in
    (
      record m {
        queue = record (m.queue) {
          head = 0;
          tail = 0;
          notification_window = 0;
          initialized = false;
        };
        heap = g;
      },
      simp (ready, run),
      freed,
      same,
      record { chain = refl; distinct = tt; tail = refl },
      refl,
      refl,
    )
