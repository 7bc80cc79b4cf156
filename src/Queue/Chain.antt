-- ===== src/Queue/Chain.antt =====
-- The list of nodes that the queue of src/event_queue.c holds in the heap.
use trace_glass.Base.{sym, ◌∙◌, ◌≡◌, ◌≢◌, refl, ap, Option, none, some, List, [], ◌∷◌, ◌++◌, arith}
use trace_glass.Events.{TraceGlassEvent}
use trace_glass.Queue.{Ptr, EventNode, Heap, write, EventQueue}

-- Addresses and events, in the order of the list.
abbrev pub Cells : Type 0
Cells = List (Ptr × TraceGlassEvent)

abbrev pub events_of : Cells → List TraceGlassEvent
events_of [] = []
events_of ((a, e) ∷ xs) = e ∷ events_of xs

-- The address is none of the cells'.
abbrev pub IsFresh : Ptr → Cells → Type 0
IsFresh p [] = Unit
IsFresh p ((a, e) ∷ xs) = (p ≢ a) × IsFresh p xs

abbrev pub AreDistinct : Cells → Type 0
AreDistinct [] = Unit
AreDistinct ((a, e) ∷ xs) = IsFresh a xs × AreDistinct xs

-- From `p` the `next` fields lead through the cells to NULL.
abbrev pub Chain : Heap → Ptr → Cells → Type 0
Chain h p [] = p ≡ 0
Chain h p ((a, e) ∷ xs) =
    (p ≡ a) × (a ≢ 0) × ((q : Ptr) × (h a ≡ some (record { event = e; next = q })) × Chain h q xs)

-- The address of the last cell; NULL if there is none.
abbrev pub last_ptr : Cells → Ptr
last_ptr [] = 0
last_ptr ((a, e) ∷ []) = a
last_ptr (x ∷ y ∷ xs) = last_ptr (y ∷ xs)

pub record Holds (q : EventQueue) (h : Heap) (xs : Cells) : Type 0 where
  pub chain : Chain h q.head xs
  pub distinct : AreDistinct xs
  pub tail : q.tail ≡ last_ptr xs

-- Two heaps agree at the cells' addresses.
abbrev pub DoAgree : Heap → Heap → Cells → Type 0
DoAgree g h [] = Unit
DoAgree g h ((a, e) ∷ xs) = (g a ≡ h a) × DoAgree g h xs

pub write-DoAgree :
    (h : Heap) (p : Ptr) (n : Option EventNode) (xs : Cells)
    → IsFresh p xs
    → DoAgree (write h p n) h xs
unfolding write
write-DoAgree h p n [] f = tt
write-DoAgree h p n ((a, e) ∷ xs) f = (ground (arith, f.0), write-DoAgree h p n xs f.1)

pub DoAgree-trans : (f g h : Heap) (xs : Cells) → DoAgree f g xs → DoAgree g h xs → DoAgree f h xs
DoAgree-trans f g h [] p q = tt
DoAgree-trans f g h ((a, e) ∷ xs) p q = (p.0 ∙ q.0, DoAgree-trans f g h xs p.1 q.1)

-- A chain survives changes at other addresses.
pub Chain-frame : (h g : Heap) (p : Ptr) (xs : Cells) → DoAgree g h xs → Chain h p xs → Chain g p xs
Chain-frame h g p [] same c = c
Chain-frame h g p ((a, e) ∷ xs) same (at, ne, (q, f, c)) =
    (at, ne, (q, same.0 ∙ f, Chain-frame h g q xs same.1 c))

-- An address that holds no node is none of a chain's.
pub Chain-IsFresh :
    (h : Heap) (p node : Ptr) (xs : Cells) → Chain h p xs → h node ≡ none → IsFresh node xs
Chain-IsFresh h p node [] c e = tt
Chain-IsFresh h p node ((a, x) ∷ xs) (at, ne, (q, f, c)) e =
    (λ same. absurd (ground arith), Chain-IsFresh h q node xs c e)

pub AreDistinct-concat :
    (xs : Cells) (node : Ptr) (event : TraceGlassEvent)
    → IsFresh node xs
    → AreDistinct xs
    → AreDistinct (xs ++ (node, event) ∷ [])
AreDistinct-concat [] node event f d = (tt, tt)
AreDistinct-concat ((a, e) ∷ xs) node event f d =
    (IsFresh-concat xs d.0, AreDistinct-concat xs node event f.1 d.1)
  where
    IsFresh-concat : (ys : Cells) → IsFresh a ys → IsFresh a (ys ++ (node, event) ∷ [])
    IsFresh-concat [] g = (λ same. f.0 (sym same), tt)
    IsFresh-concat (y ∷ ys) g = (g.0, IsFresh-concat ys g.1)

pub last_ptr-concat :
    (xs : Cells) (node : Ptr) (event : TraceGlassEvent) → last_ptr (xs ++ (node, event) ∷ []) ≡ node
last_ptr-concat [] node event = refl
last_ptr-concat (x ∷ []) node event = refl
last_ptr-concat (x ∷ y ∷ xs) node event = last_ptr-concat (y ∷ xs) node event

pub events_of-concat :
    (xs : Cells) (node : Ptr) (event : TraceGlassEvent)
    → events_of (xs ++ (node, event) ∷ []) ≡ events_of xs ++ event ∷ []
events_of-concat [] node event = refl
events_of-concat (x ∷ xs) node event = ap (◌∷◌ (x.1)) (events_of-concat xs node event)

-- A chain with cells ends in a node whose `next` is NULL, at an address other than NULL.
pub Chain-last :
    (h : Heap) (p : Ptr) (x : Ptr × TraceGlassEvent) (xs : Cells)
    → Chain h p (x ∷ xs)
    → (last_ptr (x ∷ xs) ≢ 0)
      × ((e : TraceGlassEvent) × (h (last_ptr (x ∷ xs)) ≡ some (record { event = e; next = 0 })))
Chain-last h p (a, e) [] (at, ne, (q, f, c)) = (ne, (e, rw (← c) f))
Chain-last h p (a, e) (y ∷ xs) (at, ne, (q, f, c)) = Chain-last h q y xs c

IsFresh-last :
    (a : Ptr) (x : Ptr × TraceGlassEvent) (xs : Cells) → IsFresh a (x ∷ xs) → a ≢ last_ptr (x ∷ xs)
IsFresh-last a x [] f = f.0
IsFresh-last a x (y ∷ xs) f = IsFresh-last a y xs f.1

-- The node of the last cell led on to a new one.
pub Chain-link :
    (h : Heap) (p node : Ptr) (event last : TraceGlassEvent) (x : Ptr × TraceGlassEvent)
    (xs : Cells)
    → Chain h p (x ∷ xs)
    → AreDistinct (x ∷ xs)
    → h (last_ptr (x ∷ xs)) ≡ some (record { event = last; next = 0 })
    → node ≢ 0
    → IsFresh node (x ∷ xs)
    → h node ≡ some (record { event = event; next = 0 })
    → Chain
        (write h (last_ptr (x ∷ xs)) (some (record { event = last; next = node })))
        p
        (x ∷ xs ++ (node, event) ∷ [])
unfolding write
Chain-link h p node event last (a, e) [] (at, ne, (q, f, c)) d l nn fr n =
    (at, ne, (node, ground arith, (refl, nn, (0, ground (arith, fr.0), refl))))
Chain-link h p node event last (a, e) (y ∷ xs) (at, ne, (q, f, c)) d l nn fr n =
    let apart = IsFresh-last a y xs d.0 in
    (at, ne, (q, ground (arith, apart), Chain-link h q node event last y xs c d.1 l nn fr.1 n))
