-- ===== src/ProcessTree/Built.antt =====
-- `rebuild_process_tree` of src/gui.c: the finished tree.
use trace_glass.Base.{
  Bool-cases, Option-cases, ◌⊎◌, ℕ, zero, suc, ◌+◌, ◌<◌, ◌≡◌, ◌≢◌, inl, inr, refl, sym, ap, ◌∙◌,
  Bool, true, Option, none, some, List, [], ◌∷◌, arith, ◌==◌, length, get_elem?, count_if-le,
  lt-get_elem?,
}
use trace_glass.Detection.{Argument}
use trace_glass.Store.{ProcessRecord}
use trace_glass.ProcessTree.{TreeItem, Tree, insert_loop, fill, empty_tree, rebuild_process_tree}
use mathlib.Core.Path.{subst}
use trace_glass.ProcessTree.Roots.{IsRooted}
use trace_glass.ProcessTree.Placed.{Above, link, Above-trans, Placed, IsGrown, is_unseen}
use trace_glass.ProcessTree.Insert.{Inserted, insert_process_node-Inserted}
use trace_glass.Utils.{Text}

-- An item at the root for the record or for an ancestor of it.
abbrev pub HasRoot : List ProcessRecord → List TreeItem → ℕ → Type 0
HasRoot processes nodes j =
    (l : ℕ) × (root : TreeItem) × (get_elem? nodes l ≡ some root)
    × (root.parent ≡ none)
    × ((j ≡ root.index) ⊎ Above processes j root.index)

-- The tree view shows each record once, each in its place, and each below one item at the root.
pub record IsTree (processes : List ProcessRecord) (nodes : List TreeItem) : Type 0 where
  pub every :
      (j : ℕ)
      → j < length processes
      → (k : ℕ) × (node : TreeItem) × (get_elem? nodes k ≡ some node) × (node.index ≡ j)
  pub once :
      (k l : ℕ) (node other : TreeItem)
      → get_elem? nodes k ≡ some node
      → get_elem? nodes l ≡ some other
      → node.index ≡ other.index
      → k ≡ l
  pub placed :
      (k : ℕ) (node : TreeItem)
      → get_elem? nodes k ≡ some node
      → Placed processes nodes node.parent k node.index
  pub alone :
      (k l : ℕ) (node other : TreeItem)
      → get_elem? nodes k ≡ some node
      → get_elem? nodes l ≡ some other
      → node.parent ≡ none
      → other.parent ≡ none
      → Above processes node.index other.index
      → k ≡ l
  pub hung :
      (k : ℕ) (node : TreeItem) → get_elem? nodes k ≡ some node → HasRoot processes nodes node.index

get_elem?-fill :
    {A : Type 0} (a b : A) (processes : List ProcessRecord) (j : ℕ)
    → get_elem? (fill a processes) j ≡ some b
    → a ≡ b
get_elem?-fill a b [] j e = absurd (ground arith)
get_elem?-fill a b (r ∷ processes) zero e = ground arith
get_elem?-fill a b (r ∷ processes) (suc j) e = get_elem?-fill a b processes j e

length-fill :
    {A : Type 0} (a : A) (processes : List ProcessRecord)
    → length (fill a processes) ≡ length processes
length-fill a [] = refl
length-fill a (r ∷ processes) = ap suc (length-fill a processes)

empty-IsGrown : (processes : List ProcessRecord) → IsGrown processes (empty_tree processes)
empty-IsGrown processes = record {
  states_fit = length-fill 0 processes;
  items_fit = length-fill none processes;
  small = λ j s e. ground (arith, get_elem?-fill 0 s processes j e);
  inserted = λ j e. absurd (ground (arith, get_elem?-fill 0 2 processes j e));
  known = λ k node e. absurd (ground arith);
}

empty-IsRooted : (processes : List ProcessRecord) → IsRooted processes (empty_tree processes)
empty-IsRooted processes = record {
  seen = λ k node e. absurd (ground arith);
  alone = λ k l node other e. absurd (ground arith);
}

-- From item to item up to the root.
climb :
    (processes : List ProcessRecord) (nodes : List TreeItem)
    → ((k : ℕ) (node : TreeItem)
        → get_elem? nodes k ≡ some node
        → Placed processes nodes node.parent k node.index)
    → (rounds k : ℕ) (node : TreeItem) → get_elem? nodes k ≡ some node
    → k < rounds
    → HasRoot processes nodes node.index
climb processes nodes placed zero k node e h = absurd (omega arith)
climb processes nodes placed (suc rounds) k node e h = elim (Option-cases (node.parent)) [
  | inl root ↦ (k, node, e, root, inl refl)
  | inr (l, below) ↦
      let (earlier, (above, at, is)) =
        subst (λ h. Placed processes nodes h k node.index) below (placed k node e) in
      let (m, root, there, free, up_to) =
        climb processes nodes placed rounds l above at (omega (arith, earlier, h)) in
      (
        m,
        root,
        there,
        free,
        elim up_to [
          | inl here ↦ inr (link (is ∙ ap some here))
          | inr further ↦ inr (Above-trans (link is) further)
        ],
      )
]

-- Between two rounds no call is under way.
abbrev IsIdle : Tree → Type 0
IsIdle t = (j : ℕ) → get_elem? t.states j ≢ some 1

-- The records below `index` have their items.
abbrev IsDone : ℕ → Tree → Type 0
IsDone index t = (j s : ℕ) → j < index → get_elem? t.states j ≡ some s → s ≢ 0

module _ (string_printf : ℕ → Text → List Argument → Text)
    (accepts : List TreeItem → TreeItem → Bool) (processes : List ProcessRecord)
    (always : (nodes : List TreeItem) (item : TreeItem) → accepts nodes item ≡ true) where
  IsDone-suc :
      (index : ℕ) (t : Tree) (r : Option ℕ × Tree)
      → IsGrown processes t
      → IsIdle t
      → IsDone index t
      → Inserted string_printf accepts processes always index t r
      → index < length processes
      → IsDone (index + 1) (r.1)
  IsDone-suc index t r g idle done i inside j s below e = elim (Bool-cases (j == index)) [
    | inr before ↦
        let (s', at) = lt-get_elem? t.states j (ground (arith, g.states_fit)) in
        let ne : s' ≢ 0 = done j s' (ground arith) at in
        let same = i.keeps.kept j s' at ne in ground (arith, same, ne)
    | inl now ↦ elim i.handle [
      | inl (one, root, same_tree) ↦ absurd (idle index one)
      | inr (k, node, is, at, same) ↦
          let two = (i.grown.known k node at).0 in
          let place : node.index ≡ j = ground (arith, same) in
          let two' : get_elem? r.1.states j ≡ some 2 =
            ap (get_elem? (r.1.states)) (sym place) ∙ two in
          ground (arith, two')
    ]
  ]

  insert_loop-IsDone :
      (rounds index : ℕ) (t : Tree)
      → IsGrown processes t
      → IsRooted processes t
      → IsIdle t
      → IsDone index t
      → index + rounds ≡ length processes
      → (u : Tree) × (insert_loop string_printf accepts
            (suc (length processes))
            rounds
            processes
            index
            t
          ≡ some u)
        × IsGrown processes u
        × IsRooted processes u
        × IsIdle u
        × IsDone (length processes) u
  unfolding insert_loop
  insert_loop-IsDone zero index t g rooted idle done h =
      (t, refl, g, rooted, idle, λ j s below. done j s (omega arith))
  insert_loop-IsDone (suc rounds) index t g rooted idle done h =
      let ((handle, u), run, i) =
        insert_process_node-Inserted string_printf accepts processes always (suc (length processes))
          index t g rooted (λ a one. absurd (idle a one)) (omega arith)
          (omega (arith, count_if-le is_unseen t.states, g.states_fit)) in
      let (v, rest, grown, rooted', idle', done') =
        insert_loop-IsDone rounds (index + 1) u i.grown i.rooted
          (λ j one. idle j (i.keeps.open_before j one))
          (IsDone-suc index t (handle, u) g idle done i (omega arith)) (omega arith) in
      (v, rw (insert_loop, run) rest, grown, rooted', idle', done')

  IsGrown-IsTree :
      (u : Tree)
      → IsGrown processes u
      → IsRooted processes u
      → IsIdle u
      → IsDone (length processes) u
      → IsTree processes u.nodes
  IsGrown-IsTree u g rooted idle done =
      let placed =
        λ (k : ℕ) (node : TreeItem) (e : get_elem? u.nodes k ≡ some node). (g.known k node e).2 in
      let once : (k l : ℕ) (node other : TreeItem)
          → get_elem? u.nodes k ≡ some node
          → get_elem? u.nodes l ≡ some other
          → node.index ≡ other.index
          → k ≡ l =
        λ k l node other e f same.
          let (two, here, place) = g.known k node e in
          let (two', there, place') = g.known l other f in
          let agree : some (some k) ≡ some (some l) =
            sym here ∙ (ap (get_elem? u.items) same ∙ there) in
          ground arith in
      record {
        every = λ j inside.
            let (s, at) = lt-get_elem? u.states j (omega (arith, g.states_fit)) in
            let not_zero : s ≢ 0 = done j s inside at in
            let not_one : s ≢ 1 = λ one. idle j (at ∙ ap some one) in
            let two : s ≡ 2 = omega (arith, not_zero, not_one, g.small j s at) in
            let (k, node, has, place, same) = g.inserted j (at ∙ ap some two) in
            (k, node, place, same);
        once = once;
        placed = placed;
        alone = λ k l node other e f root root' above.
            once k l node other e f (rooted.alone k l node other e f root root' above);
        hung = λ k node e. climb processes u.nodes placed (suc k) k node e (omega arith);
      }

  -- When both arrays are allocated and each insertion into the tree view succeeds, the tree is rebuilt
  -- without a read outside of its arrays and without an endless recursion, even where the records'
  -- parents form a cycle. Each record gets one item. Each item either stands below the item of its
  -- record's parent, which was inserted before it, or at the root, and then its record has no known
  -- parent or is its own ancestor. Going up from a record one comes to an item at the root, and of two
  -- items at the root neither's record is an ancestor of the other's.
  pub rebuild_process_tree-IsTree :
      (nodes : List TreeItem) × (rebuild_process_tree string_printf accepts true processes
        ≡ some nodes)
      × IsTree processes nodes
  unfolding rebuild_process_tree
  rebuild_process_tree-IsTree = elim (Bool-cases (length processes == 0)) [
    | inl empty ↦ (
      [],
      rw empty refl,
      record {
        every = λ j inside. absurd (ground arith);
        once = λ k l node other e f same. absurd (ground arith);
        placed = λ k node e. absurd (ground arith);
        alone = λ k l node other e. absurd (ground arith);
        hung = λ k node e. absurd (ground arith);
      },
    )
    | inr full ↦
        let (u, run, g, rooted, idle, done) =
          insert_loop-IsDone (length processes) 0 (empty_tree processes) (empty-IsGrown processes)
            (empty-IsRooted processes) (λ j one. ground (arith, get_elem?-fill 0 1 processes j one))
            (λ j s below. absurd (omega arith)) (omega arith) in
        (u.nodes, rw (full, run) refl, IsGrown-IsTree u g rooted idle done)
  ]
