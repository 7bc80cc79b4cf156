-- ===== src/ProcessTree/Placed.antt =====
-- Where the items of the process tree of src/gui.c belong.
use trace_glass.Base.{
  ℕ, ◌<◌, ◌≡◌, ◌⊎◌, inl, inr, ◌∙◌, Bool, ◌||◌, Option, none, some, List, [], ◌∷◌, ◌++◌, arith,
  Bool-cases, Option-cases, ◌==◌, length, get_elem?, get_elem?-append_left, get_elem?-lt, count_if,
}
use trace_glass.Store.{ProcessRecord, event_store_find_process}
use trace_glass.Store.Find.{find_process-Hit}
use trace_glass.ProcessTree.{TreeItem, Tree, find_parent_index}

-- One or more links from a record to its parent lead from `j` up to `a`.
pub data Above (processes : List ProcessRecord) (j : ℕ) : ℕ → Type 0 where
  link : {a : ℕ} → find_parent_index processes j ≡ some a → Above processes j a
  up :
      {a b : ℕ} → Above processes j b → find_parent_index processes b ≡ some a → Above processes j a

pub Above-trans :
    {processes : List ProcessRecord} {i j k : ℕ}
    → Above processes i j
    → Above processes j k
    → Above processes i k
Above-trans h (link e) = up h e
Above-trans h (up g e) = up (Above-trans h g) e

-- An item at the root stands for a record without a parent, or for one of a cycle of parents. Any
-- other stands below the item of its record's parent, which was inserted before.
abbrev pub Placed : List ProcessRecord → List TreeItem → Option ℕ → ℕ → ℕ → Type 0
Placed processes nodes none k j = (find_parent_index processes j ≡ none) ⊎ Above processes j j
Placed processes nodes (some l) k j =
    (l < k)
    × ((above : TreeItem) × (get_elem? nodes l ≡ some above)
        × (find_parent_index processes j ≡ some above.index))

pub Placed-append :
    (processes : List ProcessRecord) (nodes : List TreeItem) (new : TreeItem) (h : Option ℕ)
    (k j : ℕ)
    → Placed processes nodes h k j
    → Placed processes (nodes ++ new ∷ []) h k j
Placed-append processes nodes new none k j p = p
Placed-append processes nodes new (some l) k j (below, (above, at, e)) =
    (below, (above, get_elem?-append_left nodes (new ∷ []) l (get_elem?-lt nodes l at) ∙ at, e))

-- The arrays and the tree view in the middle of a rebuild: the items are those of the records in
-- state 2, one for each, and each in its place.
pub record IsGrown (processes : List ProcessRecord) (t : Tree) : Type 0 where
  pub states_fit : length t.states ≡ length processes
  pub items_fit : length t.items ≡ length processes
  pub small : (j s : ℕ) → get_elem? t.states j ≡ some s → s < 3
  pub inserted :
      (j : ℕ)
      → get_elem? t.states j ≡ some 2
      → (k : ℕ) × (node : TreeItem) × (get_elem? t.items j ≡ some (some k))
        × (get_elem? t.nodes k ≡ some node)
        × (node.index ≡ j)
  pub known :
      (k : ℕ) (node : TreeItem)
      → get_elem? t.nodes k ≡ some node
      → (get_elem? t.states node.index ≡ some 2)
        × (get_elem? t.items node.index ≡ some (some k))
        × Placed processes t.nodes node.parent k node.index

abbrev pub is_unseen : ℕ → Bool
is_unseen s = s == 0

abbrev pub unseen : Tree → ℕ
unseen t = count_if is_unseen t.states

pub find_parent_index-lt :
    (processes : List ProcessRecord) (j a : ℕ)
    → find_parent_index processes j ≡ some a
    → a < length processes
unfolding find_parent_index
find_parent_index-lt processes j a e = elim (Option-cases (get_elem? processes j)) [
  | inl outside ↦ absurd (ground arith)
  | inr (child, at) ↦
      elim (Bool-cases (child.parent.pid == 0 || child.parent.pid == child.key.pid)) [
        | inl t ↦ absurd (ground arith)
        | inr f ↦
            let found : event_store_find_process processes child.parent ≡ some a = ground arith in
            let (r, hit) = find_process-Hit processes child.parent a found in
            get_elem?-lt processes a hit.at
      ]
]
