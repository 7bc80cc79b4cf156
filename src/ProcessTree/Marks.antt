-- ===== src/ProcessTree/Marks.antt =====
-- `insert_process_node` of src/gui.c: what a mark and a new item do to the arrays and to the tree view.
use trace_glass.Base.{
  ℕ, ◌+◌, ◌≤◌, ◌<◌, ◌≡◌, ◌≢◌, ◌⊎◌, inl, inr, refl, sym, ap, ◌∙◌, some, List, [], ◌∷◌, ◌++◌, arith,
  length, get_elem?, set, get_elem?-append_left, get_elem?-lt, get_elem?-set_self, get_elem?-set_ne,
  get_elem?-set_cases, get_elem?-concat_cases, length-set, count_if-set,
}
use mathlib.Core.Path.{subst}
use trace_glass.Store.{ProcessRecord}
use trace_glass.ProcessTree.{TreeItem, Tree, find_parent_index}
use trace_glass.ProcessTree.Placed.{
  Above, link, up, Placed, Placed-append, IsGrown, is_unseen, unseen,
}

-- What a call leaves of the states: it finishes no call that it did not start, and undoes nothing.
pub record Keeps (t u : Tree) : Type 0 where
  pub kept : (j s : ℕ) → get_elem? t.states j ≡ some s → s ≢ 0 → get_elem? u.states j ≡ some s
  pub open_before : (j : ℕ) → get_elem? u.states j ≡ some 1 → get_elem? t.states j ≡ some 1
  pub fewer : unseen u ≤ unseen t

pub Keeps-refl : (t : Tree) → Keeps t t
Keeps-refl t = record { kept = λ j s e n. e; open_before = λ j e. e; fewer = omega arith }

-- The records that a call is under way for lead up to `index`, each through others of them.
abbrev pub OnPath : List ProcessRecord → Tree → ℕ → Type 0
OnPath processes t index =
    (a : ℕ)
    → get_elem? t.states a ≡ some 1
    → Above processes a index
      × ((c : ℕ) × (find_parent_index processes a ≡ some c)
          × ((c ≡ index) ⊎ (get_elem? t.states c ≡ some 1)))

abbrev pub marked : Tree → ℕ → Tree
marked t index = record t { states = set t.states index 1 }

pub marked-IsGrown :
    (processes : List ProcessRecord) (t : Tree) (index : ℕ)
    → IsGrown processes t
    → get_elem? t.states index ≡ some 0
    → IsGrown processes (marked t index)
marked-IsGrown processes t index g at = record {
  states_fit = length-set t.states index 1 ∙ g.states_fit;
  items_fit = g.items_fit;
  small = λ j s e. elim (get_elem?-set_cases t.states index j 1 s e) [
    | inl (same, v) ↦ omega arith
    | inr (other, old) ↦ g.small j s old
  ];
  inserted = λ j e. elim (get_elem?-set_cases t.states index j 1 2 e) [
    | inl (same, v) ↦ absurd (omega arith)
    | inr (other, old) ↦ g.inserted j old
  ];
  known = λ k node e.
      let (two, item, placed) = g.known k node e in
      let other : index ≢ node.index = λ same. absurd (ground arith) in
      (get_elem?-set_ne t.states index node.index 1 other ∙ two, item, placed);
}

pub marked-OnPath :
    (processes : List ProcessRecord) (t : Tree) (index parent : ℕ)
    → get_elem? t.states index ≡ some 0
    → OnPath processes t index
    → find_parent_index processes index ≡ some parent
    → OnPath processes (marked t index) parent
marked-OnPath processes t index parent at path e a one =
    elim (get_elem?-set_cases t.states index a 1 1 one) [
      | inl (same, v) ↦ (
        link (ap (find_parent_index processes) (sym same) ∙ e),
        (parent, ap (find_parent_index processes) (sym same) ∙ e, inl refl),
      )
      | inr (other, old) ↦
          let (above, (c, next, open_or_here)) = path a old in
          (up above e, (c, next, inr (still_open c open_or_here)))
    ]
  where
    still_open :
        (c : ℕ)
        → (c ≡ index) ⊎ (get_elem? t.states c ≡ some 1)
        → get_elem? (set t.states index 1) c ≡ some 1
    still_open c (inl here) =
        ap (get_elem? (set t.states index 1)) here
        ∙ get_elem?-set_self t.states index 1 (get_elem?-lt t.states index at)
    still_open c (inr one) =
        get_elem?-set_ne t.states index c 1 (λ same. absurd (ground (arith, same))) ∙ one

pub marked-unseen :
    (t : Tree) (index : ℕ)
    → get_elem? t.states index ≡ some 0
    → unseen (marked t index) + 1 ≡ unseen t
marked-unseen t index at = omega (arith, count_if-set is_unseen t.states index 1 at)

pub get_elem?-last :
    (nodes : List TreeItem) (item : TreeItem)
    → get_elem? (nodes ++ item ∷ []) (length nodes) ≡ some item
get_elem?-last [] item = refl
get_elem?-last (x ∷ nodes) item = get_elem?-last nodes item

-- The tree after the insertion of an item.
abbrev pub grow : Tree → TreeItem → Tree
grow u item = record {
  states = set u.states item.index 2;
  items = set u.items item.index (some (length u.nodes));
  nodes = u.nodes ++ item ∷ [];
}

-- What `IsGrown` says of an item.
abbrev pub Known : List ProcessRecord → Tree → ℕ → TreeItem → Type 0
Known processes t k node =
    (get_elem? t.states node.index ≡ some 2)
    × (get_elem? t.items node.index ≡ some (some k))
    × Placed processes t.nodes node.parent k node.index

pub grow-IsGrown :
    (processes : List ProcessRecord) (u : Tree) (item : TreeItem)
    → IsGrown processes u
    → get_elem? u.states item.index ≡ some 1
    → item.index < length processes
    → Placed processes u.nodes item.parent (length u.nodes) item.index
    → IsGrown processes (grow u item)
grow-IsGrown processes u item g one inside placed = record {
  states_fit = length-set u.states item.index 2 ∙ g.states_fit;
  items_fit = length-set u.items item.index (some (length u.nodes)) ∙ g.items_fit;
  small = λ j s e. elim (get_elem?-set_cases u.states item.index j 2 s e) [
    | inl (same, v) ↦ omega arith
    | inr (other, old) ↦ g.small j s old
  ];
  inserted = λ j e. elim (get_elem?-set_cases u.states item.index j 2 2 e) [
    | inl (same, v) ↦ (
      length u.nodes,
      item,
      ap (get_elem? (set u.items item.index (some (length u.nodes)))) (sym same)
          ∙ get_elem?-set_self u.items item.index (some (length u.nodes))
              (omega (arith, g.items_fit)),
      get_elem?-last u.nodes item,
      same,
    )
    | inr (other, old) ↦
        let (k, node, has, at, is) = g.inserted j old in
        (
          k,
          node,
          get_elem?-set_ne u.items item.index j (some (length u.nodes)) other ∙ has,
          get_elem?-append_left u.nodes (item ∷ []) k (get_elem?-lt u.nodes k at) ∙ at,
          is,
        )
  ];
  known = λ k node e. elim (get_elem?-concat_cases u.nodes item node k e) [
    | inl old ↦
        let (two, has, p) = g.known k node old in
        let other : item.index ≢ node.index = λ same. absurd (ground arith) in
        (
          get_elem?-set_ne u.states item.index node.index 2 other ∙ two,
          get_elem?-set_ne u.items item.index node.index (some (length u.nodes)) other ∙ has,
          Placed-append processes u.nodes item node.parent k node.index p,
        )
    | inr (at, new) ↦
        let inside_states : item.index < length u.states = get_elem?-lt u.states item.index one in
        let here : Known processes (grow u item) (length u.nodes) item = (
          get_elem?-set_self u.states item.index 2 inside_states,
          get_elem?-set_self u.items item.index (some (length u.nodes))
              (omega (arith, g.items_fit)),
          Placed-append processes u.nodes item item.parent (length u.nodes) item.index placed,
        ) in
        subst (λ l. Known processes (grow u item) l node) (sym at)
          (subst (Known processes (grow u item) (length u.nodes)) new here)
  ];
}

pub grow-Keeps :
    (t u : Tree) (item : TreeItem)
    → Keeps (marked t item.index) u
    → get_elem? t.states item.index ≡ some 0
    → get_elem? u.states item.index ≡ some 1
    → Keeps t (grow u item)
grow-Keeps t u item keeps zero_before one = record {
  kept = λ j s e n.
      let other : item.index ≢ j = λ same. absurd (ground arith) in
      get_elem?-set_ne u.states item.index j 2 other
      ∙ keeps.kept j s (get_elem?-set_ne t.states item.index j 1 other ∙ e) n;
  open_before = λ j e. elim (get_elem?-set_cases u.states item.index j 2 1 e) [
    | inl (same, v) ↦ absurd (omega arith)
    | inr (other, old) ↦
        sym (get_elem?-set_ne t.states item.index j 1 other) ∙ keeps.open_before j old
  ];
  fewer = omega (
    arith,
    keeps.fewer,
    marked-unseen t item.index zero_before,
    count_if-set is_unseen u.states item.index 2 one,
  );
}
