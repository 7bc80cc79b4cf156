-- ===== src/ProcessTree/Roots.antt =====
-- `insert_process_node` of src/gui.c: which records stand at the root of the tree.
use trace_glass.Base.{
  ℕ, ◌≡◌, ◌≢◌, ◌⊎◌, inl, inr, sym, ap, ◌∙◌, Option, none, some, List, arith, get_elem?,
  get_elem?-set_cases, get_elem?-concat_cases,
}
use mathlib.Core.Path.{subst}
use trace_glass.Store.{ProcessRecord}
use trace_glass.ProcessTree.{TreeItem, Tree, find_parent_index}
use trace_glass.ProcessTree.Marks.{OnPath, marked, grow}
use trace_glass.ProcessTree.Placed.{Above, link, up, IsGrown}

-- The ancestors of a record at the root have been seen, and none of them stands at the root too.
pub record IsRooted (processes : List ProcessRecord) (t : Tree) : Type 0 where
  pub seen :
      (k : ℕ) (node : TreeItem)
      → get_elem? t.nodes k ≡ some node
      → node.parent ≡ none
      → (b : ℕ) → Above processes node.index b
      → get_elem? t.states b ≢ some 0
  pub alone :
      (k l : ℕ) (node other : TreeItem)
      → get_elem? t.nodes k ≡ some node
      → get_elem? t.nodes l ≡ some other
      → node.parent ≡ none
      → other.parent ≡ none
      → Above processes node.index other.index
      → node.index ≡ other.index

-- What a new item has to meet.
pub record Fresh (processes : List ProcessRecord) (u : Tree) (parent : Option ℕ) (index : ℕ)
    : Type 0 where
  pub seen : parent ≡ none → (b : ℕ) → Above processes index b → get_elem? u.states b ≢ some 0
  pub above :
      parent ≡ none
      → (l : ℕ) (other : TreeItem) → get_elem? u.nodes l ≡ some other
      → other.parent ≡ none
      → Above processes index other.index
      → index ≡ other.index
  pub below :
      parent ≡ none
      → (l : ℕ) (other : TreeItem) → get_elem? u.nodes l ≡ some other
      → other.parent ≡ none
      → Above processes other.index index
      → other.index ≡ index

pub marked-IsRooted :
    (processes : List ProcessRecord) (t : Tree) (index : ℕ)
    → IsRooted processes t
    → IsRooted processes (marked t index)
marked-IsRooted processes t index r = record {
  seen = λ k node e root b above zero_now.
      elim (get_elem?-set_cases t.states index b 1 0 zero_now) [
        | inl (same, v) ↦ omega arith
        | inr (other, old) ↦ r.seen k node e root b above old
      ];
  alone = r.alone;
}

pub grow-IsRooted :
    (processes : List ProcessRecord) (u : Tree) (item : TreeItem)
    → IsRooted processes u
    → Fresh processes u item.parent item.index
    → IsRooted processes (grow u item)
grow-IsRooted processes u item r f = record {
  seen = λ k node e root b above zero_now.
      elim (get_elem?-set_cases u.states item.index b 2 0 zero_now) [
        | inl (same, v) ↦ omega arith
        | inr (different, zero_before) ↦ elim (get_elem?-concat_cases u.nodes item node k e) [
          | inl old ↦ r.seen k node old root b above zero_before
          | inr (at, new) ↦
              f.seen (ap (λ (n : TreeItem). n.parent) new ∙ root) b
                (subst (λ (n : TreeItem). Above processes n.index b) (sym new) above) zero_before
        ]
      ];
  alone = λ k l node other e e' root root' above.
      elim (get_elem?-concat_cases u.nodes item node k e) [
        | inl old ↦ elim (get_elem?-concat_cases u.nodes item other l e') [
          | inl old' ↦ r.alone k l node other old old' root root' above
          | inr (at', new') ↦
              f.below (ap (λ (n : TreeItem). n.parent) new' ∙ root') k node old root
                (subst (λ (n : TreeItem). Above processes node.index n.index) (sym new') above)
              ∙ ap (λ (n : TreeItem). n.index) new'
        ]
        | inr (at, new) ↦ elim (get_elem?-concat_cases u.nodes item other l e') [
          | inl old' ↦
              sym (ap (λ (n : TreeItem). n.index) new)
              ∙ f.above (ap (λ (n : TreeItem). n.parent) new ∙ root) l other old' root'
                  (subst (λ (n : TreeItem). Above processes n.index other.index) (sym new) above)
          | inr (at', new') ↦ ap (λ (n : TreeItem). n.index) (sym new ∙ new')
        ]
      ];
}

-- An item below another's.
pub below-Fresh :
    (processes : List ProcessRecord) (u : Tree) (handle : Option ℕ) (k index : ℕ)
    → handle ≡ some k
    → Fresh processes u handle index
below-Fresh processes u handle k index is = record {
  seen = λ root. absurd (ground (arith, is, root));
  above = λ root. absurd (ground (arith, is, root));
  below = λ root. absurd (ground (arith, is, root));
}

-- An item at the root, where the record's ancestors are itself and records that a call is under way
-- for.
pub root-Fresh :
    (processes : List ProcessRecord) (t : Tree) (parent : Option ℕ) (index : ℕ)
    → IsGrown processes t
    → IsRooted processes t
    → get_elem? t.states index ≡ some 0
    → ((b : ℕ) → Above processes index b → (b ≡ index) ⊎ (get_elem? t.states b ≡ some 1))
    → Fresh processes (marked t index) parent index
root-Fresh processes t parent index g r at busy = record {
  seen = λ root b above zero_now. elim (get_elem?-set_cases t.states index b 1 0 zero_now) [
    | inl (same, v) ↦ omega arith
    | inr (other, old) ↦ elim (busy b above) [
      | inl here ↦ other (sym here)
      | inr one ↦ ground arith
    ]
  ];
  above = λ root l other e root' above. elim (busy other.index above) [
    | inl here ↦ sym here
    | inr one ↦ let (two, item, placed) = g.known l other e in absurd (ground arith)
  ];
  below = λ root l other e root' above. absurd (r.seen l other e root' index above at);
}

-- Where the parent's call is under way, so are those of all other ancestors.
pub ancestors_open :
    (processes : List ProcessRecord) (t : Tree) (index parent : ℕ)
    → OnPath processes t index
    → find_parent_index processes index ≡ some parent
    → get_elem? t.states parent ≡ some 1
    → (b : ℕ) → Above processes index b
    → (b ≡ index) ⊎ (get_elem? t.states b ≡ some 1)
ancestors_open processes t index parent path e one b (link next) =
    inr (ap (get_elem? (t.states)) (ground arith) ∙ one)
ancestors_open processes t index parent path e one b (up {b = c} above next) =
    elim (ancestors_open processes t index parent path e one c above) [
      | inl here ↦ inr (ap (get_elem? (t.states)) (ground arith) ∙ one)
      | inr still ↦
          let (above', (d, next', there)) = path c still in
          let same : b ≡ d = ground arith in
          elim there [
            | inl back ↦ inl (same ∙ back)
            | inr two ↦ inr (ap (get_elem? (t.states)) same ∙ two)
          ]
    ]
