-- ===== src/ProcessTree/Insert.antt =====
-- `insert_process_node` of src/gui.c ends and keeps the tree in order.
use trace_glass.Base.{
  ℕ, zero, suc, ◌<◌, ◌≡◌, ◌≢◌, ◌⊎◌, inl, inr, refl, sym, ap, ◌∙◌, Bool, true, false, Option, none,
  some, List, arith, Bool-cases, Option-cases, ◌==◌, length, get_elem?, get_elem?-lt, lt-get_elem?,
  get_elem?-set_self, get_elem?-set_ne,
}
use mathlib.Core.Path.{subst}
use trace_glass.Detection.{Argument}
use trace_glass.Store.{ProcessRecord}
use trace_glass.ProcessTree.{
  TreeItem, Tree, find_parent_index, tree_label, insert_item, insert_process_node,
}
use trace_glass.ProcessTree.Placed.{
  Above, link, up, Above-trans, Placed, IsGrown, unseen, find_parent_index-lt,
}
use trace_glass.ProcessTree.Roots.{
  IsRooted, Fresh, marked-IsRooted, grow-IsRooted, below-Fresh, root-Fresh, ancestors_open,
}
use trace_glass.Utils.{Text}
use trace_glass.ProcessTree.Marks.{
  get_elem?-last, Keeps, Keeps-refl, OnPath, marked, marked-IsGrown, marked-OnPath, marked-unseen,
  grow, grow-IsGrown, grow-Keeps,
}

module _ (string_printf : ℕ → Text → List Argument → Text)
    (accepts : List TreeItem → TreeItem → Bool) (processes : List ProcessRecord)
    (always : (nodes : List TreeItem) (item : TreeItem) → accepts nodes item ≡ true) where
  -- The end of a call that inserts: from the tree `t` in front of the call and the tree `u` in front
  -- of the insertion, where the record's state is 1.
  pub record Inserted (index : ℕ) (t : Tree) (r : Option ℕ × Tree) : Type 0 where
    pub grown : IsGrown processes (r.1)
    pub rooted : IsRooted processes (r.1)
    pub keeps : Keeps t (r.1)
    pub handle :
        (get_elem? t.states index ≡ some 1) × (r.0 ≡ none) × (r.1 ≡ t)
        ⊎ ((k : ℕ) × (node : TreeItem) × (r.0 ≡ some k)
            × (get_elem? r.1.nodes k ≡ some node)
            × (node.index ≡ index))

  insert_item-Inserted :
      (index : ℕ) (parent : Option ℕ) (t u : Tree)
      → index < length processes
      → IsGrown processes u
      → Keeps (marked t index) u
      → get_elem? t.states index ≡ some 0
      → Placed processes u.nodes parent (length u.nodes) index
      → IsRooted processes u
      → Fresh processes u parent index
      → (r : Option ℕ × Tree) × (insert_item string_printf accepts processes index parent u
          ≡ some r)
        × Inserted index t r
  unfolding insert_item
  insert_item-Inserted index parent t u inside g keeps zero_before placed rooted fresh =
      let (r, at) = lt-get_elem? processes index inside in
      let item : TreeItem = record {
        parent = parent;
        index = index;
        label = tree_label string_printf accepts r;
      } in
      let in_states : index < length t.states = get_elem?-lt t.states index zero_before in
      let one : get_elem? u.states index ≡ some 1 =
        keeps.kept index 1 (get_elem?-set_self t.states index 1 in_states) (omega arith) in
      (
        (some (length u.nodes), grow u item),
        rw (insert_item, at, always u.nodes item) refl,
        record {
          grown = grow-IsGrown processes u item g one inside placed;
          rooted = grow-IsRooted processes u item rooted fresh;
          keeps = grow-Keeps t u item keeps zero_before one;
          handle = inr (length u.nodes, item, refl, get_elem?-last u.nodes item, refl);
        },
      )

  -- The handle that the call for the parent returns is a place for the record's item.
  parent_place :
      (index parent : ℕ) (t u : Tree) (handle : Option ℕ)
      → OnPath processes t index
      → find_parent_index processes index ≡ some parent
      → parent ≢ index
      → Inserted parent (marked t index) (handle, u)
      → Placed processes u.nodes handle (length u.nodes) index
  parent_place index parent t u handle path e other i = elim i.handle [
    | inl (one, root, same_tree) ↦
        let old : get_elem? t.states parent ≡ some 1 =
          sym (get_elem?-set_ne t.states index parent 1 (λ same. other (sym same))) ∙ one in
        subst (λ h. Placed processes u.nodes h (length u.nodes) index) (sym root)
          (inr (Above-trans (link e) (path parent old).0))
    | inr (k, node, is, at, same) ↦
        subst (λ h. Placed processes u.nodes h (length u.nodes) index) (sym is)
          (get_elem?-lt u.nodes k at, (node, at, e ∙ ap some (sym same)))
  ]

  parent-Fresh :
      (index parent : ℕ) (t u : Tree) (handle : Option ℕ)
      → IsGrown processes t
      → IsRooted processes t
      → get_elem? t.states index ≡ some 0
      → OnPath processes t index
      → find_parent_index processes index ≡ some parent
      → parent ≢ index
      → Inserted parent (marked t index) (handle, u)
      → Fresh processes u handle index
  parent-Fresh index parent t u handle g rooted at path e other i = elim i.handle [
    | inl (one, root, same_tree) ↦
        let old : get_elem? t.states parent ≡ some 1 =
          sym (get_elem?-set_ne t.states index parent 1 (λ same. other (sym same))) ∙ one in
        subst (λ v. Fresh processes v handle index) (sym same_tree)
          (root-Fresh processes t handle index g rooted at
            (ancestors_open processes t index parent path e old))
    | inr (k, node, is, has, same) ↦ below-Fresh processes u handle k index is
  ]

  -- The ancestors of a record without a known parent, or with itself for a parent.
  only_parent :
      (index b : ℕ)
      → (find_parent_index processes index ≡ none)
        ⊎ (find_parent_index processes index ≡ some index)
      → find_parent_index processes index ≡ some b
      → b ≡ index
  only_parent index b (inl no_parent) next = absurd (ground arith)
  only_parent index b (inr itself) next = ground arith

  only_itself :
      (index b : ℕ)
      → (find_parent_index processes index ≡ none)
        ⊎ (find_parent_index processes index ≡ some index)
      → Above processes index b
      → b ≡ index
  only_itself index b own (link next) = only_parent index b own next
  only_itself index b own (up {b = c} above next) =
      only_parent index b own
        (ap (find_parent_index processes) (sym (only_itself index c own above)) ∙ next)

  -- The two ways to an insertion.
  root-eq :
      (fuel index : ℕ) (t : Tree) (r : Option ℕ × Tree)
      → get_elem? t.states index ≡ some 0
      → (find_parent_index processes index ≡ none)
        ⊎ (find_parent_index processes index ≡ some index)
      → insert_item string_printf accepts processes index none (marked t index) ≡ some r
      → insert_process_node string_printf accepts (suc fuel) processes index t ≡ some r
  unfolding insert_process_node
  root-eq fuel index t r at (inl none_found) run = rw (insert_process_node, at, none_found) run
  root-eq fuel index t r at (inr itself) run =
      let same : (index == index) ≡ true = ground arith in
      rw (insert_process_node, at, itself, same) run

  below-eq :
      (fuel index parent : ℕ) (t u : Tree) (handle : Option ℕ) (r : Option ℕ × Tree)
      → get_elem? t.states index ≡ some 0
      → find_parent_index processes index ≡ some parent
      → (parent == index) ≡ false
      → insert_process_node string_printf accepts fuel processes parent (marked t index)
        ≡ some (handle, u)
      → insert_item string_printf accepts processes index handle u ≡ some r
      → insert_process_node string_printf accepts (suc fuel) processes index t ≡ some r
  unfolding insert_process_node
  below-eq fuel index parent t u handle r at e other run run' =
      rw (insert_process_node, at, e, other, run) run'

  -- A call ends within more fuel than there are records in state 0, and inserts what it should.
  pub insert_process_node-Inserted :
      (fuel index : ℕ) (t : Tree)
      → IsGrown processes t
      → IsRooted processes t
      → OnPath processes t index
      → index < length processes
      → unseen t < fuel
      → (r : Option ℕ × Tree) × (insert_process_node string_printf accepts fuel processes index t
          ≡ some r)
        × Inserted index t r
  unfolding insert_process_node
  insert_process_node-Inserted zero index t g rooted path inside h = absurd (omega arith)
  insert_process_node-Inserted (suc fuel) index t g rooted path inside h =
      let (state, at) = lt-get_elem? t.states index (omega (arith, g.states_fit)) in
      elim (Bool-cases (state == 2)) [
        | inl two ↦
            let is_two : get_elem? t.states index ≡ some 2 = at ∙ ap some (ground arith) in
            let (k, node, has, place, is) = g.inserted index is_two in
            (
              (some k, t),
              rw (insert_process_node, at, two, has) refl,
              record {
                grown = g;
                rooted = rooted;
                keeps = Keeps-refl t;
                handle = inr (k, node, refl, place, is);
              },
            )
        | inr not_two ↦ elim (Bool-cases (state == 1)) [
          | inl one ↦ (
            (none, t),
            rw (insert_process_node, at, not_two, one) refl,
            record {
              grown = g;
              rooted = rooted;
              keeps = Keeps-refl t;
              handle = inl (at ∙ ap some (ground arith), refl, refl);
            },
          )
          | inr not_one ↦
              let is_zero : get_elem? t.states index ≡ some 0 =
                at ∙ ap some (ground (arith, g.small index state at)) in
              let marked_rooted = marked-IsRooted processes t index rooted in
              let fresh : (find_parent_index processes index ≡ none)
                    ⊎ (find_parent_index processes index ≡ some index)
                  → Fresh processes (marked t index) none index =
                λ own.
                  root-Fresh processes t none index g rooted is_zero
                    (λ b above. inl (only_itself index b own above)) in
              elim (Option-cases (find_parent_index processes index)) [
                | inl no_parent ↦
                    let (r, run, i) =
                      insert_item-Inserted index none t (marked t index) inside
                        (marked-IsGrown processes t index g is_zero) (Keeps-refl (marked t index))
                        is_zero (inl no_parent) marked_rooted (fresh (inl no_parent)) in
                    (r, root-eq fuel index t r is_zero (inl no_parent) run, i)
                | inr (parent, e) ↦ elim (Bool-cases (parent == index)) [
                  | inl itself ↦
                      let own : parent ≡ index = ground arith in
                      let (r, run, i) =
                        insert_item-Inserted index none t (marked t index) inside
                          (marked-IsGrown processes t index g is_zero) (Keeps-refl (marked t index))
                          is_zero (inr (link (e ∙ ap some own))) marked_rooted
                          (fresh (inr (e ∙ ap some own))) in
                      (r, root-eq fuel index t r is_zero (inr (e ∙ ap some own)) run, i)
                  | inr other ↦
                      let ((handle, u), run, i) =
                        insert_process_node-Inserted fuel parent (marked t index)
                          (marked-IsGrown processes t index g is_zero) marked_rooted
                          (marked-OnPath processes t index parent is_zero path e)
                          (find_parent_index-lt processes index parent e)
                          (omega (arith, marked-unseen t index is_zero)) in
                      let (r, run', j) =
                        insert_item-Inserted index handle t u inside i.grown i.keeps is_zero
                          (parent_place index parent t u handle path e (ground arith) i) i.rooted
                          (parent-Fresh index parent t u handle g rooted is_zero path e
                            (ground arith) i) in
                      (r, below-eq fuel index parent t u handle r is_zero e other run run', j)
                ]
              ]
        ]
      ]
