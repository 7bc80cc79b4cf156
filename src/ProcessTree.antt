-- ===== src/ProcessTree.antt =====
-- The process tree of src/gui.c: `find_parent_index`, `insert_process_node` and the loop of
-- `rebuild_process_tree`. The tree view is the list of its items in the order of their insertion, and
-- an item's handle is its place there; `none` is TVI_ROOT, and NULL as a parent means the same.
-- `accepts` says whether TreeView_InsertItem succeeds. The outer `none` is a read outside of an array,
-- or no fuel left.
pub mod Placed
pub mod Marks
pub mod Roots
pub mod Insert
pub mod Built
use trace_glass.Base.{
  ℕ, zero, suc, ◌+◌, ◌<◌, Bool, true, false, not, ◌&&◌, ◌||◌, Option, none, some, List, [], ◌∷◌,
  ◌++◌, ltb, ◌==◌, if◌then◌else◌, length, get_elem?, set, codes,
}
use trace_glass.Detection.{Argument, text, number}
use trace_glass.Events.{max_path}
use trace_glass.Store.{ProcessRecord, event_store_find_process}
use trace_glass.Utils.{Text}

pub record TreeItem : Type 0 where
  pub parent : Option ℕ
  pub index : ℕ
  pub label : Text

-- The two arrays of `rebuild_process_tree`, and the tree view.
pub record Tree : Type 0 where
  pub states : List ℕ
  pub items : List (Option ℕ)
  pub nodes : List TreeItem

-- `none` is -1.
unfoldable pub find_parent_index : List ProcessRecord → ℕ → Option ℕ
unfolding event_store_find_process
find_parent_index processes child_index = elim (get_elem? processes child_index) [
  | none ↦ none
  | some child ↦
      if child.parent.pid == 0 || child.parent.pid == child.key.pid
      then none
      else event_store_find_process processes child.parent
]

abbrev pub fill {ℓ} : {A : Type ℓ} → A → List ProcessRecord → List A
fill a [] = []
fill a (r ∷ processes) = a ∷ fill a processes

-- The arrays that `calloc` gives, and an empty tree view.
abbrev pub empty_tree : List ProcessRecord → Tree
empty_tree processes = record { states = fill 0 processes; items = fill none processes; nodes = [] }

abbrev or_unknown : Text → Text
or_unknown [] = codes "<unknown>"
or_unknown (c ∷ name) = c ∷ name

module _ (string_printf : ℕ → Text → List Argument → Text)
    (accepts : List TreeItem → TreeItem → Bool) where
  unfoldable pub tree_label : ProcessRecord → Text
  tree_label r =
      string_printf (max_path + 80)
        (if r.active then codes "%s (PID %lu)" else codes "%s (PID %lu) [stopped]")
        (text (or_unknown r.name) ∷ number r.key.pid ∷ [])

  -- From the recursive call on: the item below `parent`, and the two arrays.
  unfoldable pub insert_item : List ProcessRecord → ℕ → Option ℕ → Tree → Option (Option ℕ × Tree)
  unfolding tree_label
  insert_item processes index parent t = elim (get_elem? processes index) [
    | none ↦ none
    | some r ↦
        let item : TreeItem = record { parent = parent; index = index; label = tree_label r } in
        let taken = accepts t.nodes item in
        let handle = if taken then some (length t.nodes) else none in
        some (
          handle,
          record {
            states = set t.states index 2;
            items = set t.items index handle;
            nodes = if taken then t.nodes ++ item ∷ [] else t.nodes;
          },
        )
  ]

  unfoldable pub insert_process_node : ℕ → List ProcessRecord → ℕ → Tree → Option (Option ℕ × Tree)
  unfolding find_parent_index insert_item
  insert_process_node zero processes index t = none
  insert_process_node (suc fuel) processes index t = elim (get_elem? t.states index) [
    | none ↦ none
    | some state ↦ elim (state == 2) [
      | true ↦ elim (get_elem? t.items index) [ none ↦ none | some handle ↦ some (handle, t) ]
      | false ↦ elim (state == 1) [
        | true ↦ some (none, t)
        | false ↦ elim (find_parent_index processes index) [
          | none ↦ insert_item processes index none (record t { states = set t.states index 1 })
          | some parent ↦ elim (parent == index) [
            | true ↦ insert_item processes index none (record t { states = set t.states index 1 })
            | false ↦
                elim (insert_process_node fuel processes parent
                  (record t { states = set t.states index 1 })) [
                    | none ↦ none
                    | some (handle, u) ↦ insert_item processes index handle u
                  ]
          ]
        ]
      ]
    ]
  ]

  -- `for (index = 0; …)`, with so many rounds to go.
  unfoldable pub insert_loop : ℕ → ℕ → List ProcessRecord → ℕ → Tree → Option Tree
  unfolding insert_process_node
  insert_loop fuel zero processes index t = some t
  insert_loop fuel (suc rounds) processes index t =
      elim (insert_process_node fuel processes index t) [
        | none ↦ none
        | some (handle, u) ↦ insert_loop fuel rounds processes (index + 1) u
      ]

  -- `allocated` says whether both calls of `calloc` succeed.
  unfoldable pub rebuild_process_tree : Bool → List ProcessRecord → Option (List TreeItem)
  unfolding insert_loop
  rebuild_process_tree allocated processes =
      if length processes == 0 || not allocated
      then some []
      else (elim (insert_loop (suc (length processes)) (length processes) processes 0
          (empty_tree processes)) [ none ↦ none | some t ↦ some t.nodes ])
