-- ===== src/Views/Sort.antt =====
-- src/gui.c: the order of the rows of a sorted list, `sort_view` and `handle_column_click`. An `int`
-- that is negative, 0 or positive is an `Ordering`.
use Prim.Native.Nat.{Ordering}
use trace_glass.Base.{
  ℕ, Bool, true, false, not, ◌&&◌, none, some, List, [], ◌∷◌, ltb, ◌==◌, if◌then◌else◌, get_elem?,
}
use trace_glass.Events.{TraceGlassEvent, AlertSeverity, event_category_name}
use trace_glass.Times.{filetime_to_u64}
use trace_glass.Utils.{Text}
use trace_glass.Views.{
  GuiView, view_overview, view_processes, view_network, view_timeline, view_alerts, SortState, Row,
  Desktop, Gui, at_view,
}

-- The negated `int`.
abbrev pub negate : Ordering → Ordering
negate Ordering.lt = Ordering.gt
negate Ordering.eq = Ordering.eq
negate Ordering.gt = Ordering.lt

-- `if (result == 0) result = …`
abbrev pub or_compare : Ordering → Ordering → Ordering
or_compare Ordering.eq next = next
or_compare Ordering.lt next = Ordering.lt
or_compare Ordering.gt next = Ordering.gt

unfoldable pub compare_numbers : ℕ → ℕ → Ordering
compare_numbers left right =
    if ltb left right then Ordering.lt else if ltb right left then Ordering.gt else Ordering.eq

-- The enumerators' numbers; the store keeps none outside of them.
abbrev pub severity_number : AlertSeverity → ℕ
severity_number AlertSeverity.none = 0
severity_number AlertSeverity.info = 1
severity_number AlertSeverity.low = 2
severity_number AlertSeverity.medium = 3
severity_number AlertSeverity.high = 4
severity_number AlertSeverity.unlisted = 5

module _ (d : Desktop) where
  unfoldable pub compare_text : Text → Text → Ordering
  compare_text left right = d.compare_ordinal left right

  unfoldable pub compare_event_times : TraceGlassEvent → TraceGlassEvent → Ordering
  unfolding compare_numbers filetime_to_u64
  compare_event_times left right =
      let by_sequence = compare_numbers left.sequence right.sequence in
      elim (d.to_filetime left.timestamp) [
        | none ↦ by_sequence
        | some left_time ↦ elim (d.to_filetime right.timestamp) [
          | none ↦ by_sequence
          | some right_time ↦
              or_compare (compare_numbers (filetime_to_u64 left_time) (filetime_to_u64 right_time))
                by_sequence
        ]
      ]

  unfoldable pub compare_endpoints : TraceGlassEvent → TraceGlassEvent → Bool → Ordering
  unfolding compare_text compare_numbers
  compare_endpoints left right remote =
      or_compare
        (compare_text (if remote then left.remote_address else left.local_address)
          (if remote then right.remote_address else right.local_address))
        (compare_numbers (if remote then left.remote_port else left.local_port)
          (if remote then right.remote_port else right.local_port))

  -- `switch (sort->column)`, with 0 by default.
  abbrev at_column : List Ordering → ℕ → Ordering
  at_column cases column = elim (get_elem? cases column) [
    | none ↦ Ordering.eq
    | some result ↦ result
  ]

  unfoldable pub compare_columns : GuiView → ℕ → TraceGlassEvent → TraceGlassEvent → Ordering
  unfolding compare_event_times compare_endpoints compare_text compare_numbers
  compare_columns view_timeline column left right =
      at_column
        (compare_event_times left right
          ∷ compare_text (event_category_name left.type) (event_category_name right.type)
          ∷ compare_text left.process_name right.process_name
          ∷ compare_numbers left.process.pid right.process.pid
          ∷ compare_text left.details right.details
          ∷ [])
        column
  compare_columns view_network column left right =
      at_column
        (compare_event_times left right
          ∷ compare_text left.process_name right.process_name
          ∷ compare_numbers left.process.pid right.process.pid
          ∷ compare_text left.protocol right.protocol
          ∷ compare_endpoints left right false
          ∷ compare_endpoints left right true
          ∷ compare_text left.network_state right.network_state
          ∷ [])
        column
  compare_columns view_alerts column left right =
      at_column
        (compare_event_times left right
          ∷ compare_numbers (severity_number left.severity) (severity_number right.severity)
          ∷ compare_text left.rule_name right.rule_name
          ∷ compare_text left.process_name right.process_name
          ∷ compare_text left.details right.details
          ∷ [])
        column
  compare_columns _ column left right = Ordering.eq

  unfoldable pub compare_event_items : List TraceGlassEvent → SortState → ℕ → ℕ → Ordering
  unfolding compare_columns compare_numbers
  compare_event_items events sort left_index right_index = elim (get_elem? events left_index) [
    | none ↦ Ordering.eq
    | some left ↦ elim (get_elem? events right_index) [
      | none ↦ Ordering.eq
      | some right ↦
          let result =
            or_compare (compare_columns sort.view sort.column left right)
              (compare_numbers left.sequence right.sequence) in
          if sort.ascending then result else negate result
    ]
  ]

  abbrev default_sort : GuiView → SortState
  default_sort view = record { column = 0; ascending = true; active = false; view = view }

  -- `sort_view` on the rows of a view's list.
  unfoldable pub sort_rows : List TraceGlassEvent → SortState → GuiView → Bool → List Row → List Row
  unfolding compare_event_items
  sort_rows events sort view force_default rows =
      if not sort.active && not force_default
      then rows
      else if sort.active
      then d.sort_items (compare_event_items events sort) rows
      else d.sort_items (compare_event_items events (default_sort view)) rows

  unfoldable pub sort_view : GuiView → Bool → Gui → Gui
  unfolding sort_rows
  sort_view view force_default g =
      let sorted = sort_rows g.store.events (g.sort_states view) view force_default in
      elim view [
        | view_network ↦ record g { lists = record (g.lists) { network = sorted g.lists.network } }
        | view_timeline ↦ record g {
          lists = record (g.lists) { timeline = sorted g.lists.timeline };
        }
        | view_alerts ↦ record g { lists = record (g.lists) { alerts = sorted g.lists.alerts } }
        | _ ↦ g
      ]

  abbrev pub clicked : SortState → ℕ → SortState
  clicked sort column =
      if sort.active && sort.column == column
      then record sort { ascending = not sort.ascending }
      else record sort { column = column; ascending = true; active = true }

  -- The view whose list was clicked; a click on another list does nothing.
  unfoldable pub handle_column_click : GuiView → ℕ → Gui → Gui
  unfolding sort_view
  handle_column_click view_overview column g = g
  handle_column_click view_processes column g = g
  handle_column_click view column g =
      sort_view view false (record g {
        sort_states = at_view g.sort_states view (clicked (g.sort_states view) column);
      })
