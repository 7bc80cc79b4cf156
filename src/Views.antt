-- ===== src/Views.antt =====
-- The event lists of src/gui.c: what `g_gui` keeps for them. A list view is the list of its rows, and
-- a row's `lParam` is the index of its event in the store. The process tree's view stands beside them.
-- Window handles, layout, fonts, the status bar and the other texts are left out.
pub mod Rows
pub mod Sort
pub mod Rebuild
pub mod Handlers
pub mod Shown
pub mod Fill
pub mod Recent
pub mod Fresh
pub mod Drains
pub mod Clicks
pub mod Settled
pub mod Indexed
pub mod Ranges
pub mod Sound
pub mod Bounded
pub mod Ingest
pub mod Drained
pub mod Order
use Prim.Native.Nat.{Ordering}
use trace_glass.Base.{ℕ, Bool, true, false, Option, List, [], ◌∷◌, ◌++◌, ◌==◌, if◌then◌else◌}
use trace_glass.Detection.{Platform}
use trace_glass.Events.{SystemTime}
use trace_glass.ProcessTree.{TreeItem}
use trace_glass.Queue.{Machine}
use trace_glass.Store.{EventStore, ProcessRecord}
use trace_glass.Times.{FileTime}
use trace_glass.Utils.{Text}

pub data GuiView : Type 0 where
  view_overview view_processes view_network view_timeline view_alerts : GuiView

-- The enumerators' numbers.
abbrev pub view_number : GuiView → ℕ
view_number view_overview = 0
view_number view_processes = 1
view_number view_network = 2
view_number view_timeline = 3
view_number view_alerts = 4

pub record SortState : Type 0 where
  pub column : ℕ
  pub ascending : Bool
  pub active : Bool
  pub view : GuiView

pub record Row : Type 0 where
  pub index : ℕ
  pub cells : List Text

-- What the window's code calls outside of the repository.
pub record Desktop : Type 0 where
  pub platform : Platform
  -- `CompareStringOrdinal(left, -1, right, -1, TRUE)`
  pub compare_ordinal : Text → Text → Ordering
  -- SystemTimeToFileTime; `none` is FALSE.
  pub to_filetime : SystemTime → Option FileTime
  -- Whether ListView_InsertItem and TreeView_InsertItem succeed.
  pub accepts_row : List Row → Row → Bool
  pub accepts_item : List TreeItem → TreeItem → Bool
  -- ListView_SortItems, with the order of two rows' `lParam`.
  pub sort_items : (ℕ → ℕ → Ordering) → List Row → List Row
  -- The answers of `realloc` and `calloc` to the calls that a store leads to.
  pub allocate_process : EventStore → ℕ → Bool
  pub allocate_event : EventStore → ℕ → Bool
  pub allocate_tree : List ProcessRecord → Bool

-- The search text and the selected index of the event filter; `none` is CB_ERR.
pub record Controls : Type 0 where
  pub search : Text
  pub selection : Option ℕ

pub record EventLists : Type 0 where
  pub timeline : List Row
  pub network : List Row
  pub alerts : List Row

pub record OverviewLists : Type 0 where
  pub recent : List Row
  pub recent_alerts : List Row

pub record Gui : Type 0 where
  pub queue : Machine
  pub store : EventStore
  pub controls : Controls
  -- TabCtrl_GetCurSel; `none` is negative.
  pub navigation : Option ℕ
  pub view_floor : GuiView → ℕ
  pub sort_states : GuiView → SortState
  pub lists : EventLists
  pub overview : OverviewLists
  pub tree : List TreeItem
  pub rendering_paused : Bool
  pub render_dirty : Bool
  pub filter_timer_active : Bool

-- A write to an array with a cell for each view.
abbrev pub at_view {ℓ} : {A : Type ℓ} → (GuiView → A) → GuiView → A → GuiView → A
at_view cells view new other = if view_number other == view_number view then new else cells other
