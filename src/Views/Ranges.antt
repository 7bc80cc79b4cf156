-- ===== src/Views/Ranges.antt =====
-- src/gui.c: sorting and rebuilding the window's lists keeps their rows within the store, where
-- ListView_SortItems permutes the rows.
use Prim.Native.Nat.{Ordering}
use mathlib.Core.List.{Perm, reverse}
use mathlib.Core.List.Perm
use mathlib.Core.Logic.{∥∥₁_elim}
use trace_glass.Base.{ℕ, ◌≤◌, Bool, true, not, ◌&&◌, List, [], length, arith, Bool-cases, inl, inr}
use trace_glass.Events.{TraceGlassEvent}
use trace_glass.Views.Clicks.{length-reverse}
use trace_glass.Views.{
  GuiView, view_network, view_timeline, view_alerts, view_overview, view_processes, SortState, Row,
  Desktop, EventLists, Gui,
}
use trace_glass.Views.Rebuild.{rebuild_loop, rebuild_event_lists, rebuild_overview_lists}
use trace_glass.Views.Sort.{sort_rows, sort_view}
use trace_glass.Views.Indexed.{
  AreBelow, AreBelow-prop, AreBelow-permuted, ListsBelow, OverviewBelow, rebuild_loop-ListsBelow,
  overview_loop-OverviewBelow,
}

-- The rows of the window's lists name stored events, and no view's floor is above their number.
pub record InRange (g : Gui) : Type 0 where
  pub floors : (view : GuiView) → g.view_floor view ≤ length g.store.events
  pub lists : ListsBelow (length g.store.events) g.lists
  pub overview : OverviewBelow (length g.store.events) g.overview

module _ (d : Desktop)
    (permutes : (order : ℕ → ℕ → Ordering) (rows : List Row)
      → Perm (d.sort_items order rows) rows) where
  sort_items-AreBelow :
      (n : ℕ) (order : ℕ → ℕ → Ordering) (rows : List Row)
      → AreBelow n rows
      → AreBelow n (d.sort_items order rows)
  sort_items-AreBelow n order rows below =
      ∥∥₁_elim (Perm.symm (permutes order rows)) (AreBelow-prop n (d.sort_items order rows))
        (λ p. AreBelow-permuted n p below)

  sort_rows-AreBelow :
      (n : ℕ) (events : List TraceGlassEvent) (sort : SortState) (view : GuiView) (force : Bool)
      (rows : List Row)
      → AreBelow n rows
      → AreBelow n (sort_rows d events sort view force rows)
  unfolding sort_rows
  sort_rows-AreBelow n events sort view force rows below =
      elim (Bool-cases (not sort.active && not force)) [
        | inl skip ↦ rw skip below
        | inr on ↦ elim (Bool-cases (sort.active)) [
          | inl active ↦ rw (on, active) (sort_items-AreBelow n _ rows below)
          | inr plain ↦ rw (on, plain) (sort_items-AreBelow n _ rows below)
        ]
      ]

  pub sort_view-InRange :
      (view : GuiView) (force : Bool) (g : Gui) → InRange g → InRange (sort_view d view force g)
  unfolding sort_view
  sort_view-InRange view_overview force g r = r
  sort_view-InRange view_processes force g r = r
  sort_view-InRange view_network force g r = record {
    floors = r.floors;
    lists = record {
      timeline = r.lists.timeline;
      network = sort_rows-AreBelow _ _ _ view_network force g.lists.network r.lists.network;
      alerts = r.lists.alerts;
    };
    overview = r.overview;
  }
  sort_view-InRange view_timeline force g r = record {
    floors = r.floors;
    lists = record {
      timeline = sort_rows-AreBelow _ _ _ view_timeline force g.lists.timeline r.lists.timeline;
      network = r.lists.network;
      alerts = r.lists.alerts;
    };
    overview = r.overview;
  }
  sort_view-InRange view_alerts force g r = record {
    floors = r.floors;
    lists = record {
      timeline = r.lists.timeline;
      network = r.lists.network;
      alerts = sort_rows-AreBelow _ _ _ view_alerts force g.lists.alerts r.lists.alerts;
    };
    overview = r.overview;
  }

  pub rebuild_event_lists-InRange : (g : Gui) → InRange g → InRange (rebuild_event_lists d g)
  unfolding rebuild_event_lists
  rebuild_event_lists-InRange g r =
      let empty : EventLists = record { timeline = []; network = []; alerts = [] } in
      let filled = record g {
        lists = rebuild_loop d g.controls g.view_floor 0 g.store.events empty;
      } in
      let by_time = sort_view d view_timeline true filled in
      sort_view-InRange view_alerts true (sort_view d view_network true by_time) (
        sort_view-InRange view_network true by_time (
          sort_view-InRange view_timeline true filled (record {
            floors = r.floors;
            lists =
                rebuild_loop-ListsBelow d (length g.store.events) g.controls g.view_floor 0
                  g.store.events empty (omega arith)
                  (record { timeline = tt; network = tt; alerts = tt });
            overview = r.overview;
          })))

  pub rebuild_overview_lists-InRange : (g : Gui) → InRange g → InRange (rebuild_overview_lists d g)
  unfolding rebuild_overview_lists
  rebuild_overview_lists-InRange g r = record {
    floors = r.floors;
    lists = r.lists;
    overview =
        overview_loop-OverviewBelow d (length g.store.events) g.controls
          (g.view_floor view_overview) (reverse g.store.events)
          (record { recent = []; recent_alerts = [] })
          (omega (arith, length-reverse g.store.events))
          (record { recent = tt; recent_alerts = tt });
  }
