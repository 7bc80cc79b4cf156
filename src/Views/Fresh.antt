-- ===== src/Views/Fresh.antt =====
-- src/gui.c: the lists after a rebuild, after a sort and after one more event, where every insertion
-- of a row succeeds and ListView_SortItems permutes its rows.
use Prim.Native.Nat.{Ordering}
use mathlib.Core.List.{Perm, reverse}
use mathlib.Core.List.Perm
use trace_glass.Base.{
  ℕ, ◌≡◌, Bool, true, not, ◌&&◌, List, [], ◌∷◌, ◌++◌, length, arith, Bool-cases, inl, inr,
}
use trace_glass.Events.{TraceGlassEvent}
use trace_glass.Views.{
  GuiView, view_overview, view_processes, view_network, view_timeline, view_alerts, SortState, Row,
  Desktop, Controls, EventLists, Gui,
}
use trace_glass.Views.Fill.{add_event_rows-Extends, rebuild_loop-Extends}
use trace_glass.Views.Recent.{overview_loop-Overviews}
use trace_glass.Views.Rebuild.{rebuild_event_lists, rebuild_overview_lists}
use trace_glass.Views.Rows.{add_event_rows}
use trace_glass.Views.Shown.{shown_concat_all, AreListed, AreRecent}
use trace_glass.Views.Sort.{sort_rows, sort_view}

perm_of {ℓ} : {A : Type ℓ} {xs ys : List A} → xs ≡ ys → Perm xs ys
perm_of e = rw e (Perm.refl _)

abbrev pub Listed : Desktop → Gui → Type 0
Listed d g = AreListed d g.controls g.view_floor g.store.events g.lists

module _ (d : Desktop) (always : (rows : List Row) (row : Row) → d.accepts_row rows row ≡ true)
    (permutes : (order : ℕ → ℕ → Ordering) (rows : List Row)
      → Perm (d.sort_items order rows) rows) where
  sort_rows-perm :
      (events : List TraceGlassEvent) (sort : SortState) (view : GuiView) (force : Bool)
      (rows : List Row)
      → Perm (sort_rows d events sort view force rows) rows
  unfolding sort_rows
  sort_rows-perm events sort view force rows = elim (Bool-cases (not sort.active && not force)) [
    | inl skip ↦ rw skip (Perm.refl rows)
    | inr go ↦ elim (Bool-cases (sort.active)) [
      | inl custom ↦ rw (go, custom) (permutes _ rows)
      | inr default ↦ rw (go, default) (permutes _ rows)
    ]
  ]

  pub sort_view-Listed :
      (view : GuiView) (force : Bool) (g : Gui) → Listed d g → Listed d (sort_view d view force g)
  unfolding sort_view
  sort_view-Listed view_overview force g l = l
  sort_view-Listed view_processes force g l = l
  sort_view-Listed view_network force g l = record {
    timeline = l.timeline;
    network = Perm.trans (sort_rows-perm _ _ view_network force g.lists.network) l.network;
    alerts = l.alerts;
  }
  sort_view-Listed view_timeline force g l = record {
    timeline = Perm.trans (sort_rows-perm _ _ view_timeline force g.lists.timeline) l.timeline;
    network = l.network;
    alerts = l.alerts;
  }
  sort_view-Listed view_alerts force g l = record {
    timeline = l.timeline;
    network = l.network;
    alerts = Perm.trans (sort_rows-perm _ _ view_alerts force g.lists.alerts) l.alerts;
  }

  pub rebuild_event_lists-Listed : (g : Gui) → Listed d (rebuild_event_lists d g)
  unfolding rebuild_event_lists sort_view
  rebuild_event_lists-Listed g =
      let filled =
        rebuild_loop-Extends d always g.controls g.view_floor 0 g.store.events
          (record { timeline = []; network = []; alerts = [] }) in
      record {
        timeline = Perm.trans (sort_rows-perm _ _ view_timeline true _) (perm_of filled.timeline);
        network = Perm.trans (sort_rows-perm _ _ view_network true _) (perm_of filled.network);
        alerts = Perm.trans (sort_rows-perm _ _ view_alerts true _) (perm_of filled.alerts);
      }

  pub rebuild_overview_lists-AreRecent :
      (g : Gui)
      → AreRecent d g.controls
          (g.view_floor view_overview)
          g.store.events
          (rebuild_overview_lists d g).overview
  unfolding rebuild_overview_lists
  rebuild_overview_lists-AreRecent g =
      let filled =
        overview_loop-Overviews d always g.controls (g.view_floor view_overview)
          (reverse g.store.events) (record { recent = []; recent_alerts = [] })
          (record { recent = omega arith; recent_alerts = omega arith }) in
      record { recent = filled.recent; recent_alerts = filled.recent_alerts }

  -- One more event.
  pub add_event_rows-AreListed :
      (c : Controls) (view_floor : GuiView → ℕ) (events : List TraceGlassEvent)
      (event : TraceGlassEvent) (lists : EventLists)
      → AreListed d c view_floor events lists
      → AreListed d c view_floor
          (events ++ event ∷ [])
          (add_event_rows d c view_floor event (length events) lists)
  add_event_rows-AreListed c view_floor events event lists l =
      let x = add_event_rows-Extends d always c view_floor event (length events) lists in
      record {
        timeline =
            rw (x.timeline, shown_concat_all _ _ _ events event)
              (Perm.append l.timeline (Perm.refl _));
        network =
            rw (x.network, shown_concat_all _ _ _ events event)
              (Perm.append l.network (Perm.refl _));
        alerts =
            rw (x.alerts, shown_concat_all _ _ _ events event) (Perm.append l.alerts (Perm.refl _));
      }
