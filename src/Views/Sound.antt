-- ===== src/Views/Sound.antt =====
-- src/gui.c: the steps of the window's handlers keep the store valid and the lists within it.
use Prim.Native.Nat.{Ordering}
use mathlib.Core.List.{Perm}
use mathlib.Core.Option.{some_inj}
use mathlib.Core.Path.{subst}
use trace_glass.Base.{
  ℕ, zero, suc, ◌≤◌, ◌<◌, ◌≡◌, refl, sym, ap, Bool, true, not, ◌||◌, Option, none, some, List, [],
  ◌∷◌, ◌++◌, length, length-append, arith, if_cases, inl, inr,
}
use trace_glass.Detection.{detection_evaluate, max_alerts_per_event}
use trace_glass.Events.{TraceGlassEvent}
use trace_glass.ProcessTree.{TreeItem}
use trace_glass.Queue.{Machine, pop_event}
use trace_glass.Store.{Added, EventStore, event_store_add}
use trace_glass.Store.Counts.{event_store_add-Appends}
use trace_glass.Store.Invariant.{IsValid, event_store_add-IsValid}
use trace_glass.Views.{
  GuiView, view_overview, view_processes, view_network, view_timeline, view_alerts, SortState, Row,
  Desktop, Controls, Gui,
}
use trace_glass.Views.Clicks.{rebuild_tree_cases}
use trace_glass.Views.Handlers.{
  Draining, add_accepted_event, add_alerts, drain_event, drain_loop, render,
}
use trace_glass.Views.Indexed.{ListsBelow-mono, OverviewBelow-mono, add_event_rows-ListsBelow}
use trace_glass.Views.Ranges.{
  InRange, sort_view-InRange, rebuild_event_lists-InRange, rebuild_overview_lists-InRange,
}
use trace_glass.Views.Rebuild.{rebuild_event_lists, rebuild_overview_lists, rebuild_tree}
use trace_glass.Views.Sort.{sort_view}

-- The store is valid, and what the window keeps of it lies within it.
pub record IsSound (g : Gui) : Type 0 where
  pub valid : IsValid g.store
  pub in_range : InRange g

-- The parts of the window's state that `IsSound` does not speak of.
pub reframed :
    {queue : Machine} {controls : Controls} {navigation : Option ℕ}
    {sort_states : GuiView → SortState} {tree : List TreeItem} {paused dirty timer : Bool} (g : Gui)
    → IsSound g
    → IsSound (record g {
      queue = queue;
      controls = controls;
      navigation = navigation;
      sort_states = sort_states;
      tree = tree;
      rendering_paused = paused;
      render_dirty = dirty;
      filter_timer_active = timer;
    })
reframed g s = record {
  valid = s.valid;
  in_range = record {
    floors = s.in_range.floors;
    lists = s.in_range.lists;
    overview = s.in_range.overview;
  };
}

-- What a call of `event_store_add` does to the number of stored events.
record Grows (s : EventStore) (a : Added) : Type 0 where
  more : length s.events ≤ length a.store.events
  stored : a.accepted ≡ true → length s.events < length a.store.events

event_store_add-Grows :
    (allocate_process allocate_event : ℕ → Bool) (s : EventStore) (e : TraceGlassEvent)
    → Grows s (event_store_add allocate_process allocate_event s e)
event_store_add-Grows allocate_process allocate_event s e =
    let a = event_store_add allocate_process allocate_event s e in
    elim (event_store_add-Appends allocate_process allocate_event s e) [
      | inl (accepted, succeeded, numbered, events) ↦
          let longer : length a.store.events ≡ length (s.events ++ a.event ∷ []) =
            ap length events in
          record {
            more = omega (arith, longer, length-append s.events (a.event ∷ []));
            stored = λ e. omega (arith, longer, length-append s.events (a.event ∷ []));
          }
      | inr (rejected, same, history) ↦
          let equal : length a.store.events ≡ length s.events = ap length history.events in
          record {
            more = omega (arith, equal);
            stored = λ taken. absurd (ground (arith, rejected, taken));
          }
    ]

module _ (d : Desktop)
    (permutes : (order : ℕ → ℕ → Ordering) (rows : List Row)
      → Perm (d.sort_items order rows) rows) where
  add_accepted_event-IsSound :
      (event : TraceGlassEvent) (g : Gui) → IsSound g → IsSound (add_accepted_event d event g).0
  unfolding add_accepted_event
  add_accepted_event-IsSound event g s =
      let a =
        event_store_add (d.allocate_process g.store) (d.allocate_event g.store) g.store event in
      let grows =
        event_store_add-Grows (d.allocate_process g.store) (d.allocate_event g.store) g.store
          event in
      let valid =
        event_store_add-IsValid (d.allocate_process g.store) (d.allocate_event g.store) g.store
          event s.valid in
      let m = length g.store.events in
      let n = length a.store.events in
      let stored : IsSound (record g { store = a.store }) = record {
        valid = valid;
        in_range = record {
          floors = λ view. omega (arith, s.in_range.floors view, grows.more);
          lists = ListsBelow-mono m n g.lists grows.more s.in_range.lists;
          overview = OverviewBelow-mono m n g.overview grows.more s.in_range.overview;
        };
      } in
      let P : Gui × TraceGlassEvent × Bool → Type 0 = λ r. IsSound r.0 in
      if_cases P (not a.succeeded || not a.accepted) (λ refused. stored)
        (λ taken.
          if_cases P (g.rendering_paused) (λ paused. stored)
            (λ active. record {
              valid = valid;
              in_range = record {
                floors = stored.in_range.floors;
                lists =
                    add_event_rows-ListsBelow d n g.controls g.view_floor a.event m g.lists
                      (grows.stored (ground (arith, taken))) stored.in_range.lists;
                overview = stored.in_range.overview;
              };
            }))

  add_alerts-IsSound :
      (alerts : List TraceGlassEvent) (g : Gui) → IsSound g → IsSound (add_alerts d alerts g)
  unfolding add_alerts
  add_alerts-IsSound [] g s = s
  add_alerts-IsSound (alert ∷ alerts) g s =
      add_alerts-IsSound alerts (add_accepted_event d alert g).0
        (add_accepted_event-IsSound alert g s)

  drain_event-IsSound :
      (event : TraceGlassEvent) (s : Draining) → IsSound s.gui → IsSound (drain_event d event s).gui
  unfolding drain_event
  drain_event-IsSound event s sound =
      let (g, stored, accepted) = add_accepted_event d event s.gui in
      let added = add_accepted_event-IsSound event s.gui sound in
      if_cases (λ (r : Draining). IsSound r.gui) (not accepted) (λ rejected. added)
        (λ taken.
          add_alerts-IsSound (detection_evaluate d.platform stored max_alerts_per_event) g added)

  pub drain_loop-IsSound :
      (fuel : ℕ) (s t : Draining) → drain_loop d fuel s ≡ some t → IsSound s.gui → IsSound t.gui
  unfolding drain_loop
  drain_loop-IsSound zero s t e sound = absurd (ground (arith, e))
  drain_loop-IsSound (suc fuel) s t e sound =
      (elim (pop_event s.gui.queue)
          as (λ o.
            (elim o [
              | none ↦ none
              | some (queue, none) ↦ some (record s { gui = record (s.gui) { queue = queue } })
              | some (queue, some event) ↦
                  drain_loop d fuel
                    (drain_event d event (record s { gui = record (s.gui) { queue = queue } }))
            ])
              ≡ some t
            → IsSound t.gui) [
              | none ↦ λ f. absurd (ground (arith, f))
              | some (queue, none) ↦
                  λ f. subst (λ (r : Draining). IsSound r.gui) (some_inj.0 f) (reframed s.gui sound)
              | some (queue, some event) ↦ λ f.
                  let u = record s { gui = record (s.gui) { queue = queue } } in
                  drain_loop-IsSound fuel (drain_event d event u) t f
                    (drain_event-IsSound event u (reframed s.gui sound))
            ])
        e

  pub rebuild_overview_lists-IsSound : (g : Gui) → IsSound g → IsSound (rebuild_overview_lists d g)
  unfolding rebuild_overview_lists
  rebuild_overview_lists-IsSound g s = record {
    valid = s.valid;
    in_range = rebuild_overview_lists-InRange d permutes g s.in_range;
  }

  sort_view-store :
      (view : GuiView) (force : Bool) (g : Gui) → (sort_view d view force g).store ≡ g.store
  unfolding sort_view
  sort_view-store view_overview force g = refl
  sort_view-store view_processes force g = refl
  sort_view-store view_network force g = refl
  sort_view-store view_timeline force g = refl
  sort_view-store view_alerts force g = refl

  pub sort_view-IsSound :
      (view : GuiView) (force : Bool) (g : Gui) → IsSound g → IsSound (sort_view d view force g)
  sort_view-IsSound view force g s = record {
    valid = subst IsValid (sym (sort_view-store view force g)) s.valid;
    in_range = sort_view-InRange d permutes view force g s.in_range;
  }

  pub rebuild_event_lists-IsSound : (g : Gui) → IsSound g → IsSound (rebuild_event_lists d g)
  unfolding rebuild_event_lists sort_view
  rebuild_event_lists-IsSound g s = record {
    valid = s.valid;
    in_range = rebuild_event_lists-InRange d permutes g s.in_range;
  }

  pub render-IsSound : (first : Bool) (g : Gui) → IsSound g → IsSound (render d first g)
  render-IsSound first g s =
      let drawn = rebuild_overview_lists d g in
      let by_time = sort_view d view_timeline first drawn in
      sort_view-IsSound view_alerts first (sort_view d view_network first by_time) (
        sort_view-IsSound view_network first by_time
          (sort_view-IsSound view_timeline first drawn (rebuild_overview_lists-IsSound g s)))

  rebuild_tree-IsSound : (g h : Gui) → rebuild_tree d g ≡ some h → IsSound g → IsSound h
  rebuild_tree-IsSound g h e s =
      rebuild_tree_cases d (λ o. o ≡ some h → IsSound h) g (λ fault. absurd (ground (arith, fault)))
        (λ items done. subst IsSound (some_inj.0 done) (reframed g s)) e

  -- What follows the rebuild of the tree.
  pub rebuild_tree_then :
      (then_do : Gui → Gui) (g h : Gui)
      → ((k : Gui) → IsSound k → IsSound (then_do k))
      → (elim (rebuild_tree d g) [ none ↦ none | some k ↦ some (then_do k) ]) ≡ some h
      → IsSound g
      → IsSound h
  rebuild_tree_then then_do g h keeps e s =
      (elim (rebuild_tree d g)
          as (λ o.
            rebuild_tree d g ≡ o
            → (elim o [ none ↦ none | some k ↦ some (then_do k) ]) ≡ some h
            → IsSound h) [
              | none ↦ λ ran f. absurd (ground (arith, f))
              | some k ↦
                  λ ran f. subst IsSound (some_inj.0 f) (keeps k (rebuild_tree-IsSound g k ran s))
            ])
        refl e
