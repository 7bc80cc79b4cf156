-- ===== src/Views/Drains.antt =====
-- src/gui.c: what the loop of `drain_events` does to the event lists, where every insertion of a row
-- succeeds and ListView_SortItems permutes its rows.
use Prim.Native.Nat.{Ordering}
use mathlib.Core.List.{Perm}
use mathlib.Core.Option.{some_inj}
use mathlib.Core.Path.{subst}
use trace_glass.Base.{
  ℕ, zero, suc, ◌≡◌, refl, ◌∙◌, Bool, true, false, not, ◌||◌, none, some, List, [], ◌∷◌, ◌++◌,
  length, arith, if_cases, inl, inr,
}
use trace_glass.Detection.{detection_evaluate, max_alerts_per_event}
use trace_glass.Events.{TraceGlassEvent}
use trace_glass.Queue.{Machine, pop_event}
use trace_glass.Store.{EventStore, event_store_add}
use trace_glass.Store.Counts.{event_store_add-Appends}
use trace_glass.Views.{Row, Desktop, Gui}
use trace_glass.Views.Fresh.{Listed, add_event_rows-AreListed}
use trace_glass.Views.Handlers.{Draining, add_accepted_event, add_alerts, drain_event, drain_loop}
use trace_glass.Views.Rows.{add_event_rows}

-- The events and the lists as they were.
abbrev pub IsIdle : Gui → Gui → Type 0
IsIdle g h = (h.store.events ≡ g.store.events) × (h.lists ≡ g.lists)

-- What the loop of `drain_events` leaves of the window's state.
pub record Renders (d : Desktop) (g h : Gui) : Type 0 where
  pub controls : h.controls ≡ g.controls
  pub view_floor : h.view_floor ≡ g.view_floor
  pub overview : h.overview ≡ g.overview
  pub paused : h.rendering_paused ≡ g.rendering_paused
  pub dirty : h.render_dirty ≡ g.render_dirty
  pub timer : h.filter_timer_active ≡ g.filter_timer_active
  pub listed : g.rendering_paused ≡ false → Listed d g → Listed d h

pub Renders-trans : {d : Desktop} (f g h : Gui) → Renders d f g → Renders d g h → Renders d f h
Renders-trans f g h p q = record {
  controls = q.controls ∙ p.controls;
  view_floor = q.view_floor ∙ p.view_floor;
  overview = q.overview ∙ p.overview;
  paused = q.paused ∙ p.paused;
  dirty = q.dirty ∙ p.dirty;
  timer = q.timer ∙ p.timer;
  listed = λ active l. q.listed (p.paused ∙ active) (p.listed active l);
}

module _ (d : Desktop) (always : (rows : List Row) (row : Row) → d.accepts_row rows row ≡ true)
    (permutes : (order : ℕ → ℕ → Ordering) (rows : List Row)
      → Perm (d.sort_items order rows) rows) where
  -- The calls of `add_accepted_event`, by how they end.
  add_accepted_event_cases :
      (P : Gui × TraceGlassEvent × Bool → Type 0) (event : TraceGlassEvent) (g : Gui)
      → ((s : EventStore) (e : TraceGlassEvent)
          → s.events ≡ g.store.events
          → P (record g { store = s }, e, false))
      → ((s : EventStore) (e : TraceGlassEvent)
          → s.events ≡ g.store.events ++ e ∷ []
          → g.rendering_paused ≡ true
          → P (record g { store = s }, e, true))
      → ((s : EventStore) (e : TraceGlassEvent)
          → s.events ≡ g.store.events ++ e ∷ []
          → P (
            record g {
              store = s;
              lists = add_event_rows d g.controls g.view_floor e (length g.store.events) g.lists;
            },
            e,
            true,
          ))
      → P (add_accepted_event d event g)
  unfolding add_accepted_event
  add_accepted_event_cases P event g refused hidden drawn =
      let added =
        event_store_add (d.allocate_process g.store) (d.allocate_event g.store) g.store event in
      elim (event_store_add-Appends (d.allocate_process g.store) (d.allocate_event g.store) g.store
        event) [
          | inl (accepted, succeeded, numbered, events) ↦
              if_cases P (not added.succeeded || not added.accepted)
                (λ bad. absurd (ground (arith, bad, accepted, succeeded)))
                (λ good.
                  if_cases P (g.rendering_paused)
                    (λ paused. hidden added.store added.event events paused)
                    (λ active. drawn added.store added.event events))
          | inr (rejected, same, history) ↦
              if_cases P (not added.succeeded || not added.accepted)
                (λ bad. refused added.store added.event history.events)
                (λ good. absurd (ground (arith, good, rejected)))
        ]

  add_accepted_event-Renders :
      (event : TraceGlassEvent) (g : Gui)
      → Renders d g (add_accepted_event d event g).0
        × ((add_accepted_event d event g).2 ≡ false → IsIdle g (add_accepted_event d event g).0)
  add_accepted_event-Renders event g =
      add_accepted_event_cases (λ r. Renders d g r.0 × (r.2 ≡ false → IsIdle g r.0)) event g
        (λ s e same. (
          record {
            controls = refl;
            view_floor = refl;
            overview = refl;
            paused = refl;
            dirty = refl;
            timer = refl;
            listed = λ active l. rw same l;
          },
          λ idle. (same, refl),
        ))
        (λ s e more paused. (
          record {
            controls = refl;
            view_floor = refl;
            overview = refl;
            paused = refl;
            dirty = refl;
            timer = refl;
            listed = λ active l. absurd (ground (arith, paused, active));
          },
          λ idle. absurd (ground (arith, idle)),
        ))
        (λ s e more. (
          record {
            controls = refl;
            view_floor = refl;
            overview = refl;
            paused = refl;
            dirty = refl;
            timer = refl;
            listed = λ active l. rw more (
                add_event_rows-AreListed d always permutes g.controls g.view_floor g.store.events e
                  g.lists l);
          },
          λ idle. absurd (ground (arith, idle)),
        ))

  add_alerts-Renders :
      (alerts : List TraceGlassEvent) (g : Gui) → Renders d g (add_alerts d alerts g)
  unfolding add_alerts
  add_alerts-Renders [] g = record {
    controls = refl;
    view_floor = refl;
    overview = refl;
    paused = refl;
    dirty = refl;
    timer = refl;
    listed = λ active l. l;
  }
  add_alerts-Renders (alert ∷ alerts) g =
      Renders-trans g (add_accepted_event d alert g).0 _ (add_accepted_event-Renders alert g).0
        (add_alerts-Renders alerts (add_accepted_event d alert g).0)

  -- The window's state, and what it means that no event was accepted.
  pub record Drains (s t : Draining) : Type 0 where
    pub renders : Renders d s.gui t.gui
    pub idle : t.any_accepted ≡ false → (s.any_accepted ≡ false) × IsIdle s.gui t.gui

  Drains-trans : (r s t : Draining) → Drains r s → Drains s t → Drains r t
  Drains-trans r s t p q = record {
    renders = Renders-trans r.gui s.gui t.gui p.renders q.renders;
    idle = λ quiet.
        let (before, (events, lists)) = q.idle quiet in
        let (first, (events', lists')) = p.idle before in
        (first, (events ∙ events', lists ∙ lists'));
  }

  drain_event-Drains : (event : TraceGlassEvent) (s : Draining) → Drains s (drain_event d event s)
  unfolding drain_event
  drain_event-Drains event s =
      let (g, stored, accepted) = add_accepted_event d event s.gui in
      let (renders, idle) = add_accepted_event-Renders event s.gui in
      if_cases (Drains s) (not accepted)
        (λ rejected. record { renders = renders; idle = λ quiet. (quiet, idle (ground arith)) })
        (λ taken. record {
          renders =
              Renders-trans s.gui g _ renders
                (add_alerts-Renders (detection_evaluate d.platform stored max_alerts_per_event) g);
          idle = λ quiet. absurd (ground (arith, quiet));
        })

  dequeue :
      (s : Draining) (queue : Machine)
      → Drains s (record s { gui = record (s.gui) { queue = queue } })
  dequeue s queue = record {
    renders = record {
      controls = refl;
      view_floor = refl;
      overview = refl;
      paused = refl;
      dirty = refl;
      timer = refl;
      listed = λ active l. l;
    };
    idle = λ quiet. (quiet, (refl, refl));
  }

  pub drain_loop-Drains : (fuel : ℕ) (s t : Draining) → drain_loop d fuel s ≡ some t → Drains s t
  unfolding drain_loop
  drain_loop-Drains zero s t e = absurd (ground (arith, e))
  drain_loop-Drains (suc fuel) s t e =
      (elim (pop_event s.gui.queue)
          as (λ o.
            (elim o [
              | none ↦ none
              | some (queue, none) ↦ some (record s { gui = record (s.gui) { queue = queue } })
              | some (queue, some event) ↦
                  drain_loop d fuel
                    (drain_event d event (record s { gui = record (s.gui) { queue = queue } }))
            ])
              ≡ some t
            → Drains s t) [
              | none ↦ λ f. absurd (ground (arith, f))
              | some (queue, none) ↦ λ f. subst (Drains s) (some_inj.0 f) (dequeue s queue)
              | some (queue, some event) ↦ λ f.
                  let u = record s { gui = record (s.gui) { queue = queue } } in
                  Drains-trans s u t (dequeue s queue) (
                    Drains-trans u (drain_event d event u) t (drain_event-Drains event u)
                      (drain_loop-Drains fuel (drain_event d event u) t f))
            ])
        e
