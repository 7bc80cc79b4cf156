-- ===== src/Views/Drained.antt =====
-- src/gui.c: `drain_events` empties the queue into the store.
use mathlib.Core.Path.{subst}
use trace_glass.Base.{
  ℕ, zero, suc, ◌<◌, ◌≡◌, refl, sym, ap, ◌∙◌, Bool, true, false, not, ◌&&◌, ◌||◌, Option, some,
  List, [], ◌∷◌, length, arith, Bool-cases, if_cases, inl, inr, ◌==◌,
}
use trace_glass.Detection.{detection_evaluate, max_alerts_per_event}
use trace_glass.Events.{TraceGlassEvent}
use trace_glass.ProcessTree.{TreeItem, rebuild_process_tree}
use trace_glass.ProcessTree.Built.{rebuild_process_tree-IsTree}
use trace_glass.Queue.{Machine}
use trace_glass.Queue.Chain.{Cells, events_of, Holds}
use trace_glass.Queue.Pop.{pop_event-Popped, pop_event_empty}
use trace_glass.Store.{EventStore, ProcessRecord}
use trace_glass.Views.{Desktop, Gui}
use trace_glass.Views.Handlers.{
  Draining, add_accepted_event, add_alerts, drain_event, drain_loop, render, after_drain,
  drain_events,
}
use trace_glass.Views.Rebuild.{rebuild_overview_lists, rebuild_tree}
use trace_glass.Views.Sort.{sort_view}
use trace_glass.Views.Ingest.{added, is_stored, ingest_alerts, ingest, ingest_all}

is_refused :
    (succeeded accepted : Bool)
    → (not succeeded || not accepted) ≡ true
    → (succeeded && accepted) ≡ false
is_refused succeeded accepted e = ground arith

is_taken :
    (succeeded accepted : Bool)
    → (not succeeded || not accepted) ≡ false
    → (succeeded && accepted) ≡ true
is_taken succeeded accepted e = ground arith

module _ (d : Desktop) where
  -- The calls keep the queue and do to the store what the description says.
  record Follows (g h : Gui) (s : EventStore) : Type 0 where
    queue : h.queue ≡ g.queue
    store : h.store ≡ s

  add_accepted_event-Follows :
      (event : TraceGlassEvent) (g : Gui)
      → Follows g (add_accepted_event d event g).0 (added d event g.store).store
        × ((add_accepted_event d event g).1 ≡ (added d event g.store).event)
        × ((add_accepted_event d event g).2 ≡ is_stored d event g.store)
  unfolding add_accepted_event
  add_accepted_event-Follows event g =
      let a = added d event g.store in
      let P : Gui × TraceGlassEvent × Bool → Type 0 =
        λ r. Follows g r.0 a.store × (r.1 ≡ a.event) × (r.2 ≡ is_stored d event g.store) in
      if_cases P (not a.succeeded || not a.accepted)
        (λ refused. (
          record { queue = refl; store = refl },
          refl,
          sym (is_refused a.succeeded a.accepted refused),
        ))
        (λ fine.
          let stored = sym (is_taken a.succeeded a.accepted fine) in
          if_cases P (g.rendering_paused)
            (λ paused. (record { queue = refl; store = refl }, refl, stored))
            (λ active. (record { queue = refl; store = refl }, refl, stored)))

  ingest_refused :
      (event : TraceGlassEvent) (s : EventStore)
      → is_stored d event s ≡ false
      → ingest d event s ≡ (added d event s).store
  unfolding ingest
  ingest_refused event s e = rw (ingest, e) refl

  ingest_stored :
      (event : TraceGlassEvent) (s : EventStore)
      → is_stored d event s ≡ true
      → ingest d event s
        ≡ ingest_alerts d
            (detection_evaluate d.platform (added d event s).event max_alerts_per_event)
            (added d event s).store
  unfolding ingest
  ingest_stored event s e = rw (ingest, e) refl

  add_alerts-Follows :
      (alerts : List TraceGlassEvent) (g : Gui)
      → Follows g (add_alerts d alerts g) (ingest_alerts d alerts g.store)
  unfolding add_alerts ingest_alerts
  add_alerts-Follows [] g = record { queue = refl; store = refl }
  add_alerts-Follows (alert ∷ alerts) g =
      let (first, event, accepted) = add_accepted_event-Follows alert g in
      let rest = add_alerts-Follows alerts (add_accepted_event d alert g).0 in
      record {
        queue = rest.queue ∙ first.queue;
        store = rest.store ∙ ap (ingest_alerts d alerts) first.store;
      }

  drain_event-Follows :
      (event : TraceGlassEvent) (s : Draining)
      → Follows s.gui (drain_event d event s).gui (ingest d event s.gui.store)
  unfolding drain_event
  drain_event-Follows event s =
      let (g, stored, accepted) = add_accepted_event d event s.gui in
      let (first, same, is) = add_accepted_event-Follows event s.gui in
      if_cases (λ (r : Draining). Follows s.gui r.gui (ingest d event s.gui.store)) (not accepted)
        (λ refused. record {
          queue = first.queue;
          store = first.store ∙ sym (ingest_refused event s.gui.store (sym is ∙ ground arith));
        })
        (λ taken.
          let alerts = detection_evaluate d.platform stored max_alerts_per_event in
          let rest = add_alerts-Follows alerts g in
          record {
            queue = rest.queue ∙ first.queue;
            store =
                rest.store
                ∙ (ap (ingest_alerts d alerts) first.store
                    ∙ (ap
                          (λ e.
                            ingest_alerts d (detection_evaluate d.platform e max_alerts_per_event)
                              (added d event s.gui.store).store)
                          same
                        ∙ sym (ingest_stored event s.gui.store (sym is ∙ ground arith))));
          })

  pub record Drained (g h : Gui) (events : List TraceGlassEvent) : Type 0 where
    pub store : h.store ≡ ingest_all d events g.store
    pub empty : Holds h.queue.queue h.queue.heap []
    pub pending : h.queue.queue.notification_pending ≡ false
    pub initialized : h.queue.queue.initialized ≡ true

  drain_loop-Drained :
      (fuel : ℕ) (s : Draining) (xs : Cells)
      → s.gui.queue.queue.initialized ≡ true
      → Holds s.gui.queue.queue s.gui.queue.heap xs
      → length xs < fuel
      → (t : Draining) × (drain_loop d fuel s ≡ some t) × Drained s.gui t.gui (events_of xs)
  unfolding drain_loop ingest_all
  drain_loop-Drained zero s xs ready holds enough = absurd (omega (arith, enough))
  drain_loop-Drained (suc fuel) s [] ready holds enough =
      let m = s.gui.queue in
      let flushed = record m { queue = record (m.queue) { notification_pending = false } } in
      (
        record s { gui = record (s.gui) { queue = flushed } },
        rw (drain_loop, pop_event_empty m ready holds) refl,
        record {
          store = refl;
          empty = record { chain = holds.chain; distinct = holds.distinct; tail = holds.tail };
          pending = refl;
          initialized = ready;
        },
      )
  drain_loop-Drained (suc fuel) s ((node, event) ∷ xs) ready holds enough =
      let (m, popped, p) = pop_event-Popped s.gui.queue node event xs ready holds in
      let u = record s { gui = record (s.gui) { queue = m } } in
      let f = drain_event-Follows event u in
      let (t, rest, done) =
        drain_loop-Drained fuel (drain_event d event u) xs
          (ap (λ (q : Machine). q.queue.initialized) f.queue ∙ p.initialized)
          (subst (λ (q : Machine). Holds q.queue q.heap xs) (sym f.queue) p.holds)
          (omega (arith, enough)) in
      (
        t,
        rw (drain_loop, popped) rest,
        record {
          store = done.store ∙ ap (ingest_all d (events_of xs)) f.store;
          empty = done.empty;
          pending = done.pending;
          initialized = done.initialized;
        },
      )

  module _
      (always : (items : List TreeItem) (item : TreeItem) → d.accepts_item items item ≡ true) where
    rebuild_process_tree_total :
        (allocated : Bool) (processes : List ProcessRecord)
        → (items : List TreeItem) × (rebuild_process_tree d.platform.string_printf d.accepts_item
              allocated processes
            ≡ some items)
    unfolding rebuild_process_tree
    rebuild_process_tree_total true processes =
        let (items, run, placed) =
          rebuild_process_tree-IsTree d.platform.string_printf d.accepts_item processes always in
        (items, run)
    rebuild_process_tree_total false processes = (
      [],
      elim (Bool-cases (length processes == 0)) [
        | inl empty ↦ rw empty refl
        | inr full ↦ rw full refl
      ],
    )

    abbrev Ends : Gui → Option Gui → Type 0
    Ends g o = (h : Gui) × (o ≡ some h) × Follows g h g.store

    after_drain-Ends : (first : Bool) (t : Draining) → Ends t.gui (after_drain d first t)
    unfolding after_drain rebuild_tree rebuild_overview_lists sort_view
    after_drain-Ends first t =
        let (items, run) =
          rebuild_process_tree_total (d.allocate_tree t.gui.store.processes)
            t.gui.store.processes in
        if_cases (Ends t.gui) (not t.any_accepted)
          (λ quiet. (t.gui, refl, record { queue = refl; store = refl }))
          (λ accepted.
            if_cases (Ends t.gui) (t.gui.rendering_paused)
              (λ paused. (
                record (t.gui) { render_dirty = true },
                refl,
                record { queue = refl; store = refl },
              ))
              (λ active.
                if_cases (Ends t.gui) (t.tree_changed)
                  (λ changed. (
                    render d first (record (t.gui) { tree = items }),
                    rw run refl,
                    record { queue = refl; store = refl },
                  ))
                  (λ same. (render d first t.gui, refl, record { queue = refl; store = refl }))))

    -- On an initialized queue, with fuel above its length, `drain_events` ends without a fault. It
    -- leaves the queue empty and the pending flag cleared, and the store as if the queued events had
    -- been added to it in their order, each followed by the alerts on it where it was accepted, paused
    -- or not. Items are taken to be inserted into the tree view without failure.
    pub drain_events-Drained :
        (fuel : ℕ) (g : Gui) (xs : Cells)
        → g.queue.queue.initialized ≡ true
        → Holds g.queue.queue g.queue.heap xs
        → length xs < fuel
        → (h : Gui) × (drain_events d fuel g ≡ some h) × Drained g h (events_of xs)
    unfolding drain_events
    drain_events-Drained fuel g xs ready holds enough =
        let start : Draining = record { gui = g; tree_changed = false; any_accepted = false } in
        let (t, run, done) = drain_loop-Drained fuel start xs ready holds enough in
        let (h, ends, f) = after_drain-Ends (length g.store.events == 0) t in
        (
          h,
          rw (drain_events, run) ends,
          record {
            store = f.store ∙ done.store;
            empty = subst (λ (q : Machine). Holds q.queue q.heap []) (sym f.queue) done.empty;
            pending = ap (λ (q : Machine). q.queue.notification_pending) f.queue ∙ done.pending;
            initialized = ap (λ (q : Machine). q.queue.initialized) f.queue ∙ done.initialized;
          },
        )
