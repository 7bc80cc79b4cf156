-- ===== src/Views/Clicks.antt =====
-- src/gui.c: the handlers of the window's controls keep the event lists up to date, where every
-- insertion of a row succeeds and ListView_SortItems permutes its rows.
use Prim.Native.Nat.{Ordering}
use mathlib.Core.List.{Perm, reverse, reverse-cons}
use mathlib.Core.List.Perm
use mathlib.Core.Option.{some_inj}
use mathlib.Core.Path.{subst}
use trace_glass.Base.{
  ℕ, ◌≡◌, refl, Bool, true, false, not, ◌&&◌, Option, none, some, List, [], ◌∷◌, length,
  length-append, arith, if_cases,
}
use trace_glass.ProcessTree.{TreeItem, rebuild_process_tree}
use trace_glass.Views.{
  GuiView, view_overview, view_processes, view_network, view_timeline, view_alerts, Row, Desktop,
  Gui, at_view,
}
use trace_glass.Views.Fresh.{
  sort_view-Listed, rebuild_event_lists-Listed, rebuild_overview_lists-AreRecent,
}
use trace_glass.Views.Handlers.{rebuild_filtered_views, toggle_pause, clear_view}
use trace_glass.Views.Rebuild.{rebuild_event_lists, rebuild_overview_lists, rebuild_tree}
use trace_glass.Views.Shown.{IsFresh, shown_below, newest_below}
use trace_glass.Views.Sort.{sort_view, handle_column_click, clicked}

-- The lists are up to date unless the filter's timer or the end of a pause is to rebuild them.
pub record IsSettled (d : Desktop) (g : Gui) : Type 0 where
  pub fresh : g.filter_timer_active ≡ false → g.render_dirty ≡ false → IsFresh d g
  pub dirty : g.render_dirty ≡ true → g.rendering_paused ≡ true

pub length-reverse {ℓ} : {A : Type ℓ} (xs : List A) → length (reverse xs) ≡ length xs
length-reverse [] = refl
length-reverse (x ∷ xs) =
    rw (reverse-cons x xs) (omega (arith, length-append (reverse xs) (x ∷ []), length-reverse xs))

module _ (d : Desktop) where
  pub rebuild_tree_cases :
      (P : Option Gui → Type 0) (g : Gui)
      → P none
      → ((items : List TreeItem) → P (some (record g { tree = items })))
      → P (rebuild_tree d g)
  unfolding rebuild_tree
  rebuild_tree_cases P g fault fine =
      (elim (rebuild_process_tree d.platform.string_printf d.accepts_item
          (d.allocate_tree g.store.processes) g.store.processes)
        as (λ o. P (elim o [ none ↦ none | some items ↦ some (record g { tree = items }) ])) [
          | none ↦ fault
          | some items ↦ fine items
        ])

module _ (d : Desktop) (always : (rows : List Row) (row : Row) → d.accepts_row rows row ≡ true)
    (permutes : (order : ℕ → ℕ → Ordering) (rows : List Row)
      → Perm (d.sort_items order rows) rows) where
  rebuilt-IsFresh : (g : Gui) → IsFresh d (rebuild_overview_lists d (rebuild_event_lists d g))
  unfolding rebuild_overview_lists rebuild_event_lists sort_view
  rebuilt-IsFresh g = (
    rebuild_event_lists-Listed d always permutes g,
    rebuild_overview_lists-AreRecent d always permutes g,
  )

  pub rebuild_filtered_views-IsSettled :
      (g : Gui)
      → (g.render_dirty ≡ true → g.rendering_paused ≡ true)
      → IsSettled d (rebuild_filtered_views d g)
  unfolding rebuild_filtered_views
  rebuild_filtered_views-IsSettled g dirty =
      if_cases (IsSettled d) (g.rendering_paused)
        (λ paused. record {
          fresh = λ quiet clean. absurd (ground (arith, clean));
          dirty = λ e. paused;
        })
        (λ active. record { fresh = λ quiet clean. rebuilt-IsFresh g; dirty = dirty })

  pub toggle_pause-IsSettled :
      (g h : Gui) → toggle_pause d g ≡ some h → IsSettled d g → IsSettled d h
  unfolding toggle_pause rebuild_event_lists rebuild_overview_lists sort_view
  toggle_pause-IsSettled g h e s =
      let toggled = record g { rendering_paused = not g.rendering_paused } in
      if_cases (λ r. r ≡ some h → IsSettled d h)
        (not toggled.rendering_paused && toggled.render_dirty)
        (λ resumed.
          rebuild_tree_cases d
            (λ o.
              (elim o [
                | none ↦ none
                | some k ↦ some (record (rebuild_overview_lists d k) { render_dirty = false })
              ])
                ≡ some h
              → IsSettled d h)
            (rebuild_event_lists d toggled) (λ fault. absurd (ground (arith, fault)))
            (λ items done. subst (IsSettled d) (some_inj.0 done) (record {
              fresh = λ quiet clean. rebuilt-IsFresh toggled;
              dirty = λ bad. absurd (ground (arith, bad));
            })))
        (λ stays done.
          subst (IsSettled d) (some_inj.0 done)
            (record { fresh = s.fresh; dirty = λ e'. ground (arith, stays, e', s.dirty e') }))
        e

  pub clear_view-IsSettled :
      (view : GuiView) (g : Gui) → IsSettled d g → IsSettled d (clear_view view g)
  unfolding clear_view
  clear_view-IsSettled view_processes g s = s
  clear_view-IsSettled view_overview g s = record {
    fresh = λ quiet clean.
        let old = s.fresh quiet clean in
        (
          record { timeline = old.0.timeline; network = old.0.network; alerts = old.0.alerts },
          record {
            recent =
                rw
                  (newest_below _ _ (length g.store.events) (reverse g.store.events)
                    (omega (arith, length-reverse g.store.events)))
                  refl;
            recent_alerts =
                rw
                  (newest_below _ _ (length g.store.events) (reverse g.store.events)
                    (omega (arith, length-reverse g.store.events)))
                  refl;
          },
        );
    dirty = s.dirty;
  }
  clear_view-IsSettled view_network g s = record {
    fresh = λ quiet clean.
        let old = s.fresh quiet clean in
        (
          record {
            timeline = old.0.timeline;
            network =
                rw (shown_below _ _ (length g.store.events) 0 g.store.events (omega arith))
                  (Perm.refl []);
            alerts = old.0.alerts;
          },
          old.1,
        );
    dirty = s.dirty;
  }
  clear_view-IsSettled view_timeline g s = record {
    fresh = λ quiet clean.
        let old = s.fresh quiet clean in
        (
          record {
            timeline =
                rw (shown_below _ _ (length g.store.events) 0 g.store.events (omega arith))
                  (Perm.refl []);
            network = old.0.network;
            alerts = old.0.alerts;
          },
          old.1,
        );
    dirty = s.dirty;
  }
  clear_view-IsSettled view_alerts g s = record {
    fresh = λ quiet clean.
        let old = s.fresh quiet clean in
        (
          record {
            timeline = old.0.timeline;
            network = old.0.network;
            alerts =
                rw (shown_below _ _ (length g.store.events) 0 g.store.events (omega arith))
                  (Perm.refl []);
          },
          old.1,
        );
    dirty = s.dirty;
  }

  pub sort_view-IsSettled :
      (view : GuiView) (force : Bool) (g : Gui)
      → IsSettled d g
      → IsSettled d (sort_view d view force g)
  unfolding sort_view
  sort_view-IsSettled view_overview force g s = s
  sort_view-IsSettled view_processes force g s = s
  sort_view-IsSettled view_network force g s = record {
    fresh = λ quiet clean.
        let old = s.fresh quiet clean in
        (sort_view-Listed d always permutes view_network force g old.0, old.1);
    dirty = s.dirty;
  }
  sort_view-IsSettled view_timeline force g s = record {
    fresh = λ quiet clean.
        let old = s.fresh quiet clean in
        (sort_view-Listed d always permutes view_timeline force g old.0, old.1);
    dirty = s.dirty;
  }
  sort_view-IsSettled view_alerts force g s = record {
    fresh = λ quiet clean.
        let old = s.fresh quiet clean in
        (sort_view-Listed d always permutes view_alerts force g old.0, old.1);
    dirty = s.dirty;
  }

  pub handle_column_click-IsSettled :
      (view : GuiView) (column : ℕ) (g : Gui)
      → IsSettled d g
      → IsSettled d (handle_column_click d view column g)
  unfolding handle_column_click
  handle_column_click-IsSettled view_overview column g s = s
  handle_column_click-IsSettled view_processes column g s = s
  handle_column_click-IsSettled view_network column g s =
      sort_view-IsSettled view_network false
        (record g {
          sort_states =
              at_view g.sort_states view_network (clicked d (g.sort_states view_network) column);
        })
        (record { fresh = s.fresh; dirty = s.dirty })
  handle_column_click-IsSettled view_timeline column g s =
      sort_view-IsSettled view_timeline false
        (record g {
          sort_states =
              at_view g.sort_states view_timeline (clicked d (g.sort_states view_timeline) column);
        })
        (record { fresh = s.fresh; dirty = s.dirty })
  handle_column_click-IsSettled view_alerts column g s =
      sort_view-IsSettled view_alerts false
        (record g {
          sort_states =
              at_view g.sort_states view_alerts (clicked d (g.sort_states view_alerts) column);
        })
        (record { fresh = s.fresh; dirty = s.dirty })
