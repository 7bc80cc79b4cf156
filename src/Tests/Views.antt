-- ===== src/Tests/Views.antt =====
-- The event lists of src/gui.c at concrete inputs.
use Prim.Native.Nat.{Ordering}
use mathlib.Core.List.Perm
use trace_glass.Base.{◌≡◌, ◌⊎◌, refl, true, false, none, some, [], ◌∷◌, length, arith}
use trace_glass.Queue.Chain.{events_of}
use trace_glass.Store.{event_store_initialize}
use trace_glass.Store.Invariant.{initialize-IsValid}
use trace_glass.Tests.Data.{shell_start, connection}
use trace_glass.Tests.Detection.{platform}
use trace_glass.Tests.Queue.{loaded, loaded-Holds}
use trace_glass.Views.{SortState, Desktop, Gui, view_timeline}
use trace_glass.Views.Handlers.{drain_events, clear_current_view}
use trace_glass.Views.Drained.{Drained, drain_events-Drained}
use trace_glass.Views.Sound.{IsSound}
use trace_glass.Views.Bounded.{Acts-IsSound}
use trace_glass.Views.Order.{compare_numbers-negate, compare_event_items_decides}
use trace_glass.Views.Clicks.{IsSettled}
use trace_glass.Views.Settled.{here, next, drained, clear_clicked, Acts-IsSettled}
use trace_glass.Views.Shown.{shown, newest}
use trace_glass.Views.Sort.{compare_numbers, compare_event_items}

abbrev desktop : Desktop
desktop = record {
  platform = platform;
  compare_ordinal = λ left right. compare_numbers (length left) (length right);
  to_filetime = λ time. none;
  accepts_row = λ rows row. true;
  accepts_item = λ items item. true;
  sort_items = λ order rows. rows;
  allocate_process = λ store bytes. true;
  allocate_event = λ store bytes. true;
  allocate_tree = λ processes. true;
}

-- The window with its timeline selected, and one event queued.
abbrev window : Gui
window = record {
  queue = loaded;
  store = event_store_initialize;
  controls = record { search = []; selection = some 0 };
  navigation = some 3;
  view_floor = λ view. 0;
  sort_states = λ view. record { column = 0; ascending = true; active = false; view = view };
  lists = record { timeline = []; network = []; alerts = [] };
  overview = record { recent = []; recent_alerts = [] };
  tree = [];
  rendering_paused = false;
  render_dirty = false;
  filter_timer_active = false;
}

window-IsSettled : IsSettled desktop window
unfolding shown newest
window-IsSettled = record {
  fresh = λ quiet clean. (
    record { timeline = Perm.refl []; network = Perm.refl []; alerts = Perm.refl [] },
    record { recent = refl; recent_alerts = refl },
  );
  dirty = λ e. absurd (ground (arith, e));
}

drain_events-Drained_example :
    (h : Gui) × (drain_events desktop 2 window ≡ some h)
    × Drained desktop window h (events_of ((8, shell_start) ∷ []))
drain_events-Drained_example =
    drain_events-Drained desktop (λ items item. refl) 2 window ((8, shell_start) ∷ []) refl
      loaded-Holds (omega arith)

one_drain :
    (h : Gui) × (drain_events desktop 2 window ≡ some h)
    × Drained desktop window h (events_of ((8, shell_start) ∷ []))
one_drain =
    drain_events-Drained desktop (λ items item. refl) 2 window ((8, shell_start) ∷ []) refl
      loaded-Holds (omega arith)

Acts-IsSettled_example : IsSettled desktop (clear_current_view one_drain.0)
Acts-IsSettled_example =
    Acts-IsSettled desktop (λ rows row. refl) (λ order rows. Perm.refl rows)
      (next (next here (drained 2 one_drain.0 one_drain.1)) clear_clicked) window-IsSettled

window-IsSound : IsSound window
window-IsSound = record {
  valid = initialize-IsValid;
  in_range = record {
    floors = λ view. omega arith;
    lists = record { timeline = tt; network = tt; alerts = tt };
    overview = record { recent = tt; recent_alerts = tt };
  };
}

Acts-IsSound_example : IsSound (clear_current_view one_drain.0)
Acts-IsSound_example =
    Acts-IsSound desktop (λ order rows. Perm.refl rows)
      (next (next here (drained 2 one_drain.0 one_drain.1)) clear_clicked) window-IsSound

abbrev by_name : SortState
by_name = record { column = 1; ascending = false; active = true; view = view_timeline }

compare_event_items_decides_example :
    ((compare_event_items desktop
          (shell_start ∷ record connection { sequence = 1 } ∷ [])
          by_name
          0
          1
        ≡ Ordering.lt)
      × (compare_event_items desktop
            (shell_start ∷ record connection { sequence = 1 } ∷ [])
            by_name
            1
            0
          ≡ Ordering.gt))
    ⊎ ((compare_event_items desktop
            (shell_start ∷ record connection { sequence = 1 } ∷ [])
            by_name
            0
            1
          ≡ Ordering.gt)
        × (compare_event_items desktop
              (shell_start ∷ record connection { sequence = 1 } ∷ [])
              by_name
              1
              0
            ≡ Ordering.lt))
compare_event_items_decides_example =
    compare_event_items_decides desktop
      (λ left right. compare_numbers-negate (length left) (length right))
      (shell_start ∷ record connection { sequence = 1 } ∷ []) by_name 0 1 shell_start
      (record connection { sequence = 1 }) refl refl (λ e. absurd (ground (arith, e)))
