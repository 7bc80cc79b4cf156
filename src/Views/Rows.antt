-- ===== src/Views/Rows.antt =====
-- src/gui.c: which events a list shows, and the rows that it shows for them.
use trace_glass.Base.{
  ℕ, Bool, true, not, ◌&&◌, ◌||◌, Option, none, some, List, [], ◌∷◌, ◌++◌, leb, ◌==◌, if◌then◌else◌,
  codes,
}
use trace_glass.Detection.{Argument, text, number}
use trace_glass.Events.{
  TraceGlassEvent, SystemTime, process_start, process_stop, network, event_type_name,
  event_category_name, alert_severity_name, is_process_start, is_process_stop, is_network, is_alert,
}
use trace_glass.Utils.{Text, copy_text, string_contains_insensitive}
use trace_glass.Views.{
  GuiView, view_network, view_timeline, view_alerts, Row, Desktop, Controls, EventLists,
}

module _ (d : Desktop) where
  abbrev string_printf : ℕ → Text → List Argument → Text
  string_printf = d.platform.string_printf

  unfoldable pub format_event_time : SystemTime → ℕ → Text
  format_event_time timestamp buffer_count =
      string_printf buffer_count (codes "%02u:%02u:%02u")
        (number timestamp.hour ∷ number timestamp.minute ∷ number timestamp.second ∷ [])

  -- GetWindowTextW leaves at most 255 characters of the search text.
  unfoldable pub event_matches_search : Text → TraceGlassEvent → Bool
  unfolding string_contains_insensitive
  event_matches_search search event =
      let filter = copy_text 256 search in
      let numeric_fields = string_printf 96 (codes "%lu %lu %u %u") (
        number event.process.pid
        ∷ number event.parent.pid
        ∷ number event.local_port
        ∷ number event.remote_port
        ∷ []) in
      let holds : Text → Bool =
        λ field. string_contains_insensitive d.platform.towlower (some field) (some filter) in
      elim filter [
        | [] ↦ true
        | c ∷ rest ↦
            holds event.process_name
            || holds event.parent_name
            || holds event.executable_path
            || holds event.details
            || holds event.remote_address
            || holds event.local_address
            || holds event.protocol
            || holds event.network_state
            || holds event.rule_name
            || holds (event_type_name event.type)
            || holds (event_category_name event.type)
            || holds numeric_fields
      ]

  unfoldable pub event_matches_type_filter : Option ℕ → TraceGlassEvent → Bool
  event_matches_type_filter none event = true
  event_matches_type_filter (some selected) event =
      if selected == 0
      then true
      else if selected == 1
      then is_process_start event.type || is_process_stop event.type
      else if selected == 2
      then is_network event.type
      else if selected == 3
      then is_alert event.type
      else true

  abbrev pid_text : TraceGlassEvent → Text
  pid_text event = string_printf 32 (codes "%lu") (number event.process.pid ∷ [])

  abbrev endpoint_text : Text → ℕ → Text
  endpoint_text address port = string_printf 96 (codes "%s:%u") (text address ∷ number port ∷ [])

  unfoldable pub timeline_row : TraceGlassEvent → ℕ → Row
  timeline_row event event_index = record {
    index = event_index;
    cells =
        format_event_time event.timestamp 32
        ∷ event_category_name event.type
        ∷ event.process_name
        ∷ pid_text event
        ∷ event.details
        ∷ [];
  }

  unfoldable pub network_row : TraceGlassEvent → ℕ → Row
  network_row event event_index = record {
    index = event_index;
    cells =
        format_event_time event.timestamp 32
        ∷ event.process_name
        ∷ pid_text event
        ∷ event.protocol
        ∷ endpoint_text event.local_address event.local_port
        ∷ endpoint_text event.remote_address event.remote_port
        ∷ event.network_state
        ∷ [];
  }

  unfoldable pub alert_row : TraceGlassEvent → ℕ → Row
  alert_row event event_index = record {
    index = event_index;
    cells =
        format_event_time event.timestamp 32
        ∷ alert_severity_name event.severity
        ∷ event.rule_name
        ∷ event.process_name
        ∷ event.details
        ∷ [];
  }

  -- A row behind the others, with its texts; nothing where the insertion fails.
  unfoldable pub insert_list_item : List Row → Row → List Row
  insert_list_item rows row = if d.accepts_row rows row then rows ++ row ∷ [] else rows

  unfoldable pub add_timeline_row : Controls → TraceGlassEvent → ℕ → List Row → List Row
  unfolding insert_list_item
  add_timeline_row c event event_index rows =
      if not (event_matches_search c.search event)
        || not (event_matches_type_filter c.selection event)
      then rows
      else insert_list_item rows (timeline_row event event_index)

  unfoldable pub add_network_row : Controls → TraceGlassEvent → ℕ → List Row → List Row
  unfolding insert_list_item
  add_network_row c event event_index rows =
      if not (event_matches_search c.search event)
      then rows
      else insert_list_item rows (network_row event event_index)

  unfoldable pub add_alert_row : Controls → TraceGlassEvent → ℕ → List Row → List Row
  unfolding insert_list_item
  add_alert_row c event event_index rows =
      if not (event_matches_search c.search event)
      then rows
      else insert_list_item rows (alert_row event event_index)

  -- What `rebuild_event_lists` and `add_accepted_event` do for one stored event.
  unfoldable pub add_event_rows :
      Controls → (GuiView → ℕ) → TraceGlassEvent → ℕ → EventLists → EventLists
  unfolding add_timeline_row add_network_row add_alert_row
  add_event_rows c view_floor event index lists =
      let on_network = is_network event.type && leb (view_floor view_network) index in
      let on_alerts = is_alert event.type && leb (view_floor view_alerts) index in
      record {
        timeline =
            if leb (view_floor view_timeline) index
            then add_timeline_row c event index lists.timeline
            else lists.timeline;
        network = if on_network then add_network_row c event index lists.network else lists.network;
        alerts =
            if on_network
            then lists.alerts
            else if on_alerts
            then add_alert_row c event index lists.alerts
            else lists.alerts;
      }

  unfoldable pub format_activity : TraceGlassEvent → Text
  format_activity event = elim (event.type) [
    | process_start ↦
        string_printf 1400 (codes "%s started (PID %lu)")
          (text event.process_name ∷ number event.process.pid ∷ [])
    | process_stop ↦
        string_printf 1400 (codes "%s stopped (PID %lu)")
          (text event.process_name ∷ number event.process.pid ∷ [])
    | network ↦ string_printf 1400 (codes "%s owns TCP connection: local %s:%u; remote %s:%u") (
        text event.process_name
        ∷ text event.local_address
        ∷ number event.local_port
        ∷ text event.remote_address
        ∷ number event.remote_port
        ∷ [])
    | _ ↦
        string_printf 1400 (codes "%s: %s")
          (text (event_category_name event.type) ∷ text event.details ∷ [])
  ]

  unfoldable pub recent_row : TraceGlassEvent → ℕ → Row
  recent_row event event_index = record {
    index = event_index;
    cells = format_event_time event.timestamp 32 ∷ format_activity event ∷ [];
  }

  unfoldable pub recent_alert_row : TraceGlassEvent → ℕ → Row
  recent_alert_row event event_index = record {
    index = event_index;
    cells =
        format_event_time event.timestamp 32
        ∷ alert_severity_name event.severity
        ∷ event.rule_name
        ∷ event.process_name
        ∷ [];
  }
