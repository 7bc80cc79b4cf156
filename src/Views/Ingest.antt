-- ===== src/Views/Ingest.antt =====
-- src/gui.c: what `drain_events` makes of the store, written down without the queue and the window.
use trace_glass.Base.{Bool, ◌&&◌, List, [], ◌∷◌, if◌then◌else◌}
use trace_glass.Detection.{detection_evaluate, max_alerts_per_event}
use trace_glass.Events.{TraceGlassEvent}
use trace_glass.Store.{EventStore, Added, event_store_add}
use trace_glass.Views.{Desktop}

module _ (d : Desktop) where
  abbrev pub added : TraceGlassEvent → EventStore → Added
  added event s = event_store_add (d.allocate_process s) (d.allocate_event s) s event

  abbrev pub is_stored : TraceGlassEvent → EventStore → Bool
  is_stored event s = (added event s).succeeded && (added event s).accepted

  unfoldable pub ingest_alerts : List TraceGlassEvent → EventStore → EventStore
  ingest_alerts [] s = s
  ingest_alerts (alert ∷ alerts) s = ingest_alerts alerts (added alert s).store

  -- An event, and behind it the alerts on it, if it was stored.
  unfoldable pub ingest : TraceGlassEvent → EventStore → EventStore
  unfolding ingest_alerts
  ingest event s =
      if is_stored event s
      then ingest_alerts (detection_evaluate d.platform (added event s).event max_alerts_per_event)
          (added event s).store
      else (added event s).store

  unfoldable pub ingest_all : List TraceGlassEvent → EventStore → EventStore
  unfolding ingest
  ingest_all [] s = s
  ingest_all (event ∷ events) s = ingest_all events (ingest event s)
