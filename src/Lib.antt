-- ===== src/Lib.antt =====
-- TraceGlass: a Windows process and network monitor, in C.
--
-- Collectors (src/process_monitor.c, src/network_monitor.c, src/etw_monitor.c) run on threads of
-- src/telemetry.c and push events into the queue of src/event_queue.c. A push posts a message to
-- the window unless one is pending; the window procedure of src/gui.c then pops events until the
-- queue is empty, adds each to the store of src/event_store.c and hands the accepted ones to
-- src/detection.c, whose alerts it adds to the store too.
--
-- Which file models what; a definition has the name of its function or type in the source.
--   Base, Base/…         the names, Boolean tests, lists and lemmas that all files share
--   Utils, Utils/…       src/utils.c: copies, searches and paths over WCHAR buffers
--   Times                src/utils.c: file times
--   Events               include/events.h, src/events.c
--   Capacity, Capacity/… the growth of an array, `reserve_events` and `reserve_processes` of
--                        src/event_store.c with what differs between them as arguments
--   Store, Store/…       include/event_store.h, src/event_store.c
--   Queue, Queue/…       include/event_queue.h, src/event_queue.c
--   Detection, …         include/detection.h, src/detection.c
--   Snapshot, …          the sorted snapshot and the searches of src/process_monitor.c
--   ProcessMonitor, …    the capture and the poll of src/process_monitor.c
--   NetworkMonitor, …    include/network_monitor.h, src/network_monitor.c
--   ProcessTree, …       the process tree of src/gui.c
--   Views, Views/…       the event lists of src/gui.c and the handlers that change them
--   Etw, Etw/…           include/etw_monitor.h, src/etw_monitor.c
--   Telemetry, …         include/telemetry.h, src/telemetry.c
--   Export, Export/…     src/export.c: the three formats, the file that they leave, and what follows
--                        the Save As dialog
--   Tests, …             the theorems at concrete inputs
--
-- Numbers are natural numbers; a counter of 64 bits keeps its wrap-around. A WCHAR buffer is the
-- list of its cells where a routine writes cells, and the text in front of its terminator elsewhere.
-- A pointer into an array is an index, and one to a node of the queue is an address in an explicit
-- heap. A read out of range is a `none` that the theorems exclude. Windows and the C library
-- (allocation, snapshots, handles, files, qsort, bsearch, the conversions of times and texts,
-- StringCchPrintfW) are parameters; what is assumed of them is a hypothesis of the theorem that needs
-- it. The queue's critical sections are atomic steps.
--
-- Loops that do not follow a structure run on fuel: the capacity loop on the request plus one, since
-- each round adds at least one to a capacity above zero; the two loops of a snapshot search on the
-- length plus one, since each round takes at least one index away; the release of the queue on any
-- number above its length, and so its drain; `write_all` on the number of bytes plus one; the recursion
-- of `insert_process_node` on the number of records plus one, since each call marks a record. Theorems
-- below say that this is enough.
--
-- Not modelled: guards against NULL arguments; `format_windows_error`; the worker's loop of
-- telemetry.c and the consumer's thread of etw_monitor.c, which only call what is modelled; logger.c
-- and main.c; of gui.c the creation, layout and drawing of windows, the texts of the status bar, the
-- cards and the details window, the menus and the clipboard.
pub mod Base
pub mod Utils
pub mod Events
pub mod Capacity
pub mod Store
pub mod Queue
pub mod Detection
pub mod Times
pub mod Snapshot
pub mod ProcessMonitor
pub mod NetworkMonitor
pub mod ProcessTree
pub mod Views
pub mod Etw
pub mod Telemetry
pub mod Export
pub mod Tests
