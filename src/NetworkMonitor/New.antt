-- ===== src/NetworkMonitor/New.antt =====
-- Which connections a poll of src/network_monitor.c reports.
use Prim.Native.Nat.{Ordering}
use trace_glass.Base.{
  ◌≡◌, ◌≢◌, refl, sym, ap, ◌∙◌, Bool, true, false, some, List, [], ◌∷◌, ◌++◌, ltb, ◌==◌,
  if◌then◌else◌, length, All, arith, Bool-cases, inl, inr,
}
use mathlib.Core.List.{append_assoc}
use trace_glass.Events.{TraceGlassEvent}
use trace_glass.NetworkMonitor.{
  NetworkConnectionKey, NetworkMonitor, TcpRow, Sockets, compare_connection_keys, established,
  connection_exists, emit_network_event, row_key, row_loop, sorted_keys, tcp_table,
  network_monitor_poll,
}

-- The order that qsort is asked for.
abbrev pub IsSorted : List NetworkConnectionKey → Type 0
IsSorted [] = Unit
IsSorted (e ∷ entries) =
    All (λ f. compare_connection_keys e f ≢ Ordering.gt) entries × IsSorted entries

abbrev pub is_eq : Ordering → Bool
is_eq Ordering.lt = false
is_eq Ordering.eq = true
is_eq Ordering.gt = false

-- Some entry compares equal to the key.
unfoldable pub contains : List NetworkConnectionKey → NetworkConnectionKey → Bool
unfolding compare_connection_keys
contains [] key = false
contains (e ∷ entries) key =
    let rest = contains entries key in if is_eq (compare_connection_keys key e) then true else rest

-- bsearch on a sorted array finds a key exactly if an entry compares equal to it.
abbrev pub Finds : Sockets → Type 0
Finds w =
    (entries : List NetworkConnectionKey) (key : NetworkConnectionKey)
    → IsSorted entries
    → w.bsearch key entries ≡ contains entries key

-- The keys of the established connections, in the order of the rows.
unfoldable pub established_keys : Sockets → List TcpRow → List NetworkConnectionKey
established_keys w [] = []
established_keys w (row ∷ rows) =
    let rest = established_keys w rows in
    if row.state == established then row_key w row ∷ rest else rest

-- The events for the keys that `previous` has no entry for.
unfoldable pub new_events :
    Sockets → List NetworkConnectionKey → List NetworkConnectionKey → List TraceGlassEvent
unfolding contains
new_events w previous [] = []
new_events w previous (key ∷ keys) =
    let rest = new_events w previous keys in
    if contains previous key then rest else emit_network_event w key ∷ rest

connection_exists-contains :
    (w : Sockets) (entries : List NetworkConnectionKey) (key : NetworkConnectionKey)
    → Finds w
    → IsSorted entries
    → connection_exists w entries key ≡ contains entries key
unfolding connection_exists contains
connection_exists-contains w [] key finds sorted = refl
connection_exists-contains w (e ∷ entries) key finds sorted =
    let more : ltb 0 (length (e ∷ entries)) ≡ true = ground arith in
    rw more (finds (e ∷ entries) key sorted)

row_loop-new :
    (w : Sockets) (previous : List NetworkConnectionKey) (rows : List TcpRow)
    → Finds w
    → IsSorted previous
    → row_loop w previous rows
      ≡ (established_keys w rows, new_events w previous (established_keys w rows))
unfolding row_loop established_keys new_events
row_loop-new w previous [] finds sorted = refl
row_loop-new w previous (row ∷ rows) finds sorted =
    let rest = row_loop-new w previous rows finds sorted in
    let exists = connection_exists-contains w previous (row_key w row) finds sorted in
    elim (Bool-cases (row.state == established)) [
      | inr other ↦ rw (row_loop, other, rest) refl
      | inl estab ↦ elim (Bool-cases (contains previous (row_key w row))) [
        | inl known ↦ rw (row_loop, estab, rest, exists, known) refl
        | inr new ↦ rw (row_loop, estab, rest, exists, new) refl
      ]
    ]

-- What qsort makes of a list: sorted, with an entry for the same keys.
pub record IsSortOf (keys sorted : List NetworkConnectionKey) : Type 0 where
  pub in_order : IsSorted sorted
  pub same : (key : NetworkConnectionKey) → contains sorted key ≡ contains keys key

sorted_keys-IsSortOf :
    (w : Sockets) (keys : List NetworkConnectionKey)
    → IsSortOf keys (w.qsort keys)
    → IsSortOf keys (sorted_keys w keys)
sorted_keys-IsSortOf w [] s = record { in_order = tt; same = λ key. refl }
sorted_keys-IsSortOf w (e ∷ []) s = record { in_order = (tt, tt); same = λ key. refl }
sorted_keys-IsSortOf w (e ∷ f ∷ keys) s =
    let more : ltb 1 (length (e ∷ f ∷ keys)) ≡ true = ground arith in rw more s

-- With bsearch and qsort as the C standard has them: a poll that obtains the table pushes an event
-- for exactly those established connections, in the order of the table, that have no equal key in the
-- last poll's array. The array it keeps is sorted for the next poll, and has an entry for exactly the
-- established connections of this table, also where there are too few to sort.
pub network_monitor_poll-new :
    (w : Sockets) (monitor : NetworkMonitor) (rows : List TcpRow)
    → tcp_table w ≡ some rows
    → Finds w
    → IsSorted monitor.previous
    → IsSortOf (established_keys w rows) (w.qsort (established_keys w rows))
    → (network_monitor_poll w monitor ≡ record {
      monitor = record monitor { previous = sorted_keys w (established_keys w rows) };
      pushed = new_events w monitor.previous (established_keys w rows);
      succeeded = true;
    })
      × IsSortOf (established_keys w rows) (sorted_keys w (established_keys w rows))
unfolding network_monitor_poll
network_monitor_poll-new w monitor rows table finds sorted sort = (
  rw (network_monitor_poll, table, row_loop-new w monitor.previous rows finds sorted) refl,
  sorted_keys-IsSortOf w (established_keys w rows) sort,
)

contains-itself :
    (front after : List NetworkConnectionKey) (key : NetworkConnectionKey)
    → contains (front ++ key ∷ after) key ≡ true
unfolding contains compare_connection_keys
contains-itself [] after key =
    let same : is_eq (compare_connection_keys key key) ≡ true = ground arith in rw same refl
contains-itself (e ∷ front) after key =
    let rest = contains-itself front after key in
    elim (Bool-cases (is_eq (compare_connection_keys key e))) [
      | inl t ↦ rw (contains, t) refl
      | inr f ↦ rw (contains, f) rest
    ]

new_events-same :
    (w : Sockets) (previous front keys : List NetworkConnectionKey)
    → ((key : NetworkConnectionKey) → contains previous key ≡ contains (front ++ keys) key)
    → new_events w previous keys ≡ []
unfolding new_events
new_events-same w previous front [] h = refl
new_events-same w previous front (key ∷ keys) h =
    let known : contains previous key ≡ true = h key ∙ contains-itself front keys key in
    let rest =
      new_events-same w previous (front ++ key ∷ []) keys
        (λ k. h k ∙ ap (λ l. contains l k) (sym (append_assoc front (key ∷ []) keys))) in
    rw (new_events, known) rest

-- A connection that stays established is reported once: after a poll, the next one that sees the same
-- table pushes nothing.
pub network_monitor_poll_same :
    (w : Sockets) (monitor : NetworkMonitor) (rows : List TcpRow)
    → tcp_table w ≡ some rows
    → Finds w
    → IsSorted monitor.previous
    → IsSortOf (established_keys w rows) (w.qsort (established_keys w rows))
    → (network_monitor_poll w (network_monitor_poll w monitor).monitor).pushed ≡ []
network_monitor_poll_same w monitor rows table finds sorted sort =
    let (run, s) = network_monitor_poll-new w monitor rows table finds sorted sort in
    let kept = record monitor { previous = sorted_keys w (established_keys w rows) } in
    let (again, t) = network_monitor_poll-new w kept rows table finds s.in_order sort in
    ap (λ r. (network_monitor_poll w (r.monitor)).pushed) run
    ∙ (ap (λ r. r.pushed) again
        ∙ new_events-same w (sorted_keys w (established_keys w rows)) [] (established_keys w rows)
            s.same)
