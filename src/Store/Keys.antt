-- ===== src/Store/Keys.antt =====
-- Identities in src/event_store.c: a running process has one record, so a key names at most one.
use trace_glass.Base.{
  ℕ, ◌≡◌, ◌≢◌, inl, inr, refl, Bool, true, false, some, List, [], ◌∷◌, ◌++◌, arith, Bool-cases,
  ◌==◌, set, get_elem?, get_elem?-concat_cases, get_elem?-set_cases,
}
use trace_glass.Events.{EventType, process_start, process_stop, network, TraceGlassEvent}
use trace_glass.Store.Find.{find_process-miss}
use trace_glass.Store.Cases.{
  started, stopped, ended, add_start_cases, add_stop_cases, append_event_cases,
}
use trace_glass.Store.Invariant.{store_of}
use trace_glass.Store.{
  ProcessRecord, EventStore, process_keys_match, update_record_from_event, new_record, Step, return,
  proceed, add_start, add_stop, add_by_type, finish, event_store_add,
}

-- Keys of two running processes do not name one another. Nothing is said of pid 0.
abbrev pub AreApart : ProcessRecord → ProcessRecord → Type 0
AreApart r x =
    r.active ≡ true → x.active ≡ true → r.key.pid ≢ 0 → process_keys_match r.key x.key ≡ false

abbrev pub IsUnambiguous : List ProcessRecord → Type 0
IsUnambiguous processes =
    (i j : ℕ) (r x : ProcessRecord)
    → i ≢ j
    → get_elem? processes i ≡ some r
    → get_elem? processes j ≡ some x
    → AreApart r x

AreApart-symm : (r x : ProcessRecord) → AreApart r x → AreApart x r
unfolding process_keys_match
AreApart-symm r x a p q h = elim (Bool-cases (r.key.pid == 0)) [
  | inl z ↦ ground arith
  | inr nz ↦ let f = a q p (ground arith) in ground arith
]

IsUnambiguous-append :
    (processes : List ProcessRecord) (new : ProcessRecord)
    → ((i : ℕ) (r : ProcessRecord) → get_elem? processes i ≡ some r → AreApart r new)
    → IsUnambiguous processes
    → IsUnambiguous (processes ++ new ∷ [])
IsUnambiguous-append processes new apart u i j r x ne g h =
    elim (get_elem?-concat_cases processes new r i g) [
      | inl g' ↦ elim (get_elem?-concat_cases processes new x j h) [
        | inl h' ↦ u i j r x ne g' h'
        | inr (at, e) ↦ rw (← e) (apart i r g')
      ]
      | inr (at, e) ↦ elim (get_elem?-concat_cases processes new x j h) [
        | inl h' ↦ rw (← e) (AreApart-symm x new (apart j x h'))
        | inr (at', e') ↦ absurd (omega arith)
      ]
    ]

IsUnambiguous-set :
    (processes : List ProcessRecord) (i : ℕ) (new : ProcessRecord)
    → ((j : ℕ) (x : ProcessRecord) → i ≢ j → get_elem? processes j ≡ some x → AreApart new x)
    → IsUnambiguous processes
    → IsUnambiguous (set processes i new)
IsUnambiguous-set processes i new apart u a b r x ne g h =
    elim (get_elem?-set_cases processes i a new r g) [
      | inl (at, e) ↦ elim (get_elem?-set_cases processes i b new x h) [
        | inl (at', e') ↦ absurd (omega arith)
        | inr (away, h') ↦ rw (← e) (apart b x away h')
      ]
      | inr (away, g') ↦ elim (get_elem?-set_cases processes i b new x h) [
        | inl (at', e') ↦ rw (← e') (AreApart-symm new r (apart a r away g'))
        | inr (away', h') ↦ u a b r x ne g' h'
      ]
    ]

-- An update of a record that its event's key names keeps it apart from all that it was apart from.
update-AreApart :
    (r x : ProcessRecord) (e : TraceGlassEvent)
    → process_keys_match r.key e.process ≡ true
    → AreApart r x
    → AreApart (update_record_from_event r e) x
unfolding update_record_from_event process_keys_match
update-AreApart r x e m a p q h = elim (Bool-cases (e.process.creation_time == 0)) [
  | inl z ↦ let f = a p q (ground arith) in ground arith
  | inr nz ↦ let f = a p q (ground arith) in ground arith
]

pub new_record-key : (e : TraceGlassEvent) → (new_record e).key ≡ e.process
unfolding new_record
new_record-key e = ground arith

add_start-IsUnambiguous :
    (allocate : ℕ → Bool) (s : EventStore) (e : TraceGlassEvent)
    → IsUnambiguous s.processes
    → IsUnambiguous (store_of (add_start allocate s e)).processes
unfolding process_keys_match
add_start-IsUnambiguous allocate s e u =
    add_start_cases (λ t. IsUnambiguous (store_of t).processes) allocate s e
      (λ i r f hit.
        IsUnambiguous-set s.processes i _
          (λ j x ne g. update-AreApart r x e hit.matched (u i j r x ne hit.at g)) u)
      (λ f g. u)
      (λ c f reserved.
        IsUnambiguous-append s.processes (started e)
          (λ i r g p q h. elim (Bool-cases (e.process.pid == 0)) [
            | inl z ↦ rw (new_record-key e) (ground arith)
            | inr nz ↦
                let miss = find_process-miss s.processes e.process (ground arith) f i r g in
                rw (new_record-key e) (ground (arith, miss.1))
          ])
          u)

add_stop-IsUnambiguous :
    (allocate : ℕ → Bool) (s : EventStore) (e : TraceGlassEvent)
    → IsUnambiguous s.processes
    → IsUnambiguous (store_of (add_stop allocate s e)).processes
add_stop-IsUnambiguous allocate s e u =
    add_stop_cases (λ t. IsUnambiguous (store_of t).processes) allocate s e (λ i r f hit n. u)
      (λ i r f hit t. IsUnambiguous-set s.processes i (ended r e) (λ j x ne g p q h. cc) u)
      (λ f g. u)
      (λ c f reserved. IsUnambiguous-append s.processes (stopped e) (λ i r g p q h. cc) u)

add_by_type-IsUnambiguous :
    (type : EventType) (allocate : ℕ → Bool) (s : EventStore) (e : TraceGlassEvent)
    → IsUnambiguous s.processes
    → IsUnambiguous (store_of (add_by_type type allocate s e)).processes
unfolding add_by_type
add_by_type-IsUnambiguous process_start allocate s e u = add_start-IsUnambiguous allocate s e u
add_by_type-IsUnambiguous process_stop allocate s e u = add_stop-IsUnambiguous allocate s e u
add_by_type-IsUnambiguous network allocate s e u = u
add_by_type-IsUnambiguous _ allocate s e u = u

pub finish-processes :
    (allocate : ℕ → Bool) (e : TraceGlassEvent) (t : Step)
    → (finish allocate e t).store.processes ≡ (store_of t).processes
unfolding finish
finish-processes allocate e (return s result) = refl
finish-processes allocate e (proceed s) =
    append_event_cases (λ a. a.store.processes ≡ s.processes) allocate s e (λ g. refl)
      (λ c reserved. refl)

-- If no two records stand for running processes that one key could name, then no call makes two of
-- them do so: among the records marked active, two of the same pid other than 0 keep different
-- creation times, both known. This holds whichever allocations succeed.
pub event_store_add-IsUnambiguous :
    (allocate_process allocate_event : ℕ → Bool) (s : EventStore) (e : TraceGlassEvent)
    → IsUnambiguous s.processes
    → IsUnambiguous (event_store_add allocate_process allocate_event s e).store.processes
unfolding event_store_add
event_store_add-IsUnambiguous allocate_process allocate_event s e u =
    rw (finish-processes allocate_event e (add_by_type e.type allocate_process s e))
      (add_by_type-IsUnambiguous e.type allocate_process s e u)
