-- ===== src/Store/Lookup.antt =====
-- Lookups in the records of src/event_store.c: they are determined by the records, and how an added or
-- a changed record shows in them.
use trace_glass.Base.{
  get_elem?-set_cases, ℕ, suc, ◌≡◌, ◌≢◌, inl, inr, refl, ap, Bool, true, Option, none, some, List,
  [], ◌∷◌, ◌++◌, arith, Bool-cases, ltb, ◌==◌, length, set, get_elem?, get_elem?-lt, length-append,
}
use trace_glass.Events.{EventType, ProcessKey, TraceGlassEvent}
use trace_glass.Store.Find.{
  matches_exactly, matches_active, NoneFrom, LastActive, Lookup, exact, by_activity,
  find_process-Lookup,
}
use trace_glass.Store.{
  ProcessRecord, EventStore, process_keys_match, event_store_find_process, add_by_type, finish,
  event_store_add,
}

module _ (processes : List ProcessRecord) (key : ProcessKey) where
  -- The records determine the answer to a lookup.
  pub Lookup-exact :
      (o : Option ℕ) (i : ℕ) (r : ProcessRecord)
      → get_elem? processes i ≡ some r
      → matches_exactly r key ≡ true
      → NoneFrom processes key matches_exactly (suc i)
      → Lookup processes key o
      → o ≡ some i
  Lookup-exact o i r at t later (exact j x e at' t' later') = elim (Bool-cases (ltb i j)) [
    | inl below ↦ absurd (ground (arith, later j x (ground arith) at'))
    | inr above ↦ elim (Bool-cases (ltb j i)) [
      | inl below ↦ absurd (ground (arith, later' i r (ground arith) at))
      | inr same ↦ let eq : j ≡ i = ground arith in rw (← eq) e
    ]
  ]
  Lookup-exact o i r at t later (by_activity none_exact last) =
      absurd (ground (arith, none_exact i r (omega arith) at))

  pub Lookup-active :
      (o : Option ℕ) (i : ℕ)
      → NoneFrom processes key matches_exactly 0
      → LastActive processes key 0 (some i)
      → Lookup processes key o
      → o ≡ some i
  Lookup-active o i none_exact last (exact j x e at t later) =
      absurd (ground (arith, none_exact j x (omega arith) at))
  Lookup-active none i none_exact (r, at, t, later) (by_activity _ last) =
      absurd (ground (arith, last i r (omega arith) at))
  Lookup-active (some j) i none_exact (r, at, t, later) (by_activity _ (x, at', t', later')) =
      elim (Bool-cases (ltb i j)) [
        | inl below ↦ absurd (ground (arith, later j x (ground arith) at'))
        | inr above ↦ elim (Bool-cases (ltb j i)) [
          | inl below ↦ absurd (ground (arith, later' i r (ground arith) at))
          | inr same ↦ ap some (ground arith)
        ]
      ]

pub get_elem?-last :
    (processes : List ProcessRecord) (r : ProcessRecord)
    → get_elem? (processes ++ r ∷ []) (length processes) ≡ some r
get_elem?-last [] r = refl
get_elem?-last (x ∷ processes) r = get_elem?-last processes r

-- Nothing stands behind the record added last.
pub NoneFrom-last :
    (processes : List ProcessRecord) (r : ProcessRecord) (key : ProcessKey)
    (test : ProcessRecord → ProcessKey → Bool)
    → NoneFrom (processes ++ r ∷ []) key test (suc (length processes))
NoneFrom-last processes r key test i x h e =
    absurd (omega (arith, get_elem?-lt (processes ++ r ∷ []) i e, length-append processes (r ∷ [])))

pub keys_match_refl : (key : ProcessKey) → process_keys_match key key ≡ true
unfolding process_keys_match
keys_match_refl key = ground arith

-- The record of a running process added last is what its own key finds.
pub find-last :
    (processes : List ProcessRecord) (r : ProcessRecord)
    → r.key.pid ≢ 0
    → r.active ≡ true
    → event_store_find_process (processes ++ r ∷ []) r.key ≡ some (length processes)
find-last processes r h a =
    let found = find_process-Lookup (processes ++ r ∷ []) r.key h in
    elim (Bool-cases (r.key.creation_time == 0)) [
      | inr known ↦
          Lookup-exact _ r.key _ (length processes) r (get_elem?-last processes r)
            (ground (arith, keys_match_refl r.key))
            (NoneFrom-last processes r r.key matches_exactly) found
      | inl unknown ↦
          Lookup-active _ r.key _ (length processes) (λ i x g e. ground arith)
            (
              r,
              get_elem?-last processes r,
              ground (arith, keys_match_refl r.key),
              NoneFrom-last processes r r.key matches_active,
            )
            found
    ]

-- What a lookup by a known identity returns is not overtaken by a later record of that identity.
pub Lookup-later :
    (processes : List ProcessRecord) (key : ProcessKey) (i : ℕ)
    → Lookup processes key (some i)
    → NoneFrom processes key matches_exactly (suc i)
Lookup-later processes key i (exact j x e at t later) l y h g =
    let same : j ≡ i = ground arith in later l y (omega arith) g
Lookup-later processes key i (by_activity none_exact last) j x h g = none_exact j x (omega arith) g

-- A write over the record at `i` changes nothing behind it.
pub set-NoneFrom :
    (processes : List ProcessRecord) (key : ProcessKey) (i : ℕ) (new : ProcessRecord)
    → NoneFrom processes key matches_exactly (suc i)
    → NoneFrom (set processes i new) key matches_exactly (suc i)
set-NoneFrom processes key i new later j x h g = elim (get_elem?-set_cases processes i j new x g) [
  | inl (same, _) ↦ absurd (omega arith)
  | inr (_, old) ↦ later j x h old
]

-- A call, once the type of its event is known.
pub add-by_type :
    (type : EventType) (allocate_process allocate_event : ℕ → Bool) (s : EventStore)
    (e : TraceGlassEvent)
    → e.type ≡ type
    → event_store_add allocate_process allocate_event s e
      ≡ finish allocate_event e (add_by_type type allocate_process s e)
unfolding event_store_add
add-by_type type allocate_process allocate_event s e q =
    ap (λ t. finish allocate_event e (add_by_type t allocate_process s e)) q
