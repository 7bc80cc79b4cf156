-- ===== src/Store/Find.antt =====
-- `event_store_find_process` of src/event_store.c: which record it returns.
use trace_glass.Base.{
  ℕ, zero, suc, ◌≤◌, ◌≡◌, ◌≢◌, ◌⊎◌, inl, inr, refl, Bool, true, false, ◌&&◌, Option, none, some,
  List, arith, Bool-cases, ◌==◌, length, get_elem?, get_elem?-lt, lt-get_elem?,
}
use trace_glass.Events.{ProcessKey}
use trace_glass.Store.{
  ProcessRecord, process_keys_match, is_exact, next_match, find_loop, event_store_find_process,
}

-- The record has the key's pid and its creation time, which is known.
abbrev pub matches_exactly : ProcessRecord → ProcessKey → Bool
matches_exactly r key = process_keys_match r.key key && is_exact r key

-- The record of an active process that may be the key's.
abbrev pub matches_active : ProcessRecord → ProcessKey → Bool
matches_active r key = process_keys_match r.key key && r.active

module _ (processes : List ProcessRecord) (key : ProcessKey) where
  -- No record from index `n` on passes the test.
  abbrev pub NoneFrom : (ProcessRecord → ProcessKey → Bool) → ℕ → Type 0
  NoneFrom test n =
      (i : ℕ) (r : ProcessRecord) → n ≤ i → get_elem? processes i ≡ some r → test r key ≡ false

  -- `o` is the last active match among the records from index `n` on, none of which is exact.
  abbrev pub LastActive : ℕ → Option ℕ → Type 0
  LastActive n none = NoneFrom matches_active n
  LastActive n (some b) =
      (r : ProcessRecord) × (get_elem? processes b ≡ some r)
      × (matches_active r key ≡ true)
      × NoneFrom matches_active (suc b)

  -- The answers to a lookup: the last exact match, or if there is none the last active one.
  pub data Lookup (o : Option ℕ) : Type 0 where
    exact :
        (i : ℕ) (r : ProcessRecord)
        → o ≡ some i
        → get_elem? processes i ≡ some r
        → matches_exactly r key ≡ true
        → NoneFrom matches_exactly (suc i)
        → Lookup o
    by_activity : NoneFrom matches_exactly 0 → LastActive 0 o → Lookup o

  NoneFrom-suc :
      (test : ProcessRecord → ProcessKey → Bool) (n : ℕ) (r : ProcessRecord)
      → get_elem? processes n ≡ some r
      → test r key ≡ false
      → NoneFrom test (suc n)
      → NoneFrom test n
  NoneFrom-suc test n r e f later i s h g = elim (Bool-cases (n == i)) [
    | inl same ↦
        let same' : n ≡ i = ground arith in
        let s-r : some r ≡ some s = rw (← e, same') g in ground arith
    | inr other ↦ later i s (ground arith) g
  ]

  next_match-LastActive :
      (n : ℕ) (r : ProcessRecord) (o : Option ℕ)
      → get_elem? processes n ≡ some r
      → LastActive (suc n) o
      → LastActive n (next_match r key n o)
  next_match-LastActive n r (some b) e (s, g, a, later) =
      let same : next_match r key n (some b) ≡ some b = ground arith in rw same (s, g, a, later)
  next_match-LastActive n r none e later = elim (Bool-cases (matches_active r key)) [
    | inl t ↦ let here : next_match r key n none ≡ some n = ground arith in rw here (r, e, t, later)
    | inr f ↦
        let not_here : next_match r key n none ≡ none = ground arith in
        rw not_here (NoneFrom-suc matches_active n r e f later)
  ]

  find_loop-Lookup :
      (n : ℕ) (o : Option ℕ)
      → n ≤ length processes
      → NoneFrom matches_exactly n
      → LastActive n o
      → Lookup (find_loop processes key n o)
  unfolding find_loop
  find_loop-Lookup zero o h none_exact last = by_activity none_exact last
  find_loop-Lookup (suc n) o h none_exact last =
      let (r, e) = lt-get_elem? processes n (omega arith) in
      elim (Bool-cases (matches_exactly r key)) [
        | inl t ↦
            let stop : find_loop processes key (suc n) o ≡ some n = ground arith in
            rw stop (exact n r refl e t none_exact)
        | inr f ↦
            let next : find_loop processes key (suc n) o
                ≡ find_loop processes key n (next_match r key n o) =
              ground arith in
            rw next (
              find_loop-Lookup n (next_match r key n o) (omega arith)
                (NoneFrom-suc matches_exactly n r e f none_exact)
                (next_match-LastActive n r o e last))
      ]

  -- Past the end there is no record.
  NoneFrom-length : (test : ProcessRecord → ProcessKey → Bool) → NoneFrom test (length processes)
  NoneFrom-length test i r h e = absurd (omega (arith, get_elem?-lt processes i e))

-- The lookup of a process with a pid other than 0 returns the last record of exactly that
-- identity, whether running or stopped; if there is none, the last running record that the key may
-- name; and NULL only if there is neither.
pub find_process-Lookup :
    (processes : List ProcessRecord) (key : ProcessKey)
    → key.pid ≢ 0
    → Lookup processes key (event_store_find_process processes key)
unfolding event_store_find_process
find_process-Lookup processes key h =
    let known : (key.pid == 0) ≡ false = ground arith in
    rw known (
      find_loop-Lookup processes key (length processes) none (omega arith)
        (NoneFrom-length processes key matches_exactly)
        (NoneFrom-length processes key matches_active))

-- What a hit means, whichever way it was found.
pub record Hit (processes : List ProcessRecord) (key : ProcessKey) (i : ℕ) (r : ProcessRecord)
    : Type 0 where
  pub at : get_elem? processes i ≡ some r
  pub matched : process_keys_match r.key key ≡ true
  pub how : (is_exact r key ≡ true) ⊎ (r.active ≡ true)

pub find_process-zero :
    (processes : List ProcessRecord) (key : ProcessKey)
    → key.pid ≡ 0
    → event_store_find_process processes key ≡ none
unfolding event_store_find_process
find_process-zero processes key h = ground arith

pub find_process-ne_zero :
    (processes : List ProcessRecord) (key : ProcessKey) (i : ℕ)
    → event_store_find_process processes key ≡ some i
    → key.pid ≢ 0
find_process-ne_zero processes key i e h = cc (find_process-zero processes key h)

pub find_process-Hit :
    (processes : List ProcessRecord) (key : ProcessKey) (i : ℕ)
    → event_store_find_process processes key ≡ some i
    → (r : ProcessRecord) × Hit processes key i r
find_process-Hit processes key i e =
    go (event_store_find_process processes key) e
      (find_process-Lookup processes key (find_process-ne_zero processes key i e))
  where
    go :
        (o : Option ℕ)
        → o ≡ some i
        → Lookup processes key o
        → (r : ProcessRecord) × Hit processes key i r
    go o f (exact j r g at t later) =
        let same : j ≡ i = ground arith in
        (r, record { at = rw (← same) at; matched = ground arith; how = inl (ground arith) })
    go none f (by_activity none_exact last) = absurd (ground arith)
    go (some j) f (by_activity none_exact (r, at, t, later)) =
        let same : j ≡ i = ground arith in
        (r, record { at = rw (← same) at; matched = ground arith; how = inr (ground arith) })

-- What a miss means for each record.
pub find_process-miss :
    (processes : List ProcessRecord) (key : ProcessKey)
    → key.pid ≢ 0
    → event_store_find_process processes key ≡ none
    → (i : ℕ) (r : ProcessRecord) → get_elem? processes i ≡ some r
    → (matches_exactly r key ≡ false) × (matches_active r key ≡ false)
find_process-miss processes key h e i r at =
    go (event_store_find_process processes key) e (find_process-Lookup processes key h)
  where
    go :
        (o : Option ℕ)
        → o ≡ none
        → Lookup processes key o
        → (matches_exactly r key ≡ false) × (matches_active r key ≡ false)
    go o f (exact j s g at' t later) = absurd (ground arith)
    go none f (by_activity none_exact last) =
        (none_exact i r (omega arith) at, last i r (omega arith) at)
    go (some j) f (by_activity none_exact last) = absurd (ground arith)
