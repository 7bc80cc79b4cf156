-- ===== src/Snapshot/Search.antt =====
-- The two searches of src/process_monitor.c against what they look for.
use trace_glass.Base.{
  ℕ, zero, suc, ◌+◌, ◌≤◌, ◌<◌, ◌≡◌, inl, inr, refl, sym, ap, ◌∙◌, Bool, true, false, ◌&&◌, Option,
  none, some, List, arith, Bool-cases, Option-cases, ltb, ◌==◌, length, get_elem?, lt-get_elem?,
  get_elem?-lt,
}
use trace_glass.Events.{ProcessKey}
use trace_glass.Snapshot.Bound.{IsByPid, narrow-Splits}
use trace_glass.Snapshot.{ProcessSnapshotEntry, times_match, scan, find_entry, find_entry_by_pid}

-- The entry may be the process of the key: the pids agree, and the creation times where both are
-- known.
abbrev pub names : ProcessSnapshotEntry → ProcessKey → Bool
names e key = e.key.pid == key.pid && times_match e.key key

module _ (entries : List ProcessSnapshotEntry) where
  -- No entry below `n` passes the test.
  abbrev NoneBelow : (ProcessSnapshotEntry → Bool) → ℕ → Type 0
  NoneBelow test n =
      (i : ℕ) (e : ProcessSnapshotEntry) → i < n → get_elem? entries i ≡ some e → test e ≡ false

  -- The first entry that passes the test; NULL if none does.
  abbrev pub IsFirst : (ProcessSnapshotEntry → Bool) → Option ℕ → Type 0
  IsFirst test none =
      (i : ℕ) (e : ProcessSnapshotEntry) → get_elem? entries i ≡ some e → test e ≡ false
  IsFirst test (some n) =
      (e : ProcessSnapshotEntry) × (get_elem? entries n ≡ some e)
      × (test e ≡ true)
      × NoneBelow test n

  NoneBelow-suc :
      (test : ProcessSnapshotEntry → Bool) (n : ℕ) (e : ProcessSnapshotEntry)
      → get_elem? entries n ≡ some e
      → test e ≡ false
      → NoneBelow test n
      → NoneBelow test (n + 1)
  NoneBelow-suc test n e g f below i x h k = elim (Bool-cases (i == n)) [
    | inl same ↦
        let eq : some e ≡ some x = sym g ∙ (ap (get_elem? entries) (ground arith) ∙ k) in
        ground arith
    | inr other ↦ below i x (ground arith) k
  ]

  -- Behind an entry of a pid above the one looked for there is none of that pid.
  none_behind :
      (key : ProcessKey) (n : ℕ) (e : ProcessSnapshotEntry)
      → IsByPid entries
      → get_elem? entries n ≡ some e
      → key.pid < e.key.pid
      → NoneBelow (λ x. names x key) n
      → IsFirst (λ x. names x key) none
  none_behind key n e sorted g h below i x k = elim (Bool-cases (ltb i n)) [
    | inl t ↦ below i x (ground arith) k
    | inr f ↦ ground (arith, sorted n i e x (ground arith) g k)
  ]

  past_end :
      (i l : ℕ) (e : ProcessSnapshotEntry)
      → l ≤ i
      → get_elem? entries l ≡ none
      → get_elem? entries i ≡ some e
      → ⊥
  past_end i l e h past g =
      let (x, at) = lt-get_elem? entries l (omega (arith, get_elem?-lt entries i g)) in ground arith

  scan-IsFirst :
      (fuel : ℕ) (key : ProcessKey) (low : ℕ)
      → IsByPid entries
      → low ≤ length entries
      → length entries < low + fuel
      → NoneBelow (λ x. names x key) low
      → ((i : ℕ) (e : ProcessSnapshotEntry)
          → low ≤ i
          → get_elem? entries i ≡ some e
          → key.pid ≤ e.key.pid)
      → (o : Option ℕ) × (scan fuel entries key low ≡ some o) × IsFirst (λ x. names x key) o
  unfolding scan
  scan-IsFirst zero key low sorted l h below above = absurd (omega arith)
  scan-IsFirst (suc fuel) key low sorted l h below above =
      elim (Option-cases (get_elem? entries low)) [
        | inl past ↦ (
          none,
          rw (past, scan) refl,
          λ i e g. elim (Bool-cases (ltb i low)) [
            | inl t ↦ below i e (ground arith) g
            | inr f ↦ absurd (past_end i low e (ground arith) past g)
          ],
        )
        | inr (e, at) ↦ elim (Bool-cases (e.key.pid == key.pid)) [
          | inr other ↦ (
            none,
            rw (at, scan, other) refl,
            none_behind key low e sorted at (ground (arith, above low e (omega arith) at)) below,
          )
          | inl same ↦ elim (Bool-cases (times_match e.key key)) [
            | inl t ↦ (some low, rw (at, scan, same, t) refl, (e, at, ground arith, below))
            | inr f ↦
                (let (o, run, first) =
                    scan-IsFirst fuel key (low + 1) sorted
                      (omega (arith, get_elem?-lt entries low at)) (omega arith)
                      (NoneBelow-suc (λ x. names x key) low e at (ground arith) below)
                      (λ i x b g. above i x (omega arith) g) in
                  (o, rw (at, scan, same, f) run, first))
          ]
        ]
      ]

  -- On a sorted snapshot `find_entry` stays inside the array, ends, and returns the first entry that
  -- may be the process of the key, NULL exactly if there is none.
  pub find_entry-IsFirst :
      (key : ProcessKey)
      → IsByPid entries
      → (o : Option ℕ) × (find_entry entries key ≡ some o) × IsFirst (λ x. names x key) o
  unfolding find_entry
  find_entry-IsFirst key sorted =
      let (low, run, s) = narrow-Splits entries key.pid sorted in
      let (o, run', first) =
        scan-IsFirst (suc (length entries)) key low sorted s.inside (omega arith)
          (λ i e b g. ground (arith, s.below i e b g)) s.above in
      (o, rw (find_entry, run) run', first)

  -- On a sorted snapshot `find_entry_by_pid` stays inside the array, ends, and returns the first
  -- entry of the pid, NULL exactly if there is none.
  pub find_entry_by_pid-IsFirst :
      (pid : ℕ)
      → IsByPid entries
      → (o : Option ℕ) × (find_entry_by_pid entries pid ≡ some o)
        × IsFirst (λ x. x.key.pid == pid) o
  unfolding find_entry_by_pid
  find_entry_by_pid-IsFirst pid sorted =
      let (low, run, s) = narrow-Splits entries pid sorted in
      let below : NoneBelow (λ x. x.key.pid == pid) low =
        λ i e b g. ground (arith, s.below i e b g) in
      elim (Option-cases (get_elem? entries low)) [
        | inl past ↦ (
          none,
          rw (find_entry_by_pid, run, past) refl,
          λ i e g. elim (Bool-cases (ltb i low)) [
            | inl t ↦ below i e (ground arith) g
            | inr f ↦ absurd (past_end i low e (ground arith) past g)
          ],
        )
        | inr (e, at) ↦ elim (Bool-cases (e.key.pid == pid)) [
          | inl same ↦ (some low, rw (find_entry_by_pid, run, at, same) refl, (e, at, same, below))
          | inr other ↦ (
            none,
            rw (find_entry_by_pid, run, at, other) refl,
            λ i x g. elim (Bool-cases (ltb i low)) [
              | inl t ↦ below i x (ground arith) g
              | inr f ↦
                  ground
                    (arith, sorted low i e x (ground arith) at g, s.above low e (omega arith) at)
            ],
          )
        ]
      ]
