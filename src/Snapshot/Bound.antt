-- ===== src/Snapshot/Bound.antt =====
-- The first loop of the searches of src/process_monitor.c: it ends, and where.
use trace_glass.Base.{
  ℕ, zero, suc, ◌+◌, ◌-◌, ◌/◌, ◌≤◌, ◌<◌, ◌≡◌, ◌≢◌, inl, inr, refl, sym, ap, ◌∙◌, some, List, arith,
  Bool-cases, ltb, length, get_elem?, lt-get_elem?, get_elem?-lt,
}
use trace_glass.Snapshot.{ProcessSnapshotEntry, narrow, compare_snapshot_entries}
use Prim.Native.Nat.{Ordering}

-- The order that `qsort` is asked for: no entry is above a later one.
abbrev pub IsSorted : List ProcessSnapshotEntry → Type 0
IsSorted entries =
    (i j : ℕ) (e f : ProcessSnapshotEntry)
    → i < j
    → get_elem? entries i ≡ some e
    → get_elem? entries j ≡ some f
    → compare_snapshot_entries e f ≢ Ordering.gt

-- The pids do not fall along the array.
abbrev pub IsByPid : List ProcessSnapshotEntry → Type 0
IsByPid entries =
    (i j : ℕ) (e f : ProcessSnapshotEntry)
    → i ≤ j
    → get_elem? entries i ≡ some e
    → get_elem? entries j ≡ some f
    → e.key.pid ≤ f.key.pid

pub IsSorted-IsByPid : (entries : List ProcessSnapshotEntry) → IsSorted entries → IsByPid entries
unfolding compare_snapshot_entries
IsSorted-IsByPid entries sorted i j e f h g k = elim (Bool-cases (ltb i j)) [
  | inl t ↦ let s = sorted i j e f (ground arith) g k in ground (arith, s)
  | inr n ↦
      let same : i ≡ j = ground arith in
      let eq : some e ≡ some f = sym g ∙ (ap (get_elem? entries) same ∙ k) in ground arith
]

-- `low` splits the array at the pid.
pub record Splits (entries : List ProcessSnapshotEntry) (pid low : ℕ) : Type 0 where
  pub inside : low ≤ length entries
  pub below :
      (i : ℕ) (e : ProcessSnapshotEntry) → i < low → get_elem? entries i ≡ some e → e.key.pid < pid
  pub above :
      (i : ℕ) (e : ProcessSnapshotEntry) → low ≤ i → get_elem? entries i ≡ some e → pid ≤ e.key.pid

module _ (entries : List ProcessSnapshotEntry) (pid : ℕ) (sorted : IsByPid entries) where
  record Narrowed (low high : ℕ) : Type 0 where
    ordered : low ≤ high
    inside : high ≤ length entries
    below :
        (i : ℕ) (e : ProcessSnapshotEntry)
        → i < low
        → get_elem? entries i ≡ some e
        → e.key.pid < pid
    above :
        (i : ℕ) (e : ProcessSnapshotEntry)
        → high ≤ i
        → get_elem? entries i ≡ some e
        → pid ≤ e.key.pid

  narrow-Splits-from :
      (fuel low high : ℕ)
      → Narrowed low high
      → high - low < fuel
      → (r : ℕ) × (narrow fuel entries pid low high ≡ some r) × Splits entries pid r
  unfolding narrow
  narrow-Splits-from zero low high n h = absurd (omega arith)
  narrow-Splits-from (suc fuel) low high n h = elim (Bool-cases (ltb low high)) [
    | inr done ↦
        let same : low ≡ high = ground (arith, n.ordered) in
        (
          low,
          rw (done, narrow) refl,
          record {
            inside = omega (arith, n.inside, n.ordered);
            below = n.below;
            above = rw same n.above;
          },
        )
    | inl more ↦
        let less : low < high = ground arith in
        let (m, at) = lt-get_elem? entries (low + (high - low) / 2) (omega (arith, n.inside)) in
        elim (Bool-cases (ltb m.key.pid pid)) [
          | inl small ↦
              let (r, run, s) =
                narrow-Splits-from fuel (low + (high - low) / 2 + 1) high
                  (record {
                    ordered = omega arith;
                    inside = n.inside;
                    below = λ i e b g.
                        ground (arith, sorted i (low + (high - low) / 2) e m (omega arith) g at);
                    above = n.above;
                  })
                  (omega arith) in
              (r, rw (more, narrow, at, small) run, s)
          | inr large ↦
              let (r, run, s) =
                narrow-Splits-from fuel low (low + (high - low) / 2)
                  (record {
                    ordered = omega arith;
                    inside = omega (arith, n.inside);
                    below = n.below;
                    above = λ i e b g. ground (arith, sorted (low + (high - low) / 2) i m e b at g);
                  })
                  (omega arith) in
              (r, rw (more, narrow, at, large) run, s)
        ]
  ]

  -- On a sorted array the loop reads inside it, ends within its fuel, and stops at the first entry
  -- whose pid is not below the one looked for.
  pub narrow-Splits :
      (r : ℕ) × (narrow (suc (length entries)) entries pid 0 (length entries) ≡ some r)
      × Splits entries pid r
  narrow-Splits =
      narrow-Splits-from (suc (length entries)) 0 (length entries)
        (record {
          ordered = omega arith;
          inside = omega arith;
          below = λ i e h. absurd (omega arith);
          above = λ i e h g. absurd (omega (arith, get_elem?-lt entries i g));
        })
        (omega arith)
