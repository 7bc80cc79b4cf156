-- ===== src/Capacity/Growth.antt =====
-- `reserve_events` and `reserve_processes` of src/event_store.c: the loop ends, a granted capacity is
-- large enough and its bytes do not overflow, and a refusal has a reason.
use trace_glass.Base.{
  ℕ, zero, suc, ◌+◌, ◌*◌, ◌/◌, ◌≤◌, ◌<◌, ◌≡◌, ◌≢◌, ◌⊎◌, inl, inr, refl, Bool, true, none, some,
  arith, Bool-cases, Option-cases, ltb, leb,
}
use trace_glass.Capacity.{
  size_max, Outcome, grown, refused, unfinished, grow, first_capacity, resize, reserve,
}

-- From a capacity above zero, with at least as much fuel as is missing to the request, the
-- doubling loop does not run out of fuel.
pub grow_total :
    (fuel capacity required : ℕ)
    → 0 < capacity
    → required ≤ capacity + fuel
    → grow (suc fuel) capacity required ≢ unfinished
unfolding grow
grow_total zero capacity required pos enough = ground arith
grow_total (suc fuel) capacity required pos enough =
    ground (arith, grow_total fuel (capacity * 2) required)

-- What the loop returns.
abbrev Grown : ℕ → ℕ → Outcome → Type 0
Grown capacity required (grown c) =
    (required ≤ c) × (capacity ≤ c) × ((c ≡ capacity) ⊎ (c < 2 * required))
Grown capacity required refused = size_max / 2 < required
Grown capacity required unfinished = Unit

grow-Grown : (fuel capacity required : ℕ) → Grown capacity required (grow fuel capacity required)
unfolding grow
grow-Grown zero capacity required = tt
grow-Grown (suc fuel) capacity required = elim (Bool-cases (ltb capacity required)) [
  | inr done ↦ rw done (ground arith, ground arith, inl refl)
  | inl more ↦ rw more (elim (Bool-cases (ltb (size_max / 2) capacity)) [
    | inl large ↦ rw large (ground arith)
    | inr small ↦
        rw small (
          weaken (grow fuel (capacity * 2) required) more (grow-Grown fuel (capacity * 2) required))
  ])
]
  where
    weaken :
        (g : Outcome)
        → ltb capacity required ≡ true
        → Grown (capacity * 2) required g
        → Grown capacity required g
    weaken (grown c) t h = (h.0, ground arith, inr (ground arith))
    weaken refused t h = h
    weaken unfinished t h = tt

-- What a granted call promises of the capacity.
pub record Reserved (element_size capacity required c : ℕ) : Type 0 where
  pub enough : required ≤ c
  pub kept : capacity ≤ c
  pub sized : (c ≡ capacity) ⊎ (c ≤ size_max / element_size)

resize-Reserved :
    (initial element_size capacity required first c : ℕ) (allocate : ℕ → Bool) (g : Outcome)
    → capacity ≤ first
    → Grown first required g
    → resize element_size allocate g ≡ some c
    → Reserved element_size capacity required c
unfolding resize
resize-Reserved initial element_size capacity required first c allocate (grown x) k h e = record {
  enough = ground arith;
  kept = ground arith;
  sized = inr (ground arith);
}
resize-Reserved initial element_size capacity required first c allocate refused k h e =
    absurd (ground arith)
resize-Reserved initial element_size capacity required first c allocate unfinished k h e =
    absurd (ground arith)

-- A granted capacity covers what was asked for, is never less than before, and is the old one or
-- one whose bytes fit in a `size_t`.
pub reserve-Reserved :
    (initial element_size capacity required c : ℕ) (allocate : ℕ → Bool)
    → reserve initial element_size allocate capacity required ≡ some c
    → Reserved element_size capacity required c
unfolding reserve
reserve-Reserved initial element_size capacity required c allocate e =
    elim (Bool-cases (leb required capacity)) [
      | inl fits ↦ record { enough = ground arith; kept = ground arith; sized = inl (ground arith) }
      | inr short ↦ elim (Option-cases (first_capacity initial capacity)) [
        | inl no_first ↦ absurd (ground arith)
        | inr (first, f) ↦
            resize-Reserved initial element_size capacity required first c allocate
              (grow (suc required) first required) (ground arith)
              (grow-Grown (suc required) first required) (ground arith)
      ]
    ]

module _ (initial element_size : ℕ) (allocate : ℕ → Bool) where
  resize-some :
      (first required limit : ℕ) (g : Outcome)
      → limit ≤ size_max / element_size
      → limit ≤ size_max / 2
      → first ≤ limit
      → 2 * required ≤ limit
      → ((bytes : ℕ) → allocate bytes ≡ true)
      → g ≢ unfinished
      → Grown first required g
      → resize element_size allocate g ≢ none
  unfolding resize
  resize-some first required limit (grown x) small half k r all total h =
      ground (arith, all (x * element_size))
  resize-some first required limit refused small half k r all total h = absurd (omega arith)
  resize-some first required limit unfinished small half k r all total h = absurd (total refl)

  -- While the first capacity and twice the request stay below a limit that fits into a `size_t` of
  -- bytes, and the allocator gives what it is asked for, no call is refused.
  pub reserve-some :
      (capacity required limit : ℕ)
      → 0 < initial
      → initial ≤ limit
      → 2 * required ≤ limit
      → limit ≤ size_max / element_size
      → limit ≤ size_max / 2
      → ((bytes : ℕ) → allocate bytes ≡ true)
      → reserve initial element_size allocate capacity required ≢ none
  unfolding reserve
  reserve-some capacity required limit pos i r small half all =
      elim (Bool-cases (leb required capacity)) [
        | inl fits ↦ ground arith
        | inr short ↦ elim (Option-cases (first_capacity initial capacity)) [
          | inl no_first ↦ absurd (ground arith)
          | inr (first, f) ↦
              rw (short, f)
                (resize-some first required limit (grow (suc required) first required) small half
                  (ground arith) r all
                  (grow_total required first required (ground arith) (ground arith))
                  (grow-Grown (suc required) first required))
        ]
      ]
