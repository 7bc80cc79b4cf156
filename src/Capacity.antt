-- ===== src/Capacity.antt =====
-- How src/event_store.c grows an array: `reserve_events` and `reserve_processes` differ in the first
-- capacity and in the size of an element only. `allocate` says whether `realloc` of so many bytes
-- succeeds.
pub mod Growth
use trace_glass.Base.{
  ℕ, zero, suc, ◌+◌, ◌*◌, ◌/◌, Bool, Option, none, some, ltb, leb, ◌==◌, if◌then◌else◌,
}

-- `size_t` and ULONGLONG have 64 bits on the one supported platform.
abbrev pub size_max : ℕ
size_max = 0xffff_ffff_ffff_ffff

abbrev pub word : ℕ
word = 0x1_0000_0000_0000_0000

pub data Outcome : Type 0 where
  grown : ℕ → Outcome
  refused unfinished : Outcome

-- `while (capacity < required)`, on fuel.
unfoldable pub grow : ℕ → ℕ → ℕ → Outcome
grow zero capacity required = unfinished
grow (suc fuel) capacity required =
    let rest = grow fuel (capacity * 2) required in
    if ltb capacity required
    then if ltb (size_max / 2) capacity then refused else rest
    else grown capacity

-- The capacity that the loop starts with.
unfoldable pub first_capacity : ℕ → ℕ → Option ℕ
first_capacity initial capacity =
    if capacity == 0
    then some initial
    else if ltb (size_max / 2) capacity
    then none
    else some (capacity * 2)

unfoldable pub resize : ℕ → (ℕ → Bool) → Outcome → Option ℕ
resize element_size allocate (grown capacity) =
    if ltb (size_max / element_size) capacity
    then none
    else if allocate (capacity * element_size)
    then some capacity
    else none
resize element_size allocate refused = none
resize element_size allocate unfinished = none

-- The capacity after a call of `reserve_events` or `reserve_processes`; `none` is FALSE.
unfoldable pub reserve : ℕ → ℕ → (ℕ → Bool) → ℕ → ℕ → Option ℕ
unfolding grow first_capacity resize
reserve initial element_size allocate capacity required =
    if leb required capacity then some capacity else (elim (first_capacity initial capacity) [
      | none ↦ none
      | some first ↦ resize element_size allocate (grow (suc required) first required)
    ])
