-- ===== src/Base/Lists.antt =====
-- Lists measured and indexed by native numbers, under the library's names.
use Prim.Native.Nat.{ℕ, zero, suc, ◌+◌, ◌≤◌, ◌<◌}
use mathlib.Core.Path.{◌≡◌, refl, ap}
use mathlib.Core.Logic.{◌≢◌, ◌⊎◌, inl, inr}
use mathlib.Core.List.{List, [], ◌∷◌, ◌++◌}
use mathlib.Core.Option.{Option, none, some}
use mathlib.Core.Bool.{Bool, true, false}
use native.Mathlib.Omega.{arith}

module _ {ℓ} {A : Type ℓ} where
  abbrev pub length : List A → ℕ
  length [] = 0
  length (x ∷ xs) = suc (length xs)

  abbrev pub get_elem? : List A → ℕ → Option A
  get_elem? [] i = none
  get_elem? (x ∷ xs) zero = some x
  get_elem? (x ∷ xs) (suc i) = get_elem? xs i

  -- A write out of bounds changes nothing.
  abbrev pub set : List A → ℕ → A → List A
  set [] i v = []
  set (x ∷ xs) zero v = v ∷ xs
  set (x ∷ xs) (suc i) v = x ∷ set xs i v

  abbrev pub take : ℕ → List A → List A
  take zero xs = []
  take (suc n) [] = []
  take (suc n) (x ∷ xs) = x ∷ take n xs

  abbrev pub drop : ℕ → List A → List A
  drop zero xs = xs
  drop (suc n) [] = []
  drop (suc n) (x ∷ xs) = drop n xs

  abbrev pub is_some : Option A → Bool
  is_some none = false
  is_some (some a) = true

  -- The number of entries that pass a test.
  abbrev pub count_if : (A → Bool) → List A → ℕ
  count_if f [] = 0
  count_if f (x ∷ xs) = elim (f x) [ true ↦ suc (count_if f xs) | false ↦ count_if f xs ]

  abbrev pub All {κ} : (A → Type κ) → List A → Type κ
  All P [] = Unit
  All P (x ∷ xs) = P x × All P xs

  pub length-append : (xs ys : List A) → length (xs ++ ys) ≡ length xs + length ys
  length-append [] ys = omega arith
  length-append (x ∷ xs) ys = omega (arith, length-append xs ys)

  pub length-set : (xs : List A) (i : ℕ) (v : A) → length (set xs i v) ≡ length xs
  length-set [] i v = refl
  length-set (x ∷ xs) zero v = refl
  length-set (x ∷ xs) (suc i) v = ap suc (length-set xs i v)

  pub length-take-le : (n : ℕ) (xs : List A) → length (take n xs) ≤ n
  length-take-le zero xs = omega arith
  length-take-le (suc n) [] = omega arith
  length-take-le (suc n) (x ∷ xs) = omega (arith, length-take-le n xs)

  pub take-all : (n : ℕ) (xs : List A) → length xs ≤ n → take n xs ≡ xs
  take-all zero [] h = refl
  take-all zero (x ∷ xs) h = absurd (omega arith)
  take-all (suc n) [] h = refl
  take-all (suc n) (x ∷ xs) h = ap (◌∷◌ x) (take-all n xs (omega arith))

  pub get_elem?-append_right :
      (xs ys : List A) (i : ℕ) → get_elem? (xs ++ ys) (length xs + i) ≡ get_elem? ys i
  get_elem?-append_right [] ys i = ground arith
  get_elem?-append_right (x ∷ xs) ys i = ground (arith, get_elem?-append_right xs ys i)

  pub get_elem?-append_left :
      (xs ys : List A) (i : ℕ) → i < length xs → get_elem? (xs ++ ys) i ≡ get_elem? xs i
  get_elem?-append_left [] ys i h = absurd (omega arith)
  get_elem?-append_left (x ∷ xs) ys zero h = refl
  get_elem?-append_left (x ∷ xs) ys (suc i) h = get_elem?-append_left xs ys i (omega arith)

  pub get_elem?-lt : (xs : List A) (i : ℕ) {a : A} → get_elem? xs i ≡ some a → i < length xs
  get_elem?-lt [] i e = absurd (ground arith)
  get_elem?-lt (x ∷ xs) zero e = omega arith
  get_elem?-lt (x ∷ xs) (suc i) e = omega (arith, get_elem?-lt xs i e)

  pub lt-get_elem? : (xs : List A) (i : ℕ) → i < length xs → (a : A) × (get_elem? xs i ≡ some a)
  lt-get_elem? [] i h = absurd (omega arith)
  lt-get_elem? (x ∷ xs) zero h = (x, refl)
  lt-get_elem? (x ∷ xs) (suc i) h = lt-get_elem? xs i (omega arith)

  pub get_elem?-set_self :
      (xs : List A) (i : ℕ) (v : A) → i < length xs → get_elem? (set xs i v) i ≡ some v
  get_elem?-set_self [] i v h = absurd (omega arith)
  get_elem?-set_self (x ∷ xs) zero v h = refl
  get_elem?-set_self (x ∷ xs) (suc i) v h = get_elem?-set_self xs i v (omega arith)

  pub get_elem?-set_ne :
      (xs : List A) (i j : ℕ) (v : A) → i ≢ j → get_elem? (set xs i v) j ≡ get_elem? xs j
  get_elem?-set_ne [] i j v h = refl
  get_elem?-set_ne (x ∷ xs) zero zero v h = absurd (h refl)
  get_elem?-set_ne (x ∷ xs) zero (suc j) v h = refl
  get_elem?-set_ne (x ∷ xs) (suc i) zero v h = refl
  get_elem?-set_ne (x ∷ xs) (suc i) (suc j) v h = get_elem?-set_ne xs i j v (λ e. h (ap suc e))

  pub count_if-le : (f : A → Bool) (xs : List A) → count_if f xs ≤ length xs
  count_if-le f [] = omega arith
  count_if-le f (x ∷ xs) = ground (arith, count_if-le f xs)

  pub count_if-append :
      (f : A → Bool) (xs ys : List A) → count_if f (xs ++ ys) ≡ count_if f xs + count_if f ys
  count_if-append f [] ys = omega arith
  count_if-append f (x ∷ xs) ys = ground (arith, count_if-append f xs ys)

  -- A write replaces one entry's part of the count by the new entry's.
  pub count_if-set :
      (f : A → Bool) (xs : List A) (i : ℕ) {a : A} (v : A)
      → get_elem? xs i ≡ some a
      → count_if f (set xs i v) + count_if f (a ∷ []) ≡ count_if f xs + count_if f (v ∷ [])
  count_if-set f [] i v e = absurd (ground arith)
  count_if-set f (x ∷ xs) zero v e = ground arith
  count_if-set f (x ∷ xs) (suc i) v e = ground (arith, count_if-set f xs i v e)

  pub All-append {κ} : (P : A → Type κ) (xs ys : List A) → All P xs → All P ys → All P (xs ++ ys)
  All-append P [] ys h k = k
  All-append P (x ∷ xs) ys h k = (h.0, All-append P xs ys h.1 k)

  -- A read of an extended array finds an old entry or the new one.
  pub get_elem?-concat_cases :
      (xs : List A) (y a : A) (i : ℕ)
      → get_elem? (xs ++ y ∷ []) i ≡ some a
      → (get_elem? xs i ≡ some a) ⊎ ((i ≡ length xs) × (y ≡ a))
  get_elem?-concat_cases [] y a zero e = inr (refl, ground arith)
  get_elem?-concat_cases [] y a (suc i) e = absurd (ground arith)
  get_elem?-concat_cases (x ∷ xs) y a zero e = inl e
  get_elem?-concat_cases (x ∷ xs) y a (suc i) e = elim (get_elem?-concat_cases xs y a i e) [
    | inl old ↦ inl old
    | inr (at, new) ↦ inr (ap suc at, new)
  ]

  -- A read of an array after a write finds the value written or another entry as it was.
  pub get_elem?-set_cases :
      (xs : List A) (i j : ℕ) (v a : A)
      → get_elem? (set xs i v) j ≡ some a
      → ((i ≡ j) × (v ≡ a)) ⊎ ((i ≢ j) × (get_elem? xs j ≡ some a))
  get_elem?-set_cases [] i j v a e = absurd (ground arith)
  get_elem?-set_cases (x ∷ xs) zero zero v a e = inl (refl, ground arith)
  get_elem?-set_cases (x ∷ xs) zero (suc j) v a e = inr (omega arith, e)
  get_elem?-set_cases (x ∷ xs) (suc i) zero v a e = inr (omega arith, e)
  get_elem?-set_cases (x ∷ xs) (suc i) (suc j) v a e = elim (get_elem?-set_cases xs i j v a e) [
    | inl (at, new) ↦ inl (ap suc at, new)
    | inr (away, old) ↦ inr (omega arith, old)
  ]
