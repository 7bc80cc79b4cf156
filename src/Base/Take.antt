-- ===== src/Base/Take.antt =====
-- The first entries of a list.
use Prim.Native.Nat.{ℕ, zero, suc, ◌≤◌}
use mathlib.Core.Path.{◌≡◌, refl, ap}
use mathlib.Core.List.{List, [], ◌∷◌, ◌++◌}
use native.Mathlib.Omega.{arith}
use trace_glass.Base.Lists.{length, take}

module _ {ℓ} {A : Type ℓ} where
  pub take-take-append : (n : ℕ) (xs ys : List A) → take n (take n xs ++ ys) ≡ take n (xs ++ ys)
  take-take-append zero xs ys = refl
  take-take-append (suc n) [] ys = refl
  take-take-append (suc n) (x ∷ xs) ys = ap (◌∷◌ x) (take-take-append n xs ys)

  pub take-append_full : (n : ℕ) (xs ys : List A) → length xs ≡ n → take n (xs ++ ys) ≡ xs
  take-append_full zero [] ys h = refl
  take-append_full zero (x ∷ xs) ys h = absurd (omega arith)
  take-append_full (suc n) [] ys h = absurd (omega arith)
  take-append_full (suc n) (x ∷ xs) ys h = ap (◌∷◌ x) (take-append_full n xs ys (omega arith))

  pub take-append_nil : (n : ℕ) (xs : List A) → length xs ≤ n → take n (xs ++ []) ≡ xs
  take-append_nil zero [] h = refl
  take-append_nil zero (x ∷ xs) h = absurd (omega arith)
  take-append_nil (suc n) [] h = refl
  take-append_nil (suc n) (x ∷ xs) h = ap (◌∷◌ x) (take-append_nil n xs (omega arith))
