-- ===== src/Utils/Copy.antt =====
-- `copy_wstring` of src/utils.c: no access outside of the buffers, termination, and the exact cells.
use trace_glass.Base.{
  ℕ, zero, suc, ◌+◌, ◌≤◌, ◌<◌, ◌≡◌, ◌≢◌, refl, ap, some, List, [], ◌∷◌, ◌++◌, true, false, arith,
  ltb, ◌==◌, length, get_elem?, set, drop, All, length-append,
}
use mathlib.Core.List.{append_assoc}
use trace_glass.Utils.{Text, store, copy_loop, copy_wstring, copy_text}

-- A text has no zero cell.
abbrev pub IsText : Text → Type 0
IsText = All (λ c. c ≢ 0)

-- The cells of a buffer after a copy of a text into it.
abbrev pub copied : ℕ → List ℕ → Text → List ℕ
copied count destination text =
    copy_text count text ++ 0 ∷ drop (suc (length (copy_text count text))) destination

set-at : (p : List ℕ) (c v : ℕ) (rest : List ℕ) → set (p ++ c ∷ rest) (length p) v ≡ p ++ v ∷ rest
set-at [] c v rest = refl
set-at (x ∷ p) c v rest = ap (◌∷◌ x) (set-at p c v rest)

get_elem?-at : (p : List ℕ) (c : ℕ) (rest : List ℕ) → get_elem? (p ++ c ∷ rest) (length p) ≡ some c
get_elem?-at [] c rest = refl
get_elem?-at (x ∷ p) c rest = get_elem?-at p c rest

store-at :
    (p : List ℕ) (c v : ℕ) (rest : List ℕ)
    → store (p ++ c ∷ rest) (length p) v ≡ some (p ++ v ∷ rest)
unfolding store
store-at p c v rest = ground (arith, set-at p c v rest, length-append p (c ∷ rest))

-- The loop at the index `length p`: `p` is written and `q` is read.
module _ (count : ℕ) (r : List ℕ) where
  copy_loop-copied :
      (fuel k : ℕ) (p d q t : List ℕ)
      → length q ≡ length p
      → length p + suc k ≡ count
      → suc k ≤ length d
      → suc k ≤ fuel
      → IsText t
      → copy_loop fuel (length p) count (p ++ d) (q ++ (t ++ 0 ∷ r))
        ≡ some (p ++ copied (suc k) d t)
  unfolding copy_loop
  copy_loop-copied zero k p d q t e f g h w = absurd (omega arith)
  copy_loop-copied (suc fuel) k p [] q t e f g h w = absurd (omega arith)
  copy_loop-copied (suc fuel) zero p (x ∷ d) q t e f g h w =
      let done : ltb (length p + 1) count ≡ false = ground arith in rw (done, store-at p x 0 d)
  copy_loop-copied (suc fuel) (suc k) p (x ∷ d) q [] e f g h w =
      let more : ltb (length p + 1) count ≡ true = ground arith in
      let read : get_elem? (q ++ 0 ∷ r) (length p) ≡ some 0 = rw (← e) (get_elem?-at q 0 r) in
      rw (more, read, store-at p x 0 d)
  copy_loop-copied (suc fuel) (suc k) p (x ∷ d) q (c ∷ t) e f g h w =
      let more : ltb (length p + 1) count ≡ true = ground arith in
      let full : (c == 0) ≡ false = ground (arith, w.0) in
      let read : get_elem? (q ++ c ∷ (t ++ 0 ∷ r)) (length p) ≡ some c =
        rw (← e) (get_elem?-at q c (t ++ 0 ∷ r)) in
      rw (more, read, full, store-at p x c d)
        (rw
          (
            append_assoc p (c ∷ []) d,
            append_assoc q (c ∷ []) (t ++ 0 ∷ r),
            append_assoc p (c ∷ []) (copied (suc k) d t),
            length-append p (c ∷ []),
          )
          at
          (copy_loop-copied fuel k (p ++ c ∷ []) d (q ++ c ∷ []) t
            (omega (arith, length-append p (c ∷ []), length-append q (c ∷ [])))
            (omega (arith, length-append p (c ∷ []))) (omega arith) (omega arith) w.1))

-- A copy of a text into a buffer with room for `destination_count` cells reads and writes only
-- cells that exist, and returns. It leaves the longest front of the text that fits with its
-- terminator, and every cell behind the terminator as it was.
pub copy_wstring-copied :
    (destination_count : ℕ) (destination : List ℕ) (text tail : List ℕ)
    → 0 < destination_count
    → destination_count ≤ length destination
    → IsText text
    → copy_wstring (some destination) destination_count (some (text ++ 0 ∷ tail))
      ≡ some (some (copied destination_count destination text))
unfolding copy_wstring
copy_wstring-copied zero destination text tail h g w = absurd (omega arith)
copy_wstring-copied (suc n) destination text tail h g w =
    let room : (suc n == 0) ≡ false = ground arith in
    rw (
      room,
      copy_loop-copied (suc n) tail (suc n) n [] destination [] text refl (omega arith) g
          (omega arith) w,
    )
