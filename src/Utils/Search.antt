-- ===== src/Utils/Search.antt =====
-- `string_contains_insensitive` of src/utils.c is a search for an infix, up to the case mapping.
use trace_glass.Base.{
  ℕ, suc, ◌≤◌, ◌≡◌, ◌↔◌, refl, ap, true, some, [], ◌∷◌, ◌++◌, map, arith, Bool-cases, inl, inr,
  length, length-append,
}
use trace_glass.Utils.{Text, matches_at, contains_from, string_contains_insensitive}

module _ (towlower : ℕ → ℕ) where
  -- The needle occurs in the value, up to the case mapping.
  pub record Occurs (value needle : Text) : Type 0 where
    pub before : Text
    pub found : Text
    pub after : Text
    pub whole : value ≡ before ++ (found ++ after)
    pub same : map towlower found ≡ map towlower needle

  matches_at_sound :
      (value needle : Text)
      → matches_at towlower value needle ≡ true
      → (found : Text) × (after : Text) × (value ≡ found ++ after)
        × (map towlower found ≡ map towlower needle)
  unfolding matches_at
  matches_at_sound value [] e = ([], value, refl, refl)
  matches_at_sound [] (n ∷ needle) e = absurd (ground arith)
  matches_at_sound (c ∷ value) (n ∷ needle) e =
      let (found, after, whole, same) = matches_at_sound value needle (ground arith) in
      (c ∷ found, after, ap (◌∷◌ c) whole, ground arith)

  matches_at_complete :
      (found after needle : Text)
      → map towlower found ≡ map towlower needle
      → matches_at towlower (found ++ after) needle ≡ true
  unfolding matches_at
  matches_at_complete found after [] e = refl
  matches_at_complete [] after (n ∷ needle) e = absurd (ground arith)
  matches_at_complete (c ∷ found) after (n ∷ needle) e =
      ground (arith, matches_at_complete found after needle (ground arith))

  length-map : (s : Text) → length (map towlower s) ≡ length s
  length-map [] = refl
  length-map (c ∷ s) = ap suc (length-map s)

  contains_from_sound :
      (value needle : Text) → contains_from towlower value needle ≡ true → Occurs value needle
  unfolding contains_from
  contains_from_sound [] needle e =
      let (found, after, whole, same) = matches_at_sound [] needle (ground arith) in
      record { before = []; found = found; after = after; whole = whole; same = same }
  contains_from_sound (c ∷ value) needle e =
      elim (Bool-cases (matches_at towlower (c ∷ value) needle)) [
        | inl here ↦
            let (found, after, whole, same) = matches_at_sound (c ∷ value) needle here in
            record { before = []; found = found; after = after; whole = whole; same = same }
        | inr later ↦
            let o = contains_from_sound value needle (ground arith) in
            record {
              before = c ∷ o.before;
              found = o.found;
              after = o.after;
              whole = ap (◌∷◌ c) o.whole;
              same = o.same;
            }
      ]

  fits :
      (before found after needle : Text)
      → map towlower found ≡ map towlower needle
      → length needle ≤ length (before ++ (found ++ after))
  fits before found after needle e = omega (
    arith,
    length-append before (found ++ after),
    length-append found after,
    length-map found,
    length-map needle,
    ap length e,
  )

  contains_from_complete :
      (before found after needle : Text)
      → map towlower found ≡ map towlower needle
      → contains_from towlower (before ++ (found ++ after)) needle ≡ true
  unfolding contains_from
  contains_from_complete [] [] [] needle e =
      ground (arith, matches_at_complete [] [] needle e, fits [] [] [] needle e)
  contains_from_complete [] [] (a ∷ after) needle e =
      ground (arith, matches_at_complete [] (a ∷ after) needle e, fits [] [] (a ∷ after) needle e)
  contains_from_complete [] (f ∷ found) after needle e =
      ground
        (arith, matches_at_complete (f ∷ found) after needle e, fits [] (f ∷ found) after needle e)
  contains_from_complete (b ∷ before) found after needle e = ground (
    arith,
    contains_from_complete before found after needle e,
    fits (b ∷ before) found after needle e,
  )

  -- The search answers TRUE exactly if some part of the value equals the needle up to the case
  -- mapping; the empty needle occurs everywhere.
  pub string_contains-Occurs :
      (value needle : Text)
      → (string_contains_insensitive towlower (some value) (some needle) ≡ true)
        ↔ Occurs value needle
  unfolding string_contains_insensitive
  string_contains-Occurs value [] =
      (λ e. record { before = []; found = []; after = value; whole = refl; same = refl }, λ o. refl)
  string_contains-Occurs value (n ∷ needle) = (
    λ e. contains_from_sound value (n ∷ needle) (ground arith),
    λ o.
        let found = contains_from_complete o.before o.found o.after (n ∷ needle) o.same in
        let room = fits o.before o.found o.after (n ∷ needle) o.same in
        ground (arith, found, room, o.whole),
  )
