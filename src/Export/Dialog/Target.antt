-- ===== src/Export/Dialog/Target.antt =====
-- src/export.c: the path that an export through the dialog goes to, from the path that was chosen.
use trace_glass.Base.{
  ℕ, zero, suc, ◌≤◌, ◌≡◌, ◌⊎◌, inl, inr, refl, sym, ap, ◌∙◌, Bool, true, false, not, ◌||◌, Option,
  none, some, [], ◌∷◌, ◌++◌, length, take, drop, codes, arith, if_cases, take-append_full,
}
use trace_glass.Export.{Platform}
use trace_glass.Export.Dialog.{
  is_known_extension, from_last_dot, before_last_dot, apply_selected_extension, extension_of,
  exported_path,
}
use trace_glass.Export.Formats.{ExportFormat, is_behind, path_has_extension}
use trace_glass.Events.{max_path}
use trace_glass.Utils.{Text, wcsrchr, string_equals_insensitive}
use trace_glass.Utils.Files.{IsFree, SplitsAt, wcsrchr-SplitsAt, All-back, later_back, same_place}

-- A path without its extension, and what follows the dot of that.
pub record Parts (path stem tail : Text) : Type 0 where
  pub whole : path ≡ stem ++ b'.' ∷ tail
  pub last : IsFree b'.' tail
  pub in_name : IsFree b'\\' tail

abbrev pub HasExtension : Text → Type 0
HasExtension path = (stem : Text) × (tail : Text) × Parts path stem tail

not-IsFree : (c : ℕ) (front back : Text) → ¬ IsFree c (front ++ c ∷ back)
not-IsFree c [] back free = free.0 refl
not-IsFree c (x ∷ front) back free = not-IsFree c front back free.1

-- With two splits of a text, the one whose character does not stand in the other's back is not behind
-- the other.
split-le :
    (c e : ℕ) (front back front' back' : Text)
    → front ++ c ∷ back ≡ front' ++ e ∷ back'
    → IsFree c back'
    → length front ≤ length front'
split-le c e [] back front' back' same free = omega arith
split-le c e (x ∷ front) back [] back' same free =
    let tail : front ++ c ∷ back ≡ back' = ground arith in
    absurd (not-IsFree c front back (rw tail free))
split-le c e (x ∷ front) back (y ∷ front') back' same free =
    omega (arith, split-le c e front back front' back' (ground arith) free)

drop-append :
    (front : Text) (i : ℕ) (back : Text) → length front ≡ i → drop i (front ++ back) ≡ back
drop-append [] zero back e = refl
drop-append [] (suc i) back e = absurd (omega arith)
drop-append (x ∷ front) zero back e = absurd (omega arith)
drop-append (x ∷ front) (suc i) back e = drop-append front i back (omega arith)

-- `path_has_extension`, decided by the places of the last dot and of the last backslash.
HasExtension-decide :
    (path : Text) (dot slash : Option ℕ)
    → SplitsAt b'.' path dot
    → SplitsAt b'\\' path slash
    → (is_behind dot slash ≡ true → HasExtension path)
      × (is_behind dot slash ≡ false → ¬ HasExtension path)
HasExtension-decide path none slash free g = (
  λ e. absurd (ground (arith, e)),
  λ e (stem, tail, parts). not-IsFree b'.' stem tail (rw parts.whole at free),
)
HasExtension-decide path (some dot) none (front, back, whole, at, free) g = (
  λ e. (
    front,
    back,
    record { whole = whole; last = free; in_name = All-back b'\\' b'.' front back (rw whole at g) },
  ),
  λ e. absurd (ground (arith, e)),
)
HasExtension-decide path (some dot) (some slash) (front, back, whole, at, free)
      (front', back', whole', at', free') =
    (
      λ e. (
        front,
        back,
        record {
          whole = whole;
          last = free;
          in_name =
              later_back b'\\' b'.' b'\\' front back front' back' (sym whole ∙ whole')
                (ground arith) free';
        },
      ),
      λ e (stem, tail, parts).
          let low = split-le b'.' b'.' stem tail front back (sym parts.whole ∙ whole) free in
          let high =
            split-le b'\\' b'.' front' back' stem tail (sym whole' ∙ parts.whole) parts.in_name in
          let same =
            same_place b'.' b'\\' stem tail front' back' (sym parts.whole ∙ whole')
              (ground (arith, e, low, high)) in
          absurd (omega (arith, same)),
    )

wcsrchr-absent : (c : ℕ) (text : Text) → IsFree c text → wcsrchr text c ≡ none
unfolding wcsrchr
wcsrchr-absent c [] free = refl
wcsrchr-absent c (x ∷ text) free = ground (arith, wcsrchr-absent c text free.1, free.0)

wcsrchr-append :
    (c : ℕ) (front back : Text)
    → IsFree c back
    → wcsrchr (front ++ c ∷ back) c ≡ some (length front)
unfolding wcsrchr
wcsrchr-append c [] back free = ground (arith, wcsrchr-absent c back free)
wcsrchr-append c (x ∷ front) back free = rw (wcsrchr-append c front back free) refl

either_of_three :
    (a b c : Bool)
    → (a || b || c ≡ true → (a ≡ true) ⊎ (b ≡ true) ⊎ (c ≡ true))
      × (a || b || c ≡ false → ¬ ((a ≡ true) ⊎ (b ≡ true) ⊎ (c ≡ true)))
either_of_three true b c = (λ e. inl refl, λ e. absurd (ground (arith, e)))
either_of_three false true c = (λ e. inr (inl refl), λ e. absurd (ground (arith, e)))
either_of_three false false true = (λ e. inr (inr refl), λ e. absurd (ground (arith, e)))
either_of_three false false false = (λ e. absurd (ground (arith, e)), λ e h. ground arith)

module _ (p : Platform) (string_cat : ℕ → Text → Text → Text × Bool) where
  -- One of the extensions that the program writes, as CompareStringOrdinal compares them.
  abbrev pub IsKnown : Text → Type 0
  IsKnown extension =
      (p.equal_ordinal extension (codes ".json") ≡ true)
      ⊎ (p.equal_ordinal extension (codes ".csv") ≡ true)
      ⊎ (p.equal_ordinal extension (codes ".txt") ≡ true)

  -- The three ways from the path that was chosen to the one that is written to.
  pub data IsTarget (path : Text) (format : ExportFormat) (target : Text) : Type 0 where
    appended :
        ¬ HasExtension path
        → target ≡ path ++ extension_of p string_cat format
        → IsTarget path format target
    replaced :
        (stem tail : Text)
        → Parts path stem tail
        → IsKnown (b'.' ∷ tail)
        → target ≡ stem ++ extension_of p string_cat format
        → IsTarget path format target
    kept :
        (stem tail : Text)
        → Parts path stem tail
        → ¬ IsKnown (b'.' ∷ tail)
        → target ≡ path
        → IsTarget path format target

  is_known_extension-IsKnown :
      (extension : Text)
      → (is_known_extension p string_cat (some extension) ≡ true → IsKnown extension)
        × (is_known_extension p string_cat (some extension) ≡ false → ¬ IsKnown extension)
  unfolding is_known_extension string_equals_insensitive
  is_known_extension-IsKnown extension =
      either_of_three (p.equal_ordinal extension (codes ".json"))
        (p.equal_ordinal extension (codes ".csv")) (p.equal_ordinal extension (codes ".txt"))

  -- The code's cuts at the last dot.
  from_last_dot_lem :
      (path stem tail : Text)
      → Parts path stem tail
      → (from_last_dot p string_cat path ≡ some (b'.' ∷ tail))
        × (before_last_dot p string_cat path ≡ stem)
  unfolding from_last_dot before_last_dot
  from_last_dot_lem path stem tail parts =
      let at : wcsrchr path b'.' ≡ some (length stem) =
        ap (λ t. wcsrchr t b'.') parts.whole ∙ wcsrchr-append b'.' stem tail parts.last in
      (
        rw (from_last_dot, at)
            (ap some (
              ap (drop (length stem)) parts.whole
              ∙ drop-append stem (length stem) (b'.' ∷ tail) refl)),
        rw (before_last_dot, at)
            (ap (take (length stem)) parts.whole
              ∙ take-append_full (length stem) stem (b'.' ∷ tail) refl),
      )

  path_has_extension-HasExtension :
      (path : Text)
      → (path_has_extension path ≡ true → HasExtension path)
        × (path_has_extension path ≡ false → ¬ HasExtension path)
  unfolding path_has_extension
  path_has_extension-HasExtension path =
      HasExtension-decide path (wcsrchr path b'.') (wcsrchr path b'\\') (wcsrchr-SplitsAt path b'.')
        (wcsrchr-SplitsAt path b'\\')

  module _
      (appends : (count : ℕ) (left right : Text)
        → (string_cat count left right).1 ≡ true
        → (string_cat count left right).0 ≡ left ++ right) where
    apply_selected_extension-IsTarget :
        (path : Text) (format : ExportFormat)
        → (apply_selected_extension p string_cat path max_path (extension_of p string_cat format)).1
          ≡ true
        → IsTarget path format
            (apply_selected_extension p string_cat path max_path
              (extension_of p string_cat format)).0
    unfolding apply_selected_extension
    apply_selected_extension-IsTarget path format =
        let P : Text × Bool → Type 0 = λ r. r.1 ≡ true → IsTarget path format r.0 in
        let ext = extension_of p string_cat format in
        let has = path_has_extension-HasExtension path in
        if_cases P (path_has_extension path)
          (λ dotted.
            let (stem, tail, parts) = has.0 dotted in
            let (from, before) = from_last_dot_lem path stem tail parts in
            let is = is_known_extension-IsKnown (b'.' ∷ tail) in
            if_cases P (is_known_extension p string_cat (from_last_dot p string_cat path))
              (λ known done.
                replaced stem tail parts
                  (is.0 (ap (is_known_extension p string_cat) (sym from) ∙ known))
                  (appends max_path (before_last_dot p string_cat path) ext done
                    ∙ ap (λ t. t ++ ext) before))
              (λ foreign done.
                kept stem tail parts
                  (is.1 (ap (is_known_extension p string_cat) (sym from) ∙ foreign)) refl))
          (λ bare done. appended (has.1 bare) (appends max_path path ext done))

    pub exported_path-IsTarget :
        (path : Text) (format : ExportFormat)
        → (exported_path p string_cat path format).1 ≡ true
        → IsTarget path format (exported_path p string_cat path format).0
    unfolding exported_path
    exported_path-IsTarget path format =
        let P : Text × Bool → Type 0 = λ r. r.1 ≡ true → IsTarget path format r.0 in
        if_cases P
          (not (path_has_extension path)
            || is_known_extension p string_cat (from_last_dot p string_cat path))
          (λ own. apply_selected_extension-IsTarget path format)
          (λ foreign done.
            let (stem, tail, parts) =
              (path_has_extension-HasExtension path).0 (ground (arith, foreign)) in
            let (from, before) = from_last_dot_lem path stem tail parts in
            kept stem tail parts
              ((is_known_extension-IsKnown (b'.' ∷ tail)).1
                (ap (is_known_extension p string_cat) (sym from) ∙ ground (arith, foreign)))
              refl)
