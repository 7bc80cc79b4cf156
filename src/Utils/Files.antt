-- ===== src/Utils/Files.antt =====
-- `path_basename` of src/utils.c: the part of a path behind its last separator.
use trace_glass.Base.{
  ℕ, zero, suc, ◌+◌, ◌<◌, ◌≡◌, ◌≢◌, ◌⊎◌, refl, ap, sym, ◌∙◌, Option, none, some, [], ◌∷◌, ◌++◌,
  arith, Bool-cases, inl, inr, ltb, ◌==◌, if◌then◌else◌, length, All, drop,
}
use mathlib.Core.List.{append_assoc}
use trace_glass.Utils.{Text, wcsrchr, last_separator, path_basename}

abbrev pub IsFree : ℕ → Text → Type 0
IsFree c = All (λ x. x ≢ c)

-- `text` is split behind its last `c` at the index `i`; without an index it has none.
abbrev pub SplitsAt : ℕ → Text → Option ℕ → Type 0
SplitsAt c text none = IsFree c text
SplitsAt c text (some i) =
    (front : Text) × (back : Text) × (text ≡ front ++ c ∷ back) × (length front ≡ i) × IsFree c back

pub wcsrchr-SplitsAt : (text : Text) (c : ℕ) → SplitsAt c text (wcsrchr text c)
unfolding wcsrchr
wcsrchr-SplitsAt [] c = tt
wcsrchr-SplitsAt (x ∷ text) c = go (wcsrchr text c) (wcsrchr-SplitsAt text c)
  where
    go :
        (o : Option ℕ)
        → SplitsAt c text o
        → SplitsAt c
            (x ∷ text)
            (elim o [ some i ↦ some (suc i) | none ↦ if x == c then some 0 else none ])
    go (some i) (front, back, whole, at, free) =
        (x ∷ front, back, ap (◌∷◌ x) whole, ap suc at, free)
    go none free = elim (Bool-cases (x == c)) [
      | inl hit ↦ rw hit ([], text, ap (λ y. y ∷ text) (ground arith), refl, free)
      | inr miss ↦ rw miss (ground arith, free)
    ]

pub All-back : (d c : ℕ) (front back : Text) → IsFree d (front ++ c ∷ back) → IsFree d back
All-back d c [] back free = free.1
All-back d c (x ∷ front) back free = All-back d c front back free.1

-- Of two splits of one text, the later one's back is part of the earlier one's.
pub later_back :
    (d c e : ℕ) (front back front' back' : Text)
    → front ++ c ∷ back ≡ front' ++ e ∷ back'
    → length front' < length front
    → IsFree d back'
    → IsFree d back
later_back d c e [] back front' back' same h free = absurd (omega arith)
later_back d c e (x ∷ front) back [] back' same h free =
    let tail : front ++ c ∷ back ≡ back' = ground arith in All-back d c front back (rw tail free)
later_back d c e (x ∷ front) back (y ∷ front') back' same h free =
    later_back d c e front back front' back' (ground arith) (omega arith) free

pub same_place :
    (c e : ℕ) (front back front' back' : Text)
    → front ++ c ∷ back ≡ front' ++ e ∷ back'
    → length front ≡ length front'
    → c ≡ e
same_place c e [] back [] back' same h = ground arith
same_place c e [] back (y ∷ front') back' same h = absurd (omega arith)
same_place c e (x ∷ front) back [] back' same h = absurd (omega arith)
same_place c e (x ∷ front) back (y ∷ front') back' same h =
    same_place c e front back front' back' (ground arith) (omega arith)

abbrev pub IsSeparator : ℕ → Type 0
IsSeparator c = (c ≡ b'/') ⊎ (c ≡ b'\\')

-- A file's name: it holds no separator.
abbrev pub IsName : Text → Type 0
IsName text = IsFree b'/' text × IsFree b'\\' text

abbrev LastAt : Text → Option ℕ → Type 0
LastAt path none = IsName path
LastAt path (some i) =
    (c : ℕ) × (front : Text) × (back : Text) × IsSeparator c
    × (path ≡ front ++ c ∷ back)
    × (length front ≡ i)
    × IsName back

-- The choice between the two separators, from what `wcsrchr` gave for each.
choose :
    (path : Text) (alternate last : Option ℕ)
    → SplitsAt b'/' path alternate
    → SplitsAt b'\\' path last
    → LastAt path (elim alternate [
      | none ↦ last
      | some a ↦ elim last [ none ↦ some a | some l ↦ if ltb l a then some a else some l ]
    ])
choose path none none f g = (f, g)
choose path none (some l) f (front, back, whole, at, free) = (
  b'\\',
  front,
  back,
  inr refl,
  whole,
  at,
  (All-back b'/' b'\\' front back (rw whole at f), free),
)
choose path (some a) none (front, back, whole, at, free) g =
    (b'/', front, back, inl refl, whole, at, (free, All-back b'\\' b'/' front back (rw whole at g)))
choose path (some a) (some l) (front, back, whole, at, free) (front', back', whole', at', free') =
    elim (Bool-cases (ltb l a)) [
      | inl t ↦ rw t (
        b'/',
        front,
        back,
        inl refl,
        whole,
        at,
        (
          free,
          later_back b'\\' b'/' b'\\' front back front' back' (sym whole ∙ whole') (ground arith)
              free',
        ),
      )
      | inr n ↦ rw n (
        b'\\',
        front',
        back',
        inr refl,
        whole',
        at',
        (
          later_back b'/' b'\\' b'/' front' back' front back (sym whole' ∙ whole)
              (elim (Bool-cases (a == l)) [
                | inl eq ↦
                    let same =
                      same_place b'/' b'\\' front back front' back' (sym whole ∙ whole')
                        (ground arith) in
                    absurd (omega (arith, same))
                | inr ne ↦ ground arith
              ])
              free,
          free',
        ),
      )
    ]

drop-split :
    (front : Text) (c i : ℕ) (back : Text)
    → length front ≡ i
    → drop (i + 1) (front ++ c ∷ back) ≡ back
drop-split [] c zero back e = refl
drop-split [] c (suc i) back e = absurd (omega arith)
drop-split (x ∷ front) c zero back e = absurd (omega arith)
drop-split (x ∷ front) c (suc i) back e =
    let k : suc i + 1 ≡ suc (i + 1) = omega arith in rw k (drop-split front c i back (omega arith))

-- What a base name is: what follows a directory that is empty or ends in a separator, and holds no
-- separator itself.
pub record IsBasename (path name : Text) : Type 0 where
  pub directory : Text
  pub whole : path ≡ directory ++ name
  pub ends :
      (directory ≡ []) ⊎ ((front : Text) × (c : ℕ) × IsSeparator c × (directory ≡ front ++ c ∷ []))
  pub is_name : IsName name

last_separator-LastAt : (path : Text) → LastAt path (last_separator path)
unfolding last_separator
last_separator-LastAt path =
    choose path (wcsrchr path b'/') (wcsrchr path b'\\') (wcsrchr-SplitsAt path b'/')
      (wcsrchr-SplitsAt path b'\\')

-- `path_basename` returns the base name of any path, with either separator and with both mixed.
pub path_basename-IsBasename : (path : Text) → IsBasename path (path_basename (some path))
unfolding path_basename
path_basename-IsBasename path = go (last_separator path) (last_separator-LastAt path)
  where
    go :
        (o : Option ℕ)
        → LastAt path o
        → IsBasename path (elim o [ none ↦ path | some index ↦ drop (index + 1) path ])
    go none n = record { directory = []; whole = refl; ends = inl refl; is_name = n }
    go (some i) (c, front, back, sep, whole, at, n) =
        let name : drop (i + 1) path ≡ back =
          ap (drop (i + 1)) whole ∙ drop-split front c i back at in
        rw name (record {
          directory = front ++ c ∷ [];
          whole = whole ∙ sym (append_assoc front (c ∷ []) back);
          ends = inr (front, c, sep, refl);
          is_name = n;
        })
