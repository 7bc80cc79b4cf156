-- ===== src/Utils.antt =====
-- src/utils.c. A WCHAR buffer is the list of its cells; a NULL pointer is `none`. A text is what a
-- buffer holds before its first zero cell. `towlower` and `CompareStringOrdinal` are parameters of
-- what uses them.
pub mod Copy
pub mod Search
pub mod Files
use trace_glass.Base.{
  ℕ, zero, suc, ◌+◌, Bool, true, false, ◌&&◌, Option, none, some, List, [], ◌∷◌, ltb, leb, ◌==◌,
  if◌then◌else◌, length, get_elem?, set, take, drop,
}

abbrev pub Text : Type 0
Text = List ℕ

-- A write to a cell of a buffer; outside of the buffer it is a fault.
unfoldable pub store : List ℕ → ℕ → ℕ → Option (List ℕ)
store buffer index value = if ltb index (length buffer) then some (set buffer index value) else none

-- The loop of `copy_wstring`, on fuel; `none` is an access outside of a buffer, or no fuel left.
unfoldable pub copy_loop : ℕ → ℕ → ℕ → List ℕ → List ℕ → Option (List ℕ)
copy_loop zero index destination_count destination source = none
copy_loop (suc fuel) index destination_count destination source =
    let finish : Option (List ℕ) = store destination index 0 in
    if ltb (index + 1) destination_count
    then (elim (get_elem? source index) [
      | none ↦ none
      | some character ↦ elim (character == 0) [
        | true ↦ finish
        | false ↦ elim (store destination index character) [
          | none ↦ none
          | some written ↦ copy_loop fuel (index + 1) destination_count written source
        ]
      ]
    ])
    else finish

-- A NULL destination is left alone. The loop makes less than `destination_count` rounds.
unfoldable pub copy_wstring : Option (List ℕ) → ℕ → Option (List ℕ) → Option (Option (List ℕ))
unfolding copy_loop store
copy_wstring none destination_count source = some none
copy_wstring (some destination) destination_count source =
    if destination_count == 0 then some (some destination) else (elim source [
      | none ↦ elim (store destination 0 0) [ none ↦ none | some d ↦ some (some d) ]
      | some cells ↦ elim (copy_loop destination_count 0 destination_count destination cells) [
        | none ↦ none
        | some d ↦ some (some d)
      ]
    ])

-- What a copy into a buffer of `destination_count` cells leaves as its text.
abbrev pub copy_text : ℕ → Text → Text
copy_text zero source = []
copy_text (suc n) source = take n source

module _ (towlower : ℕ → ℕ) where
  -- The inner loop of `string_contains_insensitive`, at one index of the value.
  unfoldable pub matches_at : Text → Text → Bool
  matches_at value [] = true
  matches_at [] (n ∷ needle) = false
  matches_at (c ∷ value) (n ∷ needle) = towlower c == towlower n && matches_at value needle

  -- The outer loop, from one index on, while the needle still fits.
  unfoldable pub contains_from : Text → Text → Bool
  unfolding matches_at
  contains_from [] needle = leb (length needle) 0 && matches_at [] needle
  contains_from (c ∷ value) needle =
      let rest = contains_from value needle in
      if leb (length needle) (suc (length value))
      then if matches_at (c ∷ value) needle then true else rest
      else false

  unfoldable pub string_contains_insensitive : Option Text → Option Text → Bool
  unfolding contains_from
  string_contains_insensitive none needle = false
  string_contains_insensitive (some value) none = false
  string_contains_insensitive (some value) (some needle) =
      if length needle == 0
      then true
      else if ltb (length value) (length needle)
      then false
      else contains_from value needle

-- `compare_ordinal` is `CompareStringOrdinal(…, TRUE) == CSTR_EQUAL`.
unfoldable pub string_equals_insensitive : (Text → Text → Bool) → Option Text → Option Text → Bool
string_equals_insensitive compare_ordinal none right = false
string_equals_insensitive compare_ordinal (some left) none = false
string_equals_insensitive compare_ordinal (some left) (some right) = compare_ordinal left right

-- `wcsrchr`: the index of the last cell of the text that holds the character.
unfoldable pub wcsrchr : Text → ℕ → Option ℕ
wcsrchr [] character = none
wcsrchr (c ∷ text) character = elim (wcsrchr text character) [
  | some i ↦ some (suc i)
  | none ↦ if c == character then some 0 else none
]

-- The pointer that `path_basename` ends with, as an index into the path.
unfoldable pub last_separator : Text → Option ℕ
unfolding wcsrchr
last_separator path = elim (wcsrchr path b'/') [
  | none ↦ wcsrchr path b'\\'
  | some alternate ↦ elim (wcsrchr path b'\\') [
    | none ↦ some alternate
    | some last ↦ if ltb last alternate then some alternate else some last
  ]
]

unfoldable pub path_basename : Option Text → Text
unfolding last_separator
path_basename none = []
path_basename (some path) = elim (last_separator path) [
  | none ↦ path
  | some index ↦ drop (index + 1) path
]
