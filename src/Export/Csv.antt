-- ===== src/Export/Csv.antt =====
-- The CSV rows of src/export.c against a reader of CSV (RFC 4180).
use trace_glass.Base.{
  ℕ, ◌+◌, ◌*◌, ◌≤◌, ◌≡◌, refl, sym, ap, ◌∙◌, Option, none, some, List, [], ◌∷◌, ◌++◌, ◌==◌,
  if◌then◌else◌, length, arith, Bool-cases, inl, inr, length-append,
}
use mathlib.Core.List.{append_assoc, append-nil}
use trace_glass.Utils.{Text}
use trace_glass.Export.Formats.{csv_loop, csv_capacity, csv_escaped}

-- In front of a field, inside a quoted one, or behind a quote inside it.
pub data Place : Type 0 where
  before quoted behind : Place

abbrev pub add_character : ℕ → Option (List Text × Text) → Option (List Text × Text)
add_character c none = none
add_character c (some ([], rest)) = none
add_character c (some (field ∷ fields, rest)) = some ((c ∷ field) ∷ fields, rest)

abbrev pub add_field : Option (List Text × Text) → Option (List Text × Text)
add_field none = none
add_field (some (fields, rest)) = some ([] ∷ fields, rest)

-- What follows a line feed.
abbrev pub line_end : Text → Option (List Text × Text)
line_end [] = none
line_end (c ∷ s) = if c == 10 then some ([] ∷ [], s) else none

-- The quoted fields of a row and what follows its line end.
unfoldable pub read_row : Place → Text → Option (List Text × Text)
read_row place [] = none
read_row before (c ∷ s) = if c == b'"' then read_row quoted s else none
read_row quoted (c ∷ s) =
    let more = add_character c (read_row quoted s) in if c == b'"' then read_row behind s else more
read_row behind (c ∷ s) =
    let doubled = add_character c (read_row quoted s) in
    let next = add_field (read_row before s) in
    if c == b'"' then doubled else if c == b',' then next else if c == 13 then line_end s else none

-- The text that `write_csv_row` passes on for the fields.
unfoldable pub csv_row : List Text → Text
unfolding csv_escaped
csv_row [] = []
csv_row (value ∷ []) = csv_escaped value ++ 13 ∷ 10 ∷ []
csv_row (value ∷ next ∷ values) = csv_escaped value ++ b',' ∷ csv_row (next ∷ values)

abbrev pub add_value : Text → Option (List Text × Text) → Option (List Text × Text)
add_value [] r = r
add_value (c ∷ value) r = add_character c (add_value value r)

csv_loop-read :
    (front value t : Text)
    → (body : Text) × (csv_loop front value ≡ front ++ body)
      × (length body ≤ length value * 2)
      × (read_row quoted (body ++ t) ≡ add_value value (read_row quoted t))
unfolding csv_loop read_row
csv_loop-read front [] t = ([], sym (append-nil front), omega arith, refl)
csv_loop-read front (c ∷ value) t = elim (Bool-cases (c == b'"')) [
  | inl q ↦
      let (body, run, short, read) = csv_loop-read ((front ++ b'"' ∷ []) ++ c ∷ []) value t in
      (
        b'"' ∷ c ∷ body,
        rw q (
            run
            ∙ (append_assoc (front ++ b'"' ∷ []) (c ∷ []) body
                ∙ append_assoc front (b'"' ∷ []) (c ∷ body))),
        omega (arith, short),
        rw q (ap (add_character c) read),
      )
  | inr other ↦
      let (body, run, short, read) = csv_loop-read (front ++ c ∷ []) value t in
      (
        c ∷ body,
        rw other (run ∙ append_assoc front (c ∷ []) body),
        omega (arith, short),
        rw other (ap (add_character c) read),
      )
]

-- Every write of `write_csv_field` is inside its buffer of `length * 2 + 3` cells, the terminator
-- included.
pub csv_escaped-fits : (value : Text) → length (csv_escaped value) + 1 ≤ csv_capacity value
unfolding csv_escaped
csv_escaped-fits value =
    let (body, run, short, read) = csv_loop-read (b'"' ∷ []) value [] in
    rw run (omega (arith, short, length-append body (b'"' ∷ [])))

escaped-read :
    (value t : Text)
    → read_row before (csv_escaped value ++ t) ≡ add_value value (read_row behind t)
unfolding csv_escaped read_row
escaped-read value t =
    let (body, run, short, read) = csv_loop-read (b'"' ∷ []) value (b'"' ∷ t) in
    ap (λ x. read_row before ((x ++ b'"' ∷ []) ++ t)) run
    ∙ (ap (read_row quoted) (append_assoc body (b'"' ∷ []) t) ∙ read)

add_value-some :
    (value : Text) (fields : List Text) (t : Text)
    → add_value value (some ([] ∷ fields, t)) ≡ some (value ∷ fields, t)
add_value-some [] fields t = refl
add_value-some (c ∷ value) fields t = ap (add_character c) (add_value-some value fields t)

-- A CSV reader takes a row back to its fields, whatever characters they hold, quotes, commas and
-- line ends included, and stops behind the row's line end.
pub csv_row-read :
    (value : Text) (values : List Text) (t : Text)
    → read_row before (csv_row (value ∷ values) ++ t) ≡ some (value ∷ values, t)
unfolding csv_row read_row
csv_row-read value [] t =
    ap (read_row before) (append_assoc (csv_escaped value) (13 ∷ 10 ∷ []) t)
    ∙ (escaped-read value (13 ∷ 10 ∷ t) ∙ add_value-some value [] t)
csv_row-read value (next ∷ values) t =
    ap (read_row before) (append_assoc (csv_escaped value) (b',' ∷ csv_row (next ∷ values)) t)
    ∙ (escaped-read value (b',' ∷ (csv_row (next ∷ values) ++ t))
        ∙ (ap (λ r. add_value value (add_field r)) (csv_row-read next values t)
            ∙ add_value-some value (next ∷ values) t))
