-- ===== src/Export/Json.antt =====
-- The JSON strings of src/export.c against a reader of JSON strings (RFC 8259).
use trace_glass.Base.{
  ℕ, ◌+◌, ◌-◌, ◌*◌, ◌/◌, ◌%◌, ◌≤◌, ◌<◌, ◌≡◌, refl, sym, ap, ◌∙◌, true, false, ◌&&◌, Option, none,
  some, [], ◌∷◌, ◌++◌, ltb, leb, ◌==◌, if◌then◌else◌, length, codes, arith, Bool-cases, inl, inr,
  length-append,
}
use mathlib.Core.List.{append_assoc, append-nil}
use trace_glass.Detection.{number}
use trace_glass.Utils.{Text}
use trace_glass.Export.{Platform, json_escape, json_loop, json_capacity, json_escaped}

-- Where a reader is: in plain text, behind a backslash, or among the digits of a `\u`, with so many
-- to come and the value so far.
pub data Mode : Type 0 where
  plain escaped : Mode
  hex : ℕ → ℕ → Mode

unfoldable pub hex_value : ℕ → Option ℕ
hex_value c =
    if leb b'0' c && leb c b'9'
    then some (c - b'0')
    else if leb b'a' c && leb c b'f'
    then some (c - 87)
    else if leb b'A' c && leb c b'F'
    then some (c - 55)
    else none

-- What stands for the character behind a backslash.
unfoldable pub unescape : ℕ → Option ℕ
unescape c =
    if c == b'"'
    then some b'"'
    else if c == b'\\'
    then some b'\\'
    else if c == b'/'
    then some b'/'
    else if c == b'b'
    then some 8
    else if c == b'f'
    then some 12
    else if c == b'n'
    then some 10
    else if c == b'r'
    then some 13
    else if c == b't'
    then some 9
    else none

abbrev pub prepend : ℕ → Option (Text × Text) → Option (Text × Text)
prepend c none = none
prepend c (some (value, rest)) = some (c ∷ value, rest)

-- The characters of a string up to its closing quote, and what follows it.
unfoldable pub read_body : Mode → Text → Option (Text × Text)
unfolding hex_value unescape
read_body mode [] = none
read_body plain (c ∷ s) =
    let rest = read_body plain s in
    let after = read_body escaped s in
    if c == b'"'
    then some ([], s)
    else if c == b'\\'
    then after
    else if ltb c 32
    then none
    else prepend c rest
read_body escaped (c ∷ s) =
    let rest = read_body plain s in
    let digits = read_body (hex 4 0) s in
    if c == b'u' then digits else (elim (unescape c) [ none ↦ none | some d ↦ prepend d rest ])
read_body (hex n v) (c ∷ s) = elim (hex_value c) [
  | none ↦ none
  | some d ↦ elim (n == 1) [
    | true ↦ prepend (v * 16 + d) (read_body plain s)
    | false ↦ read_body (hex (n - 1) (v * 16 + d)) s
  ]
]

unfoldable pub read_json_string : Text → Option (Text × Text)
unfolding read_body
read_json_string [] = none
read_json_string (c ∷ s) = if c == b'"' then read_body plain s else none

abbrev pub hex_digit : ℕ → ℕ
hex_digit d = if ltb d 10 then b'0' + d else 87 + d

-- What `%04x` prints for a control character, in room for it and the terminator.
abbrev pub PrintsHex : Platform → Type 0
PrintsHex p =
    (cells character : ℕ)
    → 7 ≤ cells
    → character < 32
    → p.string_printf cells (codes "\\u%04x") (number character ∷ [])
      ≡ b'\\' ∷ b'u' ∷ b'0' ∷ b'0' ∷ hex_digit (character / 16) ∷ hex_digit (character % 16) ∷ []

hex_value-hex_digit : (d : ℕ) → d < 16 → hex_value (hex_digit d) ≡ some d
unfolding hex_value
hex_value-hex_digit d h = ground arith

read_body-hex :
    (c : ℕ) (t : Text)
    → c < 32
    → read_body plain (b'\\' ∷ b'u' ∷ b'0' ∷ b'0' ∷ hex_digit (c / 16) ∷ hex_digit (c % 16) ∷ t)
      ≡ prepend c (read_body plain t)
unfolding read_body
read_body-hex c t h =
    let value : (0 + c / 16) * 16 + c % 16 ≡ c = omega arith in
    rw
      (
        hex_value-hex_digit (c / 16) (omega arith),
        hex_value-hex_digit (c % 16) (omega arith),
        value,
      )
      refl

module _ (p : Platform) (prints : PrintsHex p) where
  -- One character is escaped in six cells at most, and the reader gives it back.
  pub json_escape-read :
      (left c : ℕ) (t : Text)
      → 7 ≤ left
      → (length (json_escape p left c) ≤ 6)
        × (read_body plain (json_escape p left c ++ t) ≡ prepend c (read_body plain t))
  unfolding json_escape read_body unescape
  json_escape-read left c t room = elim (Bool-cases (c == b'"')) [
    | inl q ↦ rw (q) (omega arith, ground arith)
    | inr q ↦ elim (Bool-cases (c == b'\\')) [
      | inl b ↦ rw (q, b) (omega arith, ground arith)
      | inr b ↦ elim (Bool-cases (c == 8)) [
        | inl bs ↦ rw (q, b, bs) (omega arith, ground arith)
        | inr bs ↦ elim (Bool-cases (c == 12)) [
          | inl ff ↦ rw (q, b, bs, ff) (omega arith, ground arith)
          | inr ff ↦ elim (Bool-cases (c == 10)) [
            | inl nl ↦ rw (q, b, bs, ff, nl) (omega arith, ground arith)
            | inr nl ↦ elim (Bool-cases (c == 13)) [
              | inl cr ↦ rw (q, b, bs, ff, nl, cr) (omega arith, ground arith)
              | inr cr ↦ elim (Bool-cases (c == 9)) [
                | inl tab ↦ rw (q, b, bs, ff, nl, cr, tab) (omega arith, ground arith)
                | inr tab ↦ elim (Bool-cases (ltb c 32)) [
                  | inl low ↦
                      rw (q, b, bs, ff, nl, cr, tab, low, prints left c room (ground arith))
                        (omega arith, read_body-hex c t (ground arith))
                  | inr high ↦ rw (q, b, bs, ff, nl, cr, tab, high) (omega arith, ground arith)
                ]
              ]
            ]
          ]
        ]
      ]
    ]
  ]

  -- The loop keeps the text written so far in front, and takes six cells at most for each character.
  json_loop-read :
      (capacity : ℕ) (front value t : Text)
      → length front + length value * 6 + 2 ≤ capacity
      → (body : Text) × (json_loop p capacity front value ≡ front ++ body)
        × (length body ≤ length value * 6)
        × (read_body plain (body ++ b'"' ∷ t) ≡ some (value, t))
  unfolding json_loop read_body
  json_loop-read capacity front [] t room = ([], sym (append-nil front), omega arith, refl)
  json_loop-read capacity front (c ∷ value) t room =
      let written = json_escape p (capacity - length front) c in
      let short = (json_escape-read (capacity - length front) c t (omega arith)).0 in
      let (body, run, bound, read) =
        json_loop-read capacity (front ++ written) value t
          (omega (arith, short, length-append front written)) in
      let one = (json_escape-read (capacity - length front) c (body ++ b'"' ∷ t) (omega arith)).1 in
      (
        written ++ body,
        run ∙ append_assoc front written body,
        omega (arith, short, bound, length-append written body),
        ap (read_body plain) (append_assoc written body (b'"' ∷ t)) ∙ (one ∙ ap (prepend c) read),
      )

  -- Where `%04x` prints four digits into enough room: every write of `write_json_string` is inside
  -- its buffer of `length * 6 + 3` cells, the terminator included, and a JSON reader takes the text
  -- that it builds back to the value, whatever the value's characters and whatever follows.
  pub json_escaped-read :
      (value t : Text)
      → (length (json_escaped p value) + 1 ≤ json_capacity p value)
        × (read_json_string (json_escaped p value ++ t) ≡ some (value, t))
  unfolding json_escaped read_json_string
  json_escaped-read value t =
      let (body, run, short, read) =
        json_loop-read (json_capacity p value) (b'"' ∷ []) value t (omega arith) in
      let whole : json_escaped p value ≡ b'"' ∷ (body ++ b'"' ∷ []) =
        ap (λ x. x ++ b'"' ∷ []) run in
      (
        rw whole (omega (arith, short, length-append body (b'"' ∷ []))),
        ap (λ x. read_json_string (x ++ t)) whole
            ∙ (ap (read_body plain) (append_assoc body (b'"' ∷ []) t) ∙ read),
      )
