-- ===== src/Etw/Callback/Properties.antt =====
-- `read_event_string` of src/etw_monitor.c against the bytes of a text.
use trace_glass.Base.{
  ℕ, zero, suc, ◌+◌, ◌*◌, ◌/◌, ◌%◌, ◌≤◌, ◌≡◌, ◌≢◌, refl, ap, ◌∙◌, false, some, List, [], ◌∷◌, ◌++◌,
  ltb, ◌==◌, ◌||◌, length, set, drop, All, arith,
}
use trace_glass.Etw.Callback.{EventRecord, read_event_property, wide, until_zero, read_event_string}
use trace_glass.Utils.{Text, copy_text}

-- The bytes of a text and its terminator.
abbrev pub terminated : Text → List ℕ
terminated [] = 0 ∷ 0 ∷ []
terminated (c ∷ text) = c % 256 ∷ c / 256 ∷ terminated text

-- A character of a text, which the terminator is not.
abbrev pub IsCharacter : ℕ → Type 0
IsCharacter c = c ≢ 0

length-terminated : (text : Text) → length (terminated text) ≡ 2 * length text + 2
length-terminated [] = refl
length-terminated (c ∷ text) = omega (arith, length-terminated text)

until_zero_nonzero :
    (c : ℕ) (cells : List ℕ) → c ≢ 0 → until_zero (c ∷ cells) ≡ c ∷ until_zero cells
until_zero_nonzero c cells ne = ground (arith, ne)

-- Two zeros behind the characters do not change the text.
wide-terminated :
    (text : Text) (rest : List ℕ) (i : ℕ)
    → All IsCharacter text
    → 2 * length text ≤ i
    → until_zero (wide (set (set (terminated text ++ rest) i 0) (suc i) 0)) ≡ text
wide-terminated [] rest zero all h = refl
wide-terminated [] rest (suc zero) all h = refl
wide-terminated [] rest (suc (suc i)) all h = refl
wide-terminated (c ∷ text) rest zero all h = absurd (omega (arith, h))
wide-terminated (c ∷ text) rest (suc zero) all h = absurd (omega (arith, h))
wide-terminated (c ∷ text) rest (suc (suc i)) all h =
    let same : c % 256 + 256 * (c / 256) ≡ c = omega arith in
    let later = wide-terminated text rest i all.1 (omega (arith, h)) in
    ap (λ d. until_zero (d ∷ wide (set (set (terminated text ++ rest) i 0) (suc i) 0))) same
    ∙ (until_zero_nonzero c (wide (set (set (terminated text ++ rest) i 0) (suc i) 0)) all.0
        ∙ ap (◌∷◌ c) later)

-- A property that holds a text of at most 1023 characters and its terminator is read as that text,
-- cut to the destination, whatever the 2048 bytes of the buffer held before.
pub read_event_string-terminated :
    (r : EventRecord) (buffer : List ℕ) (name : Text) (destination_count : ℕ) (text : Text)
    → length buffer ≡ 2048
    → All IsCharacter text
    → length text ≤ 1023
    → r.property name ≡ some (terminated text)
    → read_event_string r buffer name destination_count ≡ copy_text destination_count text
unfolding read_event_string read_event_property
read_event_string-terminated r buffer name destination_count text size all short has =
    let bytes = terminated text in
    let n = length-terminated text in
    let some_bytes : (length bytes == 0 || ltb (length buffer) (length bytes)) ≡ false =
      ground (arith, n, size, short) in
    let wide_enough : ltb (length bytes) 2 ≡ false = ground (arith, n) in
    rw (read_event_string, read_event_property, has, some_bytes, wide_enough)
      (ap (copy_text destination_count)
        (wide-terminated text (drop (length bytes) buffer) 2046 all (omega (arith, short))))
