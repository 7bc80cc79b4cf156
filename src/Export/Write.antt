-- ===== src/Export/Write.antt =====
-- What the writers of src/export.c leave in the file.
pub mod Rows
use trace_glass.Base.{
  ℕ, zero, suc, ◌+◌, ◌-◌, ◌≤◌, ◌<◌, ◌≡◌, ◌≢◌, refl, sym, ap, ◌∙◌, Bool, true, false, Option, none,
  some, List, [], ◌∷◌, ◌++◌, ltb, ◌==◌, if◌then◌else◌, not, ◌||◌, length, take, drop, arith,
  Bool-cases, Option-cases, inl, inr, length-append,
}
use mathlib.Core.List.{append_assoc, append-nil}
use trace_glass.Times.{dword}
use trace_glass.Utils.{Text}
use trace_glass.Export.{File, Writer, Platform, all_of, write_loop, write_all, write_utf8, int_max}

-- The file after a write of the bytes: a front of them was appended, all of them on success.
pub record Written (bytes : List ℕ) (file : File) (r : File × Bool) : Type 0 where
  pub front : List ℕ
  pub back : List ℕ
  pub whole : bytes ≡ front ++ back
  pub appended : r.0 ≡ file ++ front
  pub complete : r.1 ≡ true → back ≡ []

take-drop : (n : ℕ) (bytes : List ℕ) → bytes ≡ take n bytes ++ drop n bytes
take-drop zero bytes = refl
take-drop (suc n) [] = refl
take-drop (suc n) (b ∷ bytes) = ap (b ∷◌) (take-drop n bytes)

drop-length : (n : ℕ) (bytes : List ℕ) → length (drop n bytes) ≡ length bytes - n
drop-length zero bytes = omega arith
drop-length (suc n) [] = omega arith
drop-length (suc n) (b ∷ bytes) = omega (arith, drop-length n bytes)

positive : (n : ℕ) → (n == 0) ≡ false → 0 < n
positive n e = ground arith

suc_ne_zero : (n : ℕ) → (suc n == 0) ≡ false
suc_ne_zero n = ground arith

-- A call behind a guard that failed it, and behind one that did not hold.
passed :
    (guard : Bool) (file g : File) (r : File × Bool)
    → (if guard then (file, false) else r) ≡ (g, true)
    → r ≡ (g, true)
passed true file g r e = absurd (ground arith)
passed false file g r e = e

skipped :
    (guard : Bool) (q r s : File × Bool) → guard ≡ false → (if guard then q else r) ≡ s → r ≡ s
skipped true q r s h e = absurd (ground arith)
skipped false q r s h e = e

-- If all calls succeed, so do the first and the others behind it.
pub all_of-first :
    (w : Writer) (writers : List Writer) (file g : File)
    → all_of (w ∷ writers) file ≡ (g, true)
    → (h : File) × (w file ≡ (h, true)) × (all_of writers h ≡ (g, true))
unfolding all_of
all_of-first w writers file g e = elim (Bool-cases ((w file).1)) [
  | inr failed ↦ absurd (ground arith)
  | inl done ↦ ((w file).0, λ i. ((w file).0, done i), ground arith)
]

module _ (p : Platform) where
  write_loop-Written :
      (fuel : ℕ) (bytes : List ℕ) (file : File)
      → length bytes < fuel
      → (r : File × Bool) × (write_loop p fuel bytes file ≡ some r) × Written bytes file r
  unfolding write_loop
  write_loop-Written zero bytes file h = absurd (omega arith)
  write_loop-Written (suc fuel) [] file h = (
    (file, true),
    refl,
    record {
      front = [];
      back = [];
      whole = refl;
      appended = sym (append-nil file);
      complete = λ e. refl;
    },
  )
  write_loop-Written (suc fuel) (b ∷ bytes) file h =
      let stuck : Written (b ∷ bytes) file (file, false) = record {
        front = [];
        back = b ∷ bytes;
        whole = refl;
        appended = sym (append-nil file);
        complete = λ e. absurd (ground arith);
      } in
      elim (Option-cases (p.write_file file (take (dword - 1) (b ∷ bytes)))) [
        | inl failed ↦ ((file, false), rw (write_loop, failed) refl, stuck)
        | inr (n, wrote) ↦ elim (Bool-cases (n == 0)) [
          | inl nothing ↦ ((file, false), rw (write_loop, wrote, nothing) refl, stuck)
          | inr some_bytes ↦
              let (r, run, w) =
                write_loop-Written fuel (drop n (b ∷ bytes)) (file ++ take n (b ∷ bytes))
                  (omega (arith, drop-length n (b ∷ bytes), positive n some_bytes)) in
              (
                r,
                rw (write_loop, wrote, some_bytes) run,
                record {
                  front = take n (b ∷ bytes) ++ w.front;
                  back = w.back;
                  whole =
                      take-drop n (b ∷ bytes)
                      ∙ (ap (take n (b ∷ bytes) ++◌) w.whole
                          ∙ sym (append_assoc (take n (b ∷ bytes)) w.front w.back));
                  appended = w.appended ∙ append_assoc file (take n (b ∷ bytes)) w.front;
                  complete = w.complete;
                },
              )
        ]
      ]

  -- `write_all` ends within its fuel. However WriteFile divides the bytes, and whenever it fails, the
  -- file has grown by a front of them in their order, and by all of them if the call succeeds.
  pub write_all-Written :
      (bytes : List ℕ) (file : File)
      → (write_loop p (suc (length bytes)) bytes file ≢ none)
        × Written bytes file (write_all p bytes file)
  unfolding write_all
  write_all-Written bytes file =
      let (r, run, w) = write_loop-Written (suc (length bytes)) bytes file (omega arith) in
      (λ e. absurd (ground arith), rw (write_all, run) w)

  write_loop_complete :
      (fuel : ℕ) (bytes : List ℕ) (file : File)
      → length bytes < fuel
      → ((f : File) (b : ℕ) (chunk : List ℕ)
          → (n : ℕ) × (p.write_file f (b ∷ chunk) ≡ some n) × (n ≢ 0))
      → write_loop p fuel bytes file ≡ some (file ++ bytes, true)
  unfolding write_loop
  write_loop_complete zero bytes file h progress = absurd (omega arith)
  write_loop_complete (suc fuel) [] file h progress =
      ap (λ f. some (f, true)) (sym (append-nil file))
  write_loop_complete (suc fuel) (b ∷ bytes) file h progress =
      let (n, wrote, ne) = progress file b (take (dword - 2) bytes) in
      let some_bytes : (n == 0) ≡ false = ground (arith, ne) in
      let rest =
        write_loop_complete fuel (drop n (b ∷ bytes)) (file ++ take n (b ∷ bytes))
          (omega (arith, drop-length n (b ∷ bytes), positive n some_bytes)) progress in
      rw (write_loop, wrote, some_bytes)
        (rest
          ∙ ap (λ f. some (f, true))
              (append_assoc file (take n (b ∷ bytes)) (drop n (b ∷ bytes))
                ∙ ap (file ++◌) (sym (take-drop n (b ∷ bytes)))))

  -- As long as each call of WriteFile writes a byte or more, `write_all` succeeds with every byte
  -- appended, however many calls it takes.
  pub write_all_complete :
      (bytes : List ℕ) (file : File)
      → ((f : File) (b : ℕ) (chunk : List ℕ)
          → (n : ℕ) × (p.write_file f (b ∷ chunk) ≡ some n) × (n ≢ 0))
      → write_all p bytes file ≡ (file ++ bytes, true)
  unfolding write_all
  write_all_complete bytes file progress =
      rw (write_all, write_loop_complete (suc (length bytes)) bytes file (omega arith) progress)
        refl

  -- The bytes that stand for a text in a file.
  abbrev pub Encodes : Text → List ℕ → Type 0
  Encodes [] bytes = bytes ≡ []
  Encodes (c ∷ source) bytes = p.to_utf8 (c ∷ source) ≡ some bytes

  -- The bytes of the texts, one after the other.
  abbrev pub Encodings : List Text → List ℕ → Type 0
  Encodings [] bytes = bytes ≡ []
  Encodings (t ∷ texts) bytes =
      (x : List ℕ) × (y : List ℕ) × Encodes t x × Encodings texts y × (bytes ≡ x ++ y)

  -- A call that succeeds appends the texts.
  abbrev pub Emits : Writer → List Text → Type 0
  Emits w texts =
      (file g : File)
      → w file ≡ (g, true)
      → (bytes : List ℕ) × Encodings texts bytes × (g ≡ file ++ bytes)

  pub Encodings-append :
      (texts others : List Text) (x y : List ℕ)
      → Encodings texts x
      → Encodings others y
      → Encodings (texts ++ others) (x ++ y)
  Encodings-append [] others x y e f = rw e f
  Encodings-append (t ∷ texts) others x y (a, b, at, rest, whole) f = (
    a,
    b ++ y,
    at,
    Encodings-append texts others b y rest f,
    ap (λ z. z ++ y) whole ∙ append_assoc a b y,
  )

  pub write_all-appends :
      (bytes : List ℕ) (file g : File) → write_all p bytes file ≡ (g, true) → g ≡ file ++ bytes
  write_all-appends bytes file g e =
      let w = (write_all-Written bytes file).1 in
      let none_left : w.back ≡ [] = w.complete (ap (λ r. r.1) e) in
      let all : w.front ≡ bytes =
        sym (w.whole ∙ (ap (w.front ++◌) none_left ∙ append-nil w.front)) in
      sym (ap (λ r. r.0) e) ∙ (w.appended ∙ ap (file ++◌) all)

  pub write_utf8-Emits : (t : Text) → Emits (write_utf8 p t) (t ∷ [])
  unfolding write_utf8
  write_utf8-Emits [] file g e = ([], ([], [], refl, refl, refl), ground (arith, append-nil file))
  write_utf8-Emits (c ∷ t) file g e =
      let short = passed (ltb int_max (length (c ∷ t))) file g _ e in
      let full =
        skipped (length (c ∷ t) == 0) (file, true) _ (g, true) (suc_ne_zero (length t)) short in
      let (bytes, enc, run) = encoded (p.to_utf8 (c ∷ t)) full in
      (bytes, (bytes, [], enc, refl, sym (append-nil bytes)), write_all-appends bytes file g run)
    where
      encoded :
          (o : Option (List ℕ))
          → ((let r : File × Bool = elim o [
            | none ↦ (file, false)
            | some bytes ↦
                if length bytes == 0 || not (p.allocate (length bytes))
                then (file, false)
                else write_all p bytes file
          ] in
                r)
              ≡ (g, true))
          → (bytes : List ℕ) × (o ≡ some bytes) × (write_all p bytes file ≡ (g, true))
      encoded none q = absurd (ground arith)
      encoded (some bytes) q =
          (bytes, refl, passed (length bytes == 0 || not (p.allocate (length bytes))) file g _ q)

  pub all_of-Emits :
      (w : Writer) (texts : List Text) (writers : List Writer) (others : List Text)
      → Emits w texts
      → Emits (all_of writers) others
      → Emits (all_of (w ∷ writers)) (texts ++ others)
  all_of-Emits w texts writers others first rest file g e =
      let (h, at, tail) = all_of-first w writers file g e in
      let (x, ex, ax) = first file h at in
      let (y, ey, ay) = rest h g tail in
      (
        x ++ y,
        Encodings-append texts others x y ex ey,
        ay ∙ (ap (λ z. z ++ y) ax ∙ append_assoc file x y),
      )
