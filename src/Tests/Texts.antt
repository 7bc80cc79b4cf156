-- ===== src/Tests/Texts.antt =====
-- The routines of src/utils.c at concrete inputs.
use trace_glass.Base.{
  ◌+◌, ◌&&◌, ltb, if◌then◌else◌, ℕ, ◌≡◌, ◌↔◌, true, Option, some, [], ◌∷◌, ◌++◌, arith, codes,
}
use trace_glass.Events.{SystemTime, zero_time}
use trace_glass.Utils.{copy_wstring, string_contains_insensitive}
use trace_glass.Utils.Copy.{IsText, copied, copy_wstring-copied}
use trace_glass.Utils.Search.{Occurs, string_contains-Occurs}
use trace_glass.Times.{FileTime}

abbrev lower : ℕ → ℕ
lower c = if ltb c 91 && ltb 64 c then c + 32 else c

abcd-IsText : IsText (97 ∷ 98 ∷ 99 ∷ 100 ∷ [])
abcd-IsText = (
  λ e. absurd (ground arith),
  (λ e. absurd (ground arith), (λ e. absurd (ground arith), (λ e. absurd (ground arith), tt))),
)

-- A buffer of three cells takes two of the four characters.
copy_wstring-copied_example :
    copy_wstring (some (9 ∷ 9 ∷ 9 ∷ 9 ∷ [])) 3 (some ((97 ∷ 98 ∷ 99 ∷ 100 ∷ []) ++ 0 ∷ []))
    ≡ some (some (copied 3 (9 ∷ 9 ∷ 9 ∷ 9 ∷ []) (97 ∷ 98 ∷ 99 ∷ 100 ∷ [])))
copy_wstring-copied_example =
    copy_wstring-copied 3 (9 ∷ 9 ∷ 9 ∷ 9 ∷ []) (97 ∷ 98 ∷ 99 ∷ 100 ∷ []) [] (omega arith)
      (omega arith) abcd-IsText

string_contains-Occurs_example :
    (string_contains_insensitive lower (some (codes "C:\\Temp")) (some (codes "temp")) ≡ true)
    ↔ Occurs lower (codes "C:\\Temp") (codes "temp")
string_contains-Occurs_example = string_contains-Occurs lower (codes "C:\\Temp") (codes "temp")

abbrev midnight : FileTime → Option SystemTime
midnight t = some (record zero_time { day = t.high })

abbrev a_time : FileTime
a_time = record { low = 5; high = 1 }
