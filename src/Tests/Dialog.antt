-- ===== src/Tests/Dialog.antt =====
-- The Save As dialog of src/export.c at concrete inputs.
use trace_glass.Base.{
  ℕ, ◌+◌, ◌≡◌, refl, Bool, true, false, some, ◌∷◌, [], ◌++◌, length, ltb, if◌then◌else◌, arith,
  codes, if_cases,
}
use trace_glass.Export.{Platform}
use trace_glass.Export.Dialog.{SaveDialog, succeeded, export_events_with_dialog}
use trace_glass.Export.Dialog.Saved.{IsSaved, export_events_with_dialog-IsSaved}
use trace_glass.Tests.Data.{shell_start}
use trace_glass.Tests.Detection.{same_text}
use trace_glass.Tests.Export.{platform, disk}
use trace_glass.Utils.{Text}

abbrev exact : Platform
exact = record platform { equal_ordinal = same_text }

abbrev string_cat : ℕ → Text → Text → Text × Bool
string_cat count left right =
    if ltb (length left + length right) count then (left ++ right, true) else (left, false)

string_cat-appends :
    (count : ℕ) (left right : Text)
    → (string_cat count left right).1 ≡ true
    → (string_cat count left right).0 ≡ left ++ right
string_cat-appends count left right =
    if_cases (λ (r : Text × Bool). r.1 ≡ true → r.0 ≡ left ++ right)
      (ltb (length left + length right) count) (λ fits e. refl)
      (λ long e. absurd (ground (arith, e)))

-- The suggested name, with the second of the filters.
abbrev save_as_csv : SaveDialog
save_as_csv = record { chosen = some (codes "traceglass-events.json", 2); dialog_error = 0 }

saves :
    (export_events_with_dialog exact string_cat
      (λ path. disk)
      save_as_csv
      (shell_start ∷ [])
      0
      260
      64).result
    ≡ succeeded
unfolding export_events_with_dialog
saves = refl

export_events_with_dialog-IsSaved_example :
    IsSaved exact string_cat
      (λ path. disk)
      (shell_start ∷ [])
      0
      260
      64
      save_as_csv.chosen
      (export_events_with_dialog exact string_cat
        (λ path. disk)
        save_as_csv
        (shell_start ∷ [])
        0
        260
        64)
export_events_with_dialog-IsSaved_example =
    export_events_with_dialog-IsSaved exact string_cat (λ path. disk) (shell_start ∷ []) 0 260 64
      string_cat-appends save_as_csv saves
