-- ===== src/Tests/Detection.antt =====
-- The rules of src/detection.c at concrete inputs.
use trace_glass.Base.{
  ◌&&◌, ◌==◌, false, ◌≤◌, ◌≡◌, refl, Bool, true, [], ◌∷◌, ◌++◌, length, All, arith,
}
use trace_glass.Utils.{Text}
use trace_glass.Detection.{
  Platform, office_alert, temporary_alert, network_alert, office_rule, temporary_rule, network_rule,
  detection_evaluate,
}
use trace_glass.Detection.Alerts.{
  raised, IsAlertFor, detection_evaluate-raised, detection_evaluate-IsAlertFor,
}
use trace_glass.Tests.Data.{shell_start, connection}

abbrev pub same_text : Text → Text → Bool
same_text [] [] = true
same_text [] (d ∷ t) = false
same_text (c ∷ s) [] = false
same_text (c ∷ s) (d ∷ t) = c == d && same_text s t

abbrev pub platform : Platform
platform = record {
  towlower = λ c. c;
  equal_ordinal = same_text;
  string_printf = λ cells format arguments. format;
}

detection_evaluate-raised_example :
    detection_evaluate platform shell_start 3
    ≡ raised (office_rule platform shell_start) (office_alert platform shell_start)
      ++ (raised (temporary_rule platform shell_start) (temporary_alert platform shell_start)
          ++ raised (network_rule platform shell_start) (network_alert platform shell_start))
detection_evaluate-raised_example =
    detection_evaluate-raised platform shell_start 3 (omega arith) refl

detection_evaluate-IsAlertFor_example :
    All (IsAlertFor connection) (detection_evaluate platform connection 3)
    × (length (detection_evaluate platform connection 3) ≤ 3)
detection_evaluate-IsAlertFor_example = detection_evaluate-IsAlertFor platform connection 3
