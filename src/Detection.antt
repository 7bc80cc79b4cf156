-- ===== src/Detection.antt =====
-- include/detection.h and src/detection.c. The case mapping, CompareStringOrdinal and
-- StringCchPrintfW are parameters. The pointers are taken as valid; the array of alerts is the list
-- of those written, so that `count` is its length.
pub mod Alerts
use trace_glass.Base.{
  ℕ, zero, suc, Bool, true, false, not, ◌&&◌, ◌||◌, some, List, [], ◌∷◌, ◌++◌, ltb, ◌==◌,
  if◌then◌else◌, length, codes,
}
use trace_glass.Utils.{Text, copy_text, string_contains_insensitive, string_equals_insensitive}
use trace_glass.Events.{
  TraceGlassEvent, alert, info, medium, is_process_start, is_network, is_alert, rule_length,
  detail_length,
}

-- An argument of a format.
pub data Argument : Type 0 where
  text : Text → Argument
  number : ℕ → Argument

-- What the code calls outside of the repository.
pub record Platform : Type 0 where
  pub towlower : ℕ → ℕ
  -- `CompareStringOrdinal(left, -1, right, -1, TRUE) == CSTR_EQUAL`
  pub equal_ordinal : Text → Text → Bool
  -- The text that StringCchPrintfW leaves in a buffer of so many cells.
  pub string_printf : ℕ → Text → List Argument → Text

abbrev pub max_alerts_per_event : ℕ
max_alerts_per_event = 3

module _ (w : Platform) where
  -- The loops over the two tables of names.
  unfoldable pub is_one_of : Text → List Text → Bool
  unfolding string_equals_insensitive
  is_one_of name [] = false
  is_one_of name (n ∷ names) =
      string_equals_insensitive w.equal_ordinal (some name) (some n) || is_one_of name names

  unfoldable pub is_office_process : Text → Bool
  unfolding is_one_of
  is_office_process name = is_one_of name (
      codes "WINWORD.EXE"
      ∷ codes "EXCEL.EXE"
      ∷ codes "OUTLOOK.EXE"
      ∷ codes "POWERPNT.EXE"
      ∷ codes "MSACCESS.EXE"
      ∷ [])

  unfoldable pub is_script_interpreter : Text → Bool
  unfolding is_one_of
  is_script_interpreter name = is_one_of name (
      codes "powershell.exe"
      ∷ codes "pwsh.exe"
      ∷ codes "wscript.exe"
      ∷ codes "cscript.exe"
      ∷ codes "mshta.exe"
      ∷ [])

  unfoldable pub in_temporary_directory : Text → Bool
  unfolding string_contains_insensitive
  in_temporary_directory path =
      string_contains_insensitive w.towlower (some path) (some (codes "\\AppData\\Local\\Temp\\"))
      || string_contains_insensitive w.towlower (some path) (some (codes "\\Windows\\Temp\\"))

  abbrev pub initialize_alert : TraceGlassEvent → TraceGlassEvent
  initialize_alert source = record source { type = alert; severity = info; rule_name = [] }

  unfoldable pub office_alert : TraceGlassEvent → TraceGlassEvent
  office_alert event = record (initialize_alert event) {
    severity = medium;
    rule_name = copy_text rule_length (codes "Office spawned script interpreter");
    details =
        w.string_printf detail_length
          (codes "Office application spawned a script interpreter: %s -> %s")
          (text event.parent_name ∷ text event.process_name ∷ []);
  }

  unfoldable pub temporary_alert : TraceGlassEvent → TraceGlassEvent
  temporary_alert event = record (initialize_alert event) {
    severity = medium;
    rule_name = copy_text rule_length (codes "Executable in temporary directory");
    details =
        w.string_printf detail_length (codes "Executable is running from a temporary directory: %s")
          (text event.executable_path ∷ []);
  }

  unfoldable pub network_alert : TraceGlassEvent → TraceGlassEvent
  network_alert event = record (initialize_alert event) {
    severity = info;
    rule_name = copy_text rule_length (codes "Script interpreter owns TCP connection");
    details =
        w.string_printf detail_length
          (codes "Script interpreter owns an established TCP connection; remote endpoint %s:%u")
          (text event.remote_address ∷ number event.remote_port ∷ []);
  }

  -- One rule: its condition, `count < alert_capacity`, and the write of its alert.
  unfoldable pub rule : Bool → ℕ → TraceGlassEvent → List TraceGlassEvent → List TraceGlassEvent
  rule condition alert_capacity new alerts =
      if condition && ltb (length alerts) alert_capacity then alerts ++ new ∷ [] else alerts

  abbrev pub office_rule : TraceGlassEvent → Bool
  office_rule event =
      is_process_start event.type
      && is_office_process event.parent_name
      && is_script_interpreter event.process_name

  abbrev pub temporary_rule : TraceGlassEvent → Bool
  temporary_rule event = is_process_start event.type && in_temporary_directory event.executable_path

  abbrev pub network_rule : TraceGlassEvent → Bool
  network_rule event = is_network event.type && is_script_interpreter event.process_name

  unfoldable pub detection_evaluate : TraceGlassEvent → ℕ → List TraceGlassEvent
  detection_evaluate event alert_capacity =
      if alert_capacity == 0 || is_alert event.type
      then []
      else (let first = rule (office_rule event) alert_capacity (office_alert event) [] in
          let second = rule (temporary_rule event) alert_capacity (temporary_alert event) first in
          rule (network_rule event) alert_capacity (network_alert event) second)
