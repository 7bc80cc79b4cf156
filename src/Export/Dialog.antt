-- ===== src/Export/Dialog.antt =====
-- src/export.c: the Save As dialog, and the extension that the chosen file gets. The dialog's answer is
-- a parameter, and StringCchCatW, which leaves a text and says whether it succeeded.
pub mod Target
pub mod Saved
use trace_glass.Base.{
  ℕ, Bool, true, not, ◌||◌, Option, none, some, List, [], ◌==◌, if◌then◌else◌, take, drop, codes,
}
use trace_glass.Events.{TraceGlassEvent, max_path}
use trace_glass.Export.{Platform}
use trace_glass.Export.Formats.{
  ExportFormat, json, csv, plain, FileSystem, Exported, set_export_error, export_events_to_file,
  path_has_extension,
}
use trace_glass.Utils.{Text, copy_text, wcsrchr, string_equals_insensitive}

pub data ExportResult : Type 0 where
  cancelled succeeded failed : ExportResult

-- GetSaveFileNameW: the path and the index of the filter, `none` for FALSE; and CommDlgExtendedError.
pub record SaveDialog : Type 0 where
  pub chosen : Option (Text × ℕ)
  pub dialog_error : ℕ

-- The result, what `saved_path` and `error_message` hold, and the export with its path, if there is one.
pub record DialogOutcome : Type 0 where
  pub result : ExportResult
  pub saved_path : Text
  pub error_message : Text
  pub exported : Option (Text × Exported)

module _ (p : Platform) (string_cat : ℕ → Text → Text → Text × Bool) where
  -- One of the three extensions that the program writes.
  unfoldable pub is_known_extension : Option Text → Bool
  unfolding string_equals_insensitive
  is_known_extension extension =
      string_equals_insensitive p.equal_ordinal extension (some (codes ".json"))
      || string_equals_insensitive p.equal_ordinal extension (some (codes ".csv"))
      || string_equals_insensitive p.equal_ordinal extension (some (codes ".txt"))

  -- `wcsrchr(path, L'.')`, NULL or the text from there on.
  unfoldable pub from_last_dot : Text → Option Text
  unfolding wcsrchr
  from_last_dot path = elim (wcsrchr path b'.') [ none ↦ none | some dot ↦ some (drop dot path) ]

  -- The path with its last dot overwritten by the terminator.
  unfoldable pub before_last_dot : Text → Text
  unfolding wcsrchr
  before_last_dot path = elim (wcsrchr path b'.') [ none ↦ path | some dot ↦ take dot path ]

  unfoldable pub apply_selected_extension : Text → ℕ → Text → Text × Bool
  unfolding path_has_extension is_known_extension from_last_dot before_last_dot
  apply_selected_extension path path_count extension =
      if path_has_extension path
      then if is_known_extension (from_last_dot path)
        then string_cat path_count (before_last_dot path) extension
        else (path, true)
      else string_cat path_count path extension

  abbrev pub format_of : ℕ → ExportFormat
  format_of filter_index =
      if filter_index == 2 then csv else if filter_index == 3 then plain else json

  abbrev pub extension_of : ExportFormat → Text
  extension_of csv = codes ".csv"
  extension_of plain = codes ".txt"
  extension_of json = codes ".json"

  -- The path that the export is written to, and whether it was made.
  unfoldable pub exported_path : Text → ExportFormat → Text × Bool
  unfolding apply_selected_extension path_has_extension is_known_extension from_last_dot
  exported_path path format =
      if not (path_has_extension path) || is_known_extension (from_last_dot path)
      then apply_selected_extension path max_path (extension_of format)
      else (path, true)

  -- What follows the dialog, by its answer. `file_system` answers for the file at a path.
  unfoldable pub after_dialog :
      (Text → FileSystem) → List TraceGlassEvent → ℕ → ℕ → ℕ → ℕ → Option (Text × ℕ) → DialogOutcome
  unfolding exported_path export_events_to_file set_export_error
  after_dialog file_system events first_event saved_path_count error_message_count dialog_error
        none =
      if dialog_error == 0
      then record { result = cancelled; saved_path = []; error_message = []; exported = none }
      else record {
        result = failed;
        saved_path = [];
        error_message =
            set_export_error p (file_system []) error_message_count
              (codes "The Save As dialog could not be opened.") dialog_error;
        exported = none;
      }
  after_dialog file_system events first_event saved_path_count error_message_count dialog_error
        (some (path, filter_index)) =
      let format = format_of filter_index in
      let (target, made) = exported_path path format in
      let export =
        export_events_to_file p (file_system target) events first_event format
          error_message_count in
      if not made
      then record {
        result = failed;
        saved_path = [];
        error_message =
            set_export_error p (file_system target) error_message_count
              (codes "The export path is too long.") 111;
        exported = none;
      }
      else if not export.succeeded
      then record {
        result = failed;
        saved_path = [];
        error_message = export.error_message;
        exported = some (target, export);
      }
      else record {
        result = succeeded;
        saved_path = copy_text saved_path_count target;
        error_message = export.error_message;
        exported = some (target, export);
      }

  unfoldable pub export_events_with_dialog :
      (Text → FileSystem) → SaveDialog → List TraceGlassEvent → ℕ → ℕ → ℕ → DialogOutcome
  unfolding after_dialog
  export_events_with_dialog file_system dialog events first_event saved_path_count
        error_message_count =
      after_dialog file_system events first_event saved_path_count error_message_count
        dialog.dialog_error dialog.chosen
