-- ===== src/Export/Dialog/Saved.antt =====
-- src/export.c: what `export_events_with_dialog` promises where it reports success.
use trace_glass.Base.{
  ℕ, ◌≡◌, refl, Bool, true, false, not, Option, none, some, List, ◌++◌, ◌==◌, arith, if_cases,
}
use trace_glass.Events.{TraceGlassEvent}
use trace_glass.Export.{Platform}
use trace_glass.Export.Dialog.{
  SaveDialog, DialogOutcome, succeeded, format_of, exported_path, after_dialog,
  export_events_with_dialog,
}
use trace_glass.Export.Dialog.Target.{IsTarget, exported_path-IsTarget}
use trace_glass.Export.Formats.{FileSystem, export_events_to_file}
use trace_glass.Utils.{Text, copy_text}

module _ (p : Platform) (string_cat : ℕ → Text → Text → Text × Bool)
    (file_system : Text → FileSystem) (events : List TraceGlassEvent)
    (first_event saved_path_count error_message_count : ℕ) where
  -- An export through the dialog that succeeded, and its outcome.
  pub record IsSaved (chosen : Option (Text × ℕ)) (outcome : DialogOutcome) : Type 0 where
    pub path : Text
    pub filter_index : ℕ
    pub target : Text
    pub is_chosen : chosen ≡ some (path, filter_index)
    pub named : IsTarget p string_cat path (format_of p string_cat filter_index) target
    pub exported :
        outcome.exported
        ≡ some (
          target,
          export_events_to_file p
              (file_system target)
              events
              first_event
              (format_of p string_cat filter_index)
              error_message_count,
        )
    pub whole :
        (export_events_to_file p
          (file_system target)
          events
          first_event
          (format_of p string_cat filter_index)
          error_message_count).succeeded
        ≡ true
    pub told : outcome.saved_path ≡ copy_text saved_path_count target

  passed : (b : Bool) → not b ≡ false → b ≡ true
  passed b e = ground arith

  module _
      (appends : (count : ℕ) (left right : Text)
        → (string_cat count left right).1 ≡ true
        → (string_cat count left right).0 ≡ left ++ right) where
    after_dialog-IsSaved :
        (dialog_error : ℕ) (chosen : Option (Text × ℕ))
        → (after_dialog p string_cat file_system events first_event saved_path_count
            error_message_count dialog_error chosen).result
          ≡ succeeded
        → IsSaved chosen (
            after_dialog p string_cat file_system events first_event saved_path_count
              error_message_count dialog_error chosen)
    unfolding after_dialog
    after_dialog-IsSaved dialog_error none =
        if_cases (λ (o : DialogOutcome). o.result ≡ succeeded → IsSaved none o) (dialog_error == 0)
          (λ quiet e. absurd (ground (arith, e))) (λ loud e. absurd (ground (arith, e)))
    after_dialog-IsSaved dialog_error (some (path, filter_index)) =
        let format = format_of p string_cat filter_index in
        let (target, made) = exported_path p string_cat path format in
        let export =
          export_events_to_file p (file_system target) events first_event format
            error_message_count in
        let P : DialogOutcome → Type 0 =
          λ o. o.result ≡ succeeded → IsSaved (some (path, filter_index)) o in
        if_cases P (not made) (λ long e. absurd (ground (arith, e)))
          (λ short.
            if_cases P (not export.succeeded) (λ broken e. absurd (ground (arith, e)))
              (λ fine e. record {
                path = path;
                filter_index = filter_index;
                target = target;
                is_chosen = refl;
                named = exported_path-IsTarget p string_cat appends path format (passed made short);
                exported = refl;
                whole = passed export.succeeded fine;
                told = refl;
              }))

    -- An export through the dialog reports success only after the user chose a path and the export to
    -- the target made from it succeeded; that export is the one that was made. Where the chosen path
    -- has no dot in its last component, the target is the path with the extension of the chosen format
    -- behind it. Where it has one, and CompareStringOrdinal finds what stands from the last dot
    -- on equal to one of the three extensions, the target is the path with that replaced by the
    -- extension of the format; with any other extension it is the path itself. Components end at
    -- backslashes. The caller is told the target, cut to the caller's buffer. StringCchCatW is taken
    -- to append where it succeeds.
    pub export_events_with_dialog-IsSaved :
        (dialog : SaveDialog)
        → (export_events_with_dialog p string_cat file_system dialog events first_event
            saved_path_count error_message_count).result
          ≡ succeeded
        → IsSaved dialog.chosen (
            export_events_with_dialog p string_cat file_system dialog events first_event
              saved_path_count error_message_count)
    unfolding export_events_with_dialog
    export_events_with_dialog-IsSaved dialog =
        after_dialog-IsSaved dialog.dialog_error dialog.chosen
