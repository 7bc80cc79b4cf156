-- ===== src/Export/Formats.antt =====
-- src/export.c: the CSV and text formats, the choice of a format, and the extension of a path.
use trace_glass.Base.{
  ℕ, ◌+◌, ◌-◌, ◌*◌, ◌/◌, Bool, true, false, not, ◌&&◌, ◌||◌, Option, none, some, List, [], ◌∷◌,
  ◌++◌, ltb, ◌==◌, if◌then◌else◌, length, drop, codes,
}
use trace_glass.Capacity.{size_max}
use trace_glass.Detection.{text, number}
use trace_glass.Events.{TraceGlassEvent, event_type_name, event_export_name, alert_severity_name}
use trace_glass.Export.{
  File, Writer, Platform, all_of, write_all, write_utf8, format_timestamp, write_json_export,
}
use trace_glass.Utils.{Text, wcsrchr}

abbrev pub utf8_bom : List ℕ
utf8_bom = 0xef ∷ 0xbb ∷ 0xbf ∷ []

-- The loop of `write_csv_field`, behind the text written so far.
unfoldable pub csv_loop : Text → Text → Text
csv_loop escaped [] = escaped
csv_loop escaped (c ∷ value) =
    csv_loop ((if c == b'"' then escaped ++ b'"' ∷ [] else escaped) ++ c ∷ []) value

abbrev pub csv_capacity : Text → ℕ
csv_capacity value = length value * 2 + 3

unfoldable pub csv_escaped : Text → Text
unfolding csv_loop
csv_escaped value = csv_loop (b'"' ∷ []) value ++ b'"' ∷ []

module _ (p : Platform) where
  unfoldable pub write_csv_field : Text → Writer
  unfolding csv_escaped write_utf8
  write_csv_field value file =
      if ltb ((size_max / 2 - 3) / 2) (length value) || not (p.allocate (csv_capacity value * 2))
      then (file, false)
      else write_utf8 p (csv_escaped value) file

  -- The texts that one round of the loop passes to `write_csv_field`, in its order.
  unfoldable pub csv_fields : TraceGlassEvent → List Text
  unfolding format_timestamp event_export_name alert_severity_name
  csv_fields event =
      format_timestamp p event.timestamp 64
      ∷ event_export_name event.type
      ∷ event.process_name
      ∷ p.string_printf 64 (codes "%lu") (number event.process.pid ∷ [])
      ∷ p.string_printf 64 (codes "%lu") (number event.parent.pid ∷ [])
      ∷ event.details
      ∷ event.protocol
      ∷ event.local_address
      ∷ p.string_printf 64 (codes "%u") (number event.local_port ∷ [])
      ∷ event.remote_address
      ∷ p.string_printf 64 (codes "%u") (number event.remote_port ∷ [])
      ∷ event.network_state
      ∷ alert_severity_name event.severity
      ∷ event.rule_name
      ∷ []

  -- The fields of a row: CSV_TEXT writes a comma behind each, and the last one has a line end.
  unfoldable pub write_csv_row : List Text → Writer
  unfolding write_csv_field write_utf8
  write_csv_row [] file = (file, true)
  write_csv_row (value ∷ []) file =
      all_of (write_csv_field value ∷ write_utf8 p (codes "\r\n") ∷ []) file
  write_csv_row (value ∷ next ∷ values) file =
      all_of (write_csv_field value ∷ write_utf8 p (codes ",") ∷ write_csv_row (next ∷ values) ∷ [])
        file

  unfoldable pub csv_rows : List TraceGlassEvent → Writer
  unfolding csv_fields write_csv_row
  csv_rows [] file = (file, true)
  csv_rows (event ∷ events) file =
      all_of (write_csv_row (csv_fields event) ∷ csv_rows events ∷ []) file

  abbrev pub csv_header : Text
  csv_header =
      codes
        "timestamp,event_type,process_name,pid,parent_pid,details,protocol,local_address,local_port,remote_address,remote_port,state,severity,rule\r\n"

  unfoldable pub write_csv_export : List TraceGlassEvent → ℕ → Writer
  unfolding csv_rows all_of write_utf8 write_all
  write_csv_export events first_event =
      all_of
        (write_all p utf8_bom ∷ write_utf8 p csv_header ∷ csv_rows (drop first_event events) ∷ [])

  unfoldable pub text_line : TraceGlassEvent → Text
  unfolding format_timestamp event_type_name
  text_line event =
      p.string_printf 1536 (codes "%s | %s | %s | PID %lu | Parent PID %lu | %s\r\n") (
        text (format_timestamp p event.timestamp 64)
        ∷ text (event_type_name event.type)
        ∷ text event.process_name
        ∷ number event.process.pid
        ∷ number event.parent.pid
        ∷ text event.details
        ∷ [])

  unfoldable pub text_lines : List TraceGlassEvent → Writer
  unfolding text_line write_utf8
  text_lines [] file = (file, true)
  text_lines (event ∷ events) file =
      all_of (write_utf8 p (text_line event) ∷ text_lines events ∷ []) file

  unfoldable pub write_text_export : List TraceGlassEvent → ℕ → Writer
  unfolding text_lines all_of write_all
  write_text_export events first_event =
      all_of (write_all p utf8_bom ∷ text_lines (drop first_event events) ∷ [])

pub data ExportFormat : Type 0 where
  json csv plain : ExportFormat

-- The answers of CreateFileW and CloseHandle, the error after a failure, and its description.
pub record FileSystem : Type 0 where
  pub create_file : Bool
  pub close_handle : Bool
  pub last_error : ℕ
  pub format_windows_error : ℕ → Text

-- The file, if one was created, the result, and the message of a failure.
pub record Exported : Type 0 where
  pub file : Option File
  pub succeeded : Bool
  pub error_message : Text

unfoldable pub set_export_error : Platform → FileSystem → ℕ → Text → ℕ → Text
set_export_error p fs buffer_count operation error =
    if buffer_count == 0
    then []
    else p.string_printf buffer_count (codes "%s\r\n\r\nReason:\r\n%s")
        (text operation ∷ text (fs.format_windows_error error) ∷ [])

unfoldable pub write_format : Platform → ExportFormat → List TraceGlassEvent → ℕ → Writer
unfolding write_json_export write_csv_export write_text_export
write_format p json events first_event = write_json_export p events first_event
write_format p csv events first_event = write_csv_export p events first_event
write_format p plain events first_event = write_text_export p events first_event

unfoldable pub export_events_to_file :
    Platform → FileSystem → List TraceGlassEvent → ℕ → ExportFormat → ℕ → Exported
unfolding write_format set_export_error
export_events_to_file p fs events first_event format error_message_count =
    let fail = set_export_error p fs error_message_count in
    if ltb (length events) first_event
    then record {
      file = none;
      succeeded = false;
      error_message = fail (codes "Events could not be exported.") 87;
    }
    else if not fs.create_file
    then record {
      file = none;
      succeeded = false;
      error_message = fail (codes "The export file could not be created.") fs.last_error;
    }
    else (let (file, result) = write_format p format events first_event [] in
        record {
          file = some file;
          succeeded = result && fs.close_handle;
          error_message =
              if result && fs.close_handle
              then []
              else fail (codes "The export could not be completed.") fs.last_error;
        })

-- `last_dot != NULL && (last_slash == NULL || last_dot > last_slash)`
abbrev pub is_behind : Option ℕ → Option ℕ → Bool
is_behind none last_slash = false
is_behind (some dot) none = true
is_behind (some dot) (some slash) = ltb slash dot

unfoldable pub path_has_extension : Text → Bool
unfolding wcsrchr
path_has_extension path = is_behind (wcsrchr path b'.') (wcsrchr path b'\\')
