-- ===== src/Export.antt =====
-- src/export.c: the three formats of an export. A file is the list of its bytes, and a writer takes
-- it to the file after a call and the call's result. Windows is a record of parameters. The buffers
-- of the escaping routines are built by appending, and a write to an index is one behind the text so
-- far; strings are texts, so the guards against NULL are left out.
pub mod Formats
pub mod Write
pub mod Json
pub mod Csv
pub mod Result
pub mod Dialog
use trace_glass.Base.{
  ℕ, zero, suc, ◌+◌, ◌-◌, ◌*◌, ◌/◌, Bool, true, false, not, ◌&&◌, ◌||◌, Option, none, some, List,
  [], ◌∷◌, ◌++◌, ltb, leb, ◌==◌, if◌then◌else◌, length, take, drop, codes,
}
use trace_glass.Capacity.{size_max}
use trace_glass.Detection.{Argument, text, number}
use trace_glass.Events.{
  TraceGlassEvent, SystemTime, event_type_name, event_export_name, alert_severity_name,
}
use trace_glass.Times.{dword}
use trace_glass.Utils.{Text, wcsrchr}

abbrev pub File : Type 0
File = List ℕ

abbrev pub Writer : Type 0
Writer = File → File × Bool

pub record Platform : Type 0 where
  -- WriteFile of a chunk to a file: how many of its bytes were written; `none` is FALSE. Windows
  -- does not report more than the chunk has.
  pub write_file : File → List ℕ → Option ℕ
  -- WideCharToMultiByte to UTF-8; `none` is a failure of one of the two calls.
  pub to_utf8 : Text → Option (List ℕ)
  pub allocate : ℕ → Bool
  pub string_printf : ℕ → Text → List Argument → Text
  pub equal_ordinal : Text → Text → Bool

-- Calls joined by `&&`, or by a return after each that fails.
unfoldable pub all_of : List Writer → Writer
all_of [] file = (file, true)
all_of (w ∷ writers) file =
    let (next, done) = w file in
    let rest = all_of writers next in if done then rest else (next, false)

abbrev pub int_max : ℕ
int_max = 0x7fff_ffff

module _ (p : Platform) where
  -- `while (size > 0)`, on fuel; `none` is no fuel left.
  unfoldable pub write_loop : ℕ → List ℕ → File → Option (File × Bool)
  write_loop zero bytes file = none
  write_loop (suc fuel) [] file = some (file, true)
  write_loop (suc fuel) (b ∷ bytes) file = elim (p.write_file file (take (dword - 1) (b ∷ bytes))) [
    | none ↦ some (file, false)
    | some written ↦ elim (written == 0) [
      | true ↦ some (file, false)
      | false ↦ write_loop fuel (drop written (b ∷ bytes)) (file ++ take written (b ∷ bytes))
    ]
  ]

  unfoldable pub write_all : List ℕ → Writer
  unfolding write_loop
  write_all bytes file = elim (write_loop (suc (length bytes)) bytes file) [
    | none ↦ (file, false)
    | some r ↦ r
  ]

  unfoldable pub write_utf8 : Text → Writer
  unfolding write_all
  write_utf8 source file =
      if ltb int_max (length source)
      then (file, false)
      else if length source == 0
      then (file, true)
      else (elim (p.to_utf8 source) [
        | none ↦ (file, false)
        | some bytes ↦
            if length bytes == 0 || not (p.allocate (length bytes))
            then (file, false)
            else write_all bytes file
      ])

  unfoldable pub format_timestamp : SystemTime → ℕ → Text
  format_timestamp timestamp buffer_count =
      p.string_printf buffer_count (codes "%04u-%02u-%02uT%02u:%02u:%02u.%03u") (
        number timestamp.year
        ∷ number timestamp.month
        ∷ number timestamp.day
        ∷ number timestamp.hour
        ∷ number timestamp.minute
        ∷ number timestamp.second
        ∷ number timestamp.milliseconds
        ∷ [])

  -- The `switch` of `write_json_string`, with so many cells left in the buffer.
  unfoldable pub json_escape : ℕ → ℕ → Text
  json_escape left character =
      if character == b'"'
      then b'\\' ∷ b'"' ∷ []
      else if character == b'\\'
      then b'\\' ∷ b'\\' ∷ []
      else if character == 8
      then b'\\' ∷ b'b' ∷ []
      else if character == 12
      then b'\\' ∷ b'f' ∷ []
      else if character == 10
      then b'\\' ∷ b'n' ∷ []
      else if character == 13
      then b'\\' ∷ b'r' ∷ []
      else if character == 9
      then b'\\' ∷ b't' ∷ []
      else if ltb character 32
      then p.string_printf left (codes "\\u%04x") (number character ∷ [])
      else character ∷ []

  -- The loop of `write_json_string` behind the text written so far.
  unfoldable pub json_loop : ℕ → Text → Text → Text
  unfolding json_escape
  json_loop capacity escaped [] = escaped
  json_loop capacity escaped (c ∷ value) =
      json_loop capacity (escaped ++ json_escape (capacity - length escaped) c) value

  abbrev pub json_capacity : Text → ℕ
  json_capacity value = length value * 6 + 3

  unfoldable pub json_escaped : Text → Text
  unfolding json_loop
  json_escaped value = json_loop (json_capacity value) (b'"' ∷ []) value ++ b'"' ∷ []

  unfoldable pub write_json_string : Text → Writer
  unfolding json_escaped write_utf8
  write_json_string value file =
      if ltb ((size_max / 2 - 3) / 6) (length value) || not (p.allocate (json_capacity value * 2))
      then (file, false)
      else write_utf8 (json_escaped value) file

  unfoldable pub write_json_field : Text → Text → Bool → Writer
  unfolding write_utf8 write_json_string all_of
  write_json_field name value trailing_comma = all_of (
      write_utf8 (codes "    \"")
      ∷ write_utf8 name
      ∷ write_utf8 (codes "\": ")
      ∷ write_json_string value
      ∷ write_utf8 (if trailing_comma then codes ",\r\n" else codes "\r\n")
      ∷ [])

  -- A number of `write_json_export`, between its name and a comma.
  unfoldable pub write_json_number : Text → Text → ℕ → Writer
  unfolding write_utf8 all_of
  write_json_number name format n = all_of (
      write_utf8 name
      ∷ write_utf8 (p.string_printf 64 format (number n ∷ []))
      ∷ write_utf8 (codes ",\r\n")
      ∷ [])

  unfoldable pub write_json_event : TraceGlassEvent → Bool → Writer
  unfolding write_json_field write_json_number write_utf8 all_of format_timestamp
  write_json_event event is_last = all_of (
      write_utf8 (codes "  {\r\n")
      ∷ write_json_field (codes "timestamp") (format_timestamp event.timestamp 64) true
      ∷ write_json_field (codes "event_type") (event_export_name event.type) true
      ∷ write_json_field (codes "process_name") event.process_name true
      ∷ write_json_number (codes "    \"pid\": ") (codes "%lu") event.process.pid
      ∷ write_json_number (codes "    \"parent_pid\": ") (codes "%lu") event.parent.pid
      ∷ write_json_field (codes "details") event.details true
      ∷ write_json_field (codes "protocol") event.protocol true
      ∷ write_json_field (codes "local_address") event.local_address true
      ∷ write_json_number (codes "    \"local_port\": ") (codes "%u") event.local_port
      ∷ write_json_field (codes "remote_address") event.remote_address true
      ∷ write_json_number (codes "    \"remote_port\": ") (codes "%u") event.remote_port
      ∷ write_json_field (codes "state") event.network_state true
      ∷ write_json_field (codes "severity") (alert_severity_name event.severity) true
      ∷ write_json_field (codes "rule") event.rule_name false
      ∷ write_utf8 (if is_last then codes "  }\r\n" else codes "  },\r\n")
      ∷ [])

  unfoldable pub json_events : List TraceGlassEvent → List Writer
  unfolding write_json_event
  json_events [] = []
  json_events (event ∷ []) = write_json_event event true ∷ []
  json_events (event ∷ next ∷ events) = write_json_event event false ∷ json_events (next ∷ events)

  unfoldable pub write_json_export : List TraceGlassEvent → ℕ → Writer
  unfolding json_events all_of write_utf8
  write_json_export events first_event = all_of (
      write_utf8 (codes "[\r\n")
      ∷ all_of (json_events (drop first_event events))
      ∷ write_utf8 (codes "]\r\n")
      ∷ [])
