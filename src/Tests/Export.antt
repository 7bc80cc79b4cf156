-- ===== src/Tests/Export.antt =====
-- The writers of src/export.c at concrete inputs.
use trace_glass.Base.{
  ℕ, ◌+◌, ◌/◌, ◌%◌, ◌≤◌, ◌≡◌, ◌≢◌, refl, true, false, some, none, List, [], ◌∷◌, ◌++◌, length, ltb,
  if◌then◌else◌, arith, codes,
}
use trace_glass.Detection.{Argument, text, number}
use trace_glass.Events.{TraceGlassEvent}
use trace_glass.Utils.{Text}
use trace_glass.Export.{File, Platform, json_escaped, json_capacity, write_loop, write_all}
use trace_glass.Export.Formats.{
  csv_header, csv_fields, write_csv_export, utf8_bom, csv, FileSystem, export_events_to_file,
  write_format,
}
use trace_glass.Export.Json.{PrintsHex, hex_digit, read_json_string, json_escaped-read}
use trace_glass.Export.Csv.{before, read_row, csv_row, csv_row-read}
use trace_glass.Export.Write.{Written, Encodings, write_all-Written}
use trace_glass.Export.Write.Rows.{row_texts, rows_texts, joined, write_csv_export-appends}
use trace_glass.Export.Result.{export_events_to_file-succeeded}
use trace_glass.Tests.Data.{shell_start}

abbrev hex_text : List Argument → Text
hex_text [] = []
hex_text (text s ∷ arguments) = s
hex_text (number c ∷ arguments) =
    b'\\' ∷ b'u' ∷ b'0' ∷ b'0' ∷ hex_digit (c / 16) ∷ hex_digit (c % 16) ∷ []

-- WriteFile takes one byte at a time; texts are in the lower half of ASCII.
abbrev pub platform : Platform
platform = record {
  write_file = λ file chunk. some 1;
  to_utf8 = λ source. some source;
  allocate = λ bytes. true;
  string_printf = λ cells format arguments. if ltb cells 7 then [] else hex_text arguments;
  equal_ordinal = λ left right. true;
}

platform-PrintsHex : PrintsHex platform
platform-PrintsHex cells character room low =
    let enough : ltb cells 7 ≡ false = ground arith in rw enough refl

json_escaped-read_example :
    (length (json_escaped platform (1 ∷ b'"' ∷ [])) + 1 ≤ json_capacity platform (1 ∷ b'"' ∷ []))
    × (read_json_string (json_escaped platform (1 ∷ b'"' ∷ []) ++ codes ",")
        ≡ some (1 ∷ b'"' ∷ [], codes ","))
json_escaped-read_example =
    json_escaped-read platform platform-PrintsHex (1 ∷ b'"' ∷ []) (codes ",")

csv_row-read_example :
    read_row before (csv_row (codes "a\"b" ∷ codes "x,y" ∷ []) ++ codes "z")
    ≡ some (codes "a\"b" ∷ codes "x,y" ∷ [], codes "z")
csv_row-read_example = csv_row-read (codes "a\"b") (codes "x,y" ∷ []) (codes "z")

write_all-Written_example :
    (write_loop platform 4 (1 ∷ 2 ∷ 3 ∷ []) [] ≢ none)
    × Written (1 ∷ 2 ∷ 3 ∷ []) [] (write_all platform (1 ∷ 2 ∷ 3 ∷ []) [])
write_all-Written_example = write_all-Written platform (1 ∷ 2 ∷ 3 ∷ []) []

-- The file of an export of one event.
abbrev exported_file : File
exported_file = (write_csv_export platform (shell_start ∷ []) 0 []).0

exported : write_csv_export platform (shell_start ∷ []) 0 [] ≡ (exported_file, true)
unfolding write_csv_export
exported = refl

write_csv_export-appends_example :
    (bytes : List ℕ) × Encodings platform
      (csv_header platform ∷ rows_texts platform (shell_start ∷ []))
      bytes
    × (exported_file ≡ [] ++ (utf8_bom ++ bytes))
    × ((event : TraceGlassEvent)
        → joined (row_texts (csv_fields platform event)) ≡ csv_row (csv_fields platform event))
write_csv_export-appends_example =
    write_csv_export-appends platform (shell_start ∷ []) 0 [] exported_file exported

abbrev pub disk : FileSystem
disk = record {
  create_file = true;
  close_handle = true;
  last_error = 0;
  format_windows_error = λ error. [];
}

succeeded : (export_events_to_file platform disk (shell_start ∷ []) 0 csv 64).succeeded ≡ true
unfolding export_events_to_file
succeeded = refl

export_events_to_file-succeeded_example :
    (0 ≤ length (shell_start ∷ []))
    × (disk.create_file ≡ true)
    × (disk.close_handle ≡ true)
    × ((g : File) × (write_format platform csv (shell_start ∷ []) 0 [] ≡ (g, true))
        × (export_events_to_file platform disk (shell_start ∷ []) 0 csv 64
            ≡ record { file = some g; succeeded = true; error_message = [] }))
export_events_to_file-succeeded_example =
    export_events_to_file-succeeded platform disk (shell_start ∷ []) 0 csv 64 succeeded
