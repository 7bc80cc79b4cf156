-- ===== src/Export/Write/Rows.antt =====
-- What a CSV export of src/export.c leaves in the file, row by row.
use trace_glass.Base.{ℕ, ◌≡◌, refl, ap, ◌∙◌, true, List, [], ◌∷◌, ◌++◌, drop, codes, arith}
use mathlib.Core.List.{append_assoc, append-nil}
use trace_glass.Events.{TraceGlassEvent}
use trace_glass.Utils.{Text}
use trace_glass.Export.{File, Platform, all_of, write_all, write_utf8}
use trace_glass.Export.Formats.{
  utf8_bom, csv_escaped, write_csv_field, csv_fields, write_csv_row, csv_rows, csv_header,
  write_csv_export,
}
use trace_glass.Export.Csv.{csv_row}
use trace_glass.Export.Write.{
  Encodings, Emits, all_of-first, write_all-appends, write_utf8-Emits, all_of-Emits, passed,
}

-- The texts of a row, each field as it is escaped.
unfoldable pub row_texts : List Text → List Text
row_texts [] = []
row_texts (value ∷ []) = csv_escaped value ∷ codes "\r\n" ∷ []
row_texts (value ∷ next ∷ values) = csv_escaped value ∷ codes "," ∷ row_texts (next ∷ values)

abbrev pub joined : List Text → Text
joined [] = []
joined (t ∷ texts) = t ++ joined texts

-- Joined, the texts of a row are the row.
row_texts-csv_row : (values : List Text) → joined (row_texts values) ≡ csv_row values
unfolding row_texts csv_row
row_texts-csv_row [] = refl
row_texts-csv_row (value ∷ []) = refl
row_texts-csv_row (value ∷ next ∷ values) =
    ap (λ x. csv_escaped value ++ b',' ∷ x) (row_texts-csv_row (next ∷ values))

module _ (p : Platform) where
  nothing-Emits : Emits p (all_of []) []
  unfolding all_of
  nothing-Emits file g e = ([], refl, ground (arith, append-nil file))

  write_csv_field-Emits :
      (value : Text) → Emits p (write_csv_field p value) (csv_escaped value ∷ [])
  unfolding write_csv_field
  write_csv_field-Emits value file g e =
      write_utf8-Emits p (csv_escaped value) file g (passed _ file g _ e)

  write_csv_row-Emits : (values : List Text) → Emits p (write_csv_row p values) (row_texts values)
  unfolding write_csv_row row_texts all_of
  write_csv_row-Emits [] file g e = nothing-Emits file g e
  write_csv_row-Emits (value ∷ []) file g e =
      all_of-Emits p (write_csv_field p value) (csv_escaped value ∷ [])
        (write_utf8 p (codes "\r\n") ∷ []) (codes "\r\n" ∷ []) (write_csv_field-Emits value)
        (all_of-Emits p (write_utf8 p (codes "\r\n")) (codes "\r\n" ∷ []) [] []
          (write_utf8-Emits p (codes "\r\n")) nothing-Emits)
        file g e
  write_csv_row-Emits (value ∷ next ∷ values) file g e =
      let (x, enc, at) =
        all_of-Emits p (write_csv_field p value) (csv_escaped value ∷ [])
          (write_utf8 p (codes ",") ∷ write_csv_row p (next ∷ values) ∷ [])
          (codes "," ∷ (row_texts (next ∷ values) ++ [])) (write_csv_field-Emits value)
          (all_of-Emits p (write_utf8 p (codes ",")) (codes "," ∷ [])
            (write_csv_row p (next ∷ values) ∷ []) (row_texts (next ∷ values) ++ [])
            (write_utf8-Emits p (codes ","))
            (all_of-Emits p (write_csv_row p (next ∷ values)) (row_texts (next ∷ values)) [] []
              (write_csv_row-Emits (next ∷ values)) nothing-Emits))
          file g e in
      (x, rw (← append-nil (row_texts (next ∷ values))) enc, at)

  -- The texts of the rows of the events.
  abbrev pub rows_texts : List TraceGlassEvent → List Text
  rows_texts [] = []
  rows_texts (event ∷ events) = row_texts (csv_fields p event) ++ rows_texts events

  csv_rows-Emits : (events : List TraceGlassEvent) → Emits p (csv_rows p events) (rows_texts events)
  unfolding csv_rows all_of
  csv_rows-Emits [] file g e = nothing-Emits file g e
  csv_rows-Emits (event ∷ events) file g e =
      let (x, enc, at) =
        all_of-Emits p (write_csv_row p (csv_fields p event)) (row_texts (csv_fields p event))
          (csv_rows p events ∷ []) (rows_texts events ++ [])
          (write_csv_row-Emits (csv_fields p event))
          (all_of-Emits p (csv_rows p events) (rows_texts events) [] [] (csv_rows-Emits events)
            nothing-Emits)
          file g e in
      (x, rw (← append-nil (rows_texts events)) enc, at)

  -- A CSV export that succeeds has appended the byte order mark, the header, and for every event from
  -- `first_event` on one row, whose texts joined are the row that a CSV reader takes back to the
  -- event's fields; each text in its encoding, none left out and none written twice.
  pub write_csv_export-appends :
      (events : List TraceGlassEvent) (first_event : ℕ) (file g : File)
      → write_csv_export p events first_event file ≡ (g, true)
      → (bytes : List ℕ) × Encodings p (csv_header p ∷ rows_texts (drop first_event events)) bytes
        × (g ≡ file ++ (utf8_bom ++ bytes))
        × ((event : TraceGlassEvent)
            → joined (row_texts (csv_fields p event)) ≡ csv_row (csv_fields p event))
  unfolding write_csv_export
  write_csv_export-appends events first_event file g e =
      let rows = drop first_event events in
      let (h, bom, rest) =
        all_of-first (write_all p utf8_bom) (write_utf8 p (csv_header p) ∷ csv_rows p rows ∷ [])
          file g e in
      let (x, enc, at) =
        all_of-Emits p (write_utf8 p (csv_header p)) (csv_header p ∷ []) (csv_rows p rows ∷ [])
          (rows_texts rows ++ []) (write_utf8-Emits p (csv_header p))
          (all_of-Emits p (csv_rows p rows) (rows_texts rows) [] [] (csv_rows-Emits rows)
            nothing-Emits)
          h g rest in
      (
        x,
        rw (← append-nil (rows_texts rows)) enc,
        at
            ∙ (ap (λ z. z ++ x) (write_all-appends p utf8_bom file h bom)
                ∙ append_assoc file utf8_bom x),
        λ event. row_texts-csv_row (csv_fields p event),
      )
