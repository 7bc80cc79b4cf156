-- ===== src/Export/Result.antt =====
-- The result of an export in src/export.c.
use trace_glass.Base.{
  ℕ, ◌≤◌, ◌≡◌, refl, true, some, List, [], ltb, length, arith, Bool-cases, inl, inr,
}
use trace_glass.Events.{TraceGlassEvent}
use trace_glass.Export.{File, Platform}
use trace_glass.Export.Formats.{ExportFormat, FileSystem, write_format, export_events_to_file}

-- An export reports success only if the range of events is valid, the file could be created, every
-- write succeeded, and the file was closed without an error. It then leaves the whole export in the
-- file and no message.
pub export_events_to_file-succeeded :
    (p : Platform) (fs : FileSystem) (events : List TraceGlassEvent) (first_event : ℕ)
    (format : ExportFormat) (error_message_count : ℕ)
    → (export_events_to_file p fs events first_event format error_message_count).succeeded ≡ true
    → (first_event ≤ length events)
      × (fs.create_file ≡ true)
      × (fs.close_handle ≡ true)
      × ((g : File) × (write_format p format events first_event [] ≡ (g, true))
          × (export_events_to_file p fs events first_event format error_message_count
              ≡ record { file = some g; succeeded = true; error_message = [] }))
unfolding export_events_to_file
export_events_to_file-succeeded p fs events first_event format error_message_count e =
    elim (Bool-cases (ltb (length events) first_event)) [
      | inl outside ↦ absurd (ground arith)
      | inr inside ↦ elim (Bool-cases fs.create_file) [
        | inr refused ↦ absurd (ground arith)
        | inl created ↦ elim (Bool-cases ((write_format p format events first_event []).1)) [
          | inr failed ↦ absurd (ground arith)
          | inl done ↦
              let closed : fs.close_handle ≡ true = ground arith in
              (
                ground arith,
                created,
                closed,
                (
                  (write_format p format events first_event []).0,
                  λ i. ((write_format p format events first_event []).0, done i),
                  rw (inside, created, done, closed) refl,
                ),
              )
        ]
      ]
    ]
