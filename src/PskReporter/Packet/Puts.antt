-- ===== src/PskReporter/Packet/Puts.antt =====
-- Writes at the cursor, one behind the other, put together.
use airspyhf_wsprd.Common.{
  ℕ, ◌%◌, ◌^◌, ◌≤◌, ◌≡◌, refl, sym, ap, ap₂, ◌∙◌, List, [], ◌∷◌, ◌++◌, All, arith, length,
  length-append, write_at-write_at, Text, codes, true, Bool, false,
}
use mathlib.Core.List.{append_assoc, append-nil}
use airspyhf_wsprd.Common.Int.{ℤ}
use airspyhf_wsprd.PskReporter.Packet.{
  PskReport, Request, Cursor, u16, u32, to_u32, put_bytes, put_string, put_report, put_reports,
  put_header, put_templates, put_receiver, put_sender, receiver_template, sender_template,
}
use airspyhf_wsprd.PskReporter.Packet.Layout.{
  text_field, report_record, report_records, receiver_records, templates_of,
}

abbrev cursor_at : List ℕ → ℕ → Cursor
cursor_at packet position = record { packet = packet; position = position }

pub put_bytes-put_bytes :
    (at : Cursor) (a b : List ℕ) → put_bytes (put_bytes at a) b ≡ put_bytes at (a ++ b)
unfolding put_bytes
put_bytes-put_bytes at a b =
    ap₂ cursor_at (write_at-write_at at.packet at.position a b) (omega (arith, length-append a b))

pub put_string_lem :
    (at : Cursor) (text : Text)
    → length text ≤ 255
    → put_string at text ≡ put_bytes at (text_field text)
unfolding put_string
put_string_lem at text h =
    put_bytes-put_bytes at (length text % 2 ^ 8 ∷ []) text
    ∙ ap (λ n. put_bytes at (n ∷ text)) (omega arith)

put_mode_lem : (at : Cursor) → put_string at (codes "FT8") ≡ put_bytes at (text_field (codes "FT8"))
put_mode_lem at = put_string_lem at (codes "FT8") (omega arith)

put_report_lem :
    (at : Cursor) (report : PskReport)
    → length report.sender_call ≤ 255
    → put_report at report ≡ put_bytes at (report_record report)
unfolding put_report
put_report_lem at report h =
    rw (put_string_lem at report.sender_call h) (simp (put_mode_lem, put_bytes-put_bytes) refl)

abbrev pub ShortCalls : List PskReport → Type 0
ShortCalls reports = All (λ r. length r.sender_call ≤ 255) reports

put_reports_lem :
    (at : Cursor) (bytes : List ℕ) (reports : List PskReport)
    → ShortCalls reports
    → put_reports (put_bytes at bytes) reports ≡ put_bytes at (bytes ++ report_records reports)
unfolding put_reports
put_reports_lem at bytes [] h = ap (put_bytes at) (sym (append-nil bytes))
put_reports_lem at bytes (report ∷ reports) h =
    ap (λ c. put_reports c reports)
      (put_report_lem (put_bytes at bytes) report h.0
        ∙ put_bytes-put_bytes at bytes (report_record report))
    ∙ put_reports_lem at (bytes ++ report_record report) reports h.1
    ∙ ap (put_bytes at) (append_assoc bytes (report_record report) (report_records reports))

u16_cast : (n : ℕ) → n ≤ 65535 → u16 (n % 2 ^ 16) ≡ u16 n
u16_cast n h = ap u16 (omega arith)

pub put_header_lem :
    (at : Cursor) (total_size : ℕ) (export_time : ℤ) (sequence observation_id : ℕ)
    → total_size ≤ 65535
    → put_header at total_size export_time sequence observation_id
      ≡ put_bytes at (
          (0 ∷ 10 ∷ [])
          ++ u16 total_size
          ++ u32 (to_u32 export_time)
          ++ u32 sequence
          ++ u32 observation_id)
unfolding put_header
put_header_lem at total_size export_time sequence observation_id h =
    rw (u16_cast total_size h) (simp put_bytes-put_bytes refl)

pub put_templates_lem :
    (at : Cursor) (bytes : List ℕ) (include_templates : Bool)
    → put_templates (put_bytes at bytes) include_templates
      ≡ put_bytes at (bytes ++ templates_of include_templates)
unfolding put_templates
put_templates_lem at bytes false = ap (put_bytes at) (sym (append-nil bytes))
put_templates_lem at bytes true =
    put_bytes-put_bytes (put_bytes at bytes) receiver_template sender_template
    ∙ put_bytes-put_bytes at bytes (receiver_template ++ sender_template)

four_parts : (a b c d : List ℕ) → a ++ b ++ c ++ d ≡ a ++ (b ++ c ++ d)
four_parts a b c d = simp append_assoc refl

-- A set without its zeros.
abbrev pub open_set : List ℕ → ℕ → List ℕ → List ℕ
open_set id size records = id ++ u16 size ++ records

pub put_receiver_lem :
    (at : Cursor) (size : ℕ) (request : Request)
    → size ≤ 65535
    → length request.receiver_call ≤ 255
    → length request.receiver_grid ≤ 255
    → length request.software ≤ 255
    → put_receiver at size request.receiver_call request.receiver_grid request.software
      ≡ put_bytes at (open_set (153 ∷ 146 ∷ []) size (receiver_records request))
unfolding put_receiver
put_receiver_lem at size request h call grid software = rw (u16_cast size h) (
    put_string_lem _ request.software software
    ∙ ap (λ c. put_bytes c (text_field request.software))
        (put_string_lem _ request.receiver_grid grid
          ∙ ap (λ c. put_bytes c (text_field request.receiver_grid))
              (put_string_lem _ request.receiver_call call))
    ∙ simp put_bytes-put_bytes (
        ap (put_bytes at) (
          four_parts ((153 ∷ 146 ∷ []) ++ u16 size) (text_field request.receiver_call)
            (text_field request.receiver_grid) (text_field request.software))))

pub put_sender_lem :
    (at : Cursor) (size : ℕ) (reports : List PskReport)
    → size ≤ 65535
    → ShortCalls reports
    → put_sender at size reports
      ≡ put_bytes at (open_set (153 ∷ 147 ∷ []) size (report_records reports))
unfolding put_sender
put_sender_lem at size reports h short =
    rw (u16_cast size h, put_bytes-put_bytes)
      (put_reports_lem at ((153 ∷ 147 ∷ []) ++ u16 size) reports short)
