-- ===== src/PskReporter/Packet/Sizes.antt =====
-- The sizes that the code adds up are those of the described datagram.
use airspyhf_wsprd.Common.{
  ℕ, ◌+◌, ◌-◌, ◌*◌, ◌%◌, ◌^◌, ◌≤◌, ◌<◌, ◌≡◌, refl, ap, ◌∙◌, List, [], ◌∷◌, ◌++◌, All, arith, length,
  length-append, length-replicate, true, some,
}
use airspyhf_wsprd.PskReporter.Packet.{
  PskReport, Request, align_four, u16, u32, valid_report, valid_request, valid_text_length,
  receiver_size_of, sum_reports,
}
use airspyhf_wsprd.PskReporter.Packet.Layout.{
  report_record, report_records, padding, data_set, receiver_records, templates_of, sets, message,
}
use airspyhf_wsprd.PskReporter.Packet.Puts.{ShortCalls}

pub align_four_lem : (n : ℕ) → n < 2 ^ 64 - 3 → align_four n ≡ n + padding n
unfolding align_four
align_four_lem n h = omega arith

pub length-u16 : (n : ℕ) → length (u16 n) ≡ 2
unfolding u16
length-u16 n = refl

pub length-u32 : (n : ℕ) → length (u32 n) ≡ 4
unfolding u32
length-u32 n = refl

length-report_record :
    (report : PskReport) → length (report_record report) ≡ 15 + length report.sender_call
unfolding u32
length-report_record report = simp length-append (omega arith)

short_call : (report : PskReport) → valid_report report ≡ true → length report.sender_call ≤ 12
unfolding valid_report valid_text_length
short_call report h = ground arith

pub sum_reports_lem :
    (acc : ℕ) (reports : List PskReport)
    → acc + 27 * length reports < 2 ^ 64
    → All (λ r. valid_report r ≡ true) reports
    → sum_reports acc reports ≡ some (acc + length (report_records reports))
unfolding sum_reports
sum_reports_lem acc [] h v = ap some (omega arith)
sum_reports_lem acc (report ∷ reports) h v =
    let size = 1 + length report.sender_call + 4 + 1 + 1 + 3 + 1 + 4 in
    let short = short_call report v.0 in
    rw v.0 (
      sum_reports_lem ((acc + size) % 2 ^ 64) reports (omega arith) v.1
      ∙ ap some (
          omega (
            arith,
            length-append (report_record report) (report_records reports),
            length-report_record report,
          )))

pub short_calls :
    (reports : List PskReport) → All (λ r. valid_report r ≡ true) reports → ShortCalls reports
short_calls [] v = tt
short_calls (report ∷ reports) v = (omega (arith, short_call report v.0), short_calls reports v.1)

pub length-report_records :
    (reports : List PskReport)
    → All (λ r. valid_report r ≡ true) reports
    → length (report_records reports) ≤ 27 * length reports
length-report_records [] v = omega arith
length-report_records (report ∷ reports) v = omega (
  arith,
  length-append (report_record report) (report_records reports),
  length-report_record report,
  short_call report v.0,
  length-report_records reports v.1,
)

-- The texts of the receiver as `valid_request` admits them.
pub record ShortTexts (request : Request) : Type 0 where
  pub call : length request.receiver_call ≤ 12
  pub grid : length request.receiver_grid ≤ 6
  pub software : length request.software ≤ 63

pub short_texts : (request : Request) → valid_request request ≡ true → ShortTexts request
unfolding valid_request valid_text_length
short_texts request v = record { call = ground arith; grid = ground arith; software = ground arith }

pub length-receiver_records :
    (request : Request)
    → length (receiver_records request)
      ≡ 3 + length request.receiver_call + length request.receiver_grid + length request.software
length-receiver_records request = simp length-append (omega arith)

-- The size of a set with its zeros.
abbrev pub set_size : List ℕ → ℕ
set_size records = 4 + length records + padding (4 + length records)

pub receiver_size_lem :
    (request : Request)
    → ShortTexts request
    → receiver_size_of request.receiver_call request.receiver_grid request.software
      ≡ set_size (receiver_records request)
unfolding receiver_size_of
receiver_size_lem request short =
    ap align_four {y = 4 + length (receiver_records request)}
      (omega (arith, length-receiver_records request))
    ∙ align_four_lem (4 + length (receiver_records request))
        (omega (arith, length-receiver_records request, short.call, short.grid, short.software))

pub length-data_set :
    (i j : ℕ) (records : List ℕ) → length (data_set (i ∷ j ∷ []) records) ≡ set_size records
unfolding u16
length-data_set i j records = simp (length-append, length-replicate) (omega arith)

pub length-sets :
    (request : Request)
    → length (sets request)
      ≡ length (templates_of request.include_templates)
        + set_size (receiver_records request)
        + set_size (report_records request.reports)
length-sets request = omega (
  arith,
  length-append
      (templates_of request.include_templates
        ++ data_set (153 ∷ 146 ∷ []) (receiver_records request))
      (data_set (153 ∷ 147 ∷ []) (report_records request.reports)),
  length-append (templates_of request.include_templates)
      (data_set (153 ∷ 146 ∷ []) (receiver_records request)),
  length-data_set 153 146 (receiver_records request),
  length-data_set 153 147 (report_records request.reports),
)

pub length-message : (request : Request) → length (message request) ≡ 16 + length (sets request)
unfolding u16 u32
length-message request = omega arith
