-- ===== src/PskReporter/Packet/Small.antt =====
-- Forty reports fit a datagram, whatever their texts.
use airspyhf_wsprd.Common.{ℕ, ◌+◌, ◌≤◌, ◌≡◌, true, All, List, ◌++◌, arith, length, drop, some}
use airspyhf_wsprd.PskReporter.Packet.{Request, valid_report, valid_request}
use airspyhf_wsprd.PskReporter.Packet.Layout.{message, padding, report_records, receiver_records}
use airspyhf_wsprd.PskReporter.Packet.Sizes.{
  short_texts, length-receiver_records, length-report_records, length-sets, length-message,
}
use airspyhf_wsprd.PskReporter.Packet.Build.{length-templates_of, fitting}

padding_lt : (n : ℕ) → padding n ≤ 3
padding_lt n = omega arith

pub message_fits :
    (request : Request)
    → valid_request request ≡ true
    → All (λ r. valid_report r ≡ true) request.reports
    → length request.reports ≤ 40
    → length (message request) ≤ 1400
message_fits request valid reports few =
    let short = short_texts request valid in
    omega (
      arith,
      length-message request,
      length-sets request,
      (length-templates_of request.include_templates).1,
      length-receiver_records request,
      length-report_records request.reports reports,
      short.call,
      short.grid,
      short.software,
      padding_lt (4 + length (receiver_records request)),
      padding_lt (4 + length (report_records request.reports)),
    )

pub fitting_small :
    (packet : List ℕ) (capacity : ℕ) (bytes : List ℕ)
    → length bytes ≤ capacity
    → length bytes ≤ 65535
    → fitting packet capacity bytes ≡ some (bytes ++ drop (length bytes) packet, length bytes)
fitting_small packet capacity bytes fits small = ground arith
