-- ===== src/PskReporter/Flush/Count.antt =====
-- The reports that a datagram takes.
use airspyhf_wsprd.Common.{
  ℕ, zero, suc, ◌≤◌, ◌<◌, ◌≡◌, ◌≢◌, ap, ◌∙◌, Bool, true, some, List, [], ◌∷◌, ◌++◌, arith, length,
  length-take, take, drop, ltb, if◌then◌else◌,
}
use airspyhf_wsprd.PskReporter.Packet.{
  PskReport, Request, build_packet, valid_text_length, valid_request,
}
use airspyhf_wsprd.PskReporter.Packet.Layout.{message}
use airspyhf_wsprd.PskReporter.Packet.Small.{message_fits, fitting_small}
use Prim.Native.Nat.{min}
use airspyhf_wsprd.PskReporter.Packet.Build.{build_packet_lem}
use airspyhf_wsprd.PskReporter.Queue.{PskReporter}
use airspyhf_wsprd.PskReporter.Queue.Growth.{AreValid}
use airspyhf_wsprd.PskReporter.Flush.{
  Datagram, request_of, or_fewer, fitting_count, packet_report_count, immediate_count,
  packet_capacity,
}

-- The texts of the station, as `psk_reporter_start` admits them.
pub record HasStation (r : PskReporter) : Type 0 where
  pub call : valid_text_length (some r.receiver_call) 12 ≡ true
  pub grid : valid_text_length (some r.receiver_grid) 6 ≡ true
  pub software : valid_text_length (some r.software) 63 ≡ true

take-AreValid : (n : ℕ) (reports : List PskReport) → AreValid reports → AreValid (take n reports)
take-AreValid zero reports v = tt
take-AreValid (suc n) [] v = tt
take-AreValid (suc n) (r ∷ reports) v = (v.0, take-AreValid n reports v.1)

module _ (r : PskReporter) (count : ℕ) (templates : Bool) (now : ℕ) (station : HasStation r)
    (valid : AreValid r.queue) (some_left : length r.queue ≢ 0) (pos_count : 0 < count)
    (few : count ≤ 40) where
  abbrev request : Request
  request = request_of r count templates now

  length-reports : length (take count r.queue) ≤ 40
  length-reports = omega (arith, length-take count r.queue)

  request-valid : valid_request request ≡ true
  unfolding valid_request
  request-valid =
      ground (arith, station.call, station.grid, station.software, length-take count r.queue)

  length-message_le : length (message request) ≤ 1400
  length-message_le =
      message_fits request request-valid (take-AreValid count r.queue valid) length-reports

  build_count :
      (packet : List ℕ)
      → 1400 ≤ length packet
      → build_packet true (some packet) packet_capacity (some request)
        ≡ some (message request ++ drop (length (message request)) packet, length (message request))
  build_count packet room =
      build_packet_lem packet packet_capacity request room (omega (arith, length-reports))
        request-valid (take-AreValid count r.queue valid)
      ∙ fitting_small packet packet_capacity (message request) length-message_le
          (omega (arith, length-message_le))

-- The datagram of the first `count` reports.
abbrev pub datagram_of : PskReporter → Bool → List ℕ → ℕ → ℕ → Datagram
datagram_of r templates packet now count =
    let bytes = message (request_of r count templates now) in
    record {
      report_count = count;
      packet = bytes ++ drop (length bytes) packet;
      packet_size = length bytes;
      templates = templates;
    }

fitting_count_lem :
    (r : PskReporter) (templates : Bool) (packet : List ℕ) (now count : ℕ)
    → HasStation r
    → AreValid r.queue
    → length r.queue ≢ 0
    → 1400 ≤ length packet
    → 0 < count
    → count ≤ 40
    → fitting_count r templates packet now count ≡ some (datagram_of r templates packet now count)
unfolding fitting_count or_fewer
fitting_count_lem r templates packet now zero station valid used room pos_count few =
    absurd (omega arith)
fitting_count_lem r templates packet now (suc count) station valid used room pos_count few =
    ap (λ o. or_fewer (suc count) templates o (fitting_count r templates packet now count))
      (build_count r (suc count) templates now station valid used pos_count few packet room)

batch_lem : (n : ℕ) → (if ltb n immediate_count then n else immediate_count) ≡ min n 40
batch_lem n = ground arith

-- The number of reports that a datagram takes: all of the queue, or 40.
abbrev pub batch : PskReporter → ℕ
batch r = min (length r.queue) 40

-- The loop of `packet_report_count` never counts down: of a queue that is not empty, with valid
-- reports and a valid station, the first 40 reports, or all if there are fewer, are encoded in one
-- datagram that fits the buffer.
pub packet_report_count_lem :
    (r : PskReporter) (templates : Bool) (packet : List ℕ) (now : ℕ)
    → HasStation r
    → AreValid r.queue
    → length r.queue ≢ 0
    → 1400 ≤ length packet
    → (packet_report_count r templates packet now
        ≡ some (datagram_of r templates packet now (batch r)))
      × (0 < batch r)
      × ((datagram_of r templates packet now (batch r)).packet_size ≤ 1400)
unfolding packet_report_count
packet_report_count_lem r templates packet now station valid used room =
    let some_taken : 0 < batch r = omega arith in
    let few : batch r ≤ 40 = omega arith in
    (
      ap (fitting_count r templates packet now) (batch_lem (length r.queue))
          ∙ fitting_count_lem r templates packet now (batch r) station valid used room some_taken
              few,
      some_taken,
      length-message_le r (batch r) templates now station valid used some_taken few,
    )
