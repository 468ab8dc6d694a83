-- ===== src/PskReporter/Packet/Examples.antt =====
-- One spot of K1ABC, heard by VU3CER, with and without the templates.
use airspyhf_wsprd.Common.{
  ℕ, ◌≡◌, refl, true, false, none, some, List, [], ◌∷◌, arith, replicate, codes,
}
use airspyhf_wsprd.Common.Int.{pos, negsuc}
use airspyhf_wsprd.PskReporter.Packet.{
  PskReport, Request, build_packet, build_sized, valid_request, valid_report, valid_text_length,
  sum_reports, receiver_size_of, total_size_of, align_four,
}
use airspyhf_wsprd.PskReporter.Packet.Layout.{message}
use airspyhf_wsprd.PskReporter.Packet.Build.{fitting, build_packet_lem}

abbrev spot : PskReport
spot = record {
  sender_call = codes "K1ABC";
  frequency_hz = 14075123;
  snr = negsuc 11;
  flow_start = pos 1735732800;
}

abbrev request : Request
request = record {
  receiver_call = codes "VU3CER";
  receiver_grid = codes "MK68";
  software = codes "airspyhf";
  reports = spot ∷ [];
  sequence = 7;
  observation_id = 305419896;
  export_time = pos 1735732860;
  include_templates = false;
}

-- A buffer that holds old bytes.
abbrev buffer : List ℕ
buffer = replicate 100 255

request-valid : valid_request request ≡ true
unfolding valid_request valid_text_length
request-valid = refl

spot-valid : valid_report spot ≡ true
unfolding valid_report valid_text_length
spot-valid = refl

build_packet_lem_example :
    build_packet true (some buffer) 100 (some request) ≡ fitting buffer 100 (message request)
build_packet_lem_example =
    build_packet_lem buffer 100 request (omega arith) (omega arith) request-valid (spot-valid, tt)

-- The datagram has 68 bytes.
one_byte_short : build_packet true (some buffer) 67 (some request) ≡ none
unfolding build_packet build_sized valid_request valid_text_length valid_report sum_reports
    receiver_size_of total_size_of align_four
one_byte_short = refl
