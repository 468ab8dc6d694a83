-- ===== src/PskReporter/Queue/Examples.antt =====
-- Two reports of one sender and one of another, some time after a third was sent.
use airspyhf_wsprd.Common.{◌≡◌, refl, true, false, some, [], ◌∷◌, arith, codes, text_eq}
use airspyhf_wsprd.Common.Int.{ℤ, pos, negsuc}
use airspyhf_wsprd.PskReporter.Packet.{PskReport}
use airspyhf_wsprd.PskReporter.Queue.{
  PskReporter, is_recent, replace_weaker, append_report, enqueue_report,
}
use airspyhf_wsprd.PskReporter.Queue.Distinct.{IsQueue}
use airspyhf_wsprd.PskReporter.Queue.Best.{held, stronger, enqueue_keeps_stronger}

abbrev heard : ℤ → PskReport
heard snr = record {
  sender_call = codes "K1ABC";
  frequency_hz = 14075123;
  snr = snr;
  flow_start = pos 1735732800;
}

abbrev other : PskReport
other = record (heard (pos 3)) { sender_call = codes "W9XYZ" }

abbrev reporter : PskReporter
reporter = record {
  queue = heard (negsuc 11) ∷ other ∷ [];
  recent = record { callsign = codes "N0CALL"; sent_at = 1000 } ∷ [];
  sequence = 0;
  observation_id = 77;
  packet_count = 0;
  templates_last_sent = 0;
  next_flush = 1400;
  receiver_call = codes "VU3CER";
  receiver_grid = codes "MK68";
  software = codes "airspyhf";
  hostname = codes "report.pskreporter.info";
  port = codes "4739";
  stopping = false;
  started = true;
}

reporter-IsQueue : IsQueue reporter
unfolding text_eq
reporter-IsQueue = record { distinct = ((refl, tt), (tt, tt)); count_in = omega arith }

abbrev improved : PskReporter
improved = record reporter { queue = heard (pos 2) ∷ other ∷ [] }

improves : enqueue_report reporter (heard (pos 2)) 1299 ≡ (true, improved)
unfolding enqueue_report is_recent replace_weaker append_report text_eq
improves = refl

-- A spot of a sender that was sent 299 seconds ago is taken and not kept.
skips :
    enqueue_report reporter (record other { sender_call = codes "N0CALL" }) 1299 ≡ (true, reporter)
unfolding enqueue_report is_recent replace_weaker append_report text_eq
skips = refl

not_recent : is_recent reporter.recent (heard (pos 2)).sender_call 1299 ≡ false
unfolding is_recent text_eq
not_recent = refl

enqueue_keeps_stronger_example :
    held improved.queue (heard (pos 2)).sender_call
    ≡ some (stronger (held reporter.queue (heard (pos 2)).sender_call) (heard (pos 2)))
enqueue_keeps_stronger_example =
    enqueue_keeps_stronger reporter (heard (pos 2)) 1299 not_recent improves
