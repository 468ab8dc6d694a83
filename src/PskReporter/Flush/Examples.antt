-- ===== src/PskReporter/Flush/Examples.antt =====
-- Two senders wait; one more comes while their datagram is sent, and one of the two is heard better.
use airspyhf_wsprd.Common.{
  ℕ, ltb, ◌&&◌, if◌then◌else◌, ◌+◌, ◌^◌, ◌%◌, ◌<◌, ◌≤◌, ◌≡◌, refl, true, false, some, List, [], ◌∷◌,
  ◌++◌, All, arith, codes, text_eq, length, Text, replicate, length-replicate,
}
use airspyhf_wsprd.Common.Int.{ℤ, pos, negsuc}
use airspyhf_wsprd.PskReporter.Packet.{PskReport, valid_report, valid_text_length}
use airspyhf_wsprd.PskReporter.Queue.{PskReporter}
use airspyhf_wsprd.PskReporter.Queue.Distinct.{IsQueue, calls}
use airspyhf_wsprd.PskReporter.Flush.{
  waiting, sending, immediate_count, retry_seconds, Event, offered, stopped, looked, answered,
  Service, packet_report_count, no_sender,
}
use airspyhf_wsprd.PskReporter.Flush.Count.{HasStation, datagram_of, batch, packet_report_count_lem}
use airspyhf_wsprd.PskReporter.Flush.Turns.{IsSound, datagram_of-Carries}
use airspyhf_wsprd.PskReporter.Flush.Retry.{put_off, failed_send_retried}
use airspyhf_wsprd.PskReporter.Flush.Delivery.{
  HasBuffer, run, AreTaken, all_gained, senders_delivered,
}

abbrev heard : Text → ℤ → PskReport
heard call snr = record {
  sender_call = call;
  frequency_hz = 14075123;
  snr = snr;
  flow_start = pos 1735732800;
}

abbrev client : PskReporter
client = record {
  queue = heard (codes "K1ABC") (negsuc 11) ∷ heard (codes "W9XYZ") (pos 3) ∷ [];
  recent = replicate 256 no_sender;
  sequence = 4294967295;
  observation_id = 77;
  packet_count = 3;
  templates_last_sent = 1000;
  next_flush = 1400;
  receiver_call = codes "VU3CER";
  receiver_grid = codes "MK68";
  software = codes "airspyhf";
  hostname = codes "report.pskreporter.info";
  port = codes "4739";
  stopping = false;
  started = true;
}

abbrev service : Service
service = record { reporter = client; phase = waiting }

client-IsQueue : IsQueue client
unfolding text_eq
client-IsQueue = record { distinct = ((refl, tt), (tt, tt)); count_in = omega arith }

client-HasStation : HasStation client
unfolding valid_text_length
client-HasStation = record { call = refl; grid = refl; software = refl }

service-IsSound : IsSound service
unfolding valid_report valid_text_length
service-IsSound = record {
  queue = client-IsQueue;
  valid = (refl, (refl, tt));
  station = client-HasStation;
  still = tt;
  small = omega arith;
}

abbrev buffer : List ℕ
buffer = replicate 1400 0

abbrev events : List Event
events =
    looked buffer 1399
    ∷ looked buffer 1400
    ∷ offered (heard (codes "N0CALL") (pos 0)) 1401
    ∷ offered (heard (codes "K1ABC") (pos 2)) 1401
    ∷ answered true 1402
    ∷ offered (heard (codes "W9XYZ") (pos 9)) 1500
    ∷ stopped
    ∷ []

room : 1400 ≤ length buffer
room = omega (arith, length-replicate {A = ℕ} 1400 0)

events-HaveBuffer : All HasBuffer events
events-HaveBuffer = (room, (room, (tt, (tt, (tt, (tt, (tt, tt)))))))

senders_delivered_example :
    (senders : List Text) × AreTaken service events senders
    × IsSound (run service events)
    × (calls client.queue ++ all_gained service events
        ≡ senders ++ calls (run service events).reporter.queue)
    × ((run service events).reporter.sequence ≡ (client.sequence + length senders) % 2 ^ 32)
senders_delivered_example = senders_delivered service events service-IsSound events-HaveBuffer

packet_report_count_lem_example :
    (packet_report_count client true buffer 1400
      ≡ some (datagram_of client true buffer 1400 (batch client)))
    × (0 < batch client)
    × ((datagram_of client true buffer 1400 (batch client)).packet_size ≤ 1400)
packet_report_count_lem_example =
    packet_report_count_lem client true buffer 1400 client-HasStation service-IsSound.valid
      (omega arith) room

sending-IsSound :
    IsSound (record { reporter = client; phase = sending (datagram_of client false buffer 1400 2) })
sending-IsSound = record {
  queue = client-IsQueue;
  valid = service-IsSound.valid;
  station = client-HasStation;
  still = (omega arith, datagram_of-Carries client false buffer 1400 2);
  small = omega arith;
}

failed_send_retried_example :
    run
      (record { reporter = client; phase = sending (datagram_of client false buffer 1400 2) })
      (answered false 1401 ∷ looked buffer 1430 ∷ [])
    ≡ record {
      reporter = record client {
        packet_count = 0;
        templates_last_sent = 0;
        next_flush = 1401 + retry_seconds;
      };
      phase =
          if ltb (length client.queue) immediate_count && ltb 1430 (1401 + retry_seconds)
          then waiting
          else sending
              (datagram_of (put_off client 1401) true buffer 1430 (batch (put_off client 1401)));
    }
failed_send_retried_example =
    failed_send_retried client (datagram_of client false buffer 1400 2) buffer 1401 1430
      sending-IsSound refl (omega arith) room
