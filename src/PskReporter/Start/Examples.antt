-- ===== src/PskReporter/Start/Examples.antt =====
-- A start with an empty setting, and a host name of its own.
use airspyhf_wsprd.Common.{◌≡◌, refl, true, some, [], codes}
use airspyhf_wsprd.PskReporter.Packet.{valid_text_length}
use airspyhf_wsprd.PskReporter.Queue.{PskReporter}
use airspyhf_wsprd.PskReporter.Start.{
  System, zeroed, setting, with_texts, start_valid, psk_reporter_start,
}
use airspyhf_wsprd.PskReporter.Start.Sound.{started_client}

abbrev granted : System
granted = record {
  queue_found = true;
  mutex_made = true;
  condition_made = true;
  thread_made = true;
  hostname_set = some (codes "psk.example");
  port_set = some [];
  session_identifier = 77;
  now = 1000;
}

abbrev client : PskReporter
client = started_client granted (codes "VU3CER") (codes "MK68") (codes "airspyhf")

starts :
    psk_reporter_start granted
      (some zeroed)
      (some (codes "VU3CER"))
      (some (codes "MK68"))
      (some (codes "airspyhf"))
    ≡ (true, some client)
unfolding psk_reporter_start start_valid setting with_texts valid_text_length
starts = refl
