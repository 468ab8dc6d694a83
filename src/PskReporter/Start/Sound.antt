-- ===== src/PskReporter/Start/Sound.antt =====
-- A client that starts is sound, and what its thread then sends.
use airspyhf_wsprd.Common.{
  ◌+◌, ◌%◌, ◌≤◌, ◌<◌, ◌≡◌, refl, true, some, [], arith, length, length-take, Text,
}
use airspyhf_wsprd.PskReporter.Packet.{valid_text_length}
use airspyhf_wsprd.PskReporter.Queue.{PskReporter}
use airspyhf_wsprd.PskReporter.Flush.{waiting}
use airspyhf_wsprd.PskReporter.Flush.Turns.{IsSound}
use airspyhf_wsprd.PskReporter.Start.{
  System, hostname_of, port_of, with_texts, start_valid, psk_reporter_start,
}

-- The client that a successful start leaves.
abbrev pub started_client : System → Text → Text → Text → PskReporter
started_client sys call grid software = record (with_texts sys call grid software) {
  observation_id = sys.session_identifier;
  next_flush = sys.now + 300 + sys.session_identifier % 31;
  started = true;
}

start_cases :
    (sys : System) (old : PskReporter) (call grid software : Text) {r : PskReporter}
    → psk_reporter_start sys (some old) (some call) (some grid) (some software) ≡ (true, some r)
    → (valid_text_length (some call) 12 ≡ true)
      × (valid_text_length (some grid) 6 ≡ true)
      × (valid_text_length (some software) 63 ≡ true)
      × (length (hostname_of sys) < 256)
      × (length (port_of sys) < 8)
      × (r ≡ started_client sys call grid software)
unfolding psk_reporter_start start_valid
start_cases sys old call grid software h = ground arith

started-IsSound :
    (sys : System) (call grid software : Text)
    → valid_text_length (some call) 12 ≡ true
    → valid_text_length (some grid) 6 ≡ true
    → valid_text_length (some software) 63 ≡ true
    → IsSound (record { reporter = started_client sys call grid software; phase = waiting })
unfolding with_texts
started-IsSound sys call grid software valid_call valid_grid valid_software = record {
  queue = record { distinct = tt; count_in = omega arith };
  valid = tt;
  station = record { call = valid_call; grid = valid_grid; software = valid_software };
  still = tt;
  small = omega arith;
}

length-host :
    (sys : System) (call grid software : Text)
    → length (started_client sys call grid software).hostname < 256
unfolding with_texts
length-host sys call grid software = omega (arith, length-take 255 (hostname_of sys))

length-port :
    (sys : System) (call grid software : Text)
    → length (started_client sys call grid software).port < 8
unfolding with_texts
length-port sys call grid software = ground (arith, length-take 7 (port_of sys))

-- A client that starts has an empty queue, a checked station and texts that fit their arrays, so it
-- is sound while its thread waits; its first flush is due five minutes later, or up to thirty seconds
-- after that.
start-IsSound :
    (sys : System) (old : PskReporter) (call grid software : Text) {r : PskReporter}
    → psk_reporter_start sys (some old) (some call) (some grid) (some software) ≡ (true, some r)
    → IsSound (record { reporter = r; phase = waiting })
      × (r.queue ≡ [])
      × (r.started ≡ true)
      × (sys.now + 300 ≤ r.next_flush)
      × (r.next_flush ≤ sys.now + 330)
      × (length r.hostname < 256)
      × (length r.port < 8)
unfolding with_texts
start-IsSound sys old call grid software h =
    let (valid_call, valid_grid, valid_software, short_host, short_port, e) =
      start_cases sys old call grid software h in
    rw e (
      started-IsSound sys call grid software valid_call valid_grid valid_software,
      refl,
      refl,
      omega arith,
      omega arith,
      length-host sys call grid software,
      length-port sys call grid software,
    )
