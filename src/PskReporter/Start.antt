-- ===== src/PskReporter/Start.antt =====
-- `psk_reporter_start` and `psk_reporter_stop`.
pub mod Sound
mod Examples
use airspyhf_wsprd.Common.{
  ℕ, ◌+◌, Bool, true, false, not, ◌&&◌, ◌||◌, Option, none, some, [], leb, ◌==◌, if◌then◌else◌,
  length, take, replicate, Text, codes,
}
use airspyhf_wsprd.PskReporter.Packet.{valid_text_length}
use airspyhf_wsprd.PskReporter.Queue.{PskReporter}
use airspyhf_wsprd.PskReporter.Flush.{no_sender, flush_after}

abbrev pub zeroed : PskReporter
zeroed = record {
  queue = [];
  sequence = 0;
  observation_id = 0;
  packet_count = 0;
  templates_last_sent = 0;
  next_flush = 0;
  receiver_call = [];
  receiver_grid = [];
  software = [];
  hostname = [];
  port = [];
  recent = replicate 256 no_sender;
  stopping = false;
  started = false;
}

-- What the system answers to the requests of `start`.
pub record System : Type 0 where
  pub queue_found : Bool
  pub mutex_made : Bool
  pub condition_made : Bool
  pub thread_made : Bool
  pub hostname_set : Option Text
  pub port_set : Option Text
  pub session_identifier : ℕ
  pub now : ℕ

-- A setting that is missing or empty is replaced.
pub setting : Option Text → Text → Text
setting none default_text = default_text
setting (some text) default_text = if length text == 0 then default_text else text

abbrev hostname_of : System → Text
hostname_of sys = setting sys.hostname_set (codes "report.pskreporter.info")

abbrev port_of : System → Text
port_of sys = setting sys.port_set (codes "4739")

-- The struct with its texts; a text that is too long is cut, and the code goes no further.
pub with_texts : System → Text → Text → Text → PskReporter
with_texts sys receiver_call receiver_grid software = record zeroed {
  receiver_call = receiver_call;
  receiver_grid = receiver_grid;
  software = software;
  hostname = take 255 (hostname_of sys);
  port = if leb 256 (length (hostname_of sys)) then [] else take 7 (port_of sys);
}

-- The texts of the receiver are checked before, and fit their arrays.
start_valid : System → Text → Text → Text → Bool × PskReporter
start_valid sys receiver_call receiver_grid software =
    let reporter = with_texts sys receiver_call receiver_grid software in
    let timed = record reporter {
      observation_id = sys.session_identifier;
      next_flush =
          flush_after (record reporter { observation_id = sys.session_identifier }) sys.now;
    } in
    if not sys.queue_found
    then (false, zeroed)
    else if leb 256 (length (hostname_of sys))
        || leb 8 (length (port_of sys))
        || not sys.mutex_made
        || not sys.condition_made
    then (false, reporter)
    else if not sys.thread_made
    then (false, timed)
    else (true, record timed { started = true })

-- The result, and what `*reporter` holds afterwards: arguments that are refused leave it alone.
pub psk_reporter_start :
    System
    → Option PskReporter
    → Option Text
    → Option Text
    → Option Text
    → Bool × Option PskReporter
unfolding start_valid
psk_reporter_start sys (some old) (some receiver_call) (some receiver_grid) (some software) =
    if not (valid_text_length (some receiver_call) 12)
      || not (valid_text_length (some receiver_grid) 6)
      || not (valid_text_length (some software) 63)
    then (false, some old)
    else (let (started, reporter) = start_valid sys receiver_call receiver_grid software in
        (started, some reporter))
psk_reporter_start sys old receiver_call receiver_grid software = (false, old)

-- The reports that still wait are given up, once the thread has ended.
pub psk_reporter_stop : Option PskReporter → Option PskReporter
psk_reporter_stop none = none
psk_reporter_stop (some reporter) = some (
    if not reporter.started
    then reporter
    else record reporter { stopping = true; queue = []; started = false })
