-- ===== src/PskReporter/Flush.antt =====
-- `reporter_thread` with `mark_recent` and `packet_report_count`.
-- The thread sends a datagram without the mutex; all else is one step between two waits. What the
-- transport answers and the time are arguments.
pub mod Count
pub mod Turns
pub mod Delivery
pub mod Retry
mod Examples
use airspyhf_wsprd.Common.{
  ℕ, zero, suc, ◌+◌, ◌-◌, ◌%◌, ◌^◌, Bool, true, false, not, ◌&&◌, ◌||◌, Option, none, some, List,
  [], ◌∷◌, ltb, leb, ◌==◌, if◌then◌else◌, length, get_or, set, take, drop, replicate, Text, text_eq,
  codes,
}
use airspyhf_wsprd.Common.Int.{pos}
use airspyhf_wsprd.PskReporter.Packet.{PskReport, Request, build_packet, valid_text_length}
use airspyhf_wsprd.PskReporter.Queue.{RecentSender, PskReporter, flush_seconds, enqueue_checked}

-- `PSK_REPORT_RETRY_SECONDS`, `PSK_REPORT_TEMPLATE_SECONDS`, `PSK_REPORT_IMMEDIATE_COUNT` and
-- `PSK_REPORT_PACKET_CAPACITY`
abbrev pub retry_seconds : ℕ
retry_seconds = 60

abbrev pub template_seconds : ℕ
template_seconds = 3600

abbrev pub immediate_count : ℕ
immediate_count = 40

abbrev pub packet_capacity : ℕ
packet_capacity = 1400

abbrev pub no_sender : RecentSender
no_sender = record { callsign = []; sent_at = 0 }

-- The inner loop of `mark_recent`: the slot of the sender or the first free one, and where there is
-- none the first of the oldest.
pub find_slot : Text → List RecentSender → ℕ → ℕ → ℕ → ℕ
find_slot sender_call [] index slot oldest = slot
find_slot sender_call (sender ∷ recent) index slot oldest =
    let older = ltb sender.sent_at oldest in
    let rest =
      find_slot sender_call recent (index + 1) (if older then index else slot)
        (if older then sender.sent_at else oldest) in
    if text_eq sender.callsign sender_call || length sender.callsign == 0 then index else rest

pub mark_recent : List RecentSender → List PskReport → ℕ → List RecentSender
mark_recent recent [] sent_at = recent
mark_recent recent (report ∷ reports) sent_at =
    let slot = find_slot report.sender_call recent 0 0 (get_or recent 0 no_sender).sent_at in
    mark_recent (set recent slot (record { callsign = report.sender_call; sent_at = sent_at }))
      reports sent_at

-- The datagram of the first `count` reports of the queue.
abbrev pub request_of : PskReporter → ℕ → Bool → ℕ → Request
request_of reporter count include_templates now = record {
  receiver_call = reporter.receiver_call;
  receiver_grid = reporter.receiver_grid;
  software = reporter.software;
  reports = take count reporter.queue;
  sequence = reporter.sequence;
  observation_id = reporter.observation_id;
  export_time = pos now;
  include_templates = include_templates;
}

-- What is sent: how many reports, the buffer, and the size of the datagram at its start.
pub record Datagram : Type 0 where
  pub report_count : ℕ
  pub packet : List ℕ
  pub packet_size : ℕ
  pub templates : Bool

-- What one round of the loop gives: the datagram, if it was built, or what the next round gives.
pub or_fewer : ℕ → Bool → Option (List ℕ × ℕ) → Option Datagram → Option Datagram
or_fewer count include_templates none fewer = fewer
or_fewer count include_templates (some (packet, size)) fewer = some (record {
  report_count = count;
  packet = packet;
  packet_size = size;
  templates = include_templates;
})

-- The loop of `packet_report_count`, from `count` down. `none`: the count is 0.
pub fitting_count : PskReporter → Bool → List ℕ → ℕ → ℕ → Option Datagram
fitting_count reporter include_templates packet now zero = none
fitting_count reporter include_templates packet now (suc count) =
    or_fewer (suc count) include_templates
      (build_packet true (some packet) packet_capacity
        (some (request_of reporter (suc count) include_templates now)))
      (fitting_count reporter include_templates packet now count)

pub packet_report_count : PskReporter → Bool → List ℕ → ℕ → Option Datagram
packet_report_count reporter include_templates packet now =
    fitting_count reporter include_templates packet now (
      if ltb (length reporter.queue) immediate_count
      then length reporter.queue
      else immediate_count)

-- Where the thread is: waiting, sending without the mutex, or past its loop.
pub data Phase : Type 0 where
  waiting : Phase
  sending : Datagram → Phase
  finished : Phase

-- Five minutes, and up to thirty seconds that spread the stations.
abbrev pub flush_after : PskReporter → ℕ → ℕ
flush_after reporter now = now + flush_seconds + reporter.observation_id % 31

pub templates_due : PskReporter → ℕ → Bool
templates_due reporter now =
    ltb reporter.packet_count 3 || leb (reporter.templates_last_sent + template_seconds) now

-- What follows the search of a datagram: where none is found the first report is dropped.
pub begin_sending : PskReporter → Option Datagram → PskReporter × Phase
begin_sending reporter none = (record reporter { queue = drop 1 reporter.queue }, waiting)
begin_sending reporter (some datagram) = (reporter, sending datagram)

-- The thread at the top of its loop or at a wake-up, with the bytes that its buffer holds. When it
-- stops, nothing reads `next_flush` again.
pub flush : PskReporter → List ℕ → ℕ → PskReporter × Phase
flush reporter packet now =
    if reporter.stopping
    then (reporter, finished)
    else if ltb (length reporter.queue) immediate_count && ltb now reporter.next_flush
    then (reporter, waiting)
    else if length reporter.queue == 0
    then (record reporter { next_flush = flush_after reporter now }, waiting)
    else begin_sending reporter
        (packet_report_count reporter (templates_due reporter now) packet now)

-- The answer of the transport, under the mutex again.
pub settle : PskReporter → Datagram → Bool → ℕ → PskReporter
settle reporter datagram sent now =
    if not sent
    then record reporter {
      packet_count = 0;
      templates_last_sent = 0;
      next_flush = now + retry_seconds;
    }
    else record reporter {
      recent = mark_recent reporter.recent (take datagram.report_count reporter.queue) now;
      sequence = (reporter.sequence + datagram.report_count) % 2 ^ 32;
      packet_count = (reporter.packet_count + 1) % 2 ^ 32;
      templates_last_sent = if datagram.templates then now else reporter.templates_last_sent;
      queue = drop datagram.report_count reporter.queue;
      next_flush = flush_after reporter now;
    }

-- What may happen next: a report is offered, the program stops the reporter, the thread looks at the
-- queue, or its transport answers.
pub data Event : Type 0 where
  offered : PskReport → ℕ → Event
  stopped : Event
  looked : List ℕ → ℕ → Event
  answered : Bool → ℕ → Event

pub record Service : Type 0 where
  pub reporter : PskReporter
  pub phase : Phase

-- A thread that sends or that has ended does not look, and one that does not send gets no answer.
pub look : PskReporter → Phase → List ℕ → ℕ → Service
look reporter waiting packet now =
    let (reporter', phase) = flush reporter packet now in
    record { reporter = reporter'; phase = phase }
look reporter phase packet now = record { reporter = reporter; phase = phase }

pub answer : PskReporter → Phase → Bool → ℕ → Service
answer reporter (sending datagram) sent now = record {
  reporter = settle reporter datagram sent now;
  phase = waiting;
}
answer reporter phase sent now = record { reporter = reporter; phase = phase }

pub step : Service → Event → Service
step s (offered report now) = record s { reporter = (enqueue_checked s.reporter report now).1 }
step s stopped = record s { reporter = record s.reporter { stopping = true } }
step s (looked packet now) = look s.reporter s.phase packet now
step s (answered sent now) = answer s.reporter s.phase sent now
