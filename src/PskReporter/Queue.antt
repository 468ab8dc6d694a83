-- ===== src/PskReporter/Queue.antt =====
-- `psk_reporter_enqueue` and `psk_reporter_pending`.
-- The queue is the list of the reports in use, in the order of the array.
pub mod Distinct
pub mod Best
pub mod Growth
mod Examples
use airspyhf_wsprd.Common.{
  ℕ, ◌+◌, ◌<◌, Bool, true, false, not, ◌&&◌, ◌||◌, Option, none, some, List, [], ◌∷◌, ◌++◌, ltb,
  leb, if◌then◌else◌, length, Text, text_eq,
}
use airspyhf_wsprd.Common.Int.{ltb_ℤ}
use airspyhf_wsprd.PskReporter.Packet.{PskReport, valid_report}

-- `struct psk_recent_sender`
pub record RecentSender : Type 0 where
  pub callsign : Text
  pub sent_at : ℕ

-- `struct psk_reporter`, without its transport and the handles of the system.
pub record PskReporter : Type 0 where
  pub queue : List PskReport
  pub sequence : ℕ
  pub observation_id : ℕ
  pub packet_count : ℕ
  pub templates_last_sent : ℕ
  pub next_flush : ℕ
  pub receiver_call : Text
  pub receiver_grid : Text
  pub software : Text
  pub hostname : Text
  pub port : Text
  pub recent : List RecentSender
  pub stopping : Bool
  pub started : Bool

-- `PSK_REPORT_QUEUE_CAPACITY` and `PSK_REPORT_FLUSH_SECONDS`
abbrev pub queue_capacity : ℕ
queue_capacity = 512

abbrev pub flush_seconds : ℕ
flush_seconds = 300

-- The loop over the senders of late: one was sent less than a flush ago.
pub is_recent : List RecentSender → Text → ℕ → Bool
is_recent [] sender_call now = false
is_recent (sender ∷ recent) sender_call now =
    (text_eq sender.callsign sender_call && ltb now (sender.sent_at + flush_seconds))
    || is_recent recent sender_call now

-- The loop over the queue: a report of the same sender is replaced by a stronger one. `none`: there
-- is no such report.
pub replace_weaker : List PskReport → PskReport → Option (List PskReport)
replace_weaker [] report = none
replace_weaker (queued ∷ queue) report =
    if text_eq queued.sender_call report.sender_call
    then some ((if ltb_ℤ queued.snr report.snr then report else queued) ∷ queue)
    else elim (replace_weaker queue report) [ none ↦ none | some rest ↦ some (queued ∷ rest) ]

-- Behind both loops: the report is put at the end.
pub append_report : PskReporter → PskReport → Option (List PskReport) → Bool × PskReporter
append_report reporter report (some queue) = (true, record reporter { queue = queue })
append_report reporter report none =
    if leb queue_capacity (length reporter.queue) || reporter.stopping
    then (false, reporter)
    else (true, record reporter { queue = reporter.queue ++ (report ∷ []) })

-- What `psk_reporter_enqueue` does under the mutex.
pub enqueue_report : PskReporter → PskReport → ℕ → Bool × PskReporter
enqueue_report reporter report now =
    if is_recent reporter.recent report.sender_call now
    then (true, reporter)
    else append_report reporter report (replace_weaker reporter.queue report)

-- What a reporter that is there does with a report that is there.
pub enqueue_checked : PskReporter → PskReport → ℕ → Bool × PskReporter
enqueue_checked reporter report now =
    if not reporter.started || not (valid_report report)
    then (false, reporter)
    else enqueue_report reporter report now

pub psk_reporter_enqueue : Option PskReporter → Option PskReport → ℕ → Bool × Option PskReporter
psk_reporter_enqueue none report now = (false, none)
psk_reporter_enqueue (some reporter) none now = (false, some reporter)
psk_reporter_enqueue (some reporter) (some report) now =
    let (accepted, reporter') = enqueue_checked reporter report now in (accepted, some reporter')

pub psk_reporter_pending : Option PskReporter → ℕ
psk_reporter_pending none = 0
psk_reporter_pending (some reporter) = if not reporter.started then 0 else length reporter.queue
