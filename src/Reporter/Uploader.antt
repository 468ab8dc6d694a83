-- ===== src/Reporter/Uploader.antt =====
-- `upload_url` and `uploader_thread`: the thread sends the item at the head without the mutex, and
-- takes it out, or sets the time of the next try, when the answer is there.
pub mod Delivery
pub mod Retry
mod Examples
use airspyhf_wsprd.Common.{
  ℕ, ◌+◌, ◌%◌, ◌^◌, Bool, true, not, ◌&&◌, ◌||◌, Option, none, some, ltb, leb, ◌==◌, if◌then◌else◌,
  get_or, set, Text, List, [], ◌∷◌,
}
use airspyhf_wsprd.Reporter.{retry_delay}
use airspyhf_wsprd.Reporter.Queue.{Item, Reporter, zero_item, enqueue_locked, remove_head}

-- `enum wspr_upload_result`
pub data UploadResult : Type 0 where
  ok : UploadResult
  retry : UploadResult
  rejected : UploadResult

-- The HTTP status, or that curl got none.
pub upload_url : Option ℕ → UploadResult
upload_url none = retry
upload_url (some http_status) =
    if leb 200 http_status && ltb http_status 300
    then ok
    else if leb 400 http_status
        && ltb http_status 500
        && not (http_status == 408)
        && not (http_status == 425)
        && not (http_status == 429)
    then rejected
    else retry

-- Where the thread is: at the top of its loop or waiting on the condition, sending a copy of an
-- item without the mutex, or past the loop.
pub data Phase : Type 0 where
  waiting : Phase
  sending : Item → Phase
  finished : Phase

abbrev pub head_item : Reporter → Item
head_item reporter = get_or reporter.queue reporter.head zero_item

-- The thread looks at the queue, at the call and at each wake-up: it ends, waits or begins to send.
pub look : Reporter → ℕ → Phase
look reporter now =
    if reporter.stopping
    then finished
    else if reporter.count == 0
    then waiting
    else if ltb now (head_item reporter).retry_at
    then waiting
    else sending (head_item reporter)

-- The head is kept for a later try.
pub retain : Option ℕ → Reporter → ℕ → Reporter
retain configured reporter now =
    let attempts = ((head_item reporter).attempts + 1) % 2 ^ 32 in
    record reporter {
      queue = set reporter.queue reporter.head (record (head_item reporter) {
        attempts = attempts;
        retry_at = now + retry_delay configured attempts;
      });
    }

apply_result : Option ℕ → Reporter → UploadResult → ℕ → Reporter
apply_result configured reporter ok now = remove_head reporter
apply_result configured reporter rejected now = remove_head reporter
apply_result configured reporter retry now = retain configured reporter now

-- What follows the upload of an item, under the mutex again.
pub settle : Option ℕ → Reporter → Item → UploadResult → ℕ → Reporter
unfolding apply_result
settle configured reporter item result now =
    if reporter.count == 0 || not ((head_item reporter).sequence == item.sequence)
    then reporter
    else apply_result configured reporter result now

-- What may happen next: a spot is offered, the program stops the reporter, the thread looks at the
-- queue at a time, or its upload is answered.
pub data Event : Type 0 where
  offered : Text → Event
  stopped : Event
  looked : ℕ → Event
  answered : Option ℕ → ℕ → Event

pub record Service : Type 0 where
  pub reporter : Reporter
  pub phase : Phase

pub answer : Option ℕ → Reporter → Phase → Option ℕ → ℕ → Service
answer configured reporter (sending item) status now = record {
  reporter = settle configured reporter item (upload_url status) now;
  phase = waiting;
}
answer configured reporter phase status now = record { reporter = reporter; phase = phase }

-- A thread that sends or that has ended does not look.
pub begin : Reporter → Phase → ℕ → Phase
begin reporter waiting now = look reporter now
begin reporter phase now = phase

-- An event that cannot happen in a state leaves it as it is.
pub step : Option ℕ → Service → Event → Service
unfolding answer begin
step configured s (offered url) = record s { reporter = (enqueue_locked s.reporter url).1 }
step configured s stopped = record s { reporter = record s.reporter { stopping = true } }
step configured s (looked now) = record s { phase = begin s.reporter s.phase now }
step configured s (answered status now) = answer configured s.reporter s.phase status now
