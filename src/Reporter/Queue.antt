-- ===== src/Reporter/Queue.antt =====
-- The ring of waiting spots: `wspr_reporter_start`, `wspr_reporter_enqueue`,
-- `wspr_reporter_pending`, `remove_head`.
pub mod Order
use airspyhf_wsprd.Common.{
  ℕ, ◌+◌, ◌-◌, ◌%◌, ◌^◌, Bool, true, false, not, ◌||◌, Option, none, some, List, [], ltb, leb, ◌==◌,
  if◌then◌else◌, length, get_or, set, replicate, take, Text, codes,
}
use airspyhf_wsprd.Reporter.Url.{Report, format_url}

-- `struct wspr_report_queue_item`
pub record Item : Type 0 where
  pub url : Text
  pub sequence : ℕ
  pub attempts : ℕ
  pub retry_at : ℕ

-- `struct wspr_reporter`, without the handles of the libraries.
pub record Reporter : Type 0 where
  pub queue : List Item
  pub head : ℕ
  pub count : ℕ
  pub capacity : ℕ
  pub next_sequence : ℕ
  pub stopping : Bool
  pub started : Bool
  pub endpoint : Text
  pub version : Text

abbrev pub zero_item : Item
zero_item = record { url = []; sequence = 0; attempts = 0; retry_at = 0 }

abbrev pub zeroed : Reporter
zeroed = record {
  queue = [];
  head = 0;
  count = 0;
  capacity = 0;
  next_sequence = 0;
  stopping = false;
  started = false;
  endpoint = [];
  version = [];
}

-- `WSPR_REPORT_QUEUE_CAPACITY`
abbrev pub queue_capacity : ℕ
queue_capacity = 4096

-- What the libraries answer to the requests of `start`.
pub record System : Type 0 where
  pub curl_ready : Bool
  pub queue_found : Bool
  pub mutex_made : Bool
  pub condition_made : Bool
  pub handle_made : Bool
  pub thread_made : Bool
  pub endpoint_set : Option Text

abbrev pub default_endpoint : Text
default_endpoint = codes "https://wsprnet.org/post"

-- An endpoint that is missing or empty is replaced.
unfoldable pub chosen_endpoint : Option Text → Text
chosen_endpoint none = default_endpoint
chosen_endpoint (some endpoint) = if length endpoint == 0 then default_endpoint else endpoint

-- What the texts have to leave room for: the NUL in `endpoint[256]` and in `version[32]`.
unfoldable pub too_long : Text → Text → Bool
too_long endpoint version = leb 256 (length endpoint) || leb 32 (length version)

-- What is left where a text is too long: it is cut, and the code goes no further.
pub cut_texts : Text → Text → Reporter
cut_texts endpoint version = record zeroed {
  capacity = queue_capacity;
  endpoint = take 255 endpoint;
  version = if leb 256 (length endpoint) then [] else take 31 version;
}

-- The result of `start` on a version that is there; a failure behind `calloc` frees the queue.
unfoldable pub start : System → Text → Bool × Reporter
unfolding too_long
start sys version =
    let endpoint = chosen_endpoint sys.endpoint_set in
    if not sys.curl_ready || not sys.queue_found
    then (false, record zeroed { capacity = queue_capacity })
    else if too_long endpoint version
    then (false, cut_texts endpoint version)
    else if not sys.mutex_made
        || not sys.condition_made
        || not sys.handle_made
        || not sys.thread_made
    then (
      false,
      record zeroed { capacity = queue_capacity; endpoint = endpoint; version = version },
    )
    else (
      true,
      record zeroed {
        queue = replicate queue_capacity zero_item;
        capacity = queue_capacity;
        endpoint = endpoint;
        version = version;
        started = true;
      },
    )

-- The item that `enqueue` puts in.
abbrev pub fresh_item : Reporter → Text → Item
fresh_item reporter url = record zero_item {
  url = url;
  sequence = (reporter.next_sequence + 1) % 2 ^ 64;
}

-- The item is written behind the last one.
unfoldable pub append_item : Reporter → Text → Reporter
append_item reporter url = record reporter {
  next_sequence = (reporter.next_sequence + 1) % 2 ^ 64;
  queue =
      set reporter.queue ((reporter.head + reporter.count) % reporter.capacity)
        (fresh_item reporter url);
  count = reporter.count + 1;
}

-- What `enqueue` does under the mutex.
unfoldable pub enqueue_locked : Reporter → Text → Bool × Reporter
enqueue_locked reporter url =
    if reporter.count == reporter.capacity || reporter.stopping
    then (false, reporter)
    else (true, append_item reporter url)

accept : Reporter → Option Text → Bool × Reporter
accept reporter none = (false, reporter)
accept reporter (some url) = enqueue_locked reporter url

module _ {F : Type 0} (fixed : ℕ → F → Text) where
  -- A report that is not there, or whose URL is not made, is refused.
  pub enqueue : Reporter → Option (Report F) → Bool × Reporter
  unfolding accept
  enqueue reporter report =
      if not reporter.started
      then (false, reporter)
      else accept reporter
          (format_url fixed true 768 (some reporter.endpoint) (some reporter.version) report)

pub pending : Option Reporter → ℕ
pending none = 0
pending (some reporter) = if not reporter.started then 0 else reporter.count

unfoldable pub remove_head : Reporter → Reporter
remove_head reporter = record reporter {
  head = (reporter.head + 1) % reporter.capacity;
  count = reporter.count - 1;
}

-- The waiting spots are given up, once the thread has ended.
pub stop : Option Reporter → Option Reporter
stop none = none
stop (some reporter) = some (
    if not reporter.started
    then reporter
    else record reporter { stopping = true; queue = []; started = false })
