-- ===== src/Reporter/Uploader/Examples.antt =====
-- A ring of three items that starts at its last one, with two spots waiting.
use airspyhf_wsprd.Common.{
  zero, suc, ◌+◌, ◌%◌, ◌^◌, ◌≡◌, refl, true, none, some, List, [], ◌∷◌, ◌++◌, arith, codes, ltb,
  if◌then◌else◌,
}
use airspyhf_wsprd.Reporter.{base_delay, double_delay, retry_delay}
use airspyhf_wsprd.Reporter.Queue.{
  Item, Reporter, zero_item, zeroed, System, start, too_long, chosen_endpoint, enqueue_locked,
  append_item, remove_head,
}
use airspyhf_wsprd.Reporter.Queue.Order.{IsRing, urls, started_reporter}
use airspyhf_wsprd.Reporter.Uploader.{
  upload_url, waiting, sending, Event, offered, stopped, looked, answered, Service, step, settle,
  apply_result, answer, begin, look, retain,
}
use airspyhf_wsprd.Reporter.Uploader.Delivery.{
  IsSound, closed, run, all_accepted, all_closed, spots_delivered,
}
use airspyhf_wsprd.Reporter.Uploader.Retry.{
  retained_item, IsDue, idle, rounds, failed_upload_waits, queue_drains,
}

abbrev first_item : Item
first_item = record zero_item { url = codes "/first"; sequence = 1 }

abbrev second_item : Item
second_item = record zero_item { url = codes "/second"; sequence = 2 }

abbrev reporter : Reporter
reporter = record zeroed {
  queue = second_item ∷ zero_item ∷ first_item ∷ [];
  head = 2;
  count = 2;
  capacity = 3;
  next_sequence = 2;
  started = true;
}

reporter-IsRing : IsRing reporter
reporter-IsRing = record { queue_len = refl; head_in = omega arith; count_in = omega arith }

abbrev service : Service
service = idle reporter

service-IsSound : IsSound service
service-IsSound = record { ring = reporter-IsRing; still = tt }

-- The ring is filled, one spot more is refused, the first upload fails and is tried again, the
-- second spot is refused by the server.
abbrev events : List Event
events =
    looked 10
    ∷ offered (codes "/third")
    ∷ offered (codes "/fourth")
    ∷ answered none 20
    ∷ looked 24
    ∷ looked 25
    ∷ answered (some 200) 30
    ∷ looked 30
    ∷ answered (some 404) 31
    ∷ stopped
    ∷ looked 32
    ∷ []

closed_events : all_closed none service events ≡ codes "/first" ∷ codes "/second" ∷ []
unfolding all_closed enqueue_locked append_item remove_head step settle apply_result answer begin
    look upload_url retry_delay double_delay base_delay closed retain
closed_events = refl

spots_delivered_example :
    urls reporter ++ all_accepted none service events
    ≡ all_closed none service events ++ urls (run none service events).reporter
spots_delivered_example = spots_delivered none service events service-IsSound

sending-IsSound : IsSound (record { reporter = reporter; phase = sending first_item })
sending-IsSound = record { ring = reporter-IsRing; still = (omega arith, refl) }

failed_upload_waits_example :
    (run none
      (record { reporter = reporter; phase = sending first_item })
      (answered (some 503) 20 ∷ looked 30 ∷ [])).phase
    ≡ (if ltb 30 (20 + retry_delay none ((first_item.attempts + 1) % 2 ^ 32))
        then waiting
        else sending (retained_item none first_item 20))
unfolding upload_url
failed_upload_waits_example =
    failed_upload_waits none reporter first_item (some 503) 20 30 sending-IsSound refl refl

reporter-IsDue : IsDue reporter 10
reporter-IsDue zero = omega arith
reporter-IsDue (suc zero) = omega arith
reporter-IsDue (suc (suc zero)) = omega arith
reporter-IsDue (suc (suc (suc i))) = omega arith

queue_drains_example :
    ((run none service (rounds reporter.count (some 200) 10)).reporter.count ≡ 0)
    × (all_closed none service (rounds reporter.count (some 200) 10) ≡ urls reporter)
unfolding upload_url
queue_drains_example =
    queue_drains none reporter (some 200) 10 reporter-IsRing refl reporter-IsDue refl

abbrev all_granted : System
all_granted = record {
  curl_ready = true;
  queue_found = true;
  mutex_made = true;
  condition_made = true;
  handle_made = true;
  thread_made = true;
  endpoint_set = some [];
}

granted :
    start all_granted (codes "0.9")
    ≡ (true, started_reporter (chosen_endpoint (some [])) (codes "0.9"))
unfolding start too_long chosen_endpoint
granted = refl
