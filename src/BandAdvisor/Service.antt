-- ===== src/BandAdvisor/Service.antt =====
-- The thread of the advisor, its start and stop, and the two ways to fetch a plan.
-- The thread asks the services without the mutex; all else is one step between two waits. What curl
-- receives, the time and the waits are arguments; times are seconds and not negative.
pub mod Advice
pub mod Ledger
mod Examples
use airspyhf_wsprd.Common.{
  ℕ, ◌+◌, ◌-◌, ◌%◌, Bool, true, false, not, ◌&&◌, ◌||◌, Option, none, some, List, [], ◌∷◌, ltb, leb,
  ◌==◌, if◌then◌else◌, length, Text,
}
use airspyhf_wsprd.HopPlan.{HopPlan}
use airspyhf_wsprd.BandAdvisor.Rows.{Row, wspr_advisor_parse_response, ft8_advisor_parse_response}
use airspyhf_wsprd.BandAdvisor.Monitor.{ft8_monitor_parse_response}

-- `ADVISOR_INTERVAL_SECONDS`
abbrev pub interval_seconds : ℕ
interval_seconds = 3600

-- `struct wspr_band_advisor`, without the handles of the system.
pub record Advisor : Type 0 where
  pub candidates : HopPlan
  pub pending : HopPlan
  pub grid : Text
  pub started : Bool
  pub stopping : Bool
  pub update_ready : Bool
  pub use_psk_reporter : Bool

-- sscanf and strtoul.
pub record Numbers : Type 0 where
  pub scan : Text → Option Row
  pub strtoul : Text → Option (ℕ × ℕ)

-- What the three services answer, if a URL can be made and curl succeeds.
pub record Web : Type 0 where
  pub rows : Option Text
  pub frequencies : Option Text
  pub monitors : Option Text

-- Where the thread is, and when it asks next.
pub data Phase : Type 0 where
  waiting : Phase
  asking : Phase
  ended : Phase

pub record Service : Type 0 where
  pub advisor : Advisor
  pub phase : Phase
  pub next_query : ℕ

pub first_query : Bool → ℕ → ℕ
first_query use_psk_reporter now =
    if use_psk_reporter then now else now + (90 + 120 - now % 120) % 120

-- The thread starts.
pub advisor_thread : Advisor → ℕ → Service
advisor_thread advisor now = record {
  advisor = advisor;
  phase = waiting;
  next_query = first_query advisor.use_psk_reporter now;
}

pub next_after : ℕ → ℕ → ℕ
next_after next_query now =
    if leb (next_query + interval_seconds) now
    then now + interval_seconds
    else next_query + interval_seconds

-- The regional answer is asked for where the monitors give no plan.
pub or_regional : Bool × HopPlan → Bool × HopPlan → Bool × HopPlan
or_regional (true, plan) regional = (true, plan)
or_regional (false, plan) regional = regional

pub publish : Advisor → Bool × HopPlan → Advisor
publish advisor (true, ranked) = record advisor { pending = ranked; update_ready = true }
publish advisor (false, ranked) = advisor

-- `wspr_band_advisor_take` behind its checks, also at the end of `wspr_band_advisor_wait`.
pub take_pending : Advisor → Advisor × Option HopPlan
take_pending advisor =
    if advisor.update_ready
    then (record advisor { update_ready = false }, some advisor.pending)
    else (advisor, none)

pub wspr_band_advisor_take : Advisor → Advisor × Option HopPlan
wspr_band_advisor_take advisor =
    if not advisor.started then (advisor, none) else take_pending advisor

-- How a wait for the condition ends.
pub data Waking : Type 0 where
  woken : Waking
  timed_out : Waking
  wait_failed : Waking

-- The loop of `wspr_band_advisor_wait`, with each end of a wait and the advisor as it is then; `none`: it
-- still waits.
pub wait_pending : Advisor → List (Waking × Advisor) → Option (Advisor × Option HopPlan)
wait_pending advisor [] =
    if advisor.stopping || advisor.update_ready then some (take_pending advisor) else none
wait_pending advisor ((woken, next) ∷ later) =
    let rest = wait_pending next later in
    if advisor.stopping || advisor.update_ready then some (take_pending advisor) else rest
wait_pending advisor ((timed_out, next) ∷ later) =
    if advisor.stopping || advisor.update_ready
    then some (take_pending advisor)
    else some (take_pending next)
wait_pending advisor ((wait_failed, next) ∷ later) =
    if advisor.stopping || advisor.update_ready
    then some (take_pending advisor)
    else some (next, none)

pub wspr_band_advisor_wait :
    Bool → Advisor → List (Waking × Advisor) → Option (Advisor × Option HopPlan)
wspr_band_advisor_wait clock_works advisor wakings =
    if not advisor.started || not clock_works
    then some (advisor, none)
    else wait_pending advisor wakings

-- What `band_advisor_start` asks of the system.
pub record Starts : Type 0 where
  pub curl_ready : Bool
  pub mutex_made : Bool
  pub condition_made : Bool
  pub thread_made : Bool

abbrev pub cleared_advisor : Bool → Text → HopPlan → Advisor
cleared_advisor use_psk_reporter grid candidates = record {
  candidates = candidates;
  pending = [];
  grid = grid;
  started = false;
  stopping = false;
  update_ready = false;
  use_psk_reporter = use_psk_reporter;
}

-- `none`: an argument is refused, or a call fails.
pub band_advisor_start : Starts → Option Text → Option HopPlan → Bool → Option Advisor
band_advisor_start starts (some grid) (some candidates) use_psk_reporter =
    if ltb (length candidates) 2
      || not starts.curl_ready
      || leb 7 (length grid)
      || not starts.mutex_made
      || not starts.condition_made
      || not starts.thread_made
    then none
    else some (record (cleared_advisor use_psk_reporter grid candidates) { started = true })
band_advisor_start starts grid candidates use_psk_reporter = none

-- The two parts of `wspr_band_advisor_stop`: before and after the thread has been joined.
pub begin_stop : Advisor → Advisor
begin_stop advisor = if not advisor.started then advisor else record advisor { stopping = true }

pub end_stop : Advisor → Advisor
end_stop advisor = record advisor { started = false }

-- `pthread_join` returns when the thread has ended.
pub join_thread : Service → Phase → Service
join_thread service ended = record service { advisor = end_stop service.advisor }
join_thread service phase = service

-- What may happen next: the thread looks at the clock, it is answered, a plan is fetched, the advisor is
-- told to stop, its thread is joined.
pub data Event : Type 0 where
  looked : ℕ → Event
  answered : Web → ℕ → Event
  fetched : Event
  stopped : Event
  joined : Event

module _ (numbers : Numbers) where
  -- The three queries, from what was received on.
  pub query_band_advice : Advisor → Web → Bool × HopPlan
  query_band_advice advisor web =
      wspr_advisor_parse_response numbers.scan (some advisor.candidates) web.rows []

  pub query_ft8_band_advice : Advisor → Web → Bool × HopPlan
  query_ft8_band_advice advisor web =
      ft8_advisor_parse_response numbers.strtoul (some advisor.candidates) web.frequencies []

  pub query_ft8_monitor_advice : Advisor → Web → Bool × HopPlan
  query_ft8_monitor_advice advisor web =
      ft8_monitor_parse_response numbers.strtoul (some advisor.candidates) web.monitors []

  pub query : Advisor → Web → Bool × HopPlan
  query advisor web =
      if advisor.use_psk_reporter
      then or_regional (query_ft8_monitor_advice advisor web) (query_ft8_band_advice advisor web)
      else query_band_advice advisor web

  -- `wait_until`, when the thread has the mutex.
  pub look : Service → Phase → ℕ → Service
  look service waiting now =
      if service.advisor.stopping
      then record service { phase = ended }
      else if ltb now service.next_query
      then service
      else record service { phase = asking }
  look service phase now = service

  -- The services have answered.
  pub answer : Service → Phase → Web → ℕ → Service
  answer service asking web now = record {
    advisor = publish service.advisor (query service.advisor web);
    phase = waiting;
    next_query = next_after service.next_query now;
  }
  answer service phase web now = service

  -- The service, and the plan that was fetched.
  pub step : Service → Event → Service × Option HopPlan
  step service (looked now) = (look service service.phase now, none)
  step service (answered web now) = (answer service service.phase web now, none)
  step service fetched =
      let (advisor, plan) = wspr_band_advisor_take service.advisor in
      (record service { advisor = advisor }, plan)
  step service stopped = (record service { advisor = begin_stop service.advisor }, none)
  step service joined = (join_thread service service.phase, none)
