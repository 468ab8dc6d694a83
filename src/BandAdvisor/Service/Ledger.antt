-- ===== src/BandAdvisor/Service/Ledger.antt =====
-- What the thread has published and what has been fetched, over any course of events.
pub mod Pace
pub mod Tally
use airspyhf_wsprd.Common.{
  length, ℕ, suc, ◌+◌, ◌*◌, ◌≤◌, ◌<◌, ◌%◌, ◌≡◌, refl, sym, subst, ap, ◌∙◌, ◌⊎◌, Bool, true, false,
  not, Option, Text, none, some, List, [], ◌∷◌, ◌++◌, All, arith, inl, inr, ltb, leb, if◌then◌else◌,
  Bool-cases,
}
use mathlib.Core.Option.{some-injective}
use airspyhf_wsprd.HopPlan.{HopPlan}
use airspyhf_wsprd.BandAdvisor.Rows.Advice.{IsAdvice}
use airspyhf_wsprd.BandAdvisor.Service.{
  interval_seconds, Advisor, Numbers, Web, Phase, waiting, asking, ended, Service, first_query,
  Starts, cleared_advisor, band_advisor_start, advisor_thread, next_after, publish, take_pending,
  wspr_band_advisor_take, begin_stop, end_stop, join_thread, query, look, answer, Event, looked,
  answered, fetched, stopped, joined, step,
}
use airspyhf_wsprd.BandAdvisor.Service.Advice.{Advises, query-Advises}

-- How many queries were answered; the times at which queries began, the plans that were published and those
-- that were fetched, newest first.
pub record Ledger : Type 0 where
  pub service : Service
  pub queries : ℕ
  pub begun : List ℕ
  pub published : List HopPlan
  pub taken : List HopPlan

-- The second list without some of its plans.
pub data IsSelection : List HopPlan → List HopPlan → Type 0 where
  nothing : IsSelection [] []
  kept :
      {part whole : List HopPlan} (plan : HopPlan)
      → IsSelection part whole
      → IsSelection (plan ∷ part) (plan ∷ whole)
  left_out :
      {part whole : List HopPlan} (plan : HopPlan)
      → IsSelection part whole
      → IsSelection part (plan ∷ whole)

pub plan_of : Bool × HopPlan → List HopPlan
plan_of (true, plan) = plan ∷ []
plan_of (false, plan) = []

pub fetched_plan : Option HopPlan → List HopPlan
fetched_plan (some plan) = plan ∷ []
fetched_plan none = []

-- The plan that waits to be fetched.
abbrev pub held : Advisor → List HopPlan
held advisor = if advisor.update_ready then advisor.pending ∷ [] else []

-- A query begins when the thread, which has waited, looks at the clock and goes on to ask.
pub begins : Event → Phase → Phase → List ℕ
begins (looked now) waiting asking = now ∷ []
begins event before after = []

module _ (numbers : Numbers) where
  -- How many queries an event ends, and what they publish.
  pub count_query : Event → Phase → ℕ → ℕ
  count_query (answered web now) asking n = 1 + n
  count_query event phase n = n

  pub publishes : Event → Advisor → Phase → List HopPlan
  publishes (answered web now) advisor asking = plan_of (query numbers advisor web)
  publishes event advisor phase = []

  pub record_event : Ledger → Event → Ledger
  record_event ledger event =
      let (next, plan) = step numbers ledger.service event in
      record {
        service = next;
        queries = count_query event ledger.service.phase ledger.queries;
        begun = begins event ledger.service.phase next.phase ++ ledger.begun;
        published = publishes event ledger.service.advisor ledger.service.phase ++ ledger.published;
        taken = fetched_plan plan ++ ledger.taken;
      }

  pub record_events : Ledger → List Event → Ledger
  record_events ledger [] = ledger
  record_events ledger (event ∷ events) = record_events (record_event ledger event) events

abbrev pub opened : Advisor → ℕ → Ledger
opened advisor now = record {
  service = advisor_thread advisor now;
  queries = 0;
  begun = [];
  published = [];
  taken = [];
}

-- What holds at any time: only advice on the candidates has been published; the plans that were fetched,
-- with the one that waits, are among those that were published, in their order and each at most once; after
-- n answers the next query is due no earlier than n intervals after the first.
pub record Tallies (candidates : HopPlan) (first : ℕ) (advisor : Advisor) (next_query queries : ℕ)
    (published taken : List HopPlan) : Type 0 where
  pub same_candidates : advisor.candidates ≡ candidates
  pub advice : All (IsAdvice candidates) published
  pub once : IsSelection (held advisor ++ taken) published
  pub patient : first + queries * interval_seconds ≤ next_query

abbrev pub IsTally : HopPlan → ℕ → Ledger → Type 0
IsTally candidates first ledger =
    Tallies candidates first ledger.service.advisor ledger.service.next_query ledger.queries
      ledger.published ledger.taken

-- Before the n-th of these times there are n - 1 intervals since the first.
abbrev pub AreSpaced : ℕ → List ℕ → Type 0
AreSpaced first [] = Unit
AreSpaced first (time ∷ begun) =
    (first + length begun * interval_seconds ≤ time) × AreSpaced first begun

abbrev pub unanswered : Phase → ℕ
unanswered asking = 1
unanswered phase = 0

-- Every query that began has been answered, but for one that waits for its answer; and none began too early.
pub record Rhythm (first : ℕ) (phase : Phase) (queries : ℕ) (begun : List ℕ) : Type 0 where
  pub begun_count : length begun ≡ queries + unanswered phase
  pub spaced : AreSpaced first begun

abbrev pub IsPaced : ℕ → Ledger → Type 0
IsPaced first ledger = Rhythm first ledger.service.phase ledger.queries ledger.begun

abbrev pub IsLedger : HopPlan → ℕ → Ledger → Type 0
IsLedger candidates first ledger = IsTally candidates first ledger × IsPaced first ledger
