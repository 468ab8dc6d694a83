-- ===== src/BandAdvisor/Service/Ledger/Tally.antt =====
-- The tallies hold at any time after the start of the advisor.
use airspyhf_wsprd.Common.{
  ℕ, ◌+◌, ◌≤◌, ◌<◌, ◌%◌, ◌≡◌, refl, sym, subst, ap, ◌⊎◌, Bool, true, false, not, Option, Text, none,
  some, List, [], ◌∷◌, ◌++◌, arith, inl, inr, ltb, if◌then◌else◌, Bool-cases,
}
use mathlib.Core.Option.{some-injective}
use airspyhf_wsprd.HopPlan.{HopPlan}
use airspyhf_wsprd.BandAdvisor.Rows.Advice.{IsAdvice}
use airspyhf_wsprd.BandAdvisor.Service.{
  interval_seconds, Advisor, Numbers, Web, Phase, waiting, asking, ended, Service, first_query,
  Starts, cleared_advisor, band_advisor_start, advisor_thread, next_after, publish, take_pending,
  wspr_band_advisor_take, begin_stop, end_stop, join_thread, query, look, answer, Event, looked,
  answered, fetched, stopped, joined, step,
}
use airspyhf_wsprd.BandAdvisor.Service.Advice.{Advises, query-Advises}
use airspyhf_wsprd.BandAdvisor.Service.Ledger.Pace.{record_event-IsPaced, opened-IsPaced}
use airspyhf_wsprd.BandAdvisor.Service.Ledger.{
  Ledger, IsSelection, nothing, kept, left_out, plan_of, fetched_plan, count_query, publishes,
  record_event, record_events, opened, Tallies, IsTally, IsLedger,
}

IsSelection-tail :
    {part whole : List HopPlan} (plan : HopPlan)
    → IsSelection (plan ∷ part) whole
    → IsSelection part whole
IsSelection-tail plan (kept same p) = left_out same p
IsSelection-tail plan (left_out other p) = left_out other (IsSelection-tail plan p)

drop_held :
    (ready : Bool) (plan : HopPlan) {taken published : List HopPlan}
    → IsSelection ((if ready then plan ∷ [] else []) ++ taken) published
    → IsSelection taken published
drop_held true plan p = IsSelection-tail plan p
drop_held false plan p = p

look_same :
    (numbers : Numbers) (service : Service) (phase : Phase) (now : ℕ)
    → ((look numbers service phase now).advisor ≡ service.advisor)
      × ((look numbers service phase now).next_query ≡ service.next_query)
unfolding look
look_same numbers service waiting now = elim (Bool-cases service.advisor.stopping) [
  | inl e ↦ rw e (refl, refl)
  | inr e ↦ elim (Bool-cases (ltb now service.next_query)) [
    | inl f ↦ rw (e, f) (refl, refl)
    | inr f ↦ rw (e, f) (refl, refl)
  ]
]
look_same numbers service asking now = (refl, refl)
look_same numbers service ended now = (refl, refl)

next_after_later : (next_query now : ℕ) → next_query + interval_seconds ≤ next_after next_query now
unfolding next_after
next_after_later next_query now = ground arith

take_ready :
    (advisor : Advisor)
    → advisor.update_ready ≡ true
    → take_pending advisor ≡ (record advisor { update_ready = false }, some advisor.pending)
unfolding take_pending
take_ready advisor e =
    ap
      (λ b.
        if b
        then (record advisor { update_ready = false }, some advisor.pending)
        else (advisor, none))
      e

take_nothing :
    (advisor : Advisor) → advisor.update_ready ≡ false → take_pending advisor ≡ (advisor, none)
unfolding take_pending
take_nothing advisor e =
    ap
      (λ b.
        if b
        then (record advisor { update_ready = false }, some advisor.pending)
        else (advisor, none))
      e

module _ (candidates : HopPlan) (first next_query queries : ℕ)
    (published taken : List HopPlan) where
  published-Tallies :
      (advisor : Advisor) (now : ℕ) (given : Bool × HopPlan)
      → Advises advisor.candidates given
      → Tallies candidates first advisor next_query queries published taken
      → Tallies candidates first
          (publish advisor given)
          (next_after next_query now)
          (1 + queries)
          (plan_of given ++ published)
          taken
  unfolding publish plan_of
  published-Tallies advisor now (true, plan) a t = record {
    same_candidates = t.same_candidates;
    advice = (subst (λ c. IsAdvice c plan) t.same_candidates a, t.advice);
    once = kept plan (drop_held advisor.update_ready advisor.pending t.once);
    patient = omega (arith, t.patient, next_after_later next_query now);
  }
  published-Tallies advisor now (false, plan) a t = record {
    same_candidates = t.same_candidates;
    advice = t.advice;
    once = t.once;
    patient = omega (arith, t.patient, next_after_later next_query now);
  }

  -- The tallies after a plan may have been fetched.
  Fetches : Advisor × Option HopPlan → Type 0
  Fetches (advisor, plan) =
      Tallies candidates first advisor next_query queries published (fetched_plan plan ++ taken)

  take_pending-Fetches :
      (advisor : Advisor)
      → Tallies candidates first advisor next_query queries published taken
      → Fetches (take_pending advisor)
  unfolding Fetches fetched_plan
  take_pending-Fetches advisor t = elim (Bool-cases advisor.update_ready) [
    | inl e ↦ subst Fetches (sym (take_ready advisor e)) (record {
      same_candidates = t.same_candidates;
      advice = t.advice;
      once =
          subst (λ b. IsSelection ((if b then advisor.pending ∷ [] else []) ++ taken) published) e
            t.once;
      patient = t.patient;
    })
    | inr e ↦ subst Fetches (sym (take_nothing advisor e)) t
  ]

  take-Fetches :
      (advisor : Advisor)
      → Tallies candidates first advisor next_query queries published taken
      → Fetches (wspr_band_advisor_take advisor)
  unfolding wspr_band_advisor_take Fetches fetched_plan
  take-Fetches advisor t = elim (Bool-cases advisor.started) [
    | inl e ↦ simp e (take_pending-Fetches advisor t)
    | inr e ↦ simp e t
  ]

stop_same :
    (advisor : Advisor)
    → (advisor ≡ begin_stop advisor) ⊎ (begin_stop advisor ≡ record advisor { stopping = true })
unfolding begin_stop
stop_same advisor = elim (Bool-cases advisor.started) [
  | inl e ↦ inr (ap (λ b. if not b then advisor else record advisor { stopping = true }) e)
  | inr e ↦ inl (sym (ap (λ b. if not b then advisor else record advisor { stopping = true }) e))
]

module _ (candidates : HopPlan) (first : ℕ) where
  stop-Tallies :
      (advisor : Advisor) (next_query queries : ℕ) (published taken : List HopPlan)
      → Tallies candidates first advisor next_query queries published taken
      → Tallies candidates first (begin_stop advisor) next_query queries published taken
  stop-Tallies advisor next_query queries published taken t = elim (stop_same advisor) [
    | inl e ↦ subst (λ a. Tallies candidates first a next_query queries published taken) e t
    | inr e ↦
        subst (λ a. Tallies candidates first a next_query queries published taken) (sym e)
          (record {
            same_candidates = t.same_candidates;
            advice = t.advice;
            once = t.once;
            patient = t.patient;
          })
  ]

  answer_lem :
      (numbers : Numbers) (ledger : Ledger) (phase : Phase) (web : Web) (now : ℕ)
      → IsTally candidates first ledger
      → Tallies candidates first
          (answer numbers ledger.service phase web now).advisor
          (answer numbers ledger.service phase web now).next_query
          (count_query numbers (answered web now) phase ledger.queries)
          (publishes numbers (answered web now) ledger.service.advisor phase ++ ledger.published)
          ledger.taken
  unfolding answer count_query publishes
  answer_lem numbers ledger waiting web now t = t
  answer_lem numbers ledger asking web now t =
      published-Tallies candidates first ledger.service.next_query ledger.queries ledger.published
        ledger.taken ledger.service.advisor now (query numbers ledger.service.advisor web)
        (query-Advises numbers ledger.service.advisor web) t
  answer_lem numbers ledger ended web now t = t

  join_thread_lem :
      (ledger : Ledger) (phase : Phase)
      → IsTally candidates first ledger
      → Tallies candidates first
          (join_thread ledger.service phase).advisor
          (join_thread ledger.service phase).next_query
          ledger.queries
          ledger.published
          ledger.taken
  unfolding join_thread end_stop
  join_thread_lem ledger waiting t = t
  join_thread_lem ledger asking t = t
  join_thread_lem ledger ended t = record {
    same_candidates = t.same_candidates;
    advice = t.advice;
    once = t.once;
    patient = t.patient;
  }

  record_event-IsTally :
      (numbers : Numbers) (ledger : Ledger) (event : Event)
      → IsTally candidates first ledger
      → IsTally candidates first (record_event numbers ledger event)
  unfolding record_event step count_query publishes fetched_plan Fetches
  record_event-IsTally numbers ledger (looked now) t =
      let (a, n) = look_same numbers ledger.service ledger.service.phase now in
      subst
        (λ advisor.
          Tallies candidates first advisor
            (look numbers ledger.service ledger.service.phase now).next_query ledger.queries
            ledger.published ledger.taken)
        (sym a)
        (subst
          (λ next.
            Tallies candidates first ledger.service.advisor next ledger.queries ledger.published
              ledger.taken)
          (sym n) t)
  record_event-IsTally numbers ledger (answered web now) t =
      answer_lem numbers ledger ledger.service.phase web now t
  record_event-IsTally numbers ledger fetched t =
      take-Fetches candidates first ledger.service.next_query ledger.queries ledger.published
        ledger.taken ledger.service.advisor t
  record_event-IsTally numbers ledger stopped t =
      stop-Tallies ledger.service.advisor ledger.service.next_query ledger.queries ledger.published
        ledger.taken t
  record_event-IsTally numbers ledger joined t = join_thread_lem ledger ledger.service.phase t

  record_events-IsLedger :
      (numbers : Numbers) (ledger : Ledger) (events : List Event)
      → IsLedger candidates first ledger
      → IsLedger candidates first (record_events numbers ledger events)
  unfolding record_events
  record_events-IsLedger numbers ledger [] t = t
  record_events-IsLedger numbers ledger (event ∷ events) (t, p) =
      record_events-IsLedger numbers (record_event numbers ledger event) events (
        record_event-IsTally numbers ledger event t,
        record_event-IsPaced numbers first ledger event t.patient p,
      )

unless_some : {A : Type 0} (b : Bool) {t u : A} → (if b then none else some t) ≡ some u → t ≡ u
unless_some true h = absurd (cc)
unless_some false {t} {u} h = some-injective t u h

started_advisor :
    (starts : Starts) (grid : Text) (candidates : HopPlan) (use_psk_reporter : Bool)
    {advisor : Advisor}
    → band_advisor_start starts (some grid) (some candidates) use_psk_reporter ≡ some advisor
    → record (cleared_advisor use_psk_reporter grid candidates) { started = true } ≡ advisor
unfolding band_advisor_start
started_advisor starts grid candidates use_psk_reporter h = unless_some _ h

begun-IsTally :
    (advisor : Advisor) (now : ℕ)
    → advisor.update_ready ≡ false
    → IsTally advisor.candidates (first_query advisor.use_psk_reporter now) (opened advisor now)
unfolding advisor_thread
begun-IsTally advisor now e = record {
  same_candidates = refl;
  advice = tt;
  once =
      subst (λ b. IsSelection ((if b then advisor.pending ∷ [] else []) ++ []) []) (sym e) nothing;
  patient = omega arith;
}

-- Whatever happens after the advisor has been started: only one to four of the candidates are ever
-- published as a plan; the plans that were fetched, with one that still waits, are among the published
-- ones, in their order and each at most once; the n-th query begins no earlier than n - 1 hours after the
-- time that is set for the first; and at most one query is without its answer.
pub band_advisor_start-IsLedger :
    (starts : Starts) (grid : Text) (candidates : HopPlan) (use_psk_reporter : Bool)
    {advisor : Advisor}
    → band_advisor_start starts (some grid) (some candidates) use_psk_reporter ≡ some advisor
    → (numbers : Numbers) (now : ℕ) (events : List Event)
    → IsLedger candidates
        (first_query use_psk_reporter now)
        (record_events numbers (opened advisor now) events)
band_advisor_start-IsLedger starts grid candidates use_psk_reporter {advisor} h numbers now events =
    record_events-IsLedger candidates (first_query use_psk_reporter now) numbers
      (opened advisor now) events
      (
        subst (λ a. IsTally candidates (first_query use_psk_reporter now) (opened a now))
            (started_advisor starts grid candidates use_psk_reporter h)
            (begun-IsTally
              (record (cleared_advisor use_psk_reporter grid candidates) { started = true }) now
              refl),
        opened-IsPaced (first_query use_psk_reporter now) advisor now,
      )

-- The first query of WSPR advice is less than two minutes ahead, 90 seconds into an interval of two minutes;
-- that of FT8 advice is at once.
first_query_lem :
    (now : ℕ)
    → (first_query true now ≡ now)
      × (now ≤ first_query false now)
      × (first_query false now < now + 120)
      × (first_query false now % 120 ≡ 90)
unfolding first_query
first_query_lem now = (refl, omega arith, omega arith, omega arith)
