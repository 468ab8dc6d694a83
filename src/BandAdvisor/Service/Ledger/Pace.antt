-- ===== src/BandAdvisor/Service/Ledger/Pace.antt =====
-- No query begins too early.
use airspyhf_wsprd.Common.{
  ℕ, ◌+◌, ◌*◌, ◌≤◌, ◌≡◌, refl, sym, subst, List, ◌++◌, arith, inl, inr, ltb, Bool-cases,
}
use airspyhf_wsprd.BandAdvisor.Service.{
  interval_seconds, Advisor, Numbers, Web, Phase, waiting, asking, ended, Service, advisor_thread,
  join_thread, look, answer, Event, looked, answered, fetched, stopped, joined, step,
}
use airspyhf_wsprd.BandAdvisor.Service.Ledger.{
  Ledger, count_query, begins, record_event, opened, Rhythm, IsPaced,
}

module _ (numbers : Numbers) (first : ℕ) (queries : ℕ) (begun : List ℕ) where
  look-Rhythm :
      (advisor : Advisor) (phase : Phase) (next_query now : ℕ)
      → first + queries * interval_seconds ≤ next_query
      → Rhythm first phase queries begun
      → let next =
          look numbers
            (record { advisor = advisor; phase = phase; next_query = next_query })
            phase
            now in
        Rhythm first next.phase queries (begins (looked now) phase next.phase ++ begun)
  unfolding look begins
  look-Rhythm advisor waiting next_query now patient p = elim (Bool-cases advisor.stopping) [
    | inl stopping ↦ simp stopping (record { begun_count = p.begun_count; spaced = p.spaced })
    | inr running ↦ elim (Bool-cases (ltb now next_query)) [
      | inl early ↦ simp (running, early) p
      | inr due ↦
          simp (running, due)
            (record {
              begun_count = omega (arith, p.begun_count);
              spaced = (ground (arith, due, patient, p.begun_count), p.spaced);
            })
    ]
  ]
  look-Rhythm advisor asking next_query now patient p = p
  look-Rhythm advisor ended next_query now patient p = p

  answer-Rhythm :
      (service : Service) (phase : Phase) (web : Web) (now : ℕ)
      → service.phase ≡ phase
      → Rhythm first phase queries begun
      → Rhythm first
          (answer numbers service phase web now).phase
          (count_query numbers (answered web now) phase queries)
          begun
  unfolding answer count_query
  answer-Rhythm service waiting web now e p = subst (λ f. Rhythm first f queries begun) (sym e) p
  answer-Rhythm service asking web now e p = record {
    begun_count = omega (arith, p.begun_count);
    spaced = p.spaced;
  }
  answer-Rhythm service ended web now e p = subst (λ f. Rhythm first f queries begun) (sym e) p

join_thread-phase :
    (service : Service) (phase : Phase) → (join_thread service phase).phase ≡ service.phase
unfolding join_thread
join_thread-phase service waiting = refl
join_thread-phase service asking = refl
join_thread-phase service ended = refl

pub record_event-IsPaced :
    (numbers : Numbers) (first : ℕ) (ledger : Ledger) (event : Event)
    → first + ledger.queries * interval_seconds ≤ ledger.service.next_query
    → IsPaced first ledger
    → IsPaced first (record_event numbers ledger event)
unfolding record_event step count_query begins
record_event-IsPaced numbers first ledger (looked now) patient p =
    look-Rhythm numbers first ledger.queries ledger.begun ledger.service.advisor
      ledger.service.phase ledger.service.next_query now patient p
record_event-IsPaced numbers first ledger (answered web now) patient p =
    answer-Rhythm numbers first ledger.queries ledger.begun ledger.service ledger.service.phase web
      now refl p
record_event-IsPaced numbers first ledger fetched patient p = p
record_event-IsPaced numbers first ledger stopped patient p = p
record_event-IsPaced numbers first ledger joined patient p =
    subst (λ f. Rhythm first f ledger.queries ledger.begun)
      (sym (join_thread-phase ledger.service ledger.service.phase)) p

pub opened-IsPaced : (first : ℕ) (advisor : Advisor) (now : ℕ) → IsPaced first (opened advisor now)
unfolding advisor_thread
opened-IsPaced first advisor now = record { begun_count = omega arith; spaced = tt }
