-- ===== src/BandAdvisor/Service/Examples.antt =====
-- A start, a query that gives a plan, and a stop.
use airspyhf_wsprd.Common.{
  ◌≡◌, refl, false, true, none, some, List, [], ◌∷◌, codes, length, ltb, if◌then◌else◌,
}
use airspyhf_wsprd.Common.Int.{pos}
use airspyhf_wsprd.HopPlan.{HopPlan}
use airspyhf_wsprd.BandAdvisor.Service.{
  Advisor, Numbers, Web, first_query, Starts, cleared_advisor, band_advisor_start, Event, looked,
  answered, fetched, stopped, joined, woken, timed_out, take_pending, wait_pending,
  wspr_band_advisor_wait,
}
use airspyhf_wsprd.BandAdvisor.Service.Ledger.{IsLedger, record_events, opened}
use airspyhf_wsprd.BandAdvisor.Service.Ledger.Tally.{band_advisor_start-IsLedger}

abbrev two_bands : HopPlan
two_bands =
    record { name = codes "80m"; frequency_hz = 3568600; database_band = pos 3 }
    ∷ record { name = codes "40m"; frequency_hz = 7038600; database_band = pos 7 }
    ∷ []

-- One station and one spot, on 80m for a short line and on 40m for others.
abbrev line_lengths : Numbers
line_lengths = record {
  scan = λ line. some (record {
    database_band = if ltb (length line) 6 then pos 3 else pos 7;
    stations = 1;
    spots = 1;
  });
  strtoul = λ text. none;
}

abbrev all_succeed : Starts
all_succeed = record {
  curl_ready = true;
  mutex_made = true;
  condition_made = true;
  thread_made = true;
}

abbrev started_advisor : Advisor
started_advisor = record (cleared_advisor false (codes "JO62qm") two_bands) { started = true }

start_succeeds :
    band_advisor_start all_succeed (some (codes "JO62qm")) (some two_bands) false
    ≡ some started_advisor
unfolding band_advisor_start
start_succeeds = refl

-- A wait that finds a plan when it is woken, and one that finds none in time.
abbrev with_plan : Advisor
with_plan = record started_advisor { pending = two_bands; update_ready = true }

wait_finds :
    (wspr_band_advisor_wait true started_advisor ((woken, with_plan) ∷ [])
      ≡ some (record with_plan { update_ready = false }, some two_bands))
    × (wspr_band_advisor_wait true started_advisor ((timed_out, started_advisor) ∷ [])
        ≡ some (started_advisor, none))
unfolding wspr_band_advisor_wait wait_pending take_pending
wait_finds = (refl, refl)

abbrev two_rows : Web
two_rows = record {
  rows = some (codes "7\t10\t90\n3\t1\t1\n");
  frequencies = none;
  monitors = none;
}

abbrev one_night : List Event
one_night =
    looked 1000
    ∷ looked 1050
    ∷ answered two_rows 1051
    ∷ fetched
    ∷ fetched
    ∷ stopped
    ∷ looked 1060
    ∷ joined
    ∷ fetched
    ∷ []

band_advisor_start-IsLedger_example :
    IsLedger two_bands
      (first_query false 1000)
      (record_events line_lengths (opened started_advisor 1000) one_night)
band_advisor_start-IsLedger_example =
    band_advisor_start-IsLedger all_succeed (codes "JO62qm") two_bands false start_succeeds
      line_lengths 1000 one_night
