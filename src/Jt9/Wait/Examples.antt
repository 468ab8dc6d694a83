-- ===== src/Jt9/Wait/Examples.antt =====
-- Waits on examples.
use airspyhf_wsprd.Common.{◌≡◌, refl, true, false, some, List, [], ◌∷◌}
use airspyhf_wsprd.Jt9.Wait.{
  running, interrupted, Poll, no_error, timed_out_after, check_time, poll_once, or_later,
  wait_for_child,
}
use airspyhf_wsprd.Jt9.Wait.Kill.{Expired, wait_for_child-Expired}

abbrev polls : List Poll
polls =
    record { waited = running; now_seconds = 10 }
    ∷ record { waited = interrupted; now_seconds = 20 }
    ∷ record { waited = running; now_seconds = 21 }
    ∷ []

polls_lem :
    wait_for_child 7 14 no_error polls
    ≡ some (record { succeeded = false; last_error = timed_out_after 14; killed = true })
unfolding wait_for_child poll_once check_time or_later
polls_lem = refl

wait_for_child-Expired_example : Expired 7 14 polls
wait_for_child-Expired_example = wait_for_child-Expired 7 14 no_error polls polls_lem refl
