-- ===== src/Jt9/Wait.antt =====
-- `wait_for_child`: jt9 is polled until it ends, and killed when its time is up.
-- What waitpid answers and the clock are arguments. The wait behind SIGKILL has no effect on the
-- result.
pub mod Ends
pub mod Kill
mod Examples
use airspyhf_wsprd.Common.{
  ℕ, zero, suc, ◌+◌, Bool, true, false, Option, none, some, List, [], ◌∷◌, leb, ◌==◌, if◌then◌else◌,
  Text,
}

-- What waitpid with WNOHANG answers, and what the macros make of the status.
pub data Waited : Type 0 where
  running : Waited
  interrupted : Waited
  wait_failed : ℕ → Waited
  exited : ℕ → Waited
  signalled : ℕ → Waited
  otherwise_ended : Waited

-- One round: the answer, and the seconds of the monotonic clock behind it.
pub record Poll : Type 0 where
  pub waited : Waited
  pub now_seconds : ℕ

-- The texts that `last_error` can hold, with the values printed in them.
pub data LastError : Type 0 where
  no_error : LastError
  exited_with_status : ℕ → LastError
  terminated_by_signal : ℕ → LastError
  ended_unexpectedly : LastError
  waitpid_failed : ℕ → LastError
  timed_out_after : ℕ → LastError
  could_not_create : LastError
  diagnostic_line : Text → LastError

-- The status is 0 if `succeeded`; `killed` tells whether SIGKILL was sent.
pub record Outcome : Type 0 where
  pub succeeded : Bool
  pub last_error : LastError
  pub killed : Bool

abbrev pub failure : LastError → Outcome
failure error = record { succeeded = false; last_error = error; killed = false }

abbrev pub time_is_up : ℕ → ℕ → ℕ → Bool
time_is_up started timeout now = leb (started + timeout) now

-- The child has not ended: the test of the time.
pub check_time : ℕ → ℕ → ℕ → Option Outcome
check_time started timeout now =
    if time_is_up started timeout now
    then some (record { succeeded = false; last_error = timed_out_after timeout; killed = true })
    else none

-- One round, with what `last_error` was. `none`: a pause, and the next round.
pub poll_once : ℕ → ℕ → LastError → Waited → ℕ → Option Outcome
poll_once started timeout error (exited code) now =
    if code == 0
    then some (record { succeeded = true; last_error = error; killed = false })
    else some (failure (exited_with_status code))
poll_once started timeout error (signalled number) now =
    some (failure (terminated_by_signal number))
poll_once started timeout error otherwise_ended now = some (failure ended_unexpectedly)
poll_once started timeout error (wait_failed number) now = some (failure (waitpid_failed number))
poll_once started timeout error running now = check_time started timeout now
poll_once started timeout error interrupted now = check_time started timeout now

pub or_later : Option Outcome → Option Outcome → Option Outcome
or_later (some outcome) later = some outcome
or_later none later = later

-- The loop over the rounds. `none`: it still waits.
pub wait_for_child : ℕ → ℕ → LastError → List Poll → Option Outcome
wait_for_child started timeout error [] = none
wait_for_child started timeout error (poll ∷ polls) =
    or_later (poll_once started timeout error poll.waited poll.now_seconds)
      (wait_for_child started timeout error polls)
