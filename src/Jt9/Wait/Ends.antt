-- ===== src/Jt9/Wait/Ends.antt =====
-- The wait for jt9 comes to an end.
use airspyhf_wsprd.Common.{
  ℕ, zero, suc, ◌+◌, ◌*◌, ◌/◌, ◌≤◌, ◌≡◌, refl, true, Option, none, some, List, [], ◌∷◌, arith, ◌==◌,
  Bool-cases, inl, inr,
}
use airspyhf_wsprd.Jt9.Wait.{
  Waited, running, interrupted, wait_failed, exited, signalled, otherwise_ended, Poll, LastError,
  Outcome, time_is_up, check_time, poll_once, or_later, wait_for_child,
}

-- The length of the pause between two rounds, and a second, in nanoseconds.
abbrev pub pause : ℕ
pause = 20000000

abbrev pub second : ℕ
second = 1000000000

-- `count` rounds from the one with the number `first` on.
abbrev pub rounds : (ℕ → Waited) → (ℕ → ℕ) → ℕ → ℕ → List Poll
rounds answer clock first zero = []
rounds answer clock first (suc count) =
    record { waited = answer first; now_seconds = clock first / second }
    ∷ rounds answer clock (suc first) count

poll_once_late :
    (started timeout : ℕ) (error : LastError) (waited : Waited) (now : ℕ)
    → time_is_up started timeout now ≡ true
    → (o : Outcome) × (poll_once started timeout error waited now ≡ some o)
unfolding poll_once check_time
poll_once_late started timeout error running now e = rw e (_, refl)
poll_once_late started timeout error interrupted now e = rw e (_, refl)
poll_once_late started timeout error (wait_failed n) now e = (_, refl)
poll_once_late started timeout error (exited code) now e = elim (Bool-cases (code == 0)) [
  | inl z ↦ rw z (_, refl)
  | inr z ↦ rw z (_, refl)
]
poll_once_late started timeout error (signalled n) now e = (_, refl)
poll_once_late started timeout error otherwise_ended now e = (_, refl)

or_later-some :
    (o later : Option Outcome)
    → (x : Outcome) × (o ≡ some x)
    → (x : Outcome) × (or_later o later ≡ some x)
unfolding or_later
or_later-some none later (x, e) = absurd (cc)
or_later-some (some y) later h = (y, refl)

or_later-later :
    (o later : Option Outcome)
    → (x : Outcome) × (later ≡ some x)
    → (x : Outcome) × (or_later o later ≡ some x)
unfolding or_later
or_later-later none later h = h
or_later-later (some y) later h = (y, refl)

module _ (answer : ℕ → Waited) (clock : ℕ → ℕ)
    (pauses : (k : ℕ) → clock k + pause ≤ clock (suc k)) where
  rounds_end :
      (started timeout : ℕ) (error : LastError) (count first : ℕ)
      → (started / second + timeout) * second ≤ clock first + count * pause
      → (o : Outcome) × (wait_for_child
            (started / second)
            timeout
            error
            (rounds answer clock first (suc count))
          ≡ some o)
  unfolding wait_for_child
  rounds_end started timeout error zero first late = or_later-some _ _ (
      poll_once_late (started / second) timeout error (answer first) (clock first / second)
        (ground (arith, late)))
  rounds_end started timeout error (suc count) first late =
      or_later-later _ _
        (rounds_end started timeout error count (suc first) (omega (arith, pauses first, late)))

  -- If each pause lasts at least the 20 ms that the code asks for, and the clock has not run back since the
  -- child was started, the wait is over after at most 50 rounds for each second of the timeout and
  -- one more, whatever waitpid answers.
  pub wait_for_child_ends :
      (started timeout : ℕ) (error : LastError)
      → started ≤ clock 0
      → (o : Outcome) × (wait_for_child
            (started / second)
            timeout
            error
            (rounds answer clock 0 (suc (timeout * 50)))
          ≡ some o)
  wait_for_child_ends started timeout error since =
      rounds_end started timeout error (timeout * 50) 0 (omega (arith, since))
