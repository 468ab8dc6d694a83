-- ===== src/Jt9/Wait/Kill.antt =====
-- When jt9 is killed.
use airspyhf_wsprd.Common.{
  ℕ, ◌+◌, ◌≤◌, ◌<◌, ◌≡◌, refl, ap, ◌∙◌, ◌⊎◌, inl, inr, true, Option, none, some, List, [], ◌∷◌,
  ◌++◌, All, arith, ◌==◌, Bool-cases,
}
use mathlib.Core.Option.{some-injective}
use airspyhf_wsprd.Jt9.Wait.{
  Waited, running, interrupted, wait_failed, exited, signalled, otherwise_ended, Poll, LastError,
  Outcome, time_is_up, check_time, poll_once, or_later, wait_for_child,
}

-- The answer tells of no end of the child.
abbrev pub IsAlive : Poll → Type 0
IsAlive poll = (poll.waited ≡ running) ⊎ (poll.waited ≡ interrupted)

-- In the rounds before the last one the child was alive and had time left; in the last one it was
-- alive and had none.
pub record Expired (started timeout : ℕ) (polls : List Poll) : Type 0 where
  pub before : List Poll
  pub last : Poll
  pub after : List Poll
  pub order : polls ≡ before ++ (last ∷ after)
  pub alive : All IsAlive before
  pub in_time : All (λ p. p.now_seconds < started + timeout) before
  pub alive_last : IsAlive last
  pub up : started + timeout ≤ last.now_seconds

-- What a round that ends nothing, and one that kills, have found.
Found : ℕ → ℕ → Poll → Option Outcome → Type 0
Found started timeout poll none = IsAlive poll × (poll.now_seconds < started + timeout)
Found started timeout poll (some o) =
    o.killed ≡ true → IsAlive poll × (started + timeout ≤ poll.now_seconds)

check_time-Found :
    (started timeout : ℕ) (poll : Poll)
    → IsAlive poll
    → Found started timeout poll (check_time started timeout poll.now_seconds)
unfolding check_time Found
check_time-Found started timeout poll alive =
    elim (Bool-cases (time_is_up started timeout poll.now_seconds)) [
      | inl up ↦ rw up (λ k. (alive, ground (arith, up)))
      | inr left ↦ rw left (alive, ground (arith, left))
    ]

poll_once-Found :
    (started timeout : ℕ) (error : LastError) (waited : Waited) (now : ℕ)
    → Found started timeout
        (record { waited = waited; now_seconds = now })
        (poll_once started timeout error waited now)
unfolding poll_once Found
poll_once-Found started timeout error running now = check_time-Found started timeout _ (inl refl)
poll_once-Found started timeout error interrupted now =
    check_time-Found started timeout _ (inr refl)
poll_once-Found started timeout error (wait_failed n) now = λ k. absurd (cc)
poll_once-Found started timeout error (exited code) now = elim (Bool-cases (code == 0)) [
  | inl z ↦ rw z (λ k. absurd (cc))
  | inr z ↦ rw z (λ k. absurd (cc))
]
poll_once-Found started timeout error (signalled n) now = λ k. absurd (cc)
poll_once-Found started timeout error otherwise_ended now = λ k. absurd (cc)

later-Expired :
    (started timeout : ℕ) (poll : Poll) (polls : List Poll)
    → IsAlive poll
    → poll.now_seconds < started + timeout
    → Expired started timeout polls
    → Expired started timeout (poll ∷ polls)
later-Expired started timeout poll polls alive left x = record {
  before = poll ∷ x.before;
  last = x.last;
  after = x.after;
  order = ap (λ l. poll ∷ l) x.order;
  alive = (alive, x.alive);
  in_time = (left, x.in_time);
  alive_last = x.alive_last;
  up = x.up;
}

-- One round of the loop: `poll_once` has answered `now`, the other rounds `later`.
round-Expired :
    (started timeout : ℕ) (poll : Poll) (polls : List Poll) (now later : Option Outcome)
    {o : Outcome}
    → Found started timeout poll now
    → ((later ≡ some o) → Expired started timeout polls)
    → or_later now later ≡ some o
    → o.killed ≡ true
    → Expired started timeout (poll ∷ polls)
unfolding or_later Found
round-Expired started timeout poll polls none later found others h killed =
    later-Expired started timeout poll polls found.0 found.1 (others h)
round-Expired started timeout poll polls (some now) later {o} found others h killed =
    let (alive, up) = found (ap (λ x. x.killed) (some-injective now o h) ∙ killed) in
    record {
      before = [];
      last = poll;
      after = polls;
      order = refl;
      alive = tt;
      in_time = tt;
      alive_last = alive;
      up = up;
    }

-- If the wait has killed the child, then its time was up, no round before had found it up, and no
-- round, that one included, had told of an end of the child.
pub wait_for_child-Expired :
    (started timeout : ℕ) (error : LastError) (polls : List Poll) {o : Outcome}
    → wait_for_child started timeout error polls ≡ some o
    → o.killed ≡ true
    → Expired started timeout polls
wait_for_child-Expired started timeout error [] h killed = absurd (unfold wait_for_child in cc)
wait_for_child-Expired started timeout error (poll ∷ polls) {o} h killed =
    round-Expired started timeout poll polls
      (poll_once started timeout error poll.waited poll.now_seconds)
      (wait_for_child started timeout error polls) {o = o}
      (poll_once-Found started timeout error poll.waited poll.now_seconds)
      (λ later. wait_for_child-Expired started timeout error polls later killed)
      (unfold wait_for_child in h) killed
