-- ===== src/SampleQueue/Ledger.antt =====
-- The losses of a whole session: every sample lost is reported by a block or still pending.
use airspyhf_wsprd.Common.{ℕ, ◌+◌, ◌≤◌, ◌≡◌, none, some, List, [], ◌∷◌, arith, All}
use airspyhf_wsprd.SampleQueue.{size_max, SampleQueue, stop, push_on, free_oldest, release}
use airspyhf_wsprd.SampleQueue.Invariant.{IsValid}
use airspyhf_wsprd.SampleQueue.Fifo.{Call}
use airspyhf_wsprd.SampleQueue.Run.{step, step-IsValid}
use airspyhf_wsprd.SampleQueue.Drops.{refused, announced, reported, push_on-Balanced}

-- One call's part: samples refused, losses announced, and both kinds as its block reports them.
unfoldable pub refused_by : SampleQueue → Call → ℕ
refused_by q (Call.push (some samples) n d) = refused q n (push_on q (some samples) n d)
refused_by q _ = 0

unfoldable pub announced_by : SampleQueue → Call → ℕ
announced_by q (Call.push (some samples) n d) = announced q n d
announced_by q _ = 0

pub reported_by : SampleQueue → Call → ℕ × ℕ
reported_by q (Call.push (some samples) n d) = reported q (push_on q (some samples) n d)
reported_by q _ = (0, 0)

-- The sum over a session of what each call adds, by the state that it finds.
unfoldable pub total : (SampleQueue → Call → ℕ) → SampleQueue → List Call → ℕ
total part q [] = 0
total part q (c ∷ cs) = part q c + total part (step q c).1 cs

pub last : SampleQueue → List Call → SampleQueue
last q [] = q
last q (c ∷ cs) = last (step q c).1 cs

-- `reset` forgets what is pending, and is called before a recording begins.
abbrev pub KeepsLosses : Call → Type 0
KeepsLosses Call.reset = ⊥
KeepsLosses _ = Unit {0}

step-device_kept :
    (q : SampleQueue) (c : Call)
    → IsValid q
    → KeepsLosses c
    → q.pending_device_drops + announced_by q c ≤ size_max
    → (reported_by q c).1 + (step q c).1.pending_device_drops
      ≡ q.pending_device_drops + announced_by q c
unfolding announced_by reported_by step release stop free_oldest
step-device_kept q (Call.push none n d) v k h = unfold push_on in omega arith
step-device_kept q (Call.push (some samples) n d) v k h =
    (push_on-Balanced q samples n d v).device_kept h
step-device_kept q Call.peek v k h = omega arith
step-device_kept q Call.release v k h = ground arith
step-device_kept q Call.reset v k h = absurd k
step-device_kept q Call.stop v k h = omega arith

-- The same for the losses that the device announces with the blocks.
device_losses_kept :
    (q : SampleQueue) (cs : List Call)
    → IsValid q
    → All KeepsLosses cs
    → q.pending_device_drops + total announced_by q cs ≤ size_max
    → total (λ r c. (reported_by r c).1) q cs + (last q cs).pending_device_drops
      ≡ q.pending_device_drops + total announced_by q cs
unfolding total last
device_losses_kept q [] v k h = omega arith
device_losses_kept q (c ∷ cs) v k h =
    let first = step-device_kept q c v k.0 (omega arith) in
    omega (
      arith,
      first,
      device_losses_kept (step q c).1 cs (step-IsValid q c v) k.1 (omega (arith, first)),
    )
