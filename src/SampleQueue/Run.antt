-- ===== src/SampleQueue/Run.antt =====
-- Any sequence of calls of the producer, the consumer and the control thread. Each call runs under
-- the mutex, so an interleaving of the threads is a list of calls.
use airspyhf_wsprd.Common.{
  ℕ, ◌*◌, ◌≤◌, ◌≡◌, refl, ap, sym, subst, ◌∙◌, Option, none, some, List, [], ◌∷◌, arith, length,
  All, ◌==◌, Bool-cases, inl, inr,
}
use airspyhf_wsprd.SampleQueue.{
  SampleQueue, reset, stop, push_locked, push_on, count_drops, store, free_oldest, try_peek,
  release,
}
use airspyhf_wsprd.SampleQueue.Invariant.{IsValid}
use airspyhf_wsprd.SampleQueue.Preserve.{
  push_locked-IsValid, release-IsValid, reset-IsValid, stop-IsValid,
}
use airspyhf_wsprd.SampleQueue.Fifo
use airspyhf_wsprd.SampleQueue.Fifo.{Block, Fifo, Call, Reply, pushed, peeked, released, done}
use airspyhf_wsprd.SampleQueue.Refine.{
  contents, look_at, push_locked_refines, peek_refines, release_refines,
}

-- A call on the queue, as the three threads make them.
unfoldable pub step : SampleQueue → Call → Reply × SampleQueue
step q (Call.push samples n d) = let (b, q') = push_on q samples n d in (pushed b, q')
step q Call.peek = (peeked (look_at q (try_peek q)), q)
step q Call.release = let (b, q') = release q in (released b, q')
step q Call.reset = (done, reset q)
step q Call.stop = (done, stop q)

-- The producer hands over as many samples as it says.
abbrev pub Supplied : ℕ → Call → Type 0
Supplied element_size (Call.push (some samples) n d) = n * element_size ≤ length samples
Supplied element_size _ = Unit

unfoldable pub run : SampleQueue → List Call → List Reply
run q [] = []
run q (c ∷ cs) = let (r, q') = step q c in r ∷ run q' cs

-- The sizes that `init` fixes.
abbrev pub SameSizes : SampleQueue → SampleQueue → Type 0
SameSizes q q' =
    (q'.element_size ≡ q.element_size)
    × (q'.block_capacity ≡ q.block_capacity)
    × (q'.slot_count ≡ q.slot_count)

push_locked-SameSizes :
    (q : SampleQueue) (samples : List ℕ) (n d : ℕ) → SameSizes q (push_locked q samples n d).1
unfolding push_locked count_drops store
push_locked-SameSizes q samples n d = ground arith

push_on-SameSizes :
    (q : SampleQueue) (o : Option (List ℕ)) (n d : ℕ) → SameSizes q (push_on q o n d).1
unfolding push_on
push_on-SameSizes q none n d = (refl, refl, refl)
push_on-SameSizes q (some samples) n d = ground (arith, push_locked-SameSizes q samples n d)

step-SameSizes : (q : SampleQueue) (c : Call) → SameSizes q (step q c).1
unfolding step reset stop release free_oldest
step-SameSizes q (Call.push o n d) = push_on-SameSizes q o n d
step-SameSizes q Call.peek = (refl, refl, refl)
step-SameSizes q Call.release = ground arith
step-SameSizes q Call.reset = (refl, refl, refl)
step-SameSizes q Call.stop = (refl, refl, refl)

push_on-IsValid :
    (q : SampleQueue) (o : Option (List ℕ)) (n d : ℕ) → IsValid q → IsValid (push_on q o n d).1
unfolding push_on
push_on-IsValid q none n d v = v
push_on-IsValid q (some samples) n d v = elim (Bool-cases (n == 0)) [
  | inl e ↦ rw e v
  | inr e ↦ rw e (push_locked-IsValid q samples n d v)
]

-- Every call keeps the queue valid.
pub step-IsValid : (q : SampleQueue) (c : Call) → IsValid q → IsValid (step q c).1
unfolding step
step-IsValid q (Call.push o n d) v = push_on-IsValid q o n d v
step-IsValid q Call.peek v = v
step-IsValid q Call.release v = release-IsValid q v
step-IsValid q Call.reset v = reset-IsValid q v
step-IsValid q Call.stop v = stop-IsValid q v

-- Each call answers and acts as the list of blocks does.
pub step_refines :
    (q : SampleQueue) (c : Call)
    → IsValid q
    → Supplied q.element_size c
    → let (r, q') = step q c in
      (r, contents q') ≡ Fifo.step q.element_size q.block_capacity q.slot_count (contents q) c
unfolding step push_on reset stop Fifo.step
step_refines q (Call.push none n d) v s = refl
step_refines q (Call.push (some samples) n d) v s = elim (Bool-cases (n == 0)) [
  | inl e ↦ rw e
  | inr e ↦ rw e (ap (λ p. (pushed p.0, p.1)) (push_locked_refines q v samples n d s))
]
step_refines q Call.peek v s = ap (λ o. (peeked o, contents q)) (peek_refines q v)
step_refines q Call.release v s = ap (λ p. (released p.0, p.1)) (release_refines q v)
step_refines q Call.reset v s = refl
step_refines q Call.stop v s = refl

-- No sequence of calls tells a valid queue from the bounded list of its blocks.
pub run_refines :
    (q : SampleQueue) (cs : List Call)
    → IsValid q
    → All (Supplied q.element_size) cs
    → run q cs ≡ Fifo.run q.element_size q.block_capacity q.slot_count (contents q) cs
unfolding run Fifo.run
run_refines q [] v s = refl
run_refines q (c ∷ cs) v s =
    let same = step-SameSizes q c in
    let q' = (step q c).1 in
    let later =
      run_refines q' cs (step-IsValid q c v) (subst (λ e. All (Supplied e) cs) (sym same.0) s.1) in
    rw (← step_refines q c v s.0) (
      ap (λ rs. (step q c).0 ∷ rs)
        (later ∙ (λ i. Fifo.run (same.0 i) (same.1 i) (same.2 i) (contents q') cs)))
