-- ===== src/SampleQueue/Wait.antt =====
-- The consumer's wait ends as soon as there is a block or the queue stops.
use airspyhf_wsprd.Common.{
  ◌≡◌, ◌≢◌, refl, true, false, none, some, List, [], ◌∷◌, ◌++◌, arith, All, not, ◌⊎◌,
}
use airspyhf_wsprd.SampleQueue.{SampleQueue, wait}

-- Nothing to take, and not stopping: the condition of the loop.
abbrev pub MustWait : SampleQueue → Type 0
MustWait q = (q.count ≡ 0) × (q.stopping ≡ false)

-- `sample_queue_wait` sleeps through the states in which it must wait. At the first other one, where
-- there is a block or the queue stops, it returns, and the result says that the queue is not stopping.
wait_lem :
    (asleep : List SampleQueue) (q : SampleQueue) (later : List SampleQueue)
    → All MustWait asleep
    → (q.count ≢ 0) ⊎ (q.stopping ≡ true)
    → (wait asleep ≡ none) × (wait (asleep ++ (q ∷ later)) ≡ some (not q.stopping))
unfolding wait
wait_lem [] q later a why = (refl, ground arith)
wait_lem (p ∷ ps) q later a why = ground (arith, wait_lem ps q later a.1 why)
