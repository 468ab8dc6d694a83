-- ===== src/SampleQueue/Fifo.antt =====
-- What a sample queue promises: a first-in first-out list of blocks of bounded length, where each
-- block reports the samples that were lost since the block before it.
use airspyhf_wsprd.Common.{
  ℕ, ◌*◌, ◌≤◌, ◌≡◌, ◌≢◌, arith, Bool, true, false, ◌||◌, Option, none, some, List, [], ◌∷◌, ◌++◌,
  ltb, ◌==◌, if◌then◌else◌, length, take,
}
use airspyhf_wsprd.SampleQueue.{saturating_add}

pub record Block : Type 0 where
  pub bytes : List ℕ
  pub sample_count : ℕ
  pub device_dropped : ℕ
  pub queue_dropped : ℕ

pub record Fifo : Type 0 where
  pub blocks : List Block
  pub device_pending : ℕ
  pub queue_pending : ℕ
  pub stopping : Bool

-- What the producer, the consumer and the control thread ask for.
pub data Call : Type 0 where
  push : Option (List ℕ) → ℕ → ℕ → Call
  peek : Call
  release : Call
  reset : Call
  stop : Call

pub data Reply : Type 0 where
  pushed : Bool → Reply
  peeked : Option Block → Reply
  released : Bool → Reply
  done : Reply

-- The block that a push makes of what is pending.
abbrev pub new_block : ℕ → Fifo → List ℕ → ℕ → ℕ → Block
new_block element_size f samples n device = record {
  bytes = take (n * element_size) samples;
  sample_count = n;
  device_dropped = saturating_add f.device_pending device;
  queue_dropped = f.queue_pending;
}

unfoldable pub oldest : Fifo → Option Block
oldest f = if f.stopping then none else first f.blocks
  where
    first : List Block → Option Block
    first [] = none
    first (b ∷ bs) = some b

drop_oldest : List Block → Bool × List Block
drop_oldest [] = (false, [])
drop_oldest (b ∷ bs) = (true, bs)

unfoldable pub discard : Fifo → Bool × Fifo
unfolding drop_oldest
discard f = let (b, bs) = drop_oldest f.blocks in (b, record f { blocks = bs })

-- The size of an element, the elements of a block and the number of blocks stay as they are.
module _ (element_size block_capacity slot_count : ℕ) where
  unfoldable pub offer : Fifo → List ℕ → ℕ → ℕ → Bool × Fifo
  offer f samples n device =
      if f.stopping
      then (false, f)
      else if ltb block_capacity n || length f.blocks == slot_count
      then (
        false,
        record f {
          device_pending = saturating_add f.device_pending device;
          queue_pending = saturating_add f.queue_pending n;
        },
      )
      else (
        true,
        record f {
          blocks = f.blocks ++ (new_block element_size f samples n device ∷ []);
          device_pending = 0;
          queue_pending = 0;
        },
      )

  -- A block that is taken.
  pub offer_taken :
      (f : Fifo) (samples : List ℕ) (n device : ℕ)
      → f.stopping ≡ false
      → n ≤ block_capacity
      → length f.blocks ≢ slot_count
      → offer f samples n device ≡ (
        true,
        record f {
          blocks = f.blocks ++ (new_block element_size f samples n device ∷ []);
          device_pending = 0;
          queue_pending = 0;
        },
      )
  unfolding offer
  offer_taken f samples n device p fit room = ground arith

  unfoldable pub step : Fifo → Call → Reply × Fifo
  step f (push none n device) = (pushed false, f)
  step f (push (some samples) n device) =
      if n == 0
      then (pushed false, f)
      else (let (b, f') = offer f samples n device in (pushed b, f'))
  step f peek = (peeked (oldest f), f)
  step f release = let (b, f') = discard f in (released b, f')
  step f reset = (done, record f { blocks = []; device_pending = 0; queue_pending = 0 })
  step f stop = (done, record f { stopping = true })

  unfoldable pub run : Fifo → List Call → List Reply
  run f [] = []
  run f (c ∷ cs) = let (r, f') = step f c in r ∷ run f' cs
