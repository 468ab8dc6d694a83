-- ===== src/SampleQueue.antt =====
-- sample_queue.c and sample_queue.h: the bounded queue of sample blocks between the receiver's
-- callback and the signal processing thread.
-- Each function is one critical section of `queue->mutex`, so it is one step on the state. The
-- sample bytes lie in one flat buffer, `storage`, and a slot's `samples` pointer is an offset into
-- it. A NULL `slots` or `storage` pointer is the empty list, a NULL argument is `none`.
pub mod Invariant
pub mod Preserve
pub mod Fifo
pub mod Refine
pub mod Run
pub mod Drops
pub mod Ledger
pub mod Wait
mod Examples
use airspyhf_wsprd.Common.{
  ℕ, zero, suc, ◌+◌, ◌-◌, ◌*◌, ◌/◌, ◌%◌, ◌^◌, Bool, true, false, not, ◌&&◌, ◌||◌, Option, none,
  some, List, [], ◌∷◌, ltb, ◌==◌, if◌then◌else◌, length, get_or, set, take, replicate, write_at,
}

-- `SIZE_MAX` and `UINT64_MAX`
abbrev pub size_max : ℕ
size_max = 2 ^ 64 - 1

-- `size_t` addition wraps.
abbrev pub add_size : ℕ → ℕ → ℕ
add_size a b = (a + b) % 2 ^ 64

pub saturating_add : ℕ → ℕ → ℕ
saturating_add left right =
    if ltb (size_max - left) right then size_max else (left + right) % 2 ^ 64

pub record Slot : Type 0 where
  pub samples : ℕ
  pub sample_count : ℕ
  pub device_dropped_samples : ℕ
  pub queue_dropped_samples : ℕ

pub record SampleQueue : Type 0 where
  pub slots : List Slot
  pub storage : List ℕ
  pub element_size : ℕ
  pub block_capacity : ℕ
  pub slot_count : ℕ
  pub head : ℕ
  pub tail : ℕ
  pub count : ℕ
  pub pending_device_drops : ℕ
  pub pending_queue_drops : ℕ
  pub stopping : Bool

-- What `calloc` and `memset` leave behind.
abbrev pub zero_slot : Slot
zero_slot = record {
  samples = 0;
  sample_count = 0;
  device_dropped_samples = 0;
  queue_dropped_samples = 0;
}

abbrev pub zeroed : SampleQueue
zeroed = record {
  slots = [];
  storage = [];
  element_size = 0;
  block_capacity = 0;
  slot_count = 0;
  head = 0;
  tail = 0;
  count = 0;
  pending_device_drops = 0;
  pending_queue_drops = 0;
  stopping = false;
}

-- What the system answers to the requests of `init`: whether `calloc` finds room for the slots, the
-- bytes that `malloc` hands out for the samples, and whether the mutex and the condition variable
-- are made.
pub record System : Type 0 where
  pub slots_found : Bool
  pub storage_found : Option (List ℕ)
  pub mutex_made : Bool
  pub condition_made : Bool

-- The loop that points each slot at its block, from block `index` on.
pub point_slots : ℕ → ℕ → ℕ → List Slot
point_slots zero index block_bytes = []
point_slots (suc left) index block_bytes =
    (record zero_slot { samples = index * block_bytes }) ∷ point_slots left (index + 1) block_bytes

-- The part of `sample_queue_init` behind the checks of its arguments.
set_up : System → ℕ → ℕ → ℕ → List ℕ → Bool × SampleQueue
set_up sys element_size block_capacity slot_count bytes =
    if not sys.slots_found
    then (false, zeroed)
    else if not sys.mutex_made
    then (false, zeroed)
    else if not sys.condition_made
    then (false, zeroed)
    else (
      true,
      record zeroed {
        slots = point_slots slot_count 0 (element_size * block_capacity);
        storage = bytes;
        element_size = element_size;
        block_capacity = block_capacity;
        slot_count = slot_count;
      },
    )

allocate : System → ℕ → ℕ → ℕ → Option (List ℕ) → Bool × SampleQueue
unfolding set_up
allocate sys element_size block_capacity slot_count none = (false, zeroed)
allocate sys element_size block_capacity slot_count (some bytes) =
    set_up sys element_size block_capacity slot_count bytes

-- The checks of the arguments: nothing is empty, and no size wraps.
refused_sizes : ℕ → ℕ → ℕ → Bool
refused_sizes element_size block_capacity slot_count =
    element_size == 0
    || block_capacity == 0
    || slot_count == 0
    || ltb (size_max / block_capacity) element_size
    || ltb (size_max / (element_size * block_capacity)) slot_count

-- The result, and what `*queue` holds afterwards.
pub init : System → Option SampleQueue → ℕ → ℕ → ℕ → Bool × Option SampleQueue
init sys none element_size block_capacity slot_count = (false, none)
init sys (some queue) element_size block_capacity slot_count =
    if refused_sizes element_size block_capacity slot_count
    then (false, some queue)
    else (let (made, queue') =
          allocate sys element_size block_capacity slot_count sys.storage_found in
        (made, some queue'))

pub destroy : Option SampleQueue → Option SampleQueue
destroy none = none
destroy (some queue) = if length queue.slots == 0 then some queue else some zeroed

pub reset : SampleQueue → SampleQueue
reset queue = record queue {
  head = 0;
  tail = 0;
  count = 0;
  pending_device_drops = 0;
  pending_queue_drops = 0;
}

pub stop : SampleQueue → SampleQueue
stop queue = record queue { stopping = true }

-- The branch of `push` that refuses a block: it is counted, for the next block to report.
pub count_drops : SampleQueue → ℕ → ℕ → SampleQueue
count_drops queue sample_count device_dropped = record queue {
  pending_device_drops = saturating_add queue.pending_device_drops device_dropped;
  pending_queue_drops = saturating_add queue.pending_queue_drops sample_count;
}

-- The slot at the head as it is filled in.
abbrev pub filled_slot : SampleQueue → ℕ → ℕ → Slot
filled_slot queue sample_count device_dropped = record (get_or queue.slots queue.head zero_slot) {
  sample_count = sample_count;
  device_dropped_samples = saturating_add queue.pending_device_drops device_dropped;
  queue_dropped_samples = queue.pending_queue_drops;
}

-- The branch that takes a block: the samples are copied into the slot at the head.
pub store : SampleQueue → List ℕ → ℕ → ℕ → SampleQueue
store queue samples sample_count device_dropped = record queue {
  storage =
      write_at queue.storage (get_or queue.slots queue.head zero_slot).samples
        (take (sample_count * queue.element_size) samples);
  slots = set queue.slots queue.head (filled_slot queue sample_count device_dropped);
  pending_device_drops = 0;
  pending_queue_drops = 0;
  head = add_size queue.head 1 % queue.slot_count;
  count = add_size queue.count 1;
}

-- What `push` does under the mutex.
pub push_locked : SampleQueue → List ℕ → ℕ → ℕ → Bool × SampleQueue
push_locked queue samples sample_count device_dropped =
    if queue.stopping
    then (false, queue)
    else if ltb queue.block_capacity sample_count || queue.count == queue.slot_count
    then (false, count_drops queue sample_count device_dropped)
    else (true, store queue samples sample_count device_dropped)

-- `push` on a queue that is there.
pub push_on : SampleQueue → Option (List ℕ) → ℕ → ℕ → Bool × SampleQueue
push_on queue none sample_count device_dropped = (false, queue)
push_on queue (some samples) sample_count device_dropped =
    if sample_count == 0
    then (false, queue)
    else push_locked queue samples sample_count device_dropped

pub push : Option SampleQueue → Option (List ℕ) → ℕ → ℕ → Bool × Option SampleQueue
push none samples sample_count device_dropped = (false, none)
push (some queue) samples sample_count device_dropped =
    let (accepted, queue') = push_on queue samples sample_count device_dropped in
    (accepted, some queue')

abbrev pub available : SampleQueue → Bool
available queue = not (queue.count == 0) && not queue.stopping

-- The states that the consumer finds under the mutex, at the call and at each wake-up. `none`: it
-- still waits behind the last of them.
pub wait : List SampleQueue → Option Bool
wait [] = none
wait (queue ∷ later) =
    if queue.count == 0 && not queue.stopping then wait later else some (available queue)

pub try_peek : SampleQueue → Option Slot
try_peek queue = if available queue then some (get_or queue.slots queue.tail zero_slot) else none

-- The oldest block is freed. `count` falls only where it is not 0.
pub free_oldest : SampleQueue → SampleQueue
free_oldest queue = record queue {
  tail = add_size queue.tail 1 % queue.slot_count;
  count = queue.count - 1;
}

pub release : SampleQueue → Bool × SampleQueue
release queue = if not (queue.count == 0) then (true, free_oldest queue) else (false, queue)
