-- ===== src/SampleQueue/Refine.antt =====
-- The slots and the flat buffer of a valid sample queue behave as the list of its blocks.
use airspyhf_wsprd.Common.{
  ℕ, suc, ◌+◌, ◌*◌, ◌≤◌, ◌<◌, ◌≡◌, ◌≢◌, ap, sym, subst, ◌∙◌, true, Option, none, some, List, [],
  ◌∷◌, ◌++◌, arith, length, get_or, take, write_at, read_at, length-take, get_or-set_self,
  get_or-set_ne, read_at-write_at_self, read_at-write_at_before, read_at-write_at_after, inl, inr,
}
use native.Mathlib.Decide.{dec_lt}
use airspyhf_wsprd.Common.Ring.{window, length-window, window_of_pos, window_push}
use airspyhf_wsprd.SampleQueue.{
  Slot, SampleQueue, zero_slot, filled_slot, count_drops, store, push_locked, free_oldest, try_peek,
  release,
}
use airspyhf_wsprd.SampleQueue.Invariant.{IsValid, head_in}
use airspyhf_wsprd.SampleQueue.Preserve.{next_index, push_locked_cases, release_cases}
use airspyhf_wsprd.SampleQueue.Fifo.{Block, Fifo, new_block, oldest, discard, offer, offer_taken}

-- What the consumer finds behind a slot: it reads the samples through the slot's pointer.
abbrev pub block_of : SampleQueue → Slot → Block
block_of q s = record {
  bytes = read_at q.storage s.samples (s.sample_count * q.element_size);
  sample_count = s.sample_count;
  device_dropped = s.device_dropped_samples;
  queue_dropped = s.queue_dropped_samples;
}

abbrev pub block_at : SampleQueue → ℕ → Block
block_at q i = block_of q (get_or q.slots i zero_slot)

abbrev pub contents : SampleQueue → Fifo
contents q = record {
  blocks = window q.slot_count (block_at q) q.tail q.count;
  device_pending = q.pending_device_drops;
  queue_pending = q.pending_queue_drops;
  stopping = q.stopping;
}

-- A block before another ends where that one begins, or sooner.
ends_before : (i j e c n : ℕ) → i < j → n ≤ c → i * (e * c) + n * e ≤ j * (e * c)
ends_before i j e c n h fit = grind arith

module _ (q : SampleQueue) (samples : List ℕ) (n d : ℕ) (v : IsValid q) (fit : n ≤ q.block_capacity)
    (enough : n * q.element_size ≤ length samples) where
  source : List ℕ
  source = take (n * q.element_size) samples

  length-source : length source ≡ n * q.element_size
  unfolding source
  length-source = omega (arith, length-take (n * q.element_size) samples)

  start : ℕ
  start = (get_or q.slots q.head zero_slot).samples

  start_lem : start ≡ q.head * (q.element_size * q.block_capacity)
  unfolding start
  start_lem = (v.owns q.head (head_in v)).offset

  read_source : read_at (write_at q.storage start source) start (n * q.element_size) ≡ source
  read_source =
      subst (λ k. read_at (write_at q.storage start source) start k ≡ source) length-source
        (read_at-write_at_self q.storage start source (
          omega (
            arith,
            start_lem,
            length-source,
            ends_before q.head q.slot_count q.element_size q.block_capacity n (head_in v) fit,
          )))

  -- The bytes of another slot's block.
  read_other :
      (j : ℕ)
      → j < q.slot_count
      → q.head ≢ j
      → let s = get_or q.slots j zero_slot in
        let m = s.sample_count * q.element_size in
        read_at (write_at q.storage start source) s.samples m ≡ read_at q.storage s.samples m
  read_other j h ne =
      let s = get_or q.slots j zero_slot in
      let m = s.sample_count * q.element_size in
      elim (dec_lt j q.head) [
        | yes before ↦ read_at-write_at_before q.storage s.samples m start source (
            omega (
              arith,
              start_lem,
              (v.owns j h).offset,
              ends_before j q.head q.element_size q.block_capacity s.sample_count before
                  (v.owns j h).fits,
            ))
        | no after ↦ read_at-write_at_after q.storage s.samples m start source (
            omega (
              arith,
              start_lem,
              length-source,
              (v.owns j h).offset,
              ends_before q.head j q.element_size q.block_capacity n (omega arith) fit,
            ))
      ]

  block_at-store_self :
      block_at (store q samples n d) q.head ≡ new_block q.element_size (contents q) samples n d
  unfolding store source start
  block_at-store_self =
      ap (block_of (store q samples n d)) (
        get_or-set_self q.slots q.head (filled_slot q n d) zero_slot
          (omega (arith, head_in v, v.slots_len)))
      ∙ ap (λ b. record (new_block q.element_size (contents q) samples n d) { bytes = b })
          read_source

  block_at-store_ne :
      (j : ℕ) → j < q.slot_count → q.head ≢ j → block_at (store q samples n d) j ≡ block_at q j
  unfolding store source start
  block_at-store_ne j h ne =
      ap (block_of (store q samples n d))
        (get_or-set_ne q.slots q.head j (filled_slot q n d) zero_slot ne)
      ∙ ap (λ b. record (block_at q j) { bytes = b }) (read_other j h ne)

  blocks-store :
      q.count ≢ q.slot_count
      → (contents (store q samples n d)).blocks
        ≡ (contents q).blocks ++ (new_block q.element_size (contents q) samples n d ∷ [])
  unfolding store
  blocks-store room =
      ap (λ k. window q.slot_count (block_at (store q samples n d)) q.tail k) {y = suc q.count}
        (omega (arith, v.count_in))
      ∙ window_push q.slot_count (block_at q) (block_at (store q samples n d)) q.tail q.count q.head
          (new_block q.element_size (contents q) samples n d) v.tail_in (omega (arith, v.count_in))
          v.head_at block_at-store_self block_at-store_ne

module _ (q : SampleQueue) (samples : List ℕ) (n d : ℕ) where
  contents-store :
      (bs : List Block)
      → (contents (store q samples n d)).blocks ≡ bs
      → contents (store q samples n d)
        ≡ record (contents q) { blocks = bs; device_pending = 0; queue_pending = 0 }
  unfolding store
  contents-store bs e =
      ap (λ l. record (contents q) { blocks = l; device_pending = 0; queue_pending = 0 }) e

abbrev pub look_at : SampleQueue → Option Slot → Option Block
look_at q none = none
look_at q (some s) = some (block_of q s)

module _ (q : SampleQueue) (v : IsValid q) where
  length-contents : length (contents q).blocks ≡ q.count
  length-contents = length-window q.slot_count (block_at q) q.tail q.count

  -- A push behind the mutex is the offer of a block.
  pub push_locked_refines :
      (samples : List ℕ) (n d : ℕ)
      → n * q.element_size ≤ length samples
      → let (b, q') = push_locked q samples n d in
        (b, contents q')
        ≡ offer q.element_size q.block_capacity q.slot_count (contents q) samples n d
  unfolding offer
  push_locked_refines samples n d enough = elim (push_locked_cases q samples n d) [
    | inl (e, r) ↦ rw r (ground arith)
    | inr (inl (e, why, r)) ↦ rw r (unfold count_drops in ground (arith, length-contents))
    | inr (inr (e, fit, room, r)) ↦ rw r (
        ap (λ f. (true, f))
          (contents-store q samples n d _ (blocks-store q samples n d v fit enough room))
        ∙ sym (
            offer_taken q.element_size q.block_capacity q.slot_count (contents q) samples n d e fit
              (omega (arith, length-contents))))
  ]

  pub peek_refines : look_at q (try_peek q) ≡ oldest (contents q)
  unfolding try_peek oldest
  peek_refines = ground (arith, window_of_pos q.slot_count (block_at q) q.tail q.count)

  pub release_refines : let (b, q') = release q in (b, contents q') ≡ discard (contents q)
  unfolding discard
  release_refines = elim (release_cases q) [
    | inl (e, r) ↦ rw r (ground arith)
    | inr (used, r) ↦ rw r (
        unfold free_oldest in
        ground (
          arith,
          window_of_pos q.slot_count (block_at q) q.tail q.count used,
          next_index q.tail q.slot_count v.tail_in v.small,
        ))
  ]
