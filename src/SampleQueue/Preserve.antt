-- ===== src/SampleQueue/Preserve.antt =====
-- Every function of the sample queue keeps it valid.
use airspyhf_wsprd.Common.{
  ℕ, ◌+◌, ◌-◌, ◌*◌, ◌%◌, ◌≤◌, ◌<◌, ◌≡◌, ◌≢◌, ap, ◌∙◌, sym, subst, true, false, List, arith, get_or,
  take, length-set, length-write_at, get_or-set_self, get_or-set_ne, ◌⊎◌, inl, inr,
}
use native.Mathlib.Decide.{ℕ_discrete}
use native.Mathlib.Nat.{mod-add-mod}
use airspyhf_wsprd.SampleQueue.{
  size_max, add_size, SampleQueue, zero_slot, filled_slot, reset, stop, count_drops, store,
  push_locked, free_oldest, release,
}
use airspyhf_wsprd.SampleQueue.Invariant.{IsValid, OwnsBlock, head_in, saturating_add-le}

-- One step of an index round the slots does not wrap as a `size_t`.
pub next_index : (i n : ℕ) → i < n → n ≤ size_max → add_size i 1 % n ≡ (i + 1) % n
next_index i n h small = ap (λ k. k % n) (omega arith)

-- The head follows the tail when one more slot is in use, and when one is freed.
advance_head :
    (head tail count n : ℕ) → head ≡ (tail + count) % n → (head + 1) % n ≡ (tail + (count + 1)) % n
advance_head head tail count n h = rw (h, mod-add-mod) (ap (λ k. k % n) (omega arith))

advance_tail :
    (head tail count n : ℕ) → head ≡ (tail + (count + 1)) % n → head ≡ ((tail + 1) % n + count) % n
advance_tail head tail count n h = rw mod-add-mod (h ∙ ap (λ k. k % n) (omega arith))

count_drops-IsValid : (q : SampleQueue) (n d : ℕ) → IsValid q → IsValid (count_drops q n d)
unfolding count_drops
count_drops-IsValid q n d v = record {
  slots_len = v.slots_len;
  storage_len = v.storage_len;
  has_slots = v.has_slots;
  small = v.small;
  count_in = v.count_in;
  tail_in = v.tail_in;
  head_at = v.head_at;
  device_in = saturating_add-le _ _ v.device_in;
  queue_in = saturating_add-le _ _ v.queue_in;
  owns = λ i h. record { offset = (v.owns i h).offset; fits = (v.owns i h).fits };
}

store-OwnsBlock :
    (q : SampleQueue) (samples : List ℕ) (n d i : ℕ)
    → IsValid q
    → n ≤ q.block_capacity
    → i < q.slot_count
    → OwnsBlock (store q samples n d) i
unfolding store
store-OwnsBlock q samples n d i v fit h = elim (ℕ_discrete q.head i) [
  | yes e ↦ subst (OwnsBlock (store q samples n d)) e (record {
    offset = ap (λ s. s.samples) here ∙ (v.owns q.head (head_in v)).offset;
    fits = omega (arith, ap (λ s. s.sample_count) here);
  })
  | no ne ↦ record {
    offset = ap (λ s. s.samples) (there ne) ∙ (v.owns i h).offset;
    fits = omega (arith, ap (λ s. s.sample_count) (there ne), (v.owns i h).fits);
  }
]
  where
    here : get_or (store q samples n d).slots q.head zero_slot ≡ filled_slot q n d
    here =
        get_or-set_self q.slots q.head (filled_slot q n d) zero_slot
          (omega (arith, head_in v, v.slots_len))

    there :
        ¬ (q.head ≡ i) → get_or (store q samples n d).slots i zero_slot ≡ get_or q.slots i zero_slot
    there ne = get_or-set_ne q.slots q.head i (filled_slot q n d) zero_slot ne

store-IsValid :
    (q : SampleQueue) (samples : List ℕ) (n d : ℕ)
    → IsValid q
    → n ≤ q.block_capacity
    → q.count < q.slot_count
    → IsValid (store q samples n d)
unfolding store
store-IsValid q samples n d v fit room = record {
  slots_len = length-set q.slots q.head _ ∙ v.slots_len;
  storage_len = omega (
    arith,
    v.storage_len,
    length-write_at q.storage (get_or q.slots q.head zero_slot).samples
        (take (n * q.element_size) samples),
  );
  has_slots = v.has_slots;
  small = v.small;
  count_in = omega arith;
  tail_in = v.tail_in;
  head_at =
      ap (λ k. k % q.slot_count) (omega (arith, head_in v))
      ∙ advance_head q.head q.tail q.count q.slot_count v.head_at
      ∙ ap (λ k. (q.tail + k) % q.slot_count) (omega arith);
  device_in = omega arith;
  queue_in = omega arith;
  owns = λ i h. store-OwnsBlock q samples n d i v fit h;
}

-- The three ways through `push` behind the mutex, each with what its tests have shown.
pub push_locked_cases :
    (q : SampleQueue) (samples : List ℕ) (n d : ℕ)
    → ((q.stopping ≡ true) × (push_locked q samples n d ≡ (false, q)))
      ⊎ ((q.stopping ≡ false)
          × ((q.block_capacity < n) ⊎ (q.count ≡ q.slot_count))
          × (push_locked q samples n d ≡ (false, count_drops q n d)))
      ⊎ ((q.stopping ≡ false)
          × (n ≤ q.block_capacity)
          × (q.count ≢ q.slot_count)
          × (push_locked q samples n d ≡ (true, store q samples n d)))
unfolding push_locked
push_locked_cases q samples n d = ground arith

pub push_locked-IsValid :
    (q : SampleQueue) (samples : List ℕ) (n d : ℕ)
    → IsValid q
    → IsValid (push_locked q samples n d).1
push_locked-IsValid q samples n d v = elim (push_locked_cases q samples n d) [
  | inl (_, e) ↦ rw e v
  | inr (inl (_, _, e)) ↦ rw e (count_drops-IsValid q n d v)
  | inr (inr (_, fit, room, e)) ↦ rw e (store-IsValid q samples n d v fit (omega arith))
]

pub release_cases :
    (q : SampleQueue)
    → ((q.count ≡ 0) × (release q ≡ (false, q)))
      ⊎ ((q.count ≢ 0) × (release q ≡ (true, free_oldest q)))
unfolding release
release_cases q = ground arith

free_oldest-IsValid : (q : SampleQueue) → q.count ≢ 0 → IsValid q → IsValid (free_oldest q)
unfolding free_oldest
free_oldest-IsValid q some_used v = record {
  slots_len = v.slots_len;
  storage_len = v.storage_len;
  has_slots = v.has_slots;
  small = v.small;
  count_in = omega arith;
  tail_in = omega arith;
  head_at =
      advance_tail q.head q.tail (q.count - 1) q.slot_count
        (v.head_at ∙ ap (λ k. (q.tail + k) % q.slot_count) (omega arith))
      ∙ ap (λ k. (k + (q.count - 1)) % q.slot_count)
          (sym (next_index q.tail q.slot_count v.tail_in v.small));
  device_in = v.device_in;
  queue_in = v.queue_in;
  owns = λ i h. record { offset = (v.owns i h).offset; fits = (v.owns i h).fits };
}

pub release-IsValid : (q : SampleQueue) → IsValid q → IsValid (release q).1
release-IsValid q v = elim (release_cases q) [
  | inl (_, e) ↦ rw e v
  | inr (used, e) ↦ rw e (free_oldest-IsValid q used v)
]

pub reset-IsValid : (q : SampleQueue) → IsValid q → IsValid (reset q)
unfolding reset
reset-IsValid q v = record {
  slots_len = v.slots_len;
  storage_len = v.storage_len;
  has_slots = v.has_slots;
  small = v.small;
  count_in = omega arith;
  tail_in = v.has_slots;
  head_at = omega arith;
  device_in = omega arith;
  queue_in = omega arith;
  owns = λ i h. record { offset = (v.owns i h).offset; fits = (v.owns i h).fits };
}

pub stop-IsValid : (q : SampleQueue) → IsValid q → IsValid (stop q)
unfolding stop
stop-IsValid q v = record {
  slots_len = v.slots_len;
  storage_len = v.storage_len;
  has_slots = v.has_slots;
  small = v.small;
  count_in = v.count_in;
  tail_in = v.tail_in;
  head_at = v.head_at;
  device_in = v.device_in;
  queue_in = v.queue_in;
  owns = λ i h. record { offset = (v.owns i h).offset; fits = (v.owns i h).fits };
}
