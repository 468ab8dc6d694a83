-- ===== src/SampleQueue/Drops.antt =====
-- No lost sample goes unreported: what a push could not keep is reported by the next block that is
-- taken, or is still pending.
use airspyhf_wsprd.Common.{
  ℕ, ◌+◌, ◌≤◌, ◌≡◌, ◌≢◌, ap, Bool, true, false, ◌||◌, some, List, arith, get_or, get_or-set_self,
  ◌==◌, if◌then◌else◌, inl, inr, ◌⊎◌,
}
use airspyhf_wsprd.SampleQueue.{
  size_max, SampleQueue, zero_slot, filled_slot, push_on, count_drops, store,
}
use airspyhf_wsprd.SampleQueue.Invariant.{IsValid, head_in, saturating_add_lem}
use airspyhf_wsprd.SampleQueue.Preserve.{push_locked_cases}

-- The samples of a block that a running queue refuses, by what the push has answered.
unfoldable pub refused : SampleQueue → ℕ → Bool × SampleQueue → ℕ
refused q n (accepted, q') = if q.stopping then 0 else if accepted then 0 else n

-- The samples that the device reports lost with a block that a running queue is offered.
unfoldable pub announced : SampleQueue → ℕ → ℕ → ℕ
announced q n d = if q.stopping || n == 0 then 0 else d

-- What the slot that is filled, if one is, reports of the queue's own losses and of the device's.
pub reported : SampleQueue → Bool × SampleQueue → ℕ × ℕ
reported q (accepted, q') =
    let slot = get_or q'.slots q.head zero_slot in
    if accepted then (slot.queue_dropped_samples, slot.device_dropped_samples) else (0, 0)

-- Both balances of one push.
pub record Balanced (q : SampleQueue) (n d : ℕ) (res : Bool × SampleQueue) : Type 0 where
  pub queue_kept :
      q.pending_queue_drops + refused q n res ≤ size_max
      → (reported q res).0 + res.1.pending_queue_drops ≡ q.pending_queue_drops + refused q n res
  pub device_kept :
      q.pending_device_drops + announced q n d ≤ size_max
      → (reported q res).1 + res.1.pending_device_drops ≡ q.pending_device_drops + announced q n d

push_on_cases :
    (q : SampleQueue) (samples : List ℕ) (n d : ℕ)
    → (((q.stopping ≡ true) ⊎ (n ≡ 0)) × (push_on q (some samples) n d ≡ (false, q)))
      ⊎ ((q.stopping ≡ false)
          × (n ≢ 0)
          × (push_on q (some samples) n d ≡ (false, count_drops q n d)))
      ⊎ ((q.stopping ≡ false)
          × (n ≢ 0)
          × (push_on q (some samples) n d ≡ (true, store q samples n d)))
unfolding push_on
push_on_cases q samples n d = ground (arith, push_locked_cases q samples n d)

ignored-Balanced :
    (q : SampleQueue) (n d : ℕ) → (q.stopping ≡ true) ⊎ (n ≡ 0) → Balanced q n d (false, q)
unfolding refused announced reported
ignored-Balanced q n d why = record {
  queue_kept = λ h. ground arith;
  device_kept = λ h. ground arith;
}

count_drops-Balanced :
    (q : SampleQueue) (n d : ℕ)
    → IsValid q
    → q.stopping ≡ false
    → n ≢ 0
    → Balanced q n d (false, count_drops q n d)
unfolding refused announced reported count_drops
count_drops-Balanced q n d v e pos = record {
  queue_kept = λ h. ground (arith, saturating_add_lem q.pending_queue_drops n v.queue_in);
  device_kept = λ h. ground (arith, saturating_add_lem q.pending_device_drops d v.device_in);
}

store-Balanced :
    (q : SampleQueue) (samples : List ℕ) (n d : ℕ)
    → IsValid q
    → q.stopping ≡ false
    → n ≢ 0
    → Balanced q n d (true, store q samples n d)
unfolding refused announced reported store
store-Balanced q samples n d v e pos = record {
  queue_kept = λ h. ground (arith, ap (λ s. s.queue_dropped_samples) written);
  device_kept = λ h. ground (
    arith,
    ap (λ s. s.device_dropped_samples) written,
    saturating_add_lem q.pending_device_drops d v.device_in,
  );
}
  where
    written : get_or (store q samples n d).slots q.head zero_slot ≡ filled_slot q n d
    written =
        get_or-set_self q.slots q.head (filled_slot q n d) zero_slot
          (omega (arith, head_in v, v.slots_len))

-- One push: what was pending and what it adds is reported by its block or pending afterwards, as
-- long as the sum fits a `uint64_t`.
pub push_on-Balanced :
    (q : SampleQueue) (samples : List ℕ) (n d : ℕ)
    → IsValid q
    → Balanced q n d (push_on q (some samples) n d)
push_on-Balanced q samples n d v = elim (push_on_cases q samples n d) [
  | inl (why, r) ↦ rw r (ignored-Balanced q n d why)
  | inr (inl (e, pos, r)) ↦ rw r (count_drops-Balanced q n d v e pos)
  | inr (inr (e, pos, r)) ↦ rw r (store-Balanced q samples n d v e pos)
]
