-- ===== src/HopSchedule/Rotation.antt =====
-- A plan's bands take turns, each for one dwell slot.
use airspyhf_wsprd.Common.{
  ℕ, ◌+◌, ◌*◌, ◌/◌, ◌%◌, ◌<◌, ◌≡◌, ap, ◌∙◌, false, none, some, arith, length, get_elem?,
  get_elem?-some, if◌then◌else◌,
}
use airspyhf_wsprd.Common.Int.{pos}
use airspyhf_wsprd.HopPlan.{HopBand, HopPlan}
use airspyhf_wsprd.HopSchedule.{hop_band_at_dwell}

-- The slot of a second.
pub slot_of : (k d o : ℕ) → o < d → (k * d + o) / d ≡ k
slot_of k d o h = grind arith

-- In every second of the dwell slot `k` a plan of n bands shows its band k mod n.
hop_band_at_dwell_lem :
    (plan : HopPlan) (k dwell o : ℕ)
    → 0 < length plan
    → o < dwell
    → hop_band_at_dwell (some plan) (pos (k * dwell + o)) dwell ≡ get_elem? plan (k % length plan)
unfolding hop_band_at_dwell
hop_band_at_dwell_lem plan k dwell o some_band h =
    ap (λ b. if b then none else get_elem? plan ((k * dwell + o) / dwell % length plan)) {y = false}
      (ground arith)
    ∙ ap (λ s. get_elem? plan (s % length plan)) (slot_of k dwell o h)

add-mod_self : (k n : ℕ) → 0 < n → (k + n) % n ≡ k % n
add-mod_self k n h = grind arith

-- A plan that is not empty shows a band in every second, and the same band as many dwell slots later
-- as it has bands.
hop_band_at_dwell_period :
    (plan : HopPlan) (k dwell o : ℕ)
    → 0 < length plan
    → o < dwell
    → (band : HopBand) × (hop_band_at_dwell (some plan) (pos (k * dwell + o)) dwell ≡ some band)
      × (hop_band_at_dwell (some plan) (pos ((k + length plan) * dwell + o)) dwell ≡ some band)
hop_band_at_dwell_period plan k dwell o some_band h =
    let (band, found) = get_elem?-some plan (k % length plan) (omega arith) in
    (
      band,
      hop_band_at_dwell_lem plan k dwell o some_band h ∙ found,
      hop_band_at_dwell_lem plan (k + length plan) dwell o some_band h
          ∙ ap (λ i. get_elem? plan i) (add-mod_self k (length plan) some_band)
          ∙ found,
    )
