-- ===== src/HopSchedule/Adaptive.antt =====
-- The adaptive rotation against its plan: of six dwell slots five go through the ranked bands without
-- a gap, and the sixth goes through the candidates that are not ranked.
use airspyhf_wsprd.Common.{
  ℕ, zero, suc, ◌+◌, ◌-◌, ◌*◌, ◌/◌, ◌%◌, ◌≤◌, ◌<◌, ◌≡◌, ◌≢◌, refl, ap, ◌∙◌, true, false, none, some,
  [], ◌∷◌, arith, length, get_elem?, get_elem?-some, All-get_elem?, All, if◌then◌else◌, Bool-cases,
  inl, inr,
}
use airspyhf_wsprd.Common.Int.{pos}
use airspyhf_wsprd.HopPlan.{HopBand, HopPlan}
use airspyhf_wsprd.HopSchedule.{
  contains_database_band, count_excluded, find_excluded, ranked_band, explored, adaptive_in_slot,
  adaptive_hop_band_at_dwell,
}
use airspyhf_wsprd.HopSchedule.Rotation.{slot_of}

-- The candidates that are not among the ranked bands, in their order.
unfoldable pub excluded : HopPlan → HopPlan → HopPlan
excluded ranked [] = []
excluded ranked (band ∷ candidates) =
    if contains_database_band ranked band.database_band
    then excluded ranked candidates
    else band ∷ excluded ranked candidates

count_excluded_lem : (r cs : HopPlan) → count_excluded r cs ≡ length (excluded r cs)
unfolding count_excluded excluded
count_excluded_lem r [] = refl
count_excluded_lem r (band ∷ cs) = elim (Bool-cases (contains_database_band r band.database_band)) [
  | inl e ↦ rw e (omega (arith, count_excluded_lem r cs))
  | inr e ↦ rw e (omega (arith, count_excluded_lem r cs))
]

find_excluded_lem : (r cs : HopPlan) (w : ℕ) → find_excluded r cs w ≡ get_elem? (excluded r cs) w
unfolding find_excluded excluded
find_excluded_lem r [] w = refl
find_excluded_lem r (band ∷ cs) zero =
    elim (Bool-cases (contains_database_band r band.database_band)) [
      | inl e ↦ rw e (find_excluded_lem r cs zero)
      | inr e ↦ rw e
    ]
find_excluded_lem r (band ∷ cs) (suc w) =
    elim (Bool-cases (contains_database_band r band.database_band)) [
      | inl e ↦ rw e (find_excluded_lem r cs (suc w))
      | inr e ↦ ground (
        arith,
        find_excluded_lem r cs w,
        ap (λ v. find_excluded r cs v) {x = suc w - 1} {y = w} (omega arith),
      )
    ]

-- None of the excluded bands is ranked.
excluded_not_ranked :
    (r cs : HopPlan)
    → All (λ band. contains_database_band r band.database_band ≡ false) (excluded r cs)
unfolding excluded
excluded_not_ranked r [] = tt
excluded_not_ranked r (band ∷ cs) =
    elim (Bool-cases (contains_database_band r band.database_band)) [
      | inl e ↦ rw e (excluded_not_ranked r cs)
      | inr e ↦ rw e (e, excluded_not_ranked r cs)
    ]

-- The exploring slots, and the others, where some candidate is not ranked.
in_slot_explores :
    (r cs : HopPlan) (slot : ℕ) {band : HopBand}
    → slot % 6 ≡ 5
    → 0 < length (excluded r cs)
    → get_elem? (excluded r cs) (slot / 6 % length (excluded r cs)) ≡ some band
    → adaptive_in_slot r cs slot ≡ (some band, true)
unfolding adaptive_in_slot explored
in_slot_explores r cs slot {band} five some_out found =
    ground (arith, count_excluded_lem r cs, look)
  where
    look : find_excluded r cs (slot / 6 % count_excluded r cs) ≡ some band
    look =
        find_excluded_lem r cs (slot / 6 % count_excluded r cs)
        ∙ ap (λ m. get_elem? (excluded r cs) (slot / 6 % m)) (count_excluded_lem r cs)
        ∙ found

in_slot_ranked :
    (r cs : HopPlan) (slot : ℕ)
    → slot % 6 ≢ 5
    → 0 < length (excluded r cs)
    → adaptive_in_slot r cs slot ≡ (get_elem? r ((slot - slot / 6) % length r), false)
unfolding adaptive_in_slot ranked_band
in_slot_ranked r cs slot other some_out = ground (arith, count_excluded_lem r cs)

in_slot_all_ranked :
    (r cs : HopPlan) (slot : ℕ)
    → length (excluded r cs) ≡ 0
    → adaptive_in_slot r cs slot ≡ (get_elem? r (slot % length r), false)
unfolding adaptive_in_slot ranked_band
in_slot_all_ranked r cs slot none_out = ground (arith, count_excluded_lem r cs)

-- The call in a second of a slot.
at_second :
    (r cs : HopPlan) (slot dwell o : ℕ)
    → 0 < length r
    → 0 < length cs
    → o < dwell
    → adaptive_hop_band_at_dwell (some r) (some cs) (pos (slot * dwell + o)) dwell
      ≡ adaptive_in_slot r cs slot
unfolding adaptive_hop_band_at_dwell
at_second r cs slot dwell o ranked_some candidates_some h =
    ap (λ b. if b then (none, false) else adaptive_in_slot r cs ((slot * dwell + o) / dwell))
      {y = false} (ground arith)
    ∙ ap (λ s. adaptive_in_slot r cs s) (slot_of slot dwell o h)

excluded-le : (r cs : HopPlan) → length (excluded r cs) ≤ length cs
unfolding excluded
excluded-le r [] = omega arith
excluded-le r (band ∷ cs) = ground (arith, excluded-le r cs)

sixth : (p : ℕ) → (6 * p + 5) / 6 ≡ p
sixth p = omega arith

rounds-mod : (i m j : ℕ) → i < m → (i + m * j) % m ≡ i
rounds-mod i m j h = grind arith

turn_of : (i j m : ℕ) → i < m → (6 * (i + m * j) + 5) / 6 % m ≡ i
turn_of i j m h = ap (λ p. p % m) (sixth (i + m * j)) ∙ rounds-mod i m j h

-- In the last of each six dwell slots the station explores: in turn, each candidate that is not
-- ranked is shown, for the whole slot and marked as exploration. The i-th of m such candidates has
-- the slots 6 (i + m j) + 5.
pub adaptive_explores :
    (ranked candidates : HopPlan) (i j dwell o : ℕ)
    → 0 < length ranked
    → i < length (excluded ranked candidates)
    → o < dwell
    → let m = length (excluded ranked candidates) in
      (band : HopBand) × (adaptive_hop_band_at_dwell
          (some ranked)
          (some candidates)
          (pos ((6 * (i + m * j) + 5) * dwell + o))
          dwell
        ≡ (some band, true))
      × (get_elem? (excluded ranked candidates) i ≡ some band)
      × (contains_database_band ranked band.database_band ≡ false)
adaptive_explores ranked candidates i j dwell o ranked_some inside h =
    let m = length (excluded ranked candidates) in
    let slot = 6 * (i + m * j) + 5 in
    let (band, found) = get_elem?-some (excluded ranked candidates) i inside in
    let turn : slot / 6 % m ≡ i = turn_of i j m inside in
    (
      band,
      at_second ranked candidates slot dwell o ranked_some
            (omega (arith, excluded-le ranked candidates)) h
          ∙ in_slot_explores ranked candidates slot (omega arith) (omega arith)
              (ap (λ k. get_elem? (excluded ranked candidates) k) turn ∙ found),
      found,
      All-get_elem? _ (excluded ranked candidates) i (excluded_not_ranked ranked candidates) found,
    )

-- The five slots before it go on through the ranked bands where the five of the hour before ended:
-- hop h of hour j shows ranked band 5 j + h, round the plan, and is not marked.
pub adaptive_keeps_rotation :
    (ranked candidates : HopPlan) (j hop dwell o : ℕ)
    → 0 < length ranked
    → 0 < length (excluded ranked candidates)
    → hop < 5
    → o < dwell
    → adaptive_hop_band_at_dwell
        (some ranked)
        (some candidates)
        (pos ((6 * j + hop) * dwell + o))
        dwell
      ≡ (get_elem? ranked ((5 * j + hop) % length ranked), false)
adaptive_keeps_rotation ranked candidates j hop dwell o ranked_some some_out early h =
    at_second ranked candidates (6 * j + hop) dwell o ranked_some
      (omega (arith, excluded-le ranked candidates)) h
    ∙ in_slot_ranked ranked candidates (6 * j + hop) (omega arith) some_out
    ∙ ap (λ k. (get_elem? ranked (k % length ranked), false)) {y = 5 * j + hop} (omega arith)

-- Where every candidate is ranked, each slot shows the next ranked band, and none is marked.
adaptive_all_ranked :
    (ranked candidates : HopPlan) (slot dwell o : ℕ)
    → 0 < length ranked
    → 0 < length candidates
    → length (excluded ranked candidates) ≡ 0
    → o < dwell
    → adaptive_hop_band_at_dwell (some ranked) (some candidates) (pos (slot * dwell + o)) dwell
      ≡ (get_elem? ranked (slot % length ranked), false)
adaptive_all_ranked ranked candidates slot dwell o ranked_some candidates_some none_out h =
    at_second ranked candidates slot dwell o ranked_some candidates_some h
    ∙ in_slot_all_ranked ranked candidates slot none_out
