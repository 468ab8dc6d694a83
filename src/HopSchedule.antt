-- ===== src/HopSchedule.antt =====
-- bands.c: which band of a plan is shown at a time, in a fixed rotation and in the adaptive one,
-- which keeps every sixth dwell slot for a band that is not among the ranked ones.
pub mod Rotation
pub mod Adaptive
mod Examples
use airspyhf_wsprd.Common.{
  ℕ, zero, suc, ◌+◌, ◌-◌, ◌*◌, ◌/◌, ◌%◌, Bool, true, false, not, ◌&&◌, ◌||◌, Option, none, some,
  List, [], ◌∷◌, ◌++◌, ltb, leb, ◌==◌, if◌then◌else◌, length, get_elem?, Text, codes, is_space,
  text_eq, text_case_eq,
}
use airspyhf_wsprd.Common.Int.{ℤ, pos, negsuc, ◌==ℤ◌}
use airspyhf_wsprd.HopPlan.{HopBand, HopPlan}

-- `WSPR_HOP_DWELL_SECONDS`
abbrev pub hop_dwell_seconds : ℕ
hop_dwell_seconds = 600

-- The band of a plan in a dwell slot; a pointer is `none` where the code returns NULL.
pub hop_band_at_dwell : Option HopPlan → ℤ → ℕ → Option HopBand
hop_band_at_dwell none utc_seconds dwell_seconds = none
hop_band_at_dwell (some plan) (negsuc n) dwell_seconds = none
hop_band_at_dwell (some plan) (pos utc_seconds) dwell_seconds =
    if length plan == 0 || dwell_seconds == 0
    then none
    else get_elem? plan (utc_seconds / dwell_seconds % length plan)

pub hop_band_at : Option HopPlan → ℤ → Option HopBand
hop_band_at plan utc_seconds = hop_band_at_dwell plan utc_seconds hop_dwell_seconds

unfoldable pub contains_database_band : HopPlan → ℤ → Bool
contains_database_band [] database_band = false
contains_database_band (band ∷ plan) database_band =
    band.database_band ==ℤ database_band || contains_database_band plan database_band

pub count_excluded : HopPlan → HopPlan → ℕ
count_excluded ranked [] = 0
count_excluded ranked (band ∷ candidates) =
    (if not (contains_database_band ranked band.database_band) then 1 else 0)
    + count_excluded ranked candidates

-- The loop that counts `wanted` down over the candidates that are not ranked.
pub find_excluded : HopPlan → HopPlan → ℕ → Option HopBand
find_excluded ranked [] wanted = none
find_excluded ranked (band ∷ candidates) wanted =
    if contains_database_band ranked band.database_band
    then find_excluded ranked candidates wanted
    else (let rest = find_excluded ranked candidates (wanted - 1) in
        if wanted == 0 then some band else rest)

-- The rotation through the ranked bands.
ranked_band : HopPlan → ℕ → ℕ → Option HopBand
ranked_band ranked slot excluded_count =
    get_elem? ranked ((if excluded_count == 0 then slot else slot - slot / 6) % length ranked)

-- What the exploring branch finds; where it finds no band the ranked rotation goes on.
explored : Option HopBand → Option HopBand → Option HopBand × Bool
explored none otherwise = (otherwise, false)
explored (some band) otherwise = (some band, true)

-- The band, and what `*exploration_slot` holds.
pub adaptive_in_slot : HopPlan → HopPlan → ℕ → Option HopBand × Bool
adaptive_in_slot ranked candidates slot =
    let excluded_count = count_excluded ranked candidates in
    if slot % 6 == 5 && not (excluded_count == 0)
    then explored (find_excluded ranked candidates (slot / 6 % excluded_count))
        (ranked_band ranked slot excluded_count)
    else (ranked_band ranked slot excluded_count, false)

pub adaptive_hop_band_at_dwell : Option HopPlan → Option HopPlan → ℤ → ℕ → Option HopBand × Bool
adaptive_hop_band_at_dwell none candidates utc_seconds dwell_seconds = (none, false)
adaptive_hop_band_at_dwell (some ranked) none utc_seconds dwell_seconds = (none, false)
adaptive_hop_band_at_dwell (some ranked) (some candidates) (negsuc n) dwell_seconds = (none, false)
adaptive_hop_band_at_dwell (some ranked) (some candidates) (pos utc_seconds) dwell_seconds =
    if length ranked == 0 || length candidates == 0 || dwell_seconds == 0
    then (none, false)
    else adaptive_in_slot ranked candidates (utc_seconds / dwell_seconds)

pub adaptive_hop_band_at : Option HopPlan → Option HopPlan → ℤ → Option HopBand × Bool
adaptive_hop_band_at ranked candidates utc_seconds =
    adaptive_hop_band_at_dwell ranked candidates utc_seconds hop_dwell_seconds
