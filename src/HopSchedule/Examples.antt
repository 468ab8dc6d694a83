-- ===== src/HopSchedule/Examples.antt =====
-- A rotation through four candidates, two of them ranked.
use airspyhf_wsprd.Common.{◌+◌, ◌*◌, ◌≡◌, refl, true, false, some, [], ◌∷◌, arith, codes, get_elem?}
use airspyhf_wsprd.Common.Int.{pos}
use airspyhf_wsprd.HopPlan.{HopBand, HopPlan}
use airspyhf_wsprd.HopSchedule.{contains_database_band, adaptive_hop_band_at_dwell}
use airspyhf_wsprd.HopSchedule.Adaptive.{excluded, adaptive_explores, adaptive_keeps_rotation}

abbrev m80 : HopBand
m80 = record { name = codes "80m"; frequency_hz = 3568600; database_band = pos 3 }

abbrev m40 : HopBand
m40 = record { name = codes "40m"; frequency_hz = 7038600; database_band = pos 7 }

abbrev m30 : HopBand
m30 = record { name = codes "30m"; frequency_hz = 10138700; database_band = pos 10 }

abbrev m20 : HopBand
m20 = record { name = codes "20m"; frequency_hz = 14095600; database_band = pos 14 }

abbrev candidates : HopPlan
candidates = m80 ∷ m40 ∷ m30 ∷ m20 ∷ []

abbrev ranked : HopPlan
ranked = m20 ∷ m40 ∷ []

excluded-candidates : excluded ranked candidates ≡ m80 ∷ m30 ∷ []
unfolding excluded contains_database_band
excluded-candidates = refl

-- The second hour's exploration.
adaptive_explores_example :
    (band : HopBand) × (adaptive_hop_band_at_dwell
        (some ranked)
        (some candidates)
        (pos (11 * 600 + 17))
        600
      ≡ (some band, true))
    × (get_elem? (excluded ranked candidates) 1 ≡ some band)
    × (contains_database_band ranked band.database_band ≡ false)
unfolding excluded contains_database_band
adaptive_explores_example =
    adaptive_explores ranked candidates 1 0 600 17 (omega arith) (omega arith) (omega arith)

adaptive_keeps_rotation_example :
    adaptive_hop_band_at_dwell (some ranked) (some candidates) (pos ((6 * 1 + 2) * 600 + 17)) 600
    ≡ (some m40, false)
unfolding excluded contains_database_band
adaptive_keeps_rotation_example =
    adaptive_keeps_rotation ranked candidates 1 2 600 17 (omega arith) (omega arith) (omega arith)
      (omega arith)
