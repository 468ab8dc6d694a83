-- ===== src/HopPlan/Examples.antt =====
-- Lists of bands on the command line.
use airspyhf_wsprd.Common.{
  ◌≤◌, ◌≡◌, refl, true, false, some, [], ◌∷◌, codes, length, text_eq, text_case_eq,
}
use airspyhf_wsprd.Common.Int.{pos}
use airspyhf_wsprd.Bands.{band_frequencies, ft8_band_frequencies, find_in}
use airspyhf_wsprd.HopPlan.{
  HopPlan, cons_field, split_fields, trim_left, trim_right, before_trimmed, has_name, ends_in_comma,
  add_band, parse_fields, finish, parse_list, hop_plan_parse,
}
use airspyhf_wsprd.HopPlan.Valid.{IsPlan, mode_table, hop_plan_parse-IsPlan}
use airspyhf_wsprd.HopPlan.Print.{join}
use airspyhf_wsprd.HopPlan.RoundTrip.{names, hop_plan_parse-join}

abbrev evening : HopPlan
evening =
    record { name = codes "80m"; frequency_hz = 3568600; database_band = pos 3 }
    ∷ record { name = codes "40m"; frequency_hz = 7038600; database_band = pos 7 }
    ∷ []

parse_evening : hop_plan_parse false (some []) (some (codes " 80M,40m ")) ≡ (true, some evening)
unfolding hop_plan_parse parse_list finish parse_fields add_band ends_in_comma has_name trim_left
    trim_right before_trimmed split_fields cons_field find_in band_frequencies text_eq text_case_eq
parse_evening = refl

-- A second spelling of the same band, a comma at the end, and a single band.
parse_refused :
    (hop_plan_parse false (some evening) (some (codes "mf,630m")) ≡ (false, some []))
    × (hop_plan_parse true (some evening) (some (codes "80m,40m,")) ≡ (false, some []))
    × ((hop_plan_parse false (some []) (some (codes "80m"))).0 ≡ false)
unfolding hop_plan_parse parse_list finish parse_fields add_band ends_in_comma has_name trim_left
    trim_right before_trimmed split_fields cons_field find_in band_frequencies ft8_band_frequencies
    text_eq text_case_eq
parse_refused = (refl, refl, refl)

hop_plan_parse-IsPlan_example : IsPlan (mode_table false) evening × (2 ≤ length evening)
hop_plan_parse-IsPlan_example = hop_plan_parse-IsPlan false [] (codes " 80M,40m ") parse_evening

hop_plan_parse-join_example :
    hop_plan_parse false (some []) (some (join (names evening))) ≡ (true, some evening)
hop_plan_parse-join_example =
    hop_plan_parse-join false [] evening hop_plan_parse-IsPlan_example.0
      hop_plan_parse-IsPlan_example.1
