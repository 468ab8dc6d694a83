-- ===== src/BandAdvisor/Monitor/Examples.antt =====
-- A list of monitors of PSK Reporter.
use airspyhf_wsprd.Common.{
  ℕ, ◌+◌, ◌-◌, ◌*◌, ◌≡◌, refl, true, Option, some, [], ◌∷◌, codes, Text, text_eq, is_digit,
  if◌then◌else◌,
}
use airspyhf_wsprd.Common.Int.{pos}
use airspyhf_wsprd.HopPlan.{
  HopPlan, trim_left, trim_right, before_trimmed, split_fields, cons_field,
}
use airspyhf_wsprd.BandAdvisor.Json.{
  bracket_end, json_array_end, json_object_end, split_key, behind_key, at_key, find_value,
  json_object_value,
}
use airspyhf_wsprd.BandAdvisor.Monitor.{
  count_first, without_last_empty, count_fields, count_monitor_bands, count_monitor_frequency,
  before_byte, has_byte, count_list, count_quoted, count_number, and_then, count_frequency,
  count_bands_or_frequency, count_object, at_object, count_objects, best_of, one_band, band_at,
  take_best, rank, bands_at, ranked_plan, behind_prefix, or_further, behind_word, expect,
  split_array, at_array, count_array, ft8_monitor_parse_response,
}
use airspyhf_wsprd.BandAdvisor.Monitor.Plan.{IsMonitored, ft8_monitor_parse_response-IsMonitored}

-- The value of the digits at the start, and how many there are.
read_digits : ℕ → ℕ → Text → Option (ℕ × ℕ)
read_digits value taken [] = some (value, taken)
read_digits value taken (c ∷ cs) =
    let rest = read_digits (value * 10 + (c - b'0')) (taken + 1) cs in
    if is_digit c then rest else some (value, taken)

abbrev two_bands : HopPlan
two_bands =
    record { name = codes "80m"; frequency_hz = 3573000; database_band = pos 3 }
    ∷ record { name = codes "40m"; frequency_hz = 7074000; database_band = pos 7 }
    ∷ []

abbrev two_ranked : HopPlan
two_ranked =
    record { name = codes "40m"; frequency_hz = 7074000; database_band = pos 7 }
    ∷ record { name = codes "80m"; frequency_hz = 3573000; database_band = pos 3 }
    ∷ []

abbrev two_monitors : Text
two_monitors = codes "{\"activeReceiver\": [{\"bands\":\"80m, 40m\"},{\"frequency\":7074000}]}"

parse_monitors :
    ft8_monitor_parse_response (read_digits 0 0) (some two_bands) (some two_monitors) []
    ≡ (true, two_ranked)
unfolding ft8_monitor_parse_response ranked_plan bands_at band_at one_band rank take_best best_of
    count_array at_array split_array expect behind_word or_further behind_prefix count_objects
    at_object count_object count_bands_or_frequency count_frequency and_then count_number
    count_quoted count_list has_byte before_byte count_monitor_frequency count_monitor_bands
    count_fields without_last_empty count_first json_object_value find_value at_key behind_key
    split_key json_object_end json_array_end bracket_end split_fields cons_field trim_left
    trim_right before_trimmed text_eq read_digits
parse_monitors = refl

ft8_monitor_parse_response-IsMonitored_example :
    IsMonitored (read_digits 0 0) two_bands two_monitors two_ranked
ft8_monitor_parse_response-IsMonitored_example =
    ft8_monitor_parse_response-IsMonitored (read_digits 0 0) two_bands two_monitors []
      parse_monitors
