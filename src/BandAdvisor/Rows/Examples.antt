-- ===== src/BandAdvisor/Rows/Examples.antt =====
-- A response of wspr.live.
use airspyhf_wsprd.Common.{
  ◌-◌, ◌≤◌, ◌≡◌, refl, true, Option, none, some, [], ◌∷◌, All, arith, codes, length, Text,
}
use airspyhf_wsprd.Common.Int.{pos}
use airspyhf_wsprd.HopPlan.{HopPlan}
use airspyhf_wsprd.HopSchedule.{contains_database_band}
use airspyhf_wsprd.BandAdvisor.Rows.{
  result_bands, cons_line, response_lines, Row, add_candidate, add_row, go_on, with_two, add_line,
  read_rows, wspr_advisor_parse_response,
}
use airspyhf_wsprd.BandAdvisor.Rows.Advice.{IsRanked}
use airspyhf_wsprd.BandAdvisor.Rows.Plan.{
  Counted, wspr_advisor_parse_response-IsRanked, wspr_advisor_parse_response-Counted,
}

-- Three numbers of one digit, with one byte between two.
scan_digits : Text → Option Row
scan_digits (b ∷ t ∷ n ∷ u ∷ s ∷ []) =
    some (record { database_band = pos (b - b'0'); stations = n - b'0'; spots = s - b'0' })
scan_digits line = none

abbrev three_bands : HopPlan
three_bands =
    record { name = codes "80m"; frequency_hz = 3568600; database_band = pos 3 }
    ∷ record { name = codes "60m"; frequency_hz = 5287200; database_band = pos 5 }
    ∷ record { name = codes "40m"; frequency_hz = 7038600; database_band = pos 7 }
    ∷ []

abbrev two_ranked : HopPlan
two_ranked =
    record { name = codes "40m"; frequency_hz = 7038600; database_band = pos 7 }
    ∷ record { name = codes "80m"; frequency_hz = 3568600; database_band = pos 3 }
    ∷ []

-- The band 9 is no candidate, and 7 is there twice.
abbrev four_rows : Text
four_rows = codes "7,4,9\n9,3,3\n7,2,2\n3,1,1\n"

parse_rows :
    wspr_advisor_parse_response scan_digits (some three_bands) (some four_rows) []
    ≡ (true, two_ranked)
unfolding wspr_advisor_parse_response with_two read_rows go_on add_line add_row add_candidate
    response_lines cons_line scan_digits contains_database_band
parse_rows = refl

wspr_advisor_parse_response-IsRanked_example :
    IsRanked three_bands two_ranked × (2 ≤ length two_ranked) × (length two_ranked ≤ result_bands)
wspr_advisor_parse_response-IsRanked_example =
    wspr_advisor_parse_response-IsRanked scan_digits three_bands four_rows [] parse_rows

wspr_advisor_parse_response-Counted_example :
    All (Counted scan_digits three_bands two_ranked) (response_lines four_rows)
wspr_advisor_parse_response-Counted_example =
    wspr_advisor_parse_response-Counted scan_digits three_bands four_rows [] parse_rows
      (omega arith)
