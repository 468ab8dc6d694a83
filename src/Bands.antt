-- ===== src/Bands.antt =====
-- bands.c: the bands of the two modes with their dial frequencies, and the search for a band by its
-- alias. A NULL pointer is `none`.
use Prim.Native.String.{String}
use airspyhf_wsprd.Common.{
  ℕ, Bool, Option, none, some, List, [], ◌∷◌, if◌then◌else◌, Text, codes, text_case_eq,
}
use airspyhf_wsprd.Common.Int.{ℤ, pos, negsuc}

pub record BandFrequency : Type 0 where
  pub alias : Text
  pub canonical_name : Text
  pub frequency_hz : ℕ
  pub database_band : ℤ

abbrev entry : String → String → ℕ → ℤ → BandFrequency
entry alias name hz band = record {
  alias = codes alias;
  canonical_name = codes name;
  frequency_hz = hz;
  database_band = band;
}

unfoldable pub band_frequencies : List BandFrequency
band_frequencies =
    entry "lf" "2200m" 136000 (negsuc 0)
    ∷ entry "2200m" "2200m" 136000 (negsuc 0)
    ∷ entry "mf" "630m" 474200 (pos 0)
    ∷ entry "630m" "630m" 474200 (pos 0)
    ∷ entry "160m" "160m" 1836600 (pos 1)
    ∷ entry "80m" "80m" 3568600 (pos 3)
    ∷ entry "60m" "60m" 5287200 (pos 5)
    ∷ entry "40m" "40m" 7038600 (pos 7)
    ∷ entry "30m" "30m" 10138700 (pos 10)
    ∷ entry "20m" "20m" 14095600 (pos 14)
    ∷ entry "17m" "17m" 18104600 (pos 18)
    ∷ entry "15m" "15m" 21094600 (pos 21)
    ∷ entry "12m" "12m" 24924600 (pos 24)
    ∷ entry "10m" "10m" 28124600 (pos 28)
    ∷ entry "4m" "4m" 70091000 (pos 70)
    ∷ entry "2m" "2m" 144489000 (pos 144)
    ∷ entry "1.25m" "1.25m" 222280000 (pos 222)
    ∷ entry "1m25" "1.25m" 222280000 (pos 222)
    ∷ []

unfoldable pub ft8_band_frequencies : List BandFrequency
ft8_band_frequencies =
    entry "160m" "160m" 1840000 (pos 1)
    ∷ entry "80m" "80m" 3573000 (pos 3)
    ∷ entry "60m" "60m" 5357000 (pos 5)
    ∷ entry "40m" "40m" 7074000 (pos 7)
    ∷ entry "30m" "30m" 10136000 (pos 10)
    ∷ entry "20m" "20m" 14074000 (pos 14)
    ∷ entry "17m" "17m" 18100000 (pos 18)
    ∷ entry "15m" "15m" 21074000 (pos 21)
    ∷ entry "12m" "12m" 24915000 (pos 24)
    ∷ entry "10m" "10m" 28074000 (pos 28)
    ∷ []

-- The loop of `find_band` and of `find_ft8_band` over its table.
unfoldable pub find_in : List BandFrequency → Text → Option BandFrequency
find_in [] name = none
find_in (band ∷ table) name = if text_case_eq name band.alias then some band else find_in table name

pub find : List BandFrequency → Option Text → Option BandFrequency
find table none = none
find table (some name) = find_in table name

-- The frequency, if a place for it is given and the band is known.
frequency_of : Option BandFrequency → Bool → Option ℕ
frequency_of none place = none
frequency_of (some band) place = if place then some band.frequency_hz else none

pub wspr_band_frequency : Option Text → Bool → Option ℕ
wspr_band_frequency name = frequency_of (find band_frequencies name)

pub ft8_band_frequency : Option Text → Bool → Option ℕ
ft8_band_frequency name = frequency_of (find ft8_band_frequencies name)
