-- ===== src/HopPlan.antt =====
-- bands.c and bands.h: the plan of bands that the station hops by, and its list on the command line.
-- A plan is the list of the first `count` entries of its array; a plan filled with zeros is empty.
-- A NULL pointer is `none`.
pub mod Table
pub mod Valid
pub mod Print
pub mod RoundTrip
mod Examples
use airspyhf_wsprd.Common.{
  ℕ, zero, suc, ◌+◌, ◌-◌, ◌*◌, ◌/◌, ◌%◌, Bool, true, false, not, ◌&&◌, ◌||◌, Option, none, some,
  List, [], ◌∷◌, ◌++◌, ltb, leb, ◌==◌, if◌then◌else◌, length, get_elem?, Text, codes, is_space,
  text_eq, text_case_eq,
}
use airspyhf_wsprd.Common.Int.{ℤ, pos, negsuc, ◌==ℤ◌}
use airspyhf_wsprd.Bands.{BandFrequency, band_frequencies, ft8_band_frequencies, find_in}

pub record HopBand : Type 0 where
  pub name : Text
  pub frequency_hz : ℕ
  pub database_band : ℤ

abbrev pub HopPlan : Type 0
HopPlan = List HopBand

-- `WSPR_MAX_HOP_BANDS`
abbrev pub max_hop_bands : ℕ
max_hop_bands = 16

abbrev pub hop_band : BandFrequency → HopBand
hop_band band = record {
  name = band.canonical_name;
  frequency_hz = band.frequency_hz;
  database_band = band.database_band;
}

-- A character before the first of the fields.
unfoldable pub cons_field : ℕ → List Text → List Text
cons_field c [] = (c ∷ []) ∷ []
cons_field c (field ∷ fields) = (c ∷ field) ∷ fields

-- The fields between the commas. What stands behind the last comma is a field, if only an empty one.
unfoldable pub split_fields : Text → List Text
split_fields [] = [] ∷ []
split_fields (c ∷ cs) = if c == b',' then [] ∷ split_fields cs else cons_field c (split_fields cs)

unfoldable pub trim_left : Text → Text
trim_left [] = []
trim_left (c ∷ cs) = if is_space c then trim_left cs else c ∷ cs

-- A character before a text whose end is trimmed.
unfoldable pub before_trimmed : ℕ → Text → Text
before_trimmed c [] = if is_space c then [] else c ∷ []
before_trimmed c (d ∷ ds) = c ∷ d ∷ ds

unfoldable pub trim_right : Text → Text
trim_right [] = []
trim_right (c ∷ cs) = before_trimmed c (trim_right cs)

abbrev pub trim : Text → Text
trim field = trim_right (trim_left field)

pub has_name : Text → HopPlan → Bool
has_name name [] = false
has_name name (band ∷ plan) = text_eq band.name name || has_name name plan

-- `*field == '\0'` behind a comma.
pub ends_in_comma : List Text → Bool
ends_in_comma ([] ∷ []) = true
ends_in_comma _ = false

-- One band of the list, with what follows it; `none` where the plan is refused and zeroed. A name
-- has eight bytes.
pub add_band : HopPlan → Option BandFrequency → List Text → Option HopPlan
add_band plan none fields = none
add_band plan (some band) fields =
    if leb max_hop_bands (length plan)
      || has_name band.canonical_name plan
      || leb 8 (length band.canonical_name)
      || ends_in_comma fields
    then none
    else some (plan ++ (hop_band band ∷ []))

-- The loop over the fields.
pub parse_fields : List BandFrequency → HopPlan → List Text → Option HopPlan
parse_fields table plan [] = some plan
parse_fields table plan (field ∷ fields) =
    elim (add_band plan (find_in table (trim field)) fields) [
      | none ↦ none
      | some plan' ↦ parse_fields table plan' fields
    ]

-- The result, and what the plan holds afterwards. A list of one band is refused at the end, and
-- leaves its band in the plan.
pub finish : Option HopPlan → Bool × HopPlan
finish none = (false, [])
finish (some plan) = (leb 2 (length plan), plan)

pub parse_list : List BandFrequency → HopPlan → Text → Bool × HopPlan
parse_list table plan list =
    if length list == 0 || leb 256 (length list)
    then (false, plan)
    else finish (parse_fields table [] (split_fields list))

pub hop_plan_parse : Bool → Option HopPlan → Option Text → Bool × Option HopPlan
hop_plan_parse ft8 none list = (false, none)
hop_plan_parse ft8 (some plan) none = (false, some plan)
hop_plan_parse ft8 (some plan) (some list) =
    let (parsed, plan') =
      parse_list (if ft8 then ft8_band_frequencies else band_frequencies) plan list in
    (parsed, some plan')
