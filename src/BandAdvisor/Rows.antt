-- ===== src/BandAdvisor/Rows.antt =====
-- `wspr_advisor_parse_response` and `ft8_advisor_parse_response`: responses that are read line by line.
pub mod Advice
pub mod Plan
pub mod Dial
mod Examples
use airspyhf_wsprd.Common.{
  ℕ, suc, ◌+◌, ◌-◌, ◌^◌, Bool, true, false, not, ◌&&◌, ◌||◌, Option, none, some, List, [], ◌∷◌,
  ◌++◌, ltb, leb, ◌==◌, if◌then◌else◌, length, drop, Text, is_space, get_or,
}
use airspyhf_wsprd.Common.Int.{ℤ, ◌==ℤ◌}
use airspyhf_wsprd.HopPlan.{HopBand, HopPlan, trim_left}
use airspyhf_wsprd.HopSchedule.{contains_database_band}

-- `ADVISOR_RESULT_BANDS`, and the size of `row`
abbrev pub result_bands : ℕ
result_bands = 4

abbrev pub row_size : ℕ
row_size = 128

cons_line : ℕ → List Text → List Text
cons_line c [] = (c ∷ []) ∷ []
cons_line c (line ∷ lines) = (c ∷ line) ∷ lines

-- The lines of a response; behind its last newline there is none.
pub response_lines : Text → List Text
unfolding cons_line
response_lines [] = []
response_lines (c ∷ cs) =
    let rest = response_lines cs in if c == b'\n' then [] ∷ rest else cons_line c rest

-- What sscanf assigns when the three numbers match and nothing stands behind them.
pub record Row : Type 0 where
  pub database_band : ℤ
  pub stations : ℕ
  pub spots : ℕ

-- The first candidate of the band, if it is not ranked yet.
pub add_candidate : ℤ → HopPlan → HopPlan → HopPlan
add_candidate database_band ranked [] = ranked
add_candidate database_band ranked (band ∷ candidates) =
    let rest = add_candidate database_band ranked candidates in
    if band.database_band ==ℤ database_band
    then (if contains_database_band ranked database_band then ranked else ranked ++ (band ∷ []))
    else rest

-- A plan that is refused is zeroed.
abbrev pub plan_refused : Bool × HopPlan
plan_refused = (false, [])

-- What the loop does with a row, and the plan that it goes on with; `none`: the response is refused.
pub add_row : HopPlan → HopPlan → Option Row → Option HopPlan
add_row candidates ranked none = none
add_row candidates ranked (some row) =
    if row.stations == 0 || row.spots == 0
    then none
    else some (add_candidate row.database_band ranked candidates)

pub go_on : Option HopPlan → (HopPlan → Option HopPlan) → Option HopPlan
go_on none loop = none
go_on (some ranked) loop = loop ranked

-- At least two bands make a plan.
pub with_two : Option HopPlan → Bool × HopPlan
with_two none = plan_refused
with_two (some ranked) = if ltb (length ranked) 2 then plan_refused else (true, ranked)

-- `scan` is sscanf with the format of the source.
module _ (scan : Text → Option Row) where
  pub add_line : HopPlan → HopPlan → Text → Option HopPlan
  add_line candidates ranked line =
      if length line == 0 || leb row_size (length line)
      then none
      else add_row candidates ranked (scan line)

  -- The loop ends at the end of the response, or with four bands.
  pub read_rows : HopPlan → HopPlan → List Text → Option HopPlan
  read_rows candidates ranked [] = some ranked
  read_rows candidates ranked (line ∷ lines) =
      let rest =
        go_on (add_line candidates ranked line) (λ next. read_rows candidates next lines) in
      if ltb (length ranked) result_bands then rest else some ranked

  -- A NULL pointer leaves the plan as it was.
  pub wspr_advisor_parse_response : Option HopPlan → Option Text → HopPlan → Bool × HopPlan
  wspr_advisor_parse_response (some candidates) (some response) ranked =
      with_two (read_rows candidates [] (response_lines response))
  wspr_advisor_parse_response candidates response ranked = (false, ranked)

-- A dial frequency, or one in the passband above it.
abbrev pub hits : ℕ → HopBand → Bool
hits frequency band =
    frequency == band.frequency_hz
    || (leb (band.frequency_hz + 200) frequency && leb frequency (band.frequency_hz + 3000))

pub find_hit : ℕ → HopPlan → Option HopBand
find_hit frequency [] = none
find_hit frequency (band ∷ candidates) =
    let rest = find_hit frequency candidates in if hits frequency band then some band else rest

-- What a line says: nothing, or a frequency; or the response is refused.
pub data Line : Type 0 where
  no_frequency : Line
  a_frequency : ℕ → Line
  malformed : Line

-- The tests behind strtoul, which has given a value and the number of bytes that it took.
pub checked_frequency : Text → Option (ℕ × ℕ) → Line
checked_frequency position none = malformed
checked_frequency position (some (frequency, taken)) =
    let behind = get_or position taken 0 in
    if taken == 0
      || frequency == 0
      || ltb (2 ^ 32 - 1) frequency
      || not (leb (length position) taken || is_space behind)
    then malformed
    else a_frequency frequency

-- One band is recommended.
pub or_miss : Option HopBand → Bool × HopPlan → Bool × HopPlan
or_miss none rest = rest
or_miss (some band) rest = (true, band ∷ [])

-- `strtoul` gives `none` where it sets errno.
module _ (strtoul : Text → Option (ℕ × ℕ)) where
  frequency_in : Text → Line
  frequency_in [] = no_frequency
  frequency_in (c ∷ position) =
      if c == b'#' then no_frequency else checked_frequency (c ∷ position) (strtoul (c ∷ position))

  pub read_line : Text → Line
  unfolding frequency_in
  read_line line = if leb row_size (length line) then malformed else frequency_in (trim_left line)

  -- The first line that hits a candidate decides; `rest` is what the later lines give.
  pub or_next : HopPlan → Line → Bool × HopPlan → Bool × HopPlan
  or_next candidates malformed rest = plan_refused
  or_next candidates no_frequency rest = rest
  or_next candidates (a_frequency frequency) rest = or_miss (find_hit frequency candidates) rest

  pub read_frequencies : HopPlan → List Text → Bool × HopPlan
  read_frequencies candidates [] = plan_refused
  read_frequencies candidates (line ∷ lines) =
      or_next candidates (read_line line) (read_frequencies candidates lines)

  pub ft8_advisor_parse_response : Option HopPlan → Option Text → HopPlan → Bool × HopPlan
  ft8_advisor_parse_response (some candidates) (some response) recommended =
      read_frequencies candidates (response_lines response)
  ft8_advisor_parse_response candidates response recommended = (false, recommended)
