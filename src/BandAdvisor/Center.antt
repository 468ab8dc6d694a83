-- ===== src/BandAdvisor/Center.antt =====
-- `wspr_grid_center`: the middle of the square that a locator names.
pub mod Accepts
mod Examples
use airspyhf_wsprd.Common.{
  ℕ, ◌-◌, Bool, true, false, not, ◌&&◌, ◌||◌, Option, none, some, List, [], ◌∷◌, ltb, ◌==◌,
  if◌then◌else◌, length, get_or, Text, to_upper,
}
use airspyhf_wsprd.Station.{outside}

-- Double precision numbers: `number n d` is the literal with the digits `n`, of which `d` stand behind the
-- point, and `whole` the conversion of an int that is not negative.
pub record Doubles (F : Type 0) : Type 0 where
  pub number : ℕ → ℕ → F
  pub negative : F → F
  pub whole : ℕ → F
  pub plus : F → F → F
  pub times : F → F → F
  pub divide : F → F → F

-- The letters and digits of the field and of the square are refused.
abbrev pub refuses_square : Text → Bool
refuses_square grid =
    outside b'A' b'R' (to_upper (get_or grid 0 0))
    || outside b'A' b'R' (to_upper (get_or grid 1 0))
    || outside b'0' b'9' (get_or grid 2 0)
    || outside b'0' b'9' (get_or grid 3 0)

abbrev pub refuses_subsquare : Text → Bool
refuses_subsquare grid =
    outside b'A' b'X' (to_upper (get_or grid 4 0)) || outside b'A' b'X' (to_upper (get_or grid 5 0))

module _ {F : Type 0} (doubles : Doubles F) where
  open doubles use {number, negative, whole, plus, times, divide}

  -- `-180.0 + field * 20.0 + digit * 2.0`, and the same for the latitude.
  abbrev pub west_edge : Text → F
  west_edge grid =
      plus
        (plus (negative (number 1800 1))
          (times (whole (to_upper (get_or grid 0 0) - b'A')) (number 200 1)))
        (times (whole (get_or grid 2 0 - b'0')) (number 20 1))

  abbrev pub south_edge : Text → F
  south_edge grid =
      plus
        (plus (negative (number 900 1))
          (times (whole (to_upper (get_or grid 1 0) - b'A')) (number 100 1)))
        (whole (get_or grid 3 0 - b'0'))

  -- An edge, moved to the middle of the subsquare of that letter.
  abbrev pub within_square : F → ℕ → F → F → F
  within_square edge letter width half = plus edge (
      plus (times (whole (letter - b'A')) (divide width (number 600 1)))
        (divide half (number 600 1)))

  -- The longitude and the latitude that are stored, if `true` is returned.
  pub wspr_grid_center : Option Text → Option (F × F)
  wspr_grid_center none = none
  wspr_grid_center (some grid) =
      if (not (length grid == 4) && not (length grid == 6)) || refuses_square grid
      then none
      else if not (length grid == 6)
      then some (plus (west_edge grid) (number 10 1), plus (south_edge grid) (number 5 1))
      else if refuses_subsquare grid
      then none
      else some (
        within_square (west_edge grid) (to_upper (get_or grid 4 0)) (number 50 1) (number 25 1),
        within_square (south_edge grid) (to_upper (get_or grid 5 0)) (number 25 1) (number 125 2),
      )
