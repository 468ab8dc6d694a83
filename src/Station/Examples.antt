-- ===== src/Station/Examples.antt =====
-- Callsigns and locators that are accepted or refused.
use airspyhf_wsprd.Common.{
  ◌<◌, ◌≡◌, ◌↔◌, refl, true, none, some, map, codes, to_upper, text_case_eq, length,
}
use airspyhf_wsprd.Station.{
  normalize_from, misshapen, normalize_callsign, normalize_square, normalize_subsquare, join_fields,
  normalize_fields, normalize_grid,
}
use airspyhf_wsprd.Station.Callsign.{IsAcceptable, normalize_callsign_iff}
use airspyhf_wsprd.Station.Grid.{is_locator}
use airspyhf_wsprd.Station.Locator.{normalize_grid_iff}

portable : normalize_callsign true 13 (some (codes "ab1c/p")) ≡ some (codes "AB1C/P")
unfolding normalize_callsign misshapen normalize_from
portable = refl

refusals :
    (normalize_callsign true 13 (some (codes "AB1C//P")) ≡ none)
    × (normalize_callsign true 13 (some (codes "/AB1C")) ≡ none)
    × (normalize_callsign true 13 (some (codes "ABCD")) ≡ none)
    × (normalize_callsign true 6 (some (codes "AB1C/P")) ≡ none)
unfolding normalize_callsign misshapen normalize_from
refusals = (refl, refl, refl, refl)

locators :
    (normalize_grid true 7 (some (codes "mk68XM")) ≡ some (codes "MK68xm"))
    × (normalize_grid true 7 (some (codes "sa00")) ≡ none)
    × (normalize_grid true 7 (some (codes "MK68x")) ≡ none)
unfolding normalize_grid normalize_fields normalize_square normalize_subsquare join_fields
locators = (refl, refl, refl)

normalize_callsign_iff_example :
    (normalize_callsign true 13 (some (codes "ab1c/p")) ≡ some (codes "AB1C/P"))
    ↔ (IsAcceptable 13 (codes "ab1c/p") × (codes "AB1C/P" ≡ map to_upper (codes "ab1c/p")))
normalize_callsign_iff_example = normalize_callsign_iff 13 (codes "ab1c/p") (codes "AB1C/P")

normalize_grid_iff_example :
    (normalize_grid true 7 (some (codes "mk68XM")) ≡ some (codes "MK68xm")) ↔ (
      (is_locator (codes "MK68xm") ≡ true)
      × (text_case_eq (codes "MK68xm") (codes "mk68XM") ≡ true)
      × (length (codes "mk68XM") < 7))
normalize_grid_iff_example = normalize_grid_iff 7 (codes "mk68XM") (codes "MK68xm")
