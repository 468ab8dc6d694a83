-- ===== src/BandAdvisor/Center/Examples.antt =====
-- A locator, and numbers that only count what has been computed.
use airspyhf_wsprd.Common.{ℕ, ◌+◌, ◌≡◌, some, true, codes}
use airspyhf_wsprd.Station.{normalize_grid}
use airspyhf_wsprd.BandAdvisor.Center.{Doubles, wspr_grid_center}
use airspyhf_wsprd.BandAdvisor.Center.Accepts.{is_some, wspr_grid_center-normalize_grid}

abbrev operations : Doubles ℕ
operations = record {
  number = λ n d. 0;
  negative = λ x. x + 1;
  whole = λ n. 0;
  plus = λ x y. x + y + 1;
  times = λ x y. x + y + 1;
  divide = λ x y. x + y + 1;
}

wspr_grid_center-normalize_grid_example :
    is_some (wspr_grid_center operations (some (codes "JO62qm")))
    ≡ is_some (normalize_grid true 7 (some (codes "JO62qm")))
wspr_grid_center-normalize_grid_example =
    wspr_grid_center-normalize_grid operations (codes "JO62qm")
