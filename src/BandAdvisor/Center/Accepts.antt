-- ===== src/BandAdvisor/Center/Accepts.antt =====
-- A locator has a center exactly if it can be normalized.
use airspyhf_wsprd.Common.{
  ℕ, ◌≡◌, refl, sym, ◌∙◌, Bool, true, false, not, ◌&&◌, ◌||◌, Option, none, some, leb, ◌==◌,
  if◌then◌else◌, length, get_or, Text, to_upper, to_lower, arith, ap₂, is_digit, Bool-cases, inl,
  inr,
}
use airspyhf_wsprd.Station.{
  outside, normalize_square, normalize_subsquare, join_fields, normalize_fields, normalize_grid,
}
use airspyhf_wsprd.BandAdvisor.Center.{Doubles, refuses_square, refuses_subsquare, wspr_grid_center}

abbrev pub is_some : {A : Type 0} → Option A → Bool
is_some none = false
is_some (some a) = true

same_digit : (c : ℕ) → outside b'0' b'9' c ≡ not (is_digit c)
same_digit c = ground arith

same_letter : (c : ℕ) → outside b'A' b'X' (to_upper c) ≡ outside b'a' b'x' (to_lower c)
same_letter c = ground arith

is_some-if : {A : Type 0} (b : Bool) (a : A) → is_some (if b then none else some a) ≡ not b
is_some-if true a = refl
is_some-if false a = refl

is_some-square : (grid : Text) → is_some (normalize_square grid) ≡ not (refuses_square grid)
unfolding normalize_square
is_some-square grid =
    is_some-if _ _
    ∙ ap₂
        (λ c d. not (
          outside b'A' b'R' (to_upper (get_or grid 0 0))
          || outside b'A' b'R' (to_upper (get_or grid 1 0))
          || c
          || d))
        (sym (same_digit (get_or grid 2 0))) (sym (same_digit (get_or grid 3 0)))

is_some-subsquare :
    (grid : Text) → is_some (normalize_subsquare grid) ≡ not (refuses_subsquare grid)
unfolding normalize_subsquare
is_some-subsquare grid =
    is_some-if _ _
    ∙ ap₂ (λ c d. not (c || d)) (sym (same_letter (get_or grid 4 0)))
        (sym (same_letter (get_or grid 5 0)))

is_some-join_thread : (a b : Option Text) → is_some (join_fields a b) ≡ (is_some a && is_some b)
unfolding join_fields
is_some-join_thread none b = refl
is_some-join_thread (some t) none = refl
is_some-join_thread (some t) (some u) = refl

and_true : (b : Bool) → b ≡ (b && true)
and_true true = refl
and_true false = refl

is_some-fields :
    (grid : Text)
    → is_some (normalize_fields grid)
      ≡ (not (refuses_square grid) && (not (length grid == 6) || not (refuses_subsquare grid)))
is_some-fields grid = elim (Bool-cases (length grid == 6)) [
  | inl e ↦
      unfold normalize_fields in
      rw e (
        is_some-join_thread (normalize_square grid) (normalize_subsquare grid)
        ∙ ap₂ ◌&&◌ (is_some-square grid) (is_some-subsquare grid))
  | inr e ↦
      unfold normalize_fields in rw e (is_some-square grid ∙ and_true (not (refuses_square grid)))
]

is_some-branches :
    {A : Type 0} (refused six subsquare : Bool) (a b : A)
    → is_some
        (if refused then none else if not six then some a else if subsquare then none else some b)
      ≡ (not refused && (not six || not subsquare))
is_some-branches true six subsquare a b = refl
is_some-branches false false subsquare a b = refl
is_some-branches false true true a b = refl
is_some-branches false true false a b = refl

module _ {F : Type 0} (doubles : Doubles F) where
  is_some-center :
      (grid : Text)
      → is_some (wspr_grid_center doubles (some grid)) ≡ (
          not ((not (length grid == 4) && not (length grid == 6)) || refuses_square grid)
          && (not (length grid == 6) || not (refuses_subsquare grid)))
  unfolding wspr_grid_center
  is_some-center grid =
      is_some-branches ((not (length grid == 4) && not (length grid == 6)) || refuses_square grid)
        (length grid == 6) (refuses_subsquare grid) _ _

  -- A locator has a center exactly if `station_normalize_grid` accepts it for a buffer of seven bytes.
  pub wspr_grid_center-normalize_grid :
      (grid : Text)
      → is_some (wspr_grid_center doubles (some grid)) ≡ is_some (normalize_grid true 7 (some grid))
  wspr_grid_center-normalize_grid grid =
      is_some-center grid ∙ elim (Bool-cases (not (length grid == 4) && not (length grid == 6))) [
        | inl e ↦ unfold normalize_grid in rw e refl
        | inr e ↦
            let fits : leb 7 (length grid) ≡ false = ground (arith, e) in
            unfold normalize_grid in rw (e, fits) (sym (is_some-fields grid))
      ]
