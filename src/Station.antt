-- ===== src/Station.antt =====
-- station.c: the spelling of the station's callsign and Maidenhead grid locator.
-- Here the result is the text that `output` holds after a return of `true`, and `none` after `false`;
-- Buffer has what the bytes of `output` are then. `output` is given by whether it is there and by its
-- size. A character of index 0 has the byte 0 before it, which no C text contains.
pub mod Callsign
pub mod Capitals
pub mod Grid
pub mod Locator
pub mod Buffer
mod Examples
use mathlib.Core.Option
use airspyhf_wsprd.Common.{
  ℕ, ◌+◌, ◌-◌, ◌≤◌, ◌<◌, Bool, true, false, not, ◌&&◌, ◌||◌, Option, none, some, List, [], ◌∷◌,
  ◌++◌, ltb, leb, ◌==◌, if◌then◌else◌, length, get_or, Text, is_alpha, is_alnum, is_digit, to_upper,
  to_lower, within,
}

-- The loop over the characters, with the character before and the two flags.
unfoldable pub normalize_from : ℕ → Bool → Bool → Text → Option Text
normalize_from before has_letter has_digit [] = if has_letter && has_digit then some [] else none
normalize_from before has_letter has_digit (c ∷ cs) =
    if not (is_alnum c || c == b'/') || (c == b'/' && before == b'/')
    then none
    else Option.map (λ t. to_upper c ∷ t)
        (normalize_from c (has_letter || is_alpha c) (has_digit || is_digit c) cs)

-- The checks of the length and of the two ends.
unfoldable pub misshapen : ℕ → Text → Bool
misshapen output_size input =
    ltb (length input) 3
    || ltb 12 (length input)
    || leb output_size (length input)
    || get_or input 0 0 == b'/'
    || get_or input (length input - 1) 0 == b'/'

unfoldable pub normalize_callsign : Bool → ℕ → Option Text → Option Text
normalize_callsign output output_size none = none
normalize_callsign output output_size (some input) =
    if not output
    then none
    else if misshapen output_size input
    then none
    else normalize_from 0 false false input

abbrev pub outside : ℕ → ℕ → ℕ → Bool
outside lo hi c = ltb c lo || ltb hi c

-- The first four characters, or `none` where one is refused.
unfoldable pub normalize_square : Text → Option Text
normalize_square input =
    let first = to_upper (get_or input 0 0) in
    let second = to_upper (get_or input 1 0) in
    let third = get_or input 2 0 in
    let fourth = get_or input 3 0 in
    if outside b'A' b'R' first
      || outside b'A' b'R' second
      || not (is_digit third)
      || not (is_digit fourth)
    then none
    else some (first ∷ second ∷ third ∷ fourth ∷ [])

-- The two characters of the subsquare.
unfoldable pub normalize_subsquare : Text → Option Text
normalize_subsquare input =
    let fifth = to_lower (get_or input 4 0) in
    let sixth = to_lower (get_or input 5 0) in
    if outside b'a' b'x' fifth || outside b'a' b'x' sixth then none else some (fifth ∷ sixth ∷ [])

unfoldable pub join_fields : Option Text → Option Text → Option Text
join_fields none subsquare = none
join_fields (some square) none = none
join_fields (some square) (some subsquare) = some (square ++ subsquare)

-- The fields that the locator has are written one behind the other.
unfoldable pub normalize_fields : Text → Option Text
normalize_fields input =
    if length input == 6
    then join_fields (normalize_square input) (normalize_subsquare input)
    else normalize_square input

unfoldable pub normalize_grid : Bool → ℕ → Option Text → Option Text
normalize_grid output output_size none = none
normalize_grid output output_size (some input) =
    if not output
    then none
    else if (not (length input == 4) && not (length input == 6)) || leb output_size (length input)
    then none
    else normalize_fields input
