-- ===== src/Station/Buffer.antt =====
-- What the two functions leave in the bytes of `output`, also where they return `false`.
pub mod Outcome
pub mod Word
mod Examples
use airspyhf_wsprd.Common.{
  ℕ, suc, ◌+◌, ◌-◌, ◌≤◌, ◌<◌, ◌≡◌, refl, sym, ap, ap₂, ◌∙◌, Bool, true, false, not, ◌&&◌, ◌||◌,
  Option, none, some, List, [], ◌∷◌, ◌++◌, All, map, ltb, leb, ◌==◌, if◌then◌else◌, length, drop,
  set, write_at, Text, is_alpha, All-get_or, get_or, length-append, length-set, Option-cases,
  is_alnum, is_digit, to_upper, arith, Bool-cases, ◌⊎◌, inl, inr,
}
use mathlib.Core.Option
use mathlib.Core.Option.{some-injective}
use mathlib.Core.List.{append_assoc}
use airspyhf_wsprd.Station.{
  normalize_from, misshapen, normalize_callsign, normalize_square, normalize_subsquare,
}

-- The loop writes each capital before it looks at the next character, and the NUL at the end.
unfoldable pub write_from : List ℕ → ℕ → ℕ → Bool → Bool → Text → Bool × List ℕ
write_from output index before has_letter has_digit [] =
    (has_letter && has_digit, set output index 0)
write_from output index before has_letter has_digit (c ∷ cs) =
    let rest =
      write_from (set output index (to_upper c)) (index + 1) c (has_letter || is_alpha c)
        (has_digit || is_digit c) cs in
    if not (is_alnum c || c == b'/') || (c == b'/' && before == b'/') then (false, output) else rest

pub write_callsign : List ℕ → Text → Bool × List ℕ
write_callsign output input =
    if misshapen (length output) input
    then (false, output)
    else write_from output 0 0 false false input

pub write_square : List ℕ → Text → Option Text → Option Text → Bool × List ℕ
write_square output input none subsquare = (false, output)
write_square output input (some square) subsquare =
    if length input == 6
    then elim subsquare [
      | none ↦ (false, write_at output 0 square)
      | some last ↦ (true, set (write_at output 0 (square ++ last)) 6 0)
    ]
    else (true, set (write_at output 0 square) 4 0)

-- The first four characters are written before the last two are looked at.
pub write_grid : List ℕ → Text → Bool × List ℕ
unfolding write_square
write_grid output input =
    if (not (length input == 4) && not (length input == 6)) || leb (length output) (length input)
    then (false, output)
    else write_square output input (normalize_square input) (normalize_subsquare input)

-- The text that a buffer holds: its bytes before the first NUL.
unfoldable pub text_in : List ℕ → Text
text_in [] = []
text_in (c ∷ cs) = if c == 0 then [] else c ∷ text_in cs
