-- ===== src/Jt9/Sender.antt =====
-- `normalize_jt9_callsign` and `decode_report_fields`: who sent a message, and from where.
pub mod Found
pub mod Word
mod Examples
use airspyhf_wsprd.Common.{
  ℕ, ◌+◌, ◌-◌, ◌++◌, not, Bool, true, false, ◌&&◌, Option, none, some, List, [], ◌∷◌, ltb, leb,
  ◌==◌, if◌then◌else◌, length, get_or, take, drop, replicate, Text, text_eq, codes,
}
use airspyhf_wsprd.Station.Buffer.{write_callsign, write_grid, text_in}

-- The text between angle brackets.
pub unwrapped : Text → Text
unwrapped source =
    if leb 2 (length source)
      && get_or source 0 0 == b'<'
      && get_or source (length source - 1) 0 == b'>'
      && ltb (length source - 2) 13
    then take (length source - 2) (drop 1 source)
    else source

pub normalize_jt9_callsign : List ℕ → Text → Bool × List ℕ
normalize_jt9_callsign destination source = write_callsign destination (unwrapped source)

-- What strtok_r finds between blanks, with the characters of the token so far.
pub split_from : Text → Text → List Text
split_from token [] = if length token == 0 then [] else token ∷ []
split_from token (c ∷ cs) =
    let rest = split_from (if c == b' ' then [] else token ++ (c ∷ [])) cs in
    if c == b' ' && not (length token == 0) then token ∷ rest else rest

-- The eight tokens that the array holds.
pub tokens : Text → List Text
tokens message = take 8 (split_from [] message)

-- The loop of a CQ: the first token that is a callsign, and the tokens behind it.
pub first_callsign : List ℕ → List Text → List ℕ × Option (List Text)
first_callsign destination [] = (destination, none)
first_callsign destination (token ∷ behind) =
    let (found, written) = normalize_jt9_callsign destination token in
    let rest = first_callsign written behind in if found then (written, some behind) else rest

-- The second token of another message.
second_callsign : List ℕ → Text → List Text → List ℕ × Option (List Text)
second_callsign destination token behind =
    let (found, written) = normalize_jt9_callsign destination token in
    (written, if found then some behind else none)

pub find_sender : List ℕ → List Text → List ℕ × Option (List Text)
unfolding second_callsign
find_sender destination [] = (destination, none)
find_sender destination (first ∷ []) = (destination, none)
find_sender destination (first ∷ second ∷ behind) =
    if text_eq first (codes "CQ")
    then first_callsign destination (second ∷ behind)
    else second_callsign destination second behind

-- The token behind the sender is tried as a grid locator.
pub find_grid : List ℕ → Option (List Text) → List ℕ
find_grid destination (some (token ∷ behind)) = (write_grid destination token).1
find_grid destination other = destination

-- What `transmitter_call` and `transmitter_grid` hold afterwards; the struct was cleared before.
pub decode_report_fields : Text → Text × Text
decode_report_fields message =
    let (call, behind) = find_sender (replicate 13 0) (tokens message) in
    (text_in call, text_in (find_grid (replicate 7 0) behind))
