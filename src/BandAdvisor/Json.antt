-- ===== src/BandAdvisor/Json.antt =====
-- `json_array_end`, `json_object_end` and `json_object_value`: the search through the text of a JSON
-- value. A position is the number of bytes before it, or the text from there on.
-- A response has at most 8 MB, so the unsigned depth does not wrap around.
pub mod Nested
pub mod Fuel
mod Examples
use airspyhf_wsprd.Common.{
  ℕ, zero, suc, ◌+◌, ◌-◌, Bool, true, false, not, ◌&&◌, ◌||◌, Option, none, some, List, [], ◌∷◌,
  ◌++◌, ◌==◌, if◌then◌else◌, length, Text, text_eq,
}
use mathlib.Core.Option
use airspyhf_wsprd.HopPlan.{trim_left}

-- `\`
abbrev pub backslash : ℕ
backslash = 92

-- What the loop body does to `in_string`, to `escaped` and to `depth`.
abbrev pub next_string : Bool → Bool → ℕ → Bool
next_string in_string escaped c = if in_string then escaped || not (c == b'"') else c == b'"'

abbrev pub next_escaped : Bool → Bool → ℕ → Bool
next_escaped in_string escaped c = in_string && not escaped && c == backslash

abbrev pub next_depth : ℕ → ℕ → ℕ → Bool → ℕ → ℕ
next_depth opening closing depth in_string c =
    if in_string || c == b'"'
    then depth
    else if c == opening
    then depth + 1
    else if c == closing
    then depth - 1
    else depth

abbrev pub closes : ℕ → ℕ → ℕ → Bool → ℕ → Bool
closes opening closing depth in_string c =
    not (in_string || c == b'"' || c == opening) && c == closing && depth - 1 == 0

-- The loop of both functions, which differ in the brackets.
unfoldable pub bracket_end : ℕ → ℕ → ℕ → Bool → Bool → Text → Option ℕ
bracket_end opening closing depth in_string escaped [] = none
bracket_end opening closing depth in_string escaped (c ∷ cs) =
    let rest = Option.map suc (
      bracket_end opening closing (next_depth opening closing depth in_string c)
        (next_string in_string escaped c) (next_escaped in_string escaped c) cs) in
    if closes opening closing depth in_string c then some 0 else rest

unfoldable pub json_array_end : Text → Option ℕ
json_array_end text = bracket_end b'[' b']' 1 false false text

-- The text ends at the limit.
unfoldable pub json_object_end : Text → Option ℕ
json_object_end text = bracket_end b'{' b'}' 1 false false text

abbrev add_bytes : Text → Option (Text × Text) → Option (Text × Text)
add_bytes before split = Option.map (λ (p : Text × Text). (before ++ p.0, p.1)) split

-- A key, from behind its opening quote, and what follows its closing one.
unfoldable pub split_key : Text → Option (Text × Text)
split_key [] = none
split_key (c ∷ []) = if c == b'"' then some ([], []) else none
split_key (c ∷ d ∷ cs) =
    let skipped = add_bytes (c ∷ d ∷ []) (split_key cs) in
    let single = add_bytes (c ∷ []) (split_key (d ∷ cs)) in
    if c == b'"' then some ([], d ∷ cs) else if c == backslash then skipped else single

-- Behind a key and white space: the value, if a colon stands there and the key is the wanted one;
-- `go_on` is the loop.
unfoldable pub behind_key : (Text → Option Text) → Text → Text → Text → Option Text
behind_key go_on wanted_key key [] = none
behind_key go_on wanted_key key (c ∷ cs) =
    if not (c == b':')
    then go_on cs
    else if text_eq key wanted_key
    then some (trim_left cs)
    else go_on (trim_left cs)

unfoldable pub at_key : (Text → Option Text) → Text → Option (Text × Text) → Option Text
at_key go_on wanted_key none = none
at_key go_on wanted_key (some (key, rest)) = behind_key go_on wanted_key key (trim_left rest)

-- The loop, on fuel.
unfoldable pub find_value : ℕ → Text → Text → Option Text
find_value zero wanted_key text = none
find_value (suc fuel) wanted_key [] = none
find_value (suc fuel) wanted_key (c ∷ cs) =
    let behind = at_key (find_value fuel wanted_key) wanted_key (split_key cs) in
    let later = find_value fuel wanted_key cs in if c == b'"' then behind else later

-- Each round takes a byte off the text, so its length is enough fuel.
unfoldable pub json_object_value : Text → Text → Option Text
json_object_value text wanted_key = find_value (length text) wanted_key text
