-- ===== src/BandAdvisor/Monitor.antt =====
-- `ft8_monitor_parse_response`: which bands the active receivers of the world are listening on.
pub mod Rank
pub mod Plan
pub mod Fuel
mod Examples
use airspyhf_wsprd.Common.{
  ℕ, zero, suc, ◌+◌, ◌-◌, ◌*◌, ◌%◌, ◌^◌, Bool, true, false, not, ◌&&◌, ◌||◌, Option, none, some,
  List, [], ◌∷◌, ◌++◌, ltb, leb, ◌==◌, if◌then◌else◌, length, take, drop, set, get_or, get_elem?,
  replicate, map, Text, text_eq, codes, is_space,
}
use mathlib.Core.Option
use airspyhf_wsprd.Common.Int.{ℤ, pos, negsuc, ◌==ℤ◌}
use airspyhf_wsprd.HopPlan.{HopBand, HopPlan, max_hop_bands, split_fields, trim_left, trim}
use airspyhf_wsprd.BandAdvisor.Json.{backslash, json_array_end, json_object_end, json_object_value}
use airspyhf_wsprd.BandAdvisor.Rows.{result_bands, plan_refused}

-- `ULONG_MAX`
abbrev pub ulong_max : ℕ
ulong_max = 2 ^ 64 - 1

abbrev pub bump : ℕ → ℕ
bump n = if n == ulong_max then n else n + 1

-- The loops over the candidates: the count of the first that fits goes up.
pub count_first : (HopBand → Bool) → HopPlan → List ℕ → List ℕ
count_first fits [] counts = counts
count_first fits (band ∷ candidates) [] = []
count_first fits (band ∷ candidates) (n ∷ counts) =
    let rest = n ∷ count_first fits candidates counts in if fits band then bump n ∷ counts else rest

-- Behind the last comma there is a field only if something stands there.
pub without_last_empty : List Text → List Text
without_last_empty [] = []
without_last_empty ([] ∷ []) = []
without_last_empty (field ∷ fields) = field ∷ without_last_empty fields

pub count_fields : HopPlan → List Text → List ℕ → List ℕ
count_fields candidates [] counts = counts
count_fields candidates (field ∷ fields) counts =
    count_fields candidates fields
      (count_first (λ band. text_eq (trim field) band.name) candidates counts)

pub count_monitor_bands : HopPlan → Text → List ℕ → List ℕ
count_monitor_bands candidates value counts =
    count_fields candidates (without_last_empty (split_fields value)) counts

-- `(unsigned long) database_band * 1000000UL`
abbrev pub lower_limit : ℤ → ℕ
lower_limit (pos n) = n * 1000000 % 2 ^ 64
lower_limit (negsuc n) = (2 ^ 64 - 1 - n) * 1000000 % 2 ^ 64

abbrev pub upper_limit : ℤ → ℕ
upper_limit database_band =
    if database_band ==ℤ pos 28 then 30000000 else (lower_limit database_band + 1000000) % 2 ^ 64

pub count_monitor_frequency : HopPlan → ℕ → List ℕ → List ℕ
count_monitor_frequency candidates frequency counts =
    count_first
      (λ band.
        leb (lower_limit band.database_band) frequency
        && ltb frequency (upper_limit band.database_band))
      candidates counts

-- The text before a byte, if it stands in the text.
pub before_byte : ℕ → Text → Option Text
before_byte byte [] = none
before_byte byte (c ∷ cs) =
    let rest = Option.map (λ before. c ∷ before) (before_byte byte cs) in
    if c == byte then some [] else rest

pub has_byte : ℕ → Text → Bool
has_byte byte [] = false
has_byte byte (c ∷ cs) = c == byte || has_byte byte cs

-- A list of bands ends at a quote, with no escape before it.
pub count_list : HopPlan → Option Text → List ℕ → Option (List ℕ)
count_list candidates none counts = none
count_list candidates (some value) counts =
    if has_byte backslash value then none else some (count_monitor_bands candidates value counts)

pub count_quoted : HopPlan → Text → List ℕ → Option (List ℕ)
count_quoted candidates [] counts = none
count_quoted candidates (c ∷ bands) counts =
    if not (c == b'"') then none else count_list candidates (before_byte b'"' bands) counts

-- A frequency, with the number of bytes that strtoul took; the object ends behind `size` bytes.
pub count_number : HopPlan → ℕ → Option (ℕ × ℕ) → List ℕ → Option (List ℕ)
count_number candidates size none counts = none
count_number candidates size (some (frequency, taken)) counts =
    if taken == 0 || ltb size taken
    then none
    else some (count_monitor_frequency candidates frequency counts)

pub and_then : Option (List ℕ) → (List ℕ → Option (List ℕ)) → Option (List ℕ)
and_then none next = none
and_then (some counts) next = next counts

module _ (strtoul : Text → Option (ℕ × ℕ)) where
  pub count_frequency : HopPlan → Option Text → Text → List ℕ → Option (List ℕ)
  count_frequency candidates none behind counts = some counts
  count_frequency candidates (some value) behind counts =
      count_number candidates (length value) (strtoul (value ++ behind)) counts

  pub count_bands_or_frequency : HopPlan → Text → Text → Option Text → List ℕ → Option (List ℕ)
  count_bands_or_frequency candidates object behind none counts =
      count_frequency candidates (json_object_value object (codes "frequency")) behind counts
  count_bands_or_frequency candidates object behind (some bands) counts =
      count_quoted candidates bands counts

  -- One object, with the text from its closing brace on; `none`: the response is refused.
  pub count_object : HopPlan → Text → Text → List ℕ → Option (List ℕ)
  count_object candidates object behind counts =
      count_bands_or_frequency candidates object behind (json_object_value object (codes "bands"))
        counts

  -- From behind an opening brace; `go_on` is the loop.
  pub at_object :
      (Text → List ℕ → Option (List ℕ))
      → HopPlan
      → Text
      → Text
      → List ℕ
      → Option ℕ
      → Option (List ℕ)
  at_object go_on candidates text behind counts none = none
  at_object go_on candidates text behind counts (some size) =
      and_then (count_object candidates (take size text) (drop size text ++ behind) counts)
        (go_on (drop (size + 1) text))

  -- The loop over the text of the array, on fuel; `behind` follows the array.
  pub count_objects : ℕ → HopPlan → Text → Text → List ℕ → Option (List ℕ)
  count_objects zero candidates behind text counts = some counts
  count_objects (suc fuel) candidates behind [] counts = some counts
  count_objects (suc fuel) candidates behind (c ∷ text) counts =
      let found =
        at_object (count_objects fuel candidates behind) candidates text behind counts
          (json_object_end text) in
      let later = count_objects fuel candidates behind text counts in
      if c == b'{' then found else later

-- The first of the largest counts that are not selected, and not below `best_count`.
pub best_of : ℕ → Option ℕ → ℕ → List Bool → List ℕ → Option ℕ
best_of index best best_count [] counts = best
best_of index best best_count (s ∷ selected) [] = best
best_of index best best_count (s ∷ selected) (n ∷ counts) =
    let better = not s && ltb best_count n in
    best_of (index + 1) (if better then some index else best) (if better then n else best_count)
      selected counts

pub one_band : Option HopBand → List HopBand
one_band none = []
one_band (some band) = band ∷ []

pub band_at : HopPlan → ℕ → List HopBand
band_at candidates index = one_band (get_elem? candidates index)

pub take_best : Option ℕ → (ℕ → List ℕ) → List ℕ
take_best none loop = []
take_best (some best) loop = best ∷ loop best

-- The loop of the ranking: the indices of the bands, in their order.
pub rank : ℕ → List Bool → List ℕ → List ℕ
rank zero selected counts = []
rank (suc left) selected counts =
    take_best (best_of 0 none 0 selected counts) (λ best. rank left (set selected best true) counts)

pub bands_at : HopPlan → List ℕ → HopPlan
bands_at candidates [] = []
bands_at candidates (index ∷ indices) = band_at candidates index ++ bands_at candidates indices

pub ranked_plan : HopPlan → Option (List ℕ) → Bool × HopPlan
ranked_plan candidates none = plan_refused
ranked_plan candidates (some counts) =
    let ranked =
      bands_at candidates (rank result_bands (replicate (length candidates) false) counts) in
    if ltb (length ranked) 2 then plan_refused else (true, ranked)

-- What follows the first occurrence of a word.
pub behind_prefix : Text → Text → Option Text
behind_prefix [] text = some text
behind_prefix (w ∷ word) [] = none
behind_prefix (w ∷ word) (c ∷ text) = if c == w then behind_prefix word text else none

pub or_further : Option Text → Option Text → Option Text
or_further (some text) later = some text
or_further none later = later

pub behind_word : Text → Text → Option Text
behind_word word [] = behind_prefix word []
behind_word word (c ∷ text) = or_further (behind_prefix word (c ∷ text)) (behind_word word text)

-- White space, and the byte that has to stand there.
pub expect : ℕ → Option Text → Option Text
expect byte none = none
expect byte (some text) = elim (trim_left text) [
  | [] ↦ none
  | c ∷ cs ↦ if c == byte then some cs else none
]

-- The text of the array `activeReceiver`, and what follows it.
pub split_array : Text → Option ℕ → Option (Text × Text)
split_array text none = none
split_array text (some size) = some (take size text, drop size text)

pub at_array : Option Text → Option (Text × Text)
at_array none = none
at_array (some text) = split_array text (json_array_end text)

pub count_array : (Text → Option (ℕ × ℕ)) → HopPlan → Option (Text × Text) → Option (List ℕ)
count_array strtoul candidates none = none
count_array strtoul candidates (some (text, behind)) =
    count_objects strtoul (length text) candidates behind text (replicate (length candidates) 0)

pub ft8_monitor_parse_response :
    (Text → Option (ℕ × ℕ)) → Option HopPlan → Option Text → HopPlan → Bool × HopPlan
ft8_monitor_parse_response strtoul (some candidates) (some response) ranked =
    if ltb max_hop_bands (length candidates)
    then (false, ranked)
    else ranked_plan candidates (
        count_array strtoul candidates (
          at_array (expect b'[' (expect b':' (behind_word (codes "\"activeReceiver\"") response)))))
ft8_monitor_parse_response strtoul candidates response ranked = (false, ranked)
