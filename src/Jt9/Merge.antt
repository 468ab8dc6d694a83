-- ===== src/Jt9/Merge.antt =====
-- `jt9_merge_results`: the results of jt9 are added to those of the built-in decoder.
pub mod Distinct
pub mod Covers
mod Examples
use airspyhf_wsprd.Common.{
  ℕ, ◌+◌, Bool, true, false, not, ◌&&◌, Option, none, some, List, [], ◌∷◌, ◌++◌, ltb, leb, ◌==◌,
  if◌then◌else◌, length, Text, text_eq,
}
use mathlib.Core.Option
use airspyhf_wsprd.Jt9.Result.{DecodeResult}

-- A result without a sender takes that of its duplicate.
pub fill_sender : {F : Type 0} → DecodeResult F → DecodeResult F → DecodeResult F
fill_sender existing addition =
    if length existing.transmitter_call == 0 && not (length addition.transmitter_call == 0)
    then record existing {
      transmitter_call = addition.transmitter_call;
      transmitter_grid = addition.transmitter_grid;
    }
    else existing

-- What the outer loop does behind the inner one.
pub or_append :
    {F : Type 0}
    → List (DecodeResult F)
    → DecodeResult F
    → Option (List (DecodeResult F))
    → List (DecodeResult F)
or_append primary addition none = primary ++ (addition ∷ [])
or_append primary addition (some merged) = merged

-- `near` tells whether two frequencies are at most 10 Hz apart.
module _ {F : Type 0} (near : F → F → Bool) where
  abbrev pub same_spot : DecodeResult F → DecodeResult F → Bool
  same_spot existing addition =
      text_eq existing.message addition.message
      && near existing.audio_frequency_hz addition.audio_frequency_hz

  -- The inner loop. `none`: there is no duplicate.
  pub merge_duplicate : List (DecodeResult F) → DecodeResult F → Option (List (DecodeResult F))
  merge_duplicate [] addition = none
  merge_duplicate (existing ∷ primary) addition =
      let rest = Option.map (λ l. existing ∷ l) (merge_duplicate primary addition) in
      if same_spot existing addition then some (fill_sender existing addition ∷ primary) else rest

  pub merge_one : List (DecodeResult F) → DecodeResult F → List (DecodeResult F)
  merge_one primary addition = or_append primary addition (merge_duplicate primary addition)

  -- The outer loop ends when the array is full.
  pub merge_from : ℕ → List (DecodeResult F) → List (DecodeResult F) → List (DecodeResult F)
  merge_from capacity primary [] = primary
  merge_from capacity primary (addition ∷ additional) =
      let rest = merge_from capacity (merge_one primary addition) additional in
      if leb capacity (length primary) then primary else rest

  -- The results in use afterwards; their number is what the function returns.
  pub merge_results :
      Option (List (DecodeResult F))
      → ℕ
      → Option (List (DecodeResult F))
      → Option (List (DecodeResult F))
  merge_results (some primary) capacity (some additional) =
      some
        (if ltb capacity (length primary) then primary else merge_from capacity primary additional)
  merge_results primary capacity additional = primary
