-- ===== src/DecoderBridge/Results.antt =====
-- `parse_results`: the spots that the core has left in wspr_spots.txt.
pub mod Spots
mod Examples
use airspyhf_wsprd.Common.{
  ℕ, zero, suc, ◌+◌, ◌-◌, ◌^◌, Bool, true, false, Option, none, some, List, [], ◌∷◌, ◌++◌, ltb,
  if◌then◌else◌, set, take, Text, codes,
}
use airspyhf_wsprd.Common.Int.{ℤ, pos, negsuc}
use airspyhf_wsprd.DecoderBridge.Paths.{join_path}

-- `struct decoder_results`
pub record DecoderResult (F : Type 0) : Type 0 where
  pub freq : F
  pub sync : F
  pub snr : F
  pub dt : F
  pub drift : F
  pub jitter : ℤ
  pub message : Text
  pub call : Text
  pub loc : Text
  pub pwr : Text
  pub cycles : ℕ

-- What sscanf assigns when all twelve fields match.
pub record SpotFields (F : Type 0) : Type 0 where
  pub date : Text
  pub time : Text
  pub sync_tenths : ℤ
  pub snr : F
  pub dt : F
  pub frequency : F
  pub call : Text
  pub grid : Text
  pub power : Text
  pub drift : ℤ
  pub cycles : ℕ
  pub jitter : ℤ

-- `(int32_t)`
pub to_int32 : ℕ → ℤ
to_int32 n = if ltb n (2 ^ 31) then pos n else negsuc (2 ^ 32 - 1 - n)

-- The results, `*result_count`, and whether the status is 0.
pub record ParsedSpots (F : Type 0) : Type 0 where
  pub results : List (DecoderResult F)
  pub result_count : ℤ
  pub succeeded : Bool

-- `whole` is the conversion of an int, and `tenths` that of an int divided by 10.0f; `scan` is sscanf
-- with the format of the source.
module _ {F : Type 0} (whole tenths : ℤ → F) (scan : Text → Option (SpotFields F)) where
  abbrev pub result_of : SpotFields F → DecoderResult F
  result_of fields = record {
    freq = fields.frequency;
    sync = tenths fields.sync_tenths;
    snr = fields.snr;
    dt = fields.dt;
    drift = whole fields.drift;
    jitter = fields.jitter;
    message = take 22 (fields.call ++ (b' ' ∷ []) ++ fields.grid ++ (b' ' ∷ []) ++ fields.power);
    call = take 12 fields.call;
    loc = take 6 fields.grid;
    pwr = take 2 fields.power;
    cycles = fields.cycles;
  }

  pub store_spot : List (DecoderResult F) → ℕ → Option (SpotFields F) → List (DecoderResult F)
  store_spot results count none = results
  store_spot results count (some fields) = set results count (result_of fields)

  -- A line that does not match ends the loop.
  pub or_refused :
      List (DecoderResult F)
      → Option (SpotFields F)
      → List (DecoderResult F) × Option ℕ
      → List (DecoderResult F) × Option ℕ
  or_refused results none rest = (results, none)
  or_refused results (some fields) rest = rest

  -- The loop, with the number of spots so far; `none` for the number: a line was refused.
  pub read_spots : ℕ → List (DecoderResult F) → ℕ → List Text → List (DecoderResult F) × Option ℕ
  read_spots capacity results count [] = (results, some count)
  read_spots capacity results count (line ∷ lines) =
      let rest = read_spots capacity (store_spot results count (scan line)) (count + 1) lines in
      if ltb count capacity then or_refused results (scan line) rest else (results, some count)

  pub counted : List (DecoderResult F) × Option ℕ → ParsedSpots F
  counted (results, none) = record { results = results; result_count = pos 0; succeeded = false }
  counted (results, some count) = record {
    results = results;
    result_count = to_int32 count;
    succeeded = true;
  }

  pub read_input : List (DecoderResult F) → ℕ → Option (List Text) → ParsedSpots F
  read_input results capacity none = record {
    results = results;
    result_count = pos 0;
    succeeded = false;
  }
  read_input results capacity (some lines) = counted (read_spots capacity results 0 lines)

  pub open_spots :
      List (DecoderResult F) → ℕ → ℤ → (Text → Option (List Text)) → Option Text → ParsedSpots F
  open_spots results capacity result_count lines_of none = record {
    results = results;
    result_count = result_count;
    succeeded = false;
  }
  open_spots results capacity result_count lines_of (some path) =
      read_input results capacity (lines_of path)

  -- `lines_of` gives the lines of a file.
  pub parse_results :
      List (DecoderResult F) → ℕ → ℤ → Text → Bool → (Text → Option (List Text)) → ParsedSpots F
  parse_results results capacity result_count directory allocated lines_of =
      open_spots results capacity result_count lines_of
        (join_path directory (codes "wspr_spots.txt") allocated)
