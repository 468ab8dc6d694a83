-- ===== src/DecoderBridge/Results/Examples.antt =====
-- The spots of a file on an example; the numbers of the report are whole.
use airspyhf_wsprd.Common.{
  Option, none, some, List, [], ◌∷◌, if◌then◌else◌, take, length, Text, text_eq, codes,
}
use airspyhf_wsprd.Common.Int.{ℤ, pos, negsuc}
use airspyhf_wsprd.DecoderBridge.Results.{DecoderResult, SpotFields, read_input}
use airspyhf_wsprd.DecoderBridge.Results.Spots.{all_fields, IsParsed, read_input-IsParsed}

abbrev same : ℤ → ℤ
same n = n

abbrev fields : SpotFields ℤ
fields = record {
  date = codes "260101";
  time = codes "1200";
  sync_tenths = pos 3;
  snr = negsuc 20;
  dt = pos 1;
  frequency = pos 14097;
  call = codes "K1ABC";
  grid = codes "FN42";
  power = codes "37";
  drift = pos 0;
  cycles = 1;
  jitter = pos 0;
}

abbrev line : Text
line = codes "260101 1200 3 -21 1 14097 K1ABC FN42 37 0 1 0"

-- sscanf on the lines of the example.
abbrev scan : Text → Option (SpotFields ℤ)
scan text = if text_eq text line then some fields else none

abbrev unused : DecoderResult ℤ
unused = record {
  freq = pos 0;
  sync = pos 0;
  snr = pos 0;
  dt = pos 0;
  drift = pos 0;
  jitter = pos 0;
  message = [];
  call = [];
  loc = [];
  pwr = [];
  cycles = 0;
}

abbrev results : List (DecoderResult ℤ)
results = unused ∷ unused ∷ []

read_input-IsParsed_example :
    IsParsed same same scan results
      (all_fields same same scan (take (length results) (line ∷ [])))
      (read_input same same scan results (length results) (some (line ∷ [])))
read_input-IsParsed_example = read_input-IsParsed same same scan results (line ∷ [])
