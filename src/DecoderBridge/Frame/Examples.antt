-- ===== src/DecoderBridge/Frame/Examples.antt =====
-- A frame that the core refuses.
use airspyhf_wsprd.Common.{true, Option, none, some, [], Text, codes}
use airspyhf_wsprd.Common.Int.{ℤ, pos}
use airspyhf_wsprd.DecoderBridge.InputFile.{C2Answers}
use airspyhf_wsprd.DecoderBridge.Results.{DecoderResult, SpotFields}
use airspyhf_wsprd.DecoderBridge.Frame.{DecoderOptions, System, core_exited}

abbrev all_well : C2Answers
all_well = record {
  opened = true;
  allocated = true;
  name_written = true;
  type_written = true;
  frequency_written = true;
  samples_written = true;
  closed = true;
}

abbrev refusing : System
refusing = record {
  mkdtemp = λ template. some (codes "/dev/shm/airspyhf-wsprd-abcdef");
  allocated = λ name. true;
  c2_answers = all_well;
  core_answer = core_exited 1;
  lines_of = λ path. none;
}

abbrev options : DecoderOptions
options = record {
  freq = 14095600;
  rcall = codes "K1ABC";
  rloc = codes "FN42";
  date = codes "260101";
  uttime = codes "1200";
  quickmode = 0;
  usehashtable = 1;
  npasses = 2;
  subtraction = 1;
}

abbrev unused : DecoderResult ℤ
unused = record {
  freq = pos 0;
  sync = pos 0;
  snr = pos 0;
  dt = pos 0;
  drift = pos 0;
  jitter = pos 0;
  message = [];
  call = [];
  loc = [];
  pwr = [];
  cycles = 0;
}

abbrev same : ℤ → ℤ
same n = n

abbrev scan : Text → Option (SpotFields ℤ)
scan text = none
