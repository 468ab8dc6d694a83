-- ===== src/Jt9/Finish/Examples.antt =====
-- A child that never ends, on an example.
use airspyhf_wsprd.Common.{ℕ, ◌+◌, ◌*◌, Bool, true, Option, none, some, List, Text, codes}
use airspyhf_wsprd.Common.Int.{ℤ}
use airspyhf_wsprd.Jt9.Line.{Scanned}
use airspyhf_wsprd.Jt9.Wait.{Waited, running, no_error}
use airspyhf_wsprd.Jt9.Wait.Ends.{pause}
use airspyhf_wsprd.Jt9.Finish.{Jt9Decoder, Jt9DecodeJob}

abbrev same : ℤ → ℤ
same n = n

abbrev scan : Text → Option (Scanned ℤ)
scan text = none

abbrev busy : ℕ → Waited
busy k = running

abbrev clock : ℕ → ℕ
clock k = 7000000000 + k * pause

abbrev granted : Text → Bool
granted name = true

abbrev no_file : Text → Option (List Text)
no_file path = none

abbrev decoder : Jt9Decoder
decoder = record {
  executable = codes "/usr/bin/jt9";
  runtime_directory = codes "/dev/shm/jt9.abcdef";
  callsign = codes "K1ABC";
  grid = codes "FN42";
  last_error = no_error;
  enabled = true;
}

abbrev job : Jt9DecodeJob
job = record {
  child = 4711;
  wave_path = some (codes "/dev/shm/jt9.abcdef/20260101_120000.wav");
  output_path = some (codes "/dev/shm/jt9.abcdef/decode.out");
  started_seconds = 7;
  timeout_seconds = 14;
  active = true;
}
