-- ===== src/DecoderBridge/InputFile/Examples.antt =====
-- A frame of two samples on an example; samples are whole numbers.
use airspyhf_wsprd.Common.{
  zero, suc, ◌*◌, ◌≡◌, refl, true, some, List, [], ◌∷◌, arith, length, Text, codes,
}
use airspyhf_wsprd.Common.Int.{ℤ, pos, negsuc}
use airspyhf_wsprd.DecoderBridge.InputFile.{C2Answers, C2File, c2_sample_count, c2_file, write_c2}
use airspyhf_wsprd.DecoderBridge.InputFile.Samples.{pair_at, frame_pair, write_c2-frame_pair}

abbrev opposite : ℤ → ℤ
opposite (pos zero) = pos 0
opposite (pos (suc n)) = negsuc n
opposite (negsuc n) = pos (suc n)

abbrev all_well : C2Answers
all_well = record {
  opened = true;
  allocated = true;
  name_written = true;
  type_written = true;
  frequency_written = true;
  samples_written = true;
  closed = true;
}

abbrev i_samples : List ℤ
i_samples = pos 3 ∷ pos 5 ∷ []

abbrev q_samples : List ℤ
q_samples = pos 4 ∷ negsuc 6 ∷ []

abbrev path : Text
path = codes "/tmp/a_1.c2"

abbrev file : C2File ℤ
file = c2_file (pos 0) opposite path i_samples q_samples 2 (pos 14)

file_lem : write_c2 (pos 0) opposite all_well path i_samples q_samples 2 (pos 14) ≡ some file
unfolding write_c2
file_lem = refl

write_c2-frame_pair_example :
    (length file.interleaved ≡ c2_sample_count * 2)
    × (pair_at (pos 0) opposite file.interleaved 1
        ≡ frame_pair (pos 0) opposite i_samples q_samples 2 1)
write_c2-frame_pair_example =
    write_c2-frame_pair (pos 0) opposite all_well path i_samples q_samples 2 (pos 14) 1
      (omega arith) file_lem
