-- ===== src/DecoderBridge/InputFile.antt =====
-- `write_c2`: the samples of a frame as the file that the core reads.
pub mod Samples
mod Examples
use airspyhf_wsprd.Common.{
  ℕ, zero, suc, ◌+◌, ◌*◌, Bool, true, false, ◌&&◌, Option, none, some, List, [], ◌∷◌, ltb,
  if◌then◌else◌, length, get_or, set, replicate, overlay, Text,
}
use airspyhf_wsprd.DecoderBridge.Paths.{base_name}

-- `C2_SAMPLE_COUNT`
abbrev pub c2_sample_count : ℕ
c2_sample_count = 45000

-- The four items of the file.
pub record C2File (F : Type 0) : Type 0 where
  pub header_name : List ℕ
  pub wspr_type : ℕ
  pub dial_frequency_mhz : F
  pub interleaved : List F

-- What the system answers: whether the file was opened, the memory given, each item written in
-- full, and the file closed without an error.
pub record C2Answers : Type 0 where
  pub opened : Bool
  pub allocated : Bool
  pub name_written : Bool
  pub type_written : Bool
  pub frequency_written : Bool
  pub samples_written : Bool
  pub closed : Bool

-- `null` is 0.0 and `negate` the minus sign.
module _ {F : Type 0} (null : F) (negate : F → F) where
  -- The loop over the samples, from `index` on with `left` rounds to go.
  pub interleave : List F → List F → ℕ → ℕ → List F → List F
  interleave i_samples q_samples index zero interleaved = interleaved
  interleave i_samples q_samples index (suc left) interleaved =
      interleave i_samples q_samples (index + 1) left (
        set (set interleaved (index * 2) (get_or i_samples index null)) (index * 2 + 1)
          (negate (get_or q_samples index null)))

  abbrev pub clamp : ℕ → ℕ
  clamp sample_count = if ltb c2_sample_count sample_count then c2_sample_count else sample_count

  pub c2_file : Text → List F → List F → ℕ → F → C2File F
  c2_file path i_samples q_samples sample_count dial_frequency_mhz = record {
    header_name = overlay (replicate 14 0) (base_name path);
    wspr_type = 2;
    dial_frequency_mhz = dial_frequency_mhz;
    interleaved =
        interleave i_samples q_samples 0 (clamp sample_count)
          (replicate (c2_sample_count * 2) null);
  }

  -- The status is 0 if there is a file.
  pub write_c2 : C2Answers → Text → List F → List F → ℕ → F → Option (C2File F)
  write_c2 answers path i_samples q_samples sample_count dial_frequency_mhz =
      if answers.opened
        && answers.allocated
        && (answers.name_written && answers.type_written && answers.frequency_written
            && answers.samples_written)
        && answers.closed
      then some (c2_file path i_samples q_samples sample_count dial_frequency_mhz)
      else none
