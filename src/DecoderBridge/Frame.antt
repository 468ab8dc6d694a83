-- ===== src/DecoderBridge/Frame.antt =====
-- `run_core` and `decode_wspr_frame`, with the effects that they have on files and processes.
-- The answers of the system are arguments; an effect stands in the trace where the call is made.
pub mod Clean
mod Examples
use airspyhf_wsprd.Common.{
  ℕ, ◌+◌, Bool, true, false, not, ◌&&◌, ◌||◌, Option, none, some, List, [], ◌∷◌, ◌++◌, leb, ◌==◌,
  if◌then◌else◌, length, take, Text, codes,
}
use airspyhf_wsprd.Common.Int.{ℤ, pos}
use airspyhf_wsprd.DecoderBridge.Paths.{path_max, join_path}
use airspyhf_wsprd.DecoderBridge.InputFile.{C2File, C2Answers, write_c2}
use airspyhf_wsprd.DecoderBridge.Results.{DecoderResult, SpotFields, ParsedSpots, parse_results}

-- `struct decoder_options`
pub record DecoderOptions : Type 0 where
  pub freq : ℕ
  pub rcall : Text
  pub rloc : Text
  pub date : Text
  pub uttime : Text
  pub quickmode : ℕ
  pub usehashtable : ℕ
  pub npasses : ℕ
  pub subtraction : ℕ

pub data Effect (F : Type 0) : Type 0 where
  made_directory : Text → Effect F
  write_tried : Text → Option (C2File F) → Effect F
  core_run : List Text → Effect F
  file_removed : Text → Effect F
  directory_removed : Text → Effect F

-- How fork and waitpid, once it is not interrupted, answer.
pub data CoreAnswer : Type 0 where
  fork_failed : CoreAnswer
  wait_failed : CoreAnswer
  core_exited : ℕ → CoreAnswer
  core_ended_otherwise : CoreAnswer

abbrev when : Bool → Text → List Text
when b argument = if b then argument ∷ [] else []

-- The arguments, without the null pointer at the end.
pub core_arguments : Text → Text → Text → DecoderOptions → List Text
core_arguments executable input_path data_directory options =
    (executable ∷ codes "-a" ∷ data_directory ∷ [])
    ++ when (options.usehashtable == 0) (codes "-H")
    ++ when (not (options.quickmode == 0)) (codes "-q")
    ++ when (options.subtraction == 0 || options.npasses == 1) (codes "-s")
    ++ (input_path ∷ [])

-- Whether `run_core` returns 0.
pub core_succeeded : CoreAnswer → Bool
core_succeeded (core_exited code) = code == 0
core_succeeded answer = false

-- `"%.6s_%.4s.c2"`
pub input_name : DecoderOptions → Text
input_name options = take 6 options.date ++ codes "_" ++ take 4 options.uttime ++ codes ".c2"

abbrev pub generated_files : List Text
generated_files = codes "ALL_WSPR.TXT" ∷ codes "wspr_spots.txt" ∷ codes "wspr_timer.out" ∷ []

-- What the caller gets, and what has been done.
pub record Frame (F : Type 0) : Type 0 where
  pub parsed : ParsedSpots F
  pub trace : List (Effect F)

-- The file at a path, if there is memory for the path.
abbrev pub removal : {F : Type 0} → Option Text → List (Effect F)
removal none = []
removal (some path) = file_removed path ∷ []

-- What the system answers: mkdtemp on a template; whether malloc gives the path of a name; the calls
-- of `write_c2`; the core; the lines of a file once the core has run.
pub record System : Type 0 where
  pub mkdtemp : Text → Option Text
  pub allocated : Text → Bool
  pub c2_answers : C2Answers
  pub core_answer : CoreAnswer
  pub lines_of : Text → Option (List Text)

module _ {F : Type 0} (null : F) (negate : F → F) (megahertz : ℕ → F) (whole tenths : ℤ → F)
    (scan : Text → Option (SpotFields F)) (system : System) where
  -- The files that the core has made in the runtime directory.
  pub remove_generated : Text → List Text → List (Effect F)
  remove_generated directory [] = []
  remove_generated directory (name ∷ names) =
      removal (join_path directory name (system.allocated name)) ++ remove_generated directory names

  -- The status is not 0.
  abbrev pub refused : List (DecoderResult F) → ℤ → ParsedSpots F
  refused results result_count = record {
    results = results;
    result_count = result_count;
    succeeded = false;
  }

  pub parse_after : Bool → List (DecoderResult F) → Text → ParsedSpots F
  parse_after ran results runtime_directory =
      if ran
      then parse_results whole tenths scan results (length results) (pos 0) runtime_directory
          (system.allocated (codes "wspr_spots.txt")) system.lines_of
      else refused results (pos 0)

  -- The core runs if its input is written.
  pub run_after :
      Option (C2File F) → Text → DecoderOptions → List (DecoderResult F) → Text → Text → Frame F
  run_after none executable options results runtime_directory input_path = record {
    parsed = refused results (pos 0);
    trace = [];
  }
  run_after (some file) executable options results runtime_directory input_path = record {
    parsed = parse_after (core_succeeded system.core_answer) results runtime_directory;
    trace = core_run (core_arguments executable input_path runtime_directory options) ∷ [];
  }

  -- The frame is written and decoded, and what has been made is removed.
  pub decode_in :
      Text
      → DecoderOptions
      → List F
      → List F
      → ℕ
      → List (DecoderResult F)
      → Text
      → Text
      → Option Text
      → Frame F
  decode_in executable options i_samples q_samples sample_count results runtime_directory temporary
        none =
      record {
        parsed = refused results (pos 0);
        trace = made_directory temporary ∷ directory_removed temporary ∷ [];
      }
  decode_in executable options i_samples q_samples sample_count results runtime_directory temporary
        (some input_path) =
      let file =
        write_c2 null negate system.c2_answers input_path i_samples q_samples sample_count
          (megahertz options.freq) in
      let frame = run_after file executable options results runtime_directory input_path in
      record {
        parsed = frame.parsed;
        trace =
            made_directory temporary
            ∷ write_tried input_path file
            ∷ (frame.trace
                ++ (file_removed input_path
                    ∷ (remove_generated runtime_directory generated_files
                        ++ (directory_removed temporary ∷ []))));
      }

  -- What follows mkdtemp.
  pub decode_made :
      Text
      → DecoderOptions
      → List F
      → List F
      → ℕ
      → List (DecoderResult F)
      → Text
      → Option Text
      → Frame F
  decode_made executable options i_samples q_samples sample_count results runtime_directory none =
      record { parsed = refused results (pos 0); trace = [] }
  decode_made executable options i_samples q_samples sample_count results runtime_directory
        (some temporary) =
      decode_in executable options i_samples q_samples sample_count results runtime_directory
        temporary
        (if length (input_name options) == 14
          then join_path temporary (input_name options) (system.allocated (input_name options))
          else none)

  -- `given` tells whether no pointer is null; the capacity is the length of `results`, and the runtime
  -- directory is what `get_runtime_directory` has given.
  pub decode_wspr_frame :
      Text
      → Bool
      → DecoderOptions
      → List F
      → List F
      → ℕ
      → List (DecoderResult F)
      → ℤ
      → Option Text
      → Frame F
  decode_wspr_frame executable given options i_samples q_samples sample_count results result_count
        none =
      record {
        parsed =
            refused results (if given && not (length results == 0) then pos 0 else result_count);
        trace = [];
      }
  decode_wspr_frame executable given options i_samples q_samples sample_count results result_count
        (some runtime_directory) =
      let template = runtime_directory ++ codes "/airspyhf-wsprd-XXXXXX" in
      if not given || length results == 0
      then record { parsed = refused results result_count; trace = [] }
      else if leb path_max (length template)
      then record { parsed = refused results (pos 0); trace = [] }
      else decode_made executable options i_samples q_samples sample_count results runtime_directory
          (system.mkdtemp template)
