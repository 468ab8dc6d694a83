-- ===== src/Jt9/Finish.antt =====
-- `jt9_decoder_finish`: the wait for jt9, its results, and the removal of its files.
-- The answers of the system are arguments: those of the wait, the lines of the output, and whether
-- malloc gives the path of a file.
pub mod Ends
mod Examples
use airspyhf_wsprd.Common.{
  ℕ, Bool, true, false, not, ◌||◌, Option, none, some, List, [], ◌∷◌, ◌++◌, ◌==◌, if◌then◌else◌,
  Text, codes,
}
use airspyhf_wsprd.Common.Int.{ℤ}
use mathlib.Core.Option
use airspyhf_wsprd.Jt9.Result.{DecodeResult}
use airspyhf_wsprd.Jt9.Line.{Scanned, diagnostic, read_results}
use airspyhf_wsprd.Jt9.Wait.{Poll, LastError, no_error, diagnostic_line, Outcome, wait_for_child}

-- `struct jt9_decoder`
pub record Jt9Decoder : Type 0 where
  pub executable : Text
  pub runtime_directory : Text
  pub callsign : Text
  pub grid : Text
  pub last_error : LastError
  pub enabled : Bool

-- `struct jt9_decode_job`; the start is in seconds of the monotonic clock, and paths may be NULL.
pub record Jt9DecodeJob : Type 0 where
  pub child : ℕ
  pub wave_path : Option Text
  pub output_path : Option Text
  pub started_seconds : ℕ
  pub timeout_seconds : ℕ
  pub active : Bool

-- `memset (job, 0, sizeof (*job))`
abbrev pub no_job : Jt9DecodeJob
no_job = record {
  child = 0;
  wave_path = none;
  output_path = none;
  started_seconds = 0;
  timeout_seconds = 0;
  active = false;
}

-- What the caller has afterwards, and the paths that unlink was called with. `none` for the results:
-- `*result_count` is as it was.
pub record Finished (F : Type 0) : Type 0 where
  pub decoder : Jt9Decoder
  pub job : Jt9DecodeJob
  pub results : Option (List (DecodeResult F))
  pub succeeded : Bool
  pub removed : List Text

-- `join_path`, where the lengths leave room for the sum.
abbrev pub runtime_path : Text → Text → Text
runtime_path directory name = directory ++ (b'/' ∷ name)

abbrev pub leftover_files : List Text
leftover_files =
    codes "decoded.txt"
    ∷ codes "houndcallers.txt"
    ∷ codes "rx_messages.txt"
    ∷ codes "timer.out"
    ∷ []

-- `remove_runtime_file` on each of the names.
pub remove_runtime_files : (Text → Bool) → Text → List Text → List Text
remove_runtime_files allocated directory [] = []
remove_runtime_files allocated directory (name ∷ names) =
    let rest = remove_runtime_files allocated directory names in
    if allocated name then runtime_path directory name ∷ rest else rest

pub path_list : Option Text → List Text
path_list none = []
path_list (some path) = path ∷ []

-- A diagnostic in the output takes the place of what the wait has said.
pub with_diagnostic : LastError → Option Text → LastError
with_diagnostic error none = error
with_diagnostic error (some line) = diagnostic_line line

-- The lines of the file that the job names.
pub output_lines : (Text → Option (List Text)) → Option Text → Option (List Text)
output_lines lines_of none = none
output_lines lines_of (some path) = lines_of path

module _ {F : Type 0} (below : F → F → Bool) (whole : ℤ → F)
    (scan : Text → Option (Scanned F)) where
  -- What stands between the wait and the label `cleanup`: the error, the results and the status.
  pub read_output : ℕ → Outcome → Option (List Text) → LastError × List (DecodeResult F) × Bool
  read_output capacity outcome none = (outcome.last_error, [], false)
  read_output capacity outcome (some lines) =
      if outcome.succeeded
      then (outcome.last_error, read_results below whole scan capacity [] lines, true)
      else (with_diagnostic outcome.last_error (diagnostic lines), [], false)

  pub clean_up :
      (Text → Bool)
      → Jt9Decoder
      → Jt9DecodeJob
      → LastError × List (DecodeResult F) × Bool
      → Finished F
  clean_up allocated decoder job (error, results, succeeded) = record {
    decoder = record decoder { last_error = error };
    job = no_job;
    results = some results;
    succeeded = succeeded;
    removed =
        path_list job.wave_path
        ++ path_list job.output_path
        ++ remove_runtime_files allocated decoder.runtime_directory leftover_files;
  }

  -- `given` tells whether no pointer is null. `none`: it still waits.
  pub jt9_decoder_finish :
      Bool
      → (Text → Bool)
      → Jt9Decoder
      → Jt9DecodeJob
      → ℕ
      → List Poll
      → (Text → Option (List Text))
      → Option (Finished F)
  jt9_decoder_finish given allocated decoder job capacity polls lines_of =
      if not given || not job.active || capacity == 0
      then some
          (record { decoder = decoder; job = job; results = none; succeeded = false; removed = [] })
      else Option.map
          (λ outcome.
            clean_up allocated decoder job
              (read_output capacity outcome (output_lines lines_of job.output_path)))
          (wait_for_child job.started_seconds job.timeout_seconds no_error polls)
