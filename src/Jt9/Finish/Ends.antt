-- ===== src/Jt9/Finish/Ends.antt =====
-- A job that was started comes to an end, and its files with it.
use airspyhf_wsprd.Common.{ℕ, ◌≡◌, Bool, true, false, Option, some, List, [], ◌++◌, take, Text, ◌⊎◌}
use airspyhf_wsprd.Common.Int.{ℤ}
use mathlib.Core.Option
use airspyhf_wsprd.Jt9.Line.{Scanned}
use airspyhf_wsprd.Jt9.Line.Reports.{reports}
use airspyhf_wsprd.Jt9.Finish.{
  Jt9Decoder, Jt9DecodeJob, no_job, Finished, leftover_files, remove_runtime_files, path_list,
}

module _ {F : Type 0} (below : F → F → Bool) (whole : ℤ → F)
    (scan : Text → Option (Scanned F)) where
  -- The job is cleared, its files are removed, and there are results only with a status of 0: the first
  -- reports of the output.
  pub record IsFinished (allocated : Text → Bool) (decoder : Jt9Decoder) (job : Jt9DecodeJob)
      (capacity : ℕ) (lines : Option (List Text)) (f : Finished F) : Type 0 where
    pub cleared : f.job ≡ no_job
    pub removed :
        f.removed
        ≡ path_list job.wave_path
          ++ path_list job.output_path
          ++ remove_runtime_files allocated decoder.runtime_directory leftover_files
    pub outcome :
        ((f.succeeded ≡ false) × (f.results ≡ some []))
        ⊎ ((f.succeeded ≡ true)
            × (text : List Text) × (lines ≡ some text)
            × (f.results ≡ some (take capacity (reports below whole scan text))))
