-- ===== src/DecoderBridge/Frame/Clean.antt =====
-- What a call of `decode_wspr_frame` leaves behind.
use airspyhf_wsprd.Common.{
  ◌≡◌, ◌⊎◌, Bool, true, false, not, ◌||◌, ◌&&◌, List, [], ◌∷◌, ◌++◌, ◌==◌, if◌then◌else◌, Text,
  text_eq, codes,
}
use airspyhf_wsprd.DecoderBridge.Paths.{separator}
use airspyhf_wsprd.DecoderBridge.Frame.{
  Effect, made_directory, write_tried, core_run, file_removed, directory_removed,
}

-- The paths other than that one.
abbrev pub without : Text → List Text → List Text
without path [] = []
without path (p ∷ paths) =
    let rest = without path paths in if text_eq p path then rest else p ∷ rest

-- One of these.
abbrev pub IsOneOf : List Text → Text → Type 0
IsOneOf [] path = ⊥
IsOneOf (p ∷ paths) path = (path ≡ p) ⊎ IsOneOf paths path

abbrev pub starts_with : Text → Text → Bool
starts_with [] text = true
starts_with (b ∷ before) [] = false
starts_with (b ∷ before) (c ∷ text) = b == c && starts_with before text

-- Whether a directory has one of these in it.
abbrev pub has_any : Text → List Text → Bool
has_any directory [] = false
has_any directory (path ∷ paths) =
    (not (text_eq path directory) && starts_with (directory ++ separator directory) path)
    || has_any directory paths

-- The files that core/wsprd.c writes for a frame, in the directory that it is given behind `-a`; the hash table
-- that it also writes there is meant to stay.
abbrev pub core_names : List Text
core_names = codes "ALL_WSPR.TXT" ∷ codes "wspr_spots.txt" ∷ codes "wspr_timer.out" ∷ []

abbrev pub files_in : Text → List Text → List Text
files_in directory [] = []
files_in directory (name ∷ names) =
    (directory ++ separator directory ++ name) ∷ files_in directory names

abbrev pub core_files : List Text → List Text
core_files (executable ∷ option ∷ directory ∷ arguments) = files_in directory core_names
core_files arguments = []

module _ {F : Type 0} where
  -- The paths of the directories and files that were made and not removed; a directory that has something in
  -- it is not removed.
  abbrev pub left_after : List Text → List (Effect F) → List Text
  left_after left [] = left
  left_after left (made_directory path ∷ trace) = left_after (path ∷ left) trace
  left_after left (write_tried path file ∷ trace) = left_after (path ∷ left) trace
  left_after left (core_run arguments ∷ trace) = left_after (core_files arguments ++ left) trace
  left_after left (file_removed path ∷ trace) = left_after (without path left) trace
  left_after left (directory_removed path ∷ trace) =
      left_after (if has_any path left then left else without path left) trace
