-- ===== src/DecoderBridge/Paths.antt =====
-- `join_path`, the base name that `write_c2` takes, `get_runtime_directory` and `core_executable`.
pub mod Base
mod Examples
use airspyhf_wsprd.Common.{
  ℕ, ◌+◌, ◌-◌, ◌^◌, Bool, true, false, not, ◌&&◌, ◌||◌, Option, none, some, List, [], ◌∷◌, ◌++◌,
  ltb, leb, ◌==◌, if◌then◌else◌, length, get_or, Text, codes,
}

-- `SIZE_MAX` and `PATH_MAX`
abbrev pub size_max : ℕ
size_max = 2 ^ 64 - 1

abbrev pub path_max : ℕ
path_max = 4096

-- A slash behind a directory that has a name and does not end in one.
pub separator : Text → Text
separator directory =
    if not (length directory == 0) && not (get_or directory (length directory - 1) 0 == b'/')
    then b'/' ∷ []
    else []

-- `allocated` tells whether malloc has given the memory.
pub join_path : Text → Text → Bool → Option Text
join_path directory name allocated =
    if ltb (size_max - 2) (length name)
      || ltb (size_max - length name - 2) (length directory)
      || not allocated
    then none
    else some (directory ++ separator directory ++ name)

-- The last slash is behind the first byte, or it is that one, or there is none.
pub or_here : ℕ → Text → Option Text → Option Text
or_here c cs (some later) = some later
or_here c cs none = if c == b'/' then some cs else none

-- What stands behind the slash that strrchr finds.
pub after_last_slash : Text → Option Text
after_last_slash [] = none
after_last_slash (c ∷ cs) = or_here c cs (after_last_slash cs)

pub or_whole : Text → Option Text → Text
or_whole path none = path
or_whole path (some name) = name

pub base_name : Text → Text
base_name path = or_whole path (after_last_slash path)

-- `process_runtime_directory` and `process_runtime_owned`
pub record Runtime : Type 0 where
  pub directory : Text
  pub owned : Bool

-- What mkdtemp has made of the template, and what it leaves when it fails.
pub keep_made : Runtime → Option Text → Runtime × Option Text
keep_made runtime none = (record runtime { directory = [] }, none)
keep_made runtime (some made) = (record { directory = made; owned = true }, some made)

-- The pid stands as it is printed; the base directory is that of Linux.
abbrev pub directory_template : Text → Text
directory_template pid = codes "/dev/shm" ++ codes "/airspyhf-wsprd-" ++ pid ++ codes "-XXXXXX"

module _ (mkdtemp : Text → Option Text) where
  own_directory : Runtime → Text → Runtime × Option Text
  own_directory runtime pid =
      if not (length runtime.directory == 0)
      then (runtime, some runtime.directory)
      else if leb path_max (length (directory_template pid))
      then (record runtime { directory = [] }, none)
      else keep_made runtime (mkdtemp (directory_template pid))

  pub get_runtime_directory : Runtime → Option Text → Text → Runtime × Option Text
  unfolding own_directory
  get_runtime_directory runtime (some (c ∷ configured)) pid = (runtime, some (c ∷ configured))
  get_runtime_directory runtime configured pid = own_directory runtime pid

-- `here` tells whether the program stands in the working directory.
pub core_executable : Option Text → Bool → Text
core_executable (some (c ∷ configured)) here = c ∷ configured
core_executable configured here =
    if here then codes "./airspyhf-wsprd-core" else codes "airspyhf-wsprd-core"
