-- ===== src/DecoderBridge/Paths/Examples.antt =====
-- A joined path on an example.
use airspyhf_wsprd.Common.{◌≡◌, refl, true, some, arith, Text, codes}
use airspyhf_wsprd.DecoderBridge.Paths.{separator, join_path}
use airspyhf_wsprd.DecoderBridge.Paths.Base.{HasNoSlash}

abbrev input : Text
input = codes "a_1.c2"

input-HasNoSlash : HasNoSlash input
input-HasNoSlash = (
  λ e. omega (arith, e),
  (
    λ e. omega (arith, e),
    (
      λ e. omega (arith, e),
      (λ e. omega (arith, e), (λ e. omega (arith, e), (λ e. omega (arith, e), tt))),
    ),
  ),
)

input_path_lem : join_path (codes "/dev/shm/x") input true ≡ some (codes "/dev/shm/x/a_1.c2")
unfolding join_path separator
input_path_lem = refl
