-- ===== src/Common/Bytes.antt =====
-- C bytes and texts. A `char *` is the list of its bytes up to the terminating NUL; the tests and
-- maps of `ctype.h` are those of the C locale, in which the program runs.
use Prim.Native.Nat.{ℕ, ◌+◌, ◌-◌}
use Prim.Native.Char.{code}
use Prim.Native.String.{String}
use mathlib.Core.Path.{◌≡◌, refl, ap₂}
use mathlib.Core.Bool.{Bool, true, false, ◌&&◌, ◌||◌}
use mathlib.Core.List.{List, [], ◌∷◌}
use native.Mathlib.Omega.{arith}
use airspyhf_wsprd.Common.Lists.{length}
use airspyhf_wsprd.Common.Tests.{&&-elim, leb, ◌==◌, if◌then◌else◌}

abbrev pub Text : Type 0
Text = List ℕ

-- The code points of a literal: its bytes, if it is ASCII.
abbrev pub codes : String → Text
codes String.[] = []
codes (String.◌∷◌ c s) = code c ∷ codes s

abbrev pub within : ℕ → ℕ → ℕ → Bool
within lo hi c = leb lo c && leb c hi

abbrev pub is_lower : ℕ → Bool
is_lower c = within b'a' b'z' c

abbrev pub is_upper : ℕ → Bool
is_upper c = within b'A' b'Z' c

abbrev pub is_digit : ℕ → Bool
is_digit c = within b'0' b'9' c

abbrev pub is_alpha : ℕ → Bool
is_alpha c = is_upper c || is_lower c

abbrev pub is_alnum : ℕ → Bool
is_alnum c = is_alpha c || is_digit c

-- Blank, and the five control characters from tab to carriage return.
abbrev pub is_space : ℕ → Bool
is_space c = c == 32 || within 9 13 c

abbrev pub to_upper : ℕ → ℕ
to_upper c = if is_lower c then c - 32 else c

abbrev pub to_lower : ℕ → ℕ
to_lower c = if is_upper c then c + 32 else c

-- `strcmp (a, b) == 0`
unfoldable pub text_eq : Text → Text → Bool
text_eq [] [] = true
text_eq (a ∷ s) (b ∷ t) = a == b && text_eq s t
text_eq _ _ = false

-- `strcasecmp (a, b) == 0`
unfoldable pub text_case_eq : Text → Text → Bool
text_case_eq [] [] = true
text_case_eq (a ∷ s) (b ∷ t) = to_lower a == to_lower b && text_case_eq s t
text_case_eq _ _ = false

pub text_eq_refl : (s : Text) → text_eq s s ≡ true
unfolding text_eq
text_eq_refl [] = refl
text_eq_refl (a ∷ s) = ground (arith, text_eq_refl s)

pub text_eq→≡ : (s t : Text) → text_eq s t ≡ true → s ≡ t
unfolding text_eq
text_eq→≡ [] [] h = refl
text_eq→≡ [] (b ∷ t) h = cc
text_eq→≡ (a ∷ s) [] h = cc
text_eq→≡ (a ∷ s) (b ∷ t) h = ground (arith, text_eq→≡ s t)

text_eq_comm_test : (a b : ℕ) → (a == b) ≡ (b == a)
text_eq_comm_test a b = ground arith

pub text_eq_comm : (s t : Text) → text_eq s t ≡ text_eq t s
unfolding text_eq
text_eq_comm [] [] = refl
text_eq_comm [] (b ∷ t) = refl
text_eq_comm (a ∷ s) [] = refl
text_eq_comm (a ∷ s) (b ∷ t) = ap₂ ◌&&◌ (text_eq_comm_test a b) (text_eq_comm s t)

pub text_case_eq_refl : (s : Text) → text_case_eq s s ≡ true
unfolding text_case_eq
text_case_eq_refl [] = refl
text_case_eq_refl (a ∷ s) = ground (arith, text_case_eq_refl s)

pub length-text_case_eq : (s t : Text) → text_case_eq s t ≡ true → length s ≡ length t
unfolding text_case_eq
length-text_case_eq [] [] h = refl
length-text_case_eq [] (b ∷ t) h = absurd (cc)
length-text_case_eq (a ∷ s) [] h = absurd (cc)
length-text_case_eq (a ∷ s) (b ∷ t) h =
    omega
      (arith, length-text_case_eq s t (&&-elim (to_lower a == to_lower b) (text_case_eq s t) h).1)
