-- ===== src/Reporter/Url/Decode.antt =====
-- What is written can be read back, and no byte of it ends a parameter of the URL.
use airspyhf_wsprd.Common.{
  ℕ, ◌+◌, ◌-◌, ◌*◌, ◌/◌, ◌%◌, ◌<◌, ◌≡◌, refl, ap, ap₂, ◌∙◌, Bool, true, false, ◌||◌, [], ◌∷◌, ◌++◌,
  arith, ◌==◌, if◌then◌else◌, All, All-append, Text, is_digit, Bool-cases, inl, inr,
}
use airspyhf_wsprd.Reporter.Url.{is_unreserved, hexadecimal, encode_byte}
use airspyhf_wsprd.Reporter.Url.Encode.{escaped}

-- RFC 3986: a percent sign and two digits stand for a byte, any other byte for itself.
pub digit_value : ℕ → ℕ
digit_value c = if is_digit c then c - b'0' else c - b'A' + 10

pub unescaped : Text → Text
unescaped [] = []
unescaped (c ∷ []) = c ∷ []
unescaped (c ∷ d ∷ []) = c ∷ d ∷ []
unescaped (c ∷ d ∷ e ∷ cs) = elim (c == b'%') [
  | true ↦ (digit_value d * 16 + digit_value e) ∷ unescaped cs
  | false ↦ c ∷ unescaped (d ∷ e ∷ cs)
]

unreserved_percent : (c : ℕ) → is_unreserved c ≡ true → (c == b'%') ≡ false
unfolding is_unreserved
unreserved_percent c h = ground arith

digit_value-hexadecimal : (n : ℕ) → n < 16 → digit_value (hexadecimal n) ≡ n
unfolding digit_value hexadecimal
digit_value-hexadecimal n h = ground arith

unescaped-cons : (c : ℕ) (cs : Text) → (c == b'%') ≡ false → unescaped (c ∷ cs) ≡ c ∷ unescaped cs
unfolding unescaped
unescaped-cons c [] h = refl
unescaped-cons c (d ∷ []) h = refl
unescaped-cons c (d ∷ e ∷ cs) h = rw (h, unescaped)

unescaped-percent :
    (d e : ℕ) (cs : Text)
    → unescaped (b'%' ∷ d ∷ e ∷ cs) ≡ (digit_value d * 16 + digit_value e) ∷ unescaped cs
unfolding unescaped
unescaped-percent d e cs = refl

plain_byte : (c : ℕ) → is_unreserved c ≡ true → encode_byte c ≡ c ∷ []
unfolding encode_byte
plain_byte c h = rw h

escaped_byte :
    (c : ℕ)
    → is_unreserved c ≡ false
    → encode_byte c ≡ b'%' ∷ hexadecimal (c / 16) ∷ hexadecimal (c % 16) ∷ []
unfolding encode_byte
escaped_byte c h = rw h

two_digits :
    (c : ℕ)
    → c < 256
    → digit_value (hexadecimal (c / 16)) * 16 + digit_value (hexadecimal (c % 16)) ≡ c
two_digits c h = omega (
  arith,
  digit_value-hexadecimal (c / 16) (omega arith),
  digit_value-hexadecimal (c % 16) (omega arith),
)

-- A server that undoes the escapes reads the source.
pub unescaped-escaped :
    (source : Text) → All (λ c. c < 256) source → unescaped (escaped source) ≡ source
unfolding escaped
unescaped-escaped [] a = unfold unescaped in refl
unescaped-escaped (c ∷ cs) a = elim (Bool-cases (is_unreserved c)) [
  | inl plain ↦
      ap (λ t. unescaped (t ++ escaped cs)) (plain_byte c plain)
      ∙ unescaped-cons c (escaped cs) (unreserved_percent c plain)
      ∙ ap (λ t. c ∷ t) (unescaped-escaped cs a.1)
  | inr other ↦
      ap (λ t. unescaped (t ++ escaped cs)) (escaped_byte c other)
      ∙ unescaped-percent (hexadecimal (c / 16)) (hexadecimal (c % 16)) (escaped cs)
      ∙ ap₂ ◌∷◌ (two_digits c a.0) (unescaped-escaped cs a.1)
]

-- A byte that cannot end a parameter: neither `&`, `=`, `?`, `#` nor a blank.
pub is_safe : ℕ → Bool
is_safe c = is_unreserved c || c == b'%'

hexadecimal-IsSafe : (n : ℕ) → n < 16 → is_safe (hexadecimal n) ≡ true
unfolding is_safe is_unreserved hexadecimal
hexadecimal-IsSafe n h = ground arith

plain-IsSafe : (c : ℕ) → is_unreserved c ≡ true → is_safe c ≡ true
unfolding is_safe
plain-IsSafe c h = rw h

percent-IsSafe : is_safe b'%' ≡ true
unfolding is_safe is_unreserved
percent-IsSafe = refl

encode_byte-IsSafe : (c : ℕ) → c < 256 → All (λ b. is_safe b ≡ true) (encode_byte c)
encode_byte-IsSafe c h = elim (Bool-cases (is_unreserved c)) [
  | inl plain ↦ rw (plain_byte c plain) (plain-IsSafe c plain, tt)
  | inr other ↦ rw (escaped_byte c other) (
    percent-IsSafe,
    (hexadecimal-IsSafe (c / 16) (omega arith), (hexadecimal-IsSafe (c % 16) (omega arith), tt)),
  )
]

-- So a callsign cannot add a parameter to the URL: every byte written is a letter, a digit, one of
-- `-_.~` or the percent sign.
escaped-IsSafe :
    (source : Text) → All (λ c. c < 256) source → All (λ b. is_safe b ≡ true) (escaped source)
unfolding escaped
escaped-IsSafe [] a = tt
escaped-IsSafe (c ∷ cs) a =
    All-append (λ b. is_safe b ≡ true) (encode_byte c) (escaped cs) (encode_byte-IsSafe c a.0)
      (escaped-IsSafe cs a.1)
