-- ===== src/Station/Grid.antt =====
-- `station_normalize_grid` against the canonical spelling of a locator: field letters A to R in
-- capitals, two digits, and, where the locator has six characters, letters a to x in small.
use airspyhf_wsprd.Common.{
  ℕ, ◌≡◌, ap₂, sym, ◌∙◌, Bool, true, false, not, ◌&&◌, ◌||◌, ◌==◌, Option, none, some, Text, [],
  ◌∷◌, ◌++◌, subst, if_some, ==_refl, if◌then◌else◌, within, is_digit, to_upper, to_lower,
  text_case_eq, arith,
}
use airspyhf_wsprd.Station.{
  outside, normalize_square, normalize_subsquare, join_fields, normalize_fields,
}

-- The canonical spellings.
pub is_field : ℕ → Bool
is_field c = within b'A' b'R' c

pub is_subsquare : ℕ → Bool
is_subsquare c = within b'a' b'x' c

unfoldable pub is_locator : Text → Bool
is_locator (a ∷ b ∷ c ∷ d ∷ []) = is_field a && is_field b && is_digit c && is_digit d
is_locator (a ∷ b ∷ c ∷ d ∷ e ∷ f ∷ []) =
    is_field a && is_field b && is_digit c && is_digit d && is_subsquare e && is_subsquare f
is_locator _ = false

-- One character: what is written differs from the input in case alone, and nothing else that is
-- canonical does.
to_lower-to_upper : (c : ℕ) → (to_lower (to_upper c) == to_lower c) ≡ true
to_lower-to_upper c = ground arith

to_lower_twice : (c : ℕ) → (to_lower (to_lower c) == to_lower c) ≡ true
to_lower_twice c = ground arith

pub field_unique :
    (x c : ℕ)
    → is_field x ≡ true
    → (to_lower x == to_lower c) ≡ true
    → (is_field (to_upper c) ≡ true) × (x ≡ to_upper c)
unfolding is_field
field_unique x c h e = ground arith

pub digit_unique :
    (x c : ℕ)
    → is_digit x ≡ true
    → (to_lower x == to_lower c) ≡ true
    → (is_digit c ≡ true) × (x ≡ c)
digit_unique x c h e = ground arith

pub subsquare_unique :
    (x c : ℕ)
    → is_subsquare x ≡ true
    → (to_lower x == to_lower c) ≡ true
    → (is_subsquare (to_lower c) ≡ true) × (x ≡ to_lower c)
unfolding is_subsquare
subsquare_unique x c h e = ground arith

outside_field : (c : ℕ) → outside b'A' b'R' c ≡ not (is_field c)
unfolding is_field
outside_field c = ground arith

outside_subsquare : (c : ℕ) → outside b'a' b'x' c ≡ not (is_subsquare c)
unfolding is_subsquare
outside_subsquare c = ground arith

all_four :
    (p q r s : Bool) (o : Option Text)
    → (if not p || not q || not r || not s then none else o)
      ≡ (if p && q && r && s then o else none)
all_four p q r s o = ground arith

both :
    (p q : Bool) (o : Option Text)
    → (if not p || not q then none else o) ≡ (if p && q then o else none)
both p q o = ground arith

joined :
    (p x y : Bool) (t u : Text)
    → join_fields (if p then some t else none) (if x && y then some u else none)
      ≡ (if p && x && y then some (t ++ u) else none)
unfolding join_fields
joined p x y t u = ground arith

square_lem :
    (a b c d : ℕ) (rest : Text)
    → normalize_square (a ∷ b ∷ c ∷ d ∷ rest) ≡ (
        if is_field (to_upper a) && is_field (to_upper b) && is_digit c && is_digit d
        then some (to_upper a ∷ to_upper b ∷ c ∷ d ∷ [])
        else none)
unfolding normalize_square
square_lem a b c d rest =
    ap₂
      (λ x y.
        if x || y || not (is_digit c) || not (is_digit d)
        then none
        else some (to_upper a ∷ to_upper b ∷ c ∷ d ∷ []))
      (outside_field (to_upper a)) (outside_field (to_upper b))
    ∙ all_four (is_field (to_upper a)) (is_field (to_upper b)) (is_digit c) (is_digit d)
        (some (to_upper a ∷ to_upper b ∷ c ∷ d ∷ []))

subsquare_lem :
    (a b c d e f : ℕ)
    → normalize_subsquare (a ∷ b ∷ c ∷ d ∷ e ∷ f ∷ []) ≡ (
        if is_subsquare (to_lower e) && is_subsquare (to_lower f)
        then some (to_lower e ∷ to_lower f ∷ [])
        else none)
unfolding normalize_subsquare
subsquare_lem a b c d e f =
    ap₂ (λ x y. if x || y then none else some (to_lower e ∷ to_lower f ∷ []))
      (outside_subsquare (to_lower e)) (outside_subsquare (to_lower f))
    ∙ both (is_subsquare (to_lower e)) (is_subsquare (to_lower f))
        (some (to_lower e ∷ to_lower f ∷ []))

pub fields4 :
    (a b c d : ℕ)
    → normalize_fields (a ∷ b ∷ c ∷ d ∷ []) ≡ (
        if is_field (to_upper a) && is_field (to_upper b) && is_digit c && is_digit d
        then some (to_upper a ∷ to_upper b ∷ c ∷ d ∷ [])
        else none)
unfolding normalize_fields
fields4 a b c d = square_lem a b c d []

pub fields6 :
    (a b c d e f : ℕ)
    → normalize_fields (a ∷ b ∷ c ∷ d ∷ e ∷ f ∷ []) ≡ (
        if is_field (to_upper a)
          && is_field (to_upper b)
          && is_digit c
          && is_digit d
          && is_subsquare (to_lower e)
          && is_subsquare (to_lower f)
        then some (to_upper a ∷ to_upper b ∷ c ∷ d ∷ to_lower e ∷ to_lower f ∷ [])
        else none)
unfolding normalize_fields
fields6 a b c d e f =
    ap₂ join_fields (square_lem a b c d (e ∷ f ∷ [])) (subsquare_lem a b c d e f)
    ∙ joined (is_field (to_upper a) && is_field (to_upper b) && is_digit c && is_digit d)
        (is_subsquare (to_lower e)) (is_subsquare (to_lower f))
        (to_upper a ∷ to_upper b ∷ c ∷ d ∷ []) (to_lower e ∷ to_lower f ∷ [])

-- What is written is canonical, and is the input but for case.
abbrev pub Spells : Text → Text → Type 0
Spells t s = (is_locator t ≡ true) × (text_case_eq t s ≡ true)

pub sound4 :
    (a b c d : ℕ) (t : Text)
    → normalize_fields (a ∷ b ∷ c ∷ d ∷ []) ≡ some t
    → Spells t (a ∷ b ∷ c ∷ d ∷ [])
unfolding is_locator text_case_eq
sound4 a b c d t h =
    let (tests, same) = if_some _ _ t (sym (fields4 a b c d) ∙ h) in
    subst (λ u. Spells u (a ∷ b ∷ c ∷ d ∷ [])) (sym same)
      (
        tests,
        rw (to_lower-to_upper a, to_lower-to_upper b, ==_refl (to_lower c), ==_refl (to_lower d)),
      )

pub sound6 :
    (a b c d e f : ℕ) (t : Text)
    → normalize_fields (a ∷ b ∷ c ∷ d ∷ e ∷ f ∷ []) ≡ some t
    → Spells t (a ∷ b ∷ c ∷ d ∷ e ∷ f ∷ [])
unfolding is_locator text_case_eq
sound6 a b c d e f t h =
    let (tests, same) = if_some _ _ t (sym (fields6 a b c d e f) ∙ h) in
    subst (λ u. Spells u (a ∷ b ∷ c ∷ d ∷ e ∷ f ∷ [])) (sym same)
      (
        tests,
        rw (
          to_lower-to_upper a,
          to_lower-to_upper b,
          ==_refl (to_lower c),
          ==_refl (to_lower d),
          to_lower_twice e,
          to_lower_twice f,
        ),
      )
