-- ===== src/HopPlan/Print.antt =====
-- Names without commas or blanks, joined by commas, are split and trimmed to the same names.
use airspyhf_wsprd.Common.{
  ◌*◌, ◌≤◌, ◌<◌, ◌≡◌, ◌≢◌, refl, ap, ◌∙◌, true, false, List, [], ◌∷◌, ◌++◌, arith, ltb, length,
  length-append, All, Text,
}
use airspyhf_wsprd.HopPlan.{
  cons_field, split_fields, trim_left, trim_right, before_trimmed, trim, ends_in_comma,
}
use airspyhf_wsprd.HopPlan.Table.{is_plain}

pub join : List Text → Text
join [] = []
join (name ∷ []) = name
join (name ∷ next ∷ names) = name ++ (b',' ∷ join (next ∷ names))

-- A name of the plan, as the tables have them.
pub record IsName (name : Text) : Type 0 where
  pub plain : is_plain name ≡ true
  pub short : ltb (length name) 8 ≡ true
  pub named : ltb 0 (length name) ≡ true

split_fields-plain : (name : Text) → is_plain name ≡ true → split_fields name ≡ name ∷ []
unfolding is_plain split_fields cons_field
split_fields-plain [] p = refl
split_fields-plain (c ∷ cs) p = ground (arith, split_fields-plain cs)

split_fields-comma :
    (name rest : Text)
    → is_plain name ≡ true
    → split_fields (name ++ (b',' ∷ rest)) ≡ name ∷ split_fields rest
unfolding is_plain split_fields cons_field
split_fields-comma [] rest p = refl
split_fields-comma (c ∷ cs) rest p = ground (arith, split_fields-comma cs rest)

pub split_fields-join :
    (names : List Text) → names ≢ [] → All IsName names → split_fields (join names) ≡ names
unfolding join
split_fields-join [] n a = absurd (n refl)
split_fields-join (name ∷ []) n a = split_fields-plain name a.0.plain
split_fields-join (name ∷ next ∷ names) n a =
    split_fields-comma name (join (next ∷ names)) a.0.plain
    ∙ ap (λ t. name ∷ t) (split_fields-join (next ∷ names) (λ q. cc) a.1)

trim_right-plain : (name : Text) → is_plain name ≡ true → trim_right name ≡ name
unfolding is_plain trim_right before_trimmed
trim_right-plain [] p = refl
trim_right-plain (c ∷ []) p = ground arith
trim_right-plain (c ∷ d ∷ cs) p = ap (before_trimmed c) (trim_right-plain (d ∷ cs) (ground arith))

pub trim-plain : (name : Text) → is_plain name ≡ true → trim name ≡ name
unfolding is_plain trim_left
trim-plain [] p = trim_right-plain [] refl
trim-plain (c ∷ cs) p =
    ap trim_right {y = c ∷ cs} (ground arith) ∙ trim_right-plain (c ∷ cs) (unfold is_plain in p)

pub ends_in_comma-names : (names : List Text) → All IsName names → ends_in_comma names ≡ false
unfolding ends_in_comma
ends_in_comma-names [] a = refl
ends_in_comma-names ([] ∷ []) a = absurd (ground (arith, a.0.named))
ends_in_comma-names ([] ∷ next ∷ names) a = refl
ends_in_comma-names ((c ∷ cs) ∷ names) a = refl

pub length-join-le : (names : List Text) → All IsName names → length (join names) ≤ 8 * length names
unfolding join
length-join-le [] a = omega arith
length-join-le (name ∷ []) a = ground (arith, a.0.short)
length-join-le (name ∷ next ∷ names) a = ground (
  arith,
  a.0.short,
  length-append name (b',' ∷ join (next ∷ names)),
  length-join-le (next ∷ names) a.1,
)

pub length-join-pos : (names : List Text) → names ≢ [] → All IsName names → 0 < length (join names)
unfolding join
length-join-pos [] n a = absurd (n refl)
length-join-pos (name ∷ []) n a = ground (arith, a.0.named)
length-join-pos (name ∷ next ∷ names) n a =
    omega (arith, length-append name (b',' ∷ join (next ∷ names)))
