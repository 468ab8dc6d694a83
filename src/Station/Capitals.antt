-- ===== src/Station/Capitals.antt =====
-- `station_normalize_callsign` on its own output.
use airspyhf_wsprd.Common.{
  ℕ, ◌≡◌, refl, ap₂, sym, subst, ◌∙◌, Bool, true, ◌||◌, some, Text, [], ◌∷◌, map, length, is_alpha,
  is_digit, is_alnum, to_upper, arith,
}
use airspyhf_wsprd.Station.{normalize_callsign}
use airspyhf_wsprd.Station.Callsign.{IsCallsign, last, next, slash, has, normalize_callsign_iff}

to_upper_twice : (c : ℕ) → to_upper (to_upper c) ≡ to_upper c
to_upper_twice c = ground arith

is_alnum-to_upper : (c : ℕ) → is_alnum c ≡ true → is_alnum (to_upper c) ≡ true
is_alnum-to_upper c h = ground arith

is_alpha-to_upper : (c : ℕ) → is_alpha (to_upper c) ≡ is_alpha c
is_alpha-to_upper c = ground arith

is_digit-to_upper : (c : ℕ) → is_digit (to_upper c) ≡ is_digit c
is_digit-to_upper c = ground arith

IsCallsign-to_upper : {s : Text} → IsCallsign s → IsCallsign (map to_upper s)
IsCallsign-to_upper (last c h) = last (to_upper c) (is_alnum-to_upper c h)
IsCallsign-to_upper (next c cs h t) =
    next (to_upper c) (map to_upper cs) (is_alnum-to_upper c h) (IsCallsign-to_upper t)
IsCallsign-to_upper (slash c cs h t) =
    slash (to_upper c) (map to_upper cs) (is_alnum-to_upper c h) (IsCallsign-to_upper t)

has-to_upper :
    (p : ℕ → Bool) (s : Text) → ((c : ℕ) → p (to_upper c) ≡ p c) → has p (map to_upper s) ≡ has p s
unfolding has
has-to_upper p [] e = refl
has-to_upper p (c ∷ cs) e = ap₂ ◌||◌ (e c) (has-to_upper p cs e)

length-to_upper : (s : Text) → length (map to_upper s) ≡ length s
length-to_upper [] = refl
length-to_upper (c ∷ cs) = omega (arith, length-to_upper cs)

map-to_upper_twice : (s : Text) → map to_upper (map to_upper s) ≡ map to_upper s
map-to_upper_twice [] = refl
map-to_upper_twice (c ∷ cs) = ap₂ ◌∷◌ (to_upper_twice c) (map-to_upper_twice cs)

-- Normalizing is idempotent: the callsign that was written is accepted, and written as it is.
normalize_callsign_twice :
    (size : ℕ) (s t : Text)
    → normalize_callsign true size (some s) ≡ some t
    → normalize_callsign true size (some t) ≡ some t
normalize_callsign_twice size s t h =
    let (a, e) = (normalize_callsign_iff size s t).0 h in
    let n = length-to_upper s in
    subst (λ u. normalize_callsign true size (some u) ≡ some u) (sym e)
      ((normalize_callsign_iff size (map to_upper s) (map to_upper s)).1 (
        record {
          form = IsCallsign-to_upper a.form;
          at_least = omega (arith, n, a.at_least);
          at_most = omega (arith, n, a.at_most);
          room = omega (arith, n, a.room);
          letter = has-to_upper is_alpha s is_alpha-to_upper ∙ a.letter;
          digit = has-to_upper is_digit s is_digit-to_upper ∙ a.digit;
        },
        sym (map-to_upper_twice s),
      ))
