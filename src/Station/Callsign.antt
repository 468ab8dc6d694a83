-- ===== src/Station/Callsign.antt =====
-- `station_normalize_callsign` against the form of a callsign: groups of letters and digits with one
-- slash between two of them.
use mathlib.Core.Option
use airspyhf_wsprd.Common.{
  ℕ, suc, ◌-◌, ◌≤◌, ◌<◌, ◌≡◌, ◌≢◌, refl, ap, ap₂, ◌∙◌, sym, subst, Bool, true, false, not, ◌&&◌,
  ◌||◌, none, some, [], ◌∷◌, map, ◌==◌, ==_iff, if◌then◌else◌, length, get_or, Text, is_alpha,
  is_alnum, is_digit, to_upper, arith, &&-elim, if_some, Bool-cases, inl, inr, ◌↔◌,
}
use airspyhf_wsprd.Station.{normalize_from, misshapen, normalize_callsign}

pub data IsCallsign : Text → Type 0 where
  last : (c : ℕ) → is_alnum c ≡ true → IsCallsign (c ∷ [])
  next : (c : ℕ) (cs : Text) → is_alnum c ≡ true → IsCallsign cs → IsCallsign (c ∷ cs)
  slash : (c : ℕ) (cs : Text) → is_alnum c ≡ true → IsCallsign cs → IsCallsign (c ∷ b'/' ∷ cs)

-- Whether some character passes a test.
unfoldable pub has : (ℕ → Bool) → Text → Bool
has p [] = false
has p (c ∷ cs) = p c || has p cs

-- The last character, of a text that is not empty.
abbrev final : Text → ℕ
final t = get_or t (length t - 1) 0

final-cons : (c d : ℕ) (cs : Text) → final (c ∷ d ∷ cs) ≡ final (d ∷ cs)
final-cons c d cs = ap (λ k. get_or (c ∷ d ∷ cs) k 0) {y = suc (suc (length cs) - 1)} (omega arith)

-- What the loop lets pass, behind a character.
spelled : ℕ → Text → Bool
spelled before [] = true
spelled before (c ∷ cs) =
    (is_alnum c || c == b'/') && not (c == b'/' && before == b'/') && spelled c cs

||-assoc : (a b c : Bool) → ((a || b) || c) ≡ (a || (b || c))
||-assoc true b c = refl
||-assoc false b c = refl

-- One round of the loop, over what its tests say.
round :
    (allowed doubled rest x y : Bool) (f : Text → Text) (t : Text)
    → (if not allowed || doubled
        then none
        else Option.map f (if rest && x && y then some t else none))
      ≡ (if (allowed && not doubled && rest) && x && y then some (f t) else none)
round true true rest x y f t = refl
round true false true true true f t = refl
round true false true true false f t = refl
round true false true false y f t = refl
round true false false x y f t = refl
round false doubled rest x y f t = refl

normalize_from_lem :
    (before : ℕ) (l d : Bool) (cs : Text)
    → normalize_from before l d cs ≡ (
        if spelled before cs && (l || has is_alpha cs) && (d || has is_digit cs)
        then some (map to_upper cs)
        else none)
unfolding normalize_from spelled has
normalize_from_lem before true true [] = refl
normalize_from_lem before true false [] = refl
normalize_from_lem before false d [] = refl
normalize_from_lem before l d (c ∷ cs) =
    let allowed = is_alnum c || c == b'/' in
    let doubled = c == b'/' && before == b'/' in
    ap (λ o. if not allowed || doubled then none else Option.map (λ t. to_upper c ∷ t) o)
      (normalize_from_lem c (l || is_alpha c) (d || is_digit c) cs)
    ∙ round allowed doubled (spelled c cs) _ _ (λ t. to_upper c ∷ t) (map to_upper cs)
    ∙ ap₂
        (λ x y.
          if (allowed && not doubled && spelled c cs) && x && y
          then some (to_upper c ∷ map to_upper cs)
          else none)
        (||-assoc l (is_alpha c) (has is_alpha cs)) (||-assoc d (is_digit c) (has is_digit cs))

no_slash : (c : ℕ) → is_alnum c ≡ true → (c == b'/') ≡ false
no_slash c h = ground arith

spelled→IsCallsign :
    (before : ℕ) (cs : Text)
    → cs ≢ []
    → spelled before cs ≡ true
    → (get_or cs 0 0 == b'/') ≡ false
    → (final cs == b'/') ≡ false
    → IsCallsign cs
unfolding spelled
spelled→IsCallsign before [] n s h f = absurd (n refl)
spelled→IsCallsign before (c ∷ []) n s h f = last c (ground arith)
spelled→IsCallsign before (c ∷ d ∷ []) n s h f =
    next c (d ∷ []) (ground arith) (last d (ground (arith, final-cons c d [])))
spelled→IsCallsign before (c ∷ d ∷ e ∷ cs) n s h f = elim (Bool-cases (d == b'/')) [
  | inl is_slash ↦
      subst (λ k. IsCallsign (c ∷ k ∷ e ∷ cs)) (sym ((==_iff d b'/').0 is_slash))
        (slash c (e ∷ cs) (ground arith) (
          spelled→IsCallsign d (e ∷ cs) (λ q. cc) (ground arith) (ground arith)
            (rw (← final-cons d e cs, ← final-cons c d (e ∷ cs)) f)))
  | inr other ↦ next c (d ∷ e ∷ cs) (ground arith) (
      spelled→IsCallsign c (d ∷ e ∷ cs) (λ q. cc) (ground arith) other
        (rw (← final-cons c d (e ∷ cs)) f))
]

not_nil : IsCallsign [] → ⊥
not_nil t = elim t [ ]

-- A callsign passes the loop from any character, and its ends are no slashes.
IsCallsign→spelled :
    {cs : Text}
    → IsCallsign cs
    → (before : ℕ)
    → (spelled before cs ≡ true) × ((get_or cs 0 0 == b'/') ≡ false) × ((final cs == b'/') ≡ false)
unfolding spelled
IsCallsign→spelled (last c h) before = ground arith
IsCallsign→spelled (next c [] h t) before = absurd (not_nil t)
IsCallsign→spelled (next c (d ∷ cs) h t) before =
    ground (arith, IsCallsign→spelled t c, final-cons c d cs)
IsCallsign→spelled (slash c [] h t) before = absurd (not_nil t)
IsCallsign→spelled (slash c (d ∷ cs) h t) before =
    ground (arith, IsCallsign→spelled t b'/', final-cons c b'/' (d ∷ cs), final-cons b'/' d cs)

misshapen-false :
    (size : ℕ) (s : Text)
    → misshapen size s ≡ false
    → (3 ≤ length s)
      × (length s ≤ 12)
      × (length s < size)
      × ((get_or s 0 0 == b'/') ≡ false)
      × ((final s == b'/') ≡ false)
unfolding misshapen
misshapen-false size s h = ground arith

not_misshapen :
    (size : ℕ) (s : Text)
    → 3 ≤ length s
    → length s ≤ 12
    → length s < size
    → (get_or s 0 0 == b'/') ≡ false
    → (final s == b'/') ≡ false
    → misshapen size s ≡ false
unfolding misshapen
not_misshapen size s a b c d e = ground arith

-- What a callsign must be for an output buffer of a size.
pub record IsAcceptable (size : ℕ) (s : Text) : Type 0 where
  pub form : IsCallsign s
  pub at_least : 3 ≤ length s
  pub at_most : length s ≤ 12
  pub room : length s < size
  pub letter : has is_alpha s ≡ true
  pub digit : has is_digit s ≡ true

three_not_nil : (s : Text) → 3 ≤ length s → s ≢ []
three_not_nil [] h = absurd (omega arith)
three_not_nil (c ∷ cs) h = λ q. cc

normalize_start :
    (s : Text)
    → normalize_from 0 false false s
      ≡ (if spelled 0 s && has is_alpha s && has is_digit s then some (map to_upper s) else none)
normalize_start s = normalize_from_lem 0 false false s

callsign_sound :
    (size : ℕ) (s t : Text)
    → normalize_callsign true size (some s) ≡ some t
    → IsAcceptable size s × (t ≡ map to_upper s)
unfolding normalize_callsign
callsign_sound size s t h = elim (Bool-cases (misshapen size s)) [
  | inl bad ↦ absurd (ground arith)
  | inr good ↦
      let (at_least, at_most, room, head, tail) = misshapen-false size s good in
      let run : normalize_from 0 false false s ≡ some t = ground arith in
      let (tests, same) = if_some _ _ t (sym (normalize_start s) ∙ run) in
      let (spelling_letter, digit) = &&-elim _ _ tests in
      let (spelling, letter) = &&-elim _ _ spelling_letter in
      (
        record {
          form = spelled→IsCallsign 0 s (three_not_nil s at_least) spelling head tail;
          at_least = at_least;
          at_most = at_most;
          room = room;
          letter = letter;
          digit = digit;
        },
        same,
      )
]

callsign_complete :
    (size : ℕ) (s : Text)
    → IsAcceptable size s
    → normalize_callsign true size (some s) ≡ some (map to_upper s)
unfolding normalize_callsign
callsign_complete size s a =
    let (spelling, head, tail) = IsCallsign→spelled a.form 0 in
    rw (
      not_misshapen size s a.at_least a.at_most a.room head tail,
      normalize_start s,
      spelling,
      a.letter,
      a.digit,
    )

-- With an output buffer, `station_normalize_callsign` succeeds exactly on the texts that are
-- callsigns of 3 to 12 characters with a letter and a digit and fit the buffer with their NUL, and
-- then writes the text in capitals.
pub normalize_callsign_iff :
    (size : ℕ) (s t : Text)
    → (normalize_callsign true size (some s) ≡ some t)
      ↔ (IsAcceptable size s × (t ≡ map to_upper s))
normalize_callsign_iff size s t =
    (callsign_sound size s t, λ (a, e). callsign_complete size s a ∙ ap some (sym e))
