-- ===== src/Station/Buffer/Outcome.antt =====
-- `station_normalize_callsign` writes what `normalize_callsign` gives.
use airspyhf_wsprd.Common.{
  ℕ, suc, ◌+◌, ◌<◌, ◌≡◌, refl, sym, ap, ◌∙◌, Bool, true, false, not, ◌&&◌, ◌||◌, Option, none, some,
  List, [], ◌∷◌, ◌++◌, All, map, ◌==◌, length, drop, set, Text, is_alpha, length-append, length-set,
  Option-cases, is_alnum, is_digit, to_upper, arith, Bool-cases, ◌⊎◌, inl, inr,
}
use mathlib.Core.Option
use mathlib.Core.Option.{some-injective}
use mathlib.Core.List.{append_assoc}
use airspyhf_wsprd.Station.{normalize_from, misshapen, normalize_callsign}
use airspyhf_wsprd.Station.Buffer.{write_from, write_callsign, text_in}

pub set_here :
    (done : List ℕ) (x c : ℕ) (rest : List ℕ)
    → set (done ++ (x ∷ rest)) (length done) c ≡ done ++ (c ∷ rest)
set_here [] x c rest = refl
set_here (d ∷ done) x c rest = ap (λ t. d ∷ t) (set_here done x c rest)

pub text_in-append :
    (s : Text) (rest : List ℕ) → All (λ c. (c == 0) ≡ false) s → text_in (s ++ (0 ∷ rest)) ≡ s
unfolding text_in
text_in-append [] rest h = refl
text_in-append (c ∷ s) rest h = rw h.0 (ap (λ t. c ∷ t) (text_in-append s rest h.1))

-- What the loop leaves of a text that it has gone through.
abbrev pub filled : List ℕ → Text → List ℕ → List ℕ
filled done cs rest = done ++ (map to_upper cs ++ (0 ∷ drop (suc (length cs)) rest))

-- Neither a character that no callsign holds, nor a second slash.
abbrev pub is_refused : ℕ → ℕ → Bool
is_refused before c = not (is_alnum c || c == b'/') || (c == b'/' && before == b'/')

pub write_step :
    (done : List ℕ) (x : ℕ) (rest : List ℕ) (before : ℕ) (l d : Bool) (c : ℕ) (cs : Text)
    → is_refused before c ≡ false
    → write_from (done ++ (x ∷ rest)) (length done) before l d (c ∷ cs)
      ≡ write_from
          ((done ++ (to_upper c ∷ [])) ++ rest)
          (length (done ++ (to_upper c ∷ [])))
          c
          (l || is_alpha c)
          (d || is_digit c)
          cs
unfolding write_from
write_step done x rest before l d c cs fine =
    rw
      (
        fine,
        length-append done (to_upper c ∷ []),
        set_here done x (to_upper c) rest,
        append_assoc done (to_upper c ∷ []) rest,
      )
      refl

normalize_step :
    (before : ℕ) (l d : Bool) (c : ℕ) (cs : Text)
    → is_refused before c ≡ false
    → normalize_from before l d (c ∷ cs)
      ≡ Option.map (λ t. to_upper c ∷ t) (normalize_from c (l || is_alpha c) (d || is_digit c) cs)
unfolding normalize_from
normalize_step before l d c cs fine = rw fine refl

-- Both fail, or both succeed with this text and these bytes.
abbrev pub AgreeOn : Text → List ℕ → Bool × List ℕ → Option Text → Type 0
AgreeOn text bytes written normalized =
    ((written.0 ≡ false) × (normalized ≡ none))
    ⊎ ((written ≡ (true, bytes)) × (normalized ≡ some text))

pub write_from_outcome :
    (done rest : List ℕ) (before : ℕ) (l d : Bool) (cs : Text)
    → length cs < length rest
    → AgreeOn
        (map to_upper cs)
        (filled done cs rest)
        (write_from (done ++ rest) (length done) before l d cs)
        (normalize_from before l d cs)
write_from_outcome done [] before l d cs h = absurd (omega arith)
write_from_outcome done (x ∷ rest) before l d [] h = elim (Bool-cases (l && d)) [
  | inl e ↦
      unfold write_from normalize_from in
      rw e (inr (ap (λ b. (true, b)) (set_here done x 0 rest), refl))
  | inr e ↦ unfold write_from normalize_from in rw e (inl (refl, refl))
]
write_from_outcome done (x ∷ rest) before l d (c ∷ cs) h =
    let ih =
      write_from_outcome (done ++ (to_upper c ∷ [])) rest c (l || is_alpha c) (d || is_digit c) cs
        (omega arith) in
    elim (Bool-cases (is_refused before c)) [
      | inl e ↦ unfold write_from normalize_from in rw e (inl (refl, refl))
      | inr e ↦
          let w = write_step done x rest before l d c cs e in
          let n = normalize_step before l d c cs e in
          elim ih [
            | inl (failed, lost) ↦
                inl (ap (λ p. p.0) w ∙ failed, n ∙ ap (Option.map (λ t. to_upper c ∷ t)) lost)
            | inr (written, found) ↦ inr (
              w ∙ written ∙ ap (λ b. (true, b)) (append_assoc done (to_upper c ∷ []) _),
              n ∙ ap (Option.map (λ t. to_upper c ∷ t)) found,
            )
          ]
    ]

misshapen_short : (size : ℕ) (input : Text) → misshapen size input ≡ false → length input < size
unfolding misshapen
misshapen_short size input h = ground arith

-- `station_normalize_callsign` returns `true` exactly where the text is normalized, and `output` then
-- holds the capitals and a NUL behind them, before what was there.
pub write_callsign_lem :
    (output : List ℕ) (input : Text)
    → AgreeOn
        (map to_upper input)
        (filled [] input output)
        (write_callsign output input)
        (normalize_callsign true (length output) (some input))
unfolding write_callsign normalize_callsign
write_callsign_lem output input = elim (Bool-cases (misshapen (length output) input)) [
  | inl e ↦ rw e (inl (refl, refl))
  | inr e ↦
      rw e
        (write_from_outcome [] output 0 false false input (misshapen_short (length output) input e))
]

length-write_from :
    (output : List ℕ) (index before : ℕ) (l d : Bool) (cs : Text)
    → length (write_from output index before l d cs).1 ≡ length output
unfolding write_from
length-write_from output index before l d [] = length-set output index 0
length-write_from output index before l d (c ∷ cs) = elim (Bool-cases (is_refused before c)) [
  | inl e ↦ rw e refl
  | inr e ↦ rw e (
      length-write_from (set output index (to_upper c)) (index + 1) c (l || is_alpha c)
        (d || is_digit c) cs
      ∙ length-set output index (to_upper c))
]

-- The buffer keeps its size.
pub length-write_callsign :
    (output : List ℕ) (input : Text) → length (write_callsign output input).1 ≡ length output
unfolding write_callsign
length-write_callsign output input = elim (Bool-cases (misshapen (length output) input)) [
  | inl e ↦ rw e refl
  | inr e ↦ rw e (length-write_from output 0 0 false false input)
]

capital_no_nul : (before c : ℕ) → is_refused before c ≡ false → (to_upper c == 0) ≡ false
capital_no_nul before c h = ground arith

pub none≢some : (t : Text) → ¬ (none ≡ some t)
none≢some t e = cc

-- No NUL stands in a text that is normalized.
normalize_from-no_nul :
    (before : ℕ) (l d : Bool) (cs : Text) {t : Text}
    → normalize_from before l d cs ≡ some t
    → All (λ c. (c == 0) ≡ false) (map to_upper cs)
normalize_from-no_nul before l d [] h = tt
normalize_from-no_nul before l d (c ∷ cs) h = elim (Bool-cases (is_refused before c)) [
  | inl e ↦ absurd (unfold normalize_from in ground (arith, e))
  | inr e ↦ elim (Option-cases (normalize_from c (l || is_alpha c) (d || is_digit c) cs)) [
    | inl n ↦ absurd (
        none≢some _ (
          sym (ap (Option.map (λ t. to_upper c ∷ t)) n)
          ∙ sym (normalize_step before l d c cs e)
          ∙ h))
    | inr (t, n) ↦ (
      capital_no_nul before c e,
      normalize_from-no_nul c (l || is_alpha c) (d || is_digit c) cs n,
    )
  ]
]

normalize_callsign-no_nul :
    (size : ℕ) (input : Text) {t : Text}
    → normalize_callsign true size (some input) ≡ some t
    → All (λ c. (c == 0) ≡ false) (map to_upper input)
unfolding normalize_callsign
normalize_callsign-no_nul size input {t} h = elim (Bool-cases (misshapen size input)) [
  | inl e ↦ absurd (ground (arith, e))
  | inr e ↦ normalize_from-no_nul 0 false false input {t = t} (ground (arith, e))
]

-- On success the buffer holds the normalized text.
pub write_callsign-some :
    (output : List ℕ) (input : Text) {t : Text}
    → normalize_callsign true (length output) (some input) ≡ some t
    → ((write_callsign output input).0 ≡ true) × (text_in (write_callsign output input).1 ≡ t)
write_callsign-some output input {t} h = elim (write_callsign_lem output input) [
  | inl (failed, lost) ↦ absurd (none≢some t (sym lost ∙ h))
  | inr (written, found) ↦ (
    ap (λ p. p.0) written,
    ap (λ p. text_in p.1) written
        ∙ text_in-append (map to_upper input) _ (normalize_callsign-no_nul (length output) input h)
        ∙ some-injective (map to_upper input) t (sym found ∙ h),
  )
]

pub write_callsign-none :
    (output : List ℕ) (input : Text)
    → normalize_callsign true (length output) (some input) ≡ none
    → (write_callsign output input).0 ≡ false
write_callsign-none output input h = elim (write_callsign_lem output input) [
  | inl (failed, lost) ↦ failed
  | inr (written, found) ↦ absurd (none≢some (map to_upper input) (sym h ∙ found))
]
