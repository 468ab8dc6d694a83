-- ===== src/Station/Buffer/Word.antt =====
-- A word of letters is refused, but written.
use airspyhf_wsprd.Common.{
  true≢false, ℕ, ◌-◌, ◌≤◌, ◌<◌, ◌≡◌, sym, ap, ap₂, ◌∙◌, Bool, true, false, ◌||◌, none, some, List,
  [], ◌∷◌, ◌++◌, All, map, ◌==◌, length, Text, is_alpha, All-get_or, is_digit, to_upper, arith, inl,
  inr,
}
use mathlib.Core.List.{append_assoc}
use airspyhf_wsprd.Station.{normalize_from, misshapen, normalize_callsign}
use airspyhf_wsprd.Station.Buffer.{write_from, write_callsign, text_in}
use airspyhf_wsprd.Station.Buffer.Outcome.{
  set_here, text_in-append, filled, is_refused, write_step, write_from_outcome,
}

letter_fine : (before c : ℕ) → is_alpha c ≡ true → is_refused before c ≡ false
letter_fine before c h = ground arith

letter_no_digit : (c : ℕ) → is_alpha c ≡ true → is_digit c ≡ false
letter_no_digit c h = ground arith

-- A text of letters and digits is written as a whole, whatever the function returns.
pub write_from_plain :
    (done rest : List ℕ) (before : ℕ) (l : Bool) (cs : Text)
    → length cs < length rest
    → All (λ c. is_alpha c ≡ true) cs
    → write_from (done ++ rest) (length done) before l false cs ≡ (false, filled done cs rest)
write_from_plain done [] before l cs h letters = absurd (omega arith)
write_from_plain done (x ∷ rest) before l [] h letters =
    unfold write_from in
    ap₂ (λ (b : Bool) (o : List ℕ). (b, o)) (ground arith) (set_here done x 0 rest)
write_from_plain done (x ∷ rest) before l (c ∷ cs) h letters =
    write_step done x rest before l false c cs (letter_fine before c letters.0)
    ∙ ap
        (λ d.
          write_from ((done ++ (to_upper c ∷ [])) ++ rest) (length (done ++ (to_upper c ∷ []))) c
            (l || is_alpha c) d cs)
        (letter_no_digit c letters.0)
    ∙ write_from_plain (done ++ (to_upper c ∷ [])) rest c (l || is_alpha c) cs (omega arith)
        letters.1
    ∙ ap (λ b. (false, b)) (append_assoc done (to_upper c ∷ []) _)

letters_shape :
    (size : ℕ) (word : Text)
    → All (λ c. is_alpha c ≡ true) word
    → 3 ≤ length word
    → length word ≤ 12
    → length word < size
    → misshapen size word ≡ false
unfolding misshapen
letters_shape size word letters at_least at_most room =
    let first = All-get_or (λ c. is_alpha c ≡ true) word 0 0 letters (omega arith) in
    let last = All-get_or (λ c. is_alpha c ≡ true) word (length word - 1) 0 letters (omega arith) in
    ground arith

no_digit_lost :
    (output : List ℕ) (word : Text)
    → write_from output 0 0 false false word ≡ (false, filled [] word output)
    → length word < length output
    → normalize_from 0 false false word ≡ none
no_digit_lost output word plain room = elim (write_from_outcome [] output 0 false false word room) [
  | inl (failed, lost) ↦ lost
  | inr (written, found) ↦ absurd (true≢false (ap (λ p. p.0) (sym written ∙ plain)))
]

letters_no_nul :
    (word : Text)
    → All (λ c. is_alpha c ≡ true) word
    → All (λ c. (c == 0) ≡ false) (map to_upper word)
letters_no_nul [] letters = tt
letters_no_nul (c ∷ word) letters = (ground (arith, letters.0), letters_no_nul word letters.1)

-- A word of letters is no callsign, but is written to the buffer.
pub write_callsign_word :
    (output : List ℕ) (word : Text)
    → All (λ c. is_alpha c ≡ true) word
    → 3 ≤ length word
    → length word ≤ 12
    → length word < length output
    → (write_callsign output word ≡ (false, filled [] word output))
      × (normalize_callsign true (length output) (some word) ≡ none)
unfolding write_callsign normalize_callsign
write_callsign_word output word letters at_least at_most room =
    let shape = letters_shape (length output) word letters at_least at_most room in
    let plain = write_from_plain [] output 0 false word room letters in
    rw shape (plain, no_digit_lost output word plain room)

pub text_in-capitals :
    (word : Text) (rest : List ℕ)
    → All (λ c. is_alpha c ≡ true) word
    → text_in (filled [] word rest) ≡ map to_upper word
text_in-capitals word rest letters =
    text_in-append (map to_upper word) _ (letters_no_nul word letters)
