-- ===== src/BandAdvisor/Rows/Dial.antt =====
-- The plan of `ft8_advisor_parse_response` has one candidate.
use airspyhf_wsprd.Common.{
  ℕ, ◌≡◌, refl, sym, subst, ap, ◌∙◌, inl, inr, Bool, true, false, Option, none, some, List, [], ◌∷◌,
  arith, Text, Bool-cases,
}
use mathlib.Core.Option.{some-injective}
use airspyhf_wsprd.HopPlan.{HopBand, HopPlan}
use airspyhf_wsprd.BandAdvisor.Rows.{
  response_lines, hits, find_hit, Line, no_frequency, a_frequency, malformed, read_line, or_miss,
  or_next, read_frequencies, ft8_advisor_parse_response,
}
use airspyhf_wsprd.BandAdvisor.Rows.Advice.{IsIn, IsAdvice}

module _ (frequency : ℕ) where
  hit :
      (b : HopBand) (candidates : HopPlan)
      → hits frequency b ≡ true
      → find_hit frequency (b ∷ candidates) ≡ some b
  unfolding find_hit
  hit b candidates e = rw e refl

  miss :
      (b : HopBand) (candidates : HopPlan)
      → hits frequency b ≡ false
      → find_hit frequency (b ∷ candidates) ≡ find_hit frequency candidates
  unfolding find_hit
  miss b candidates e = rw e refl

  find_hit-IsIn :
      (candidates : HopPlan) {band : HopBand}
      → find_hit frequency candidates ≡ some band
      → IsIn band candidates
  find_hit-IsIn [] h = absurd (unfold find_hit in cc)
  find_hit-IsIn (b ∷ candidates) {band} h = elim (Bool-cases (hits frequency b)) [
    | inl e ↦ inl (some-injective band b (sym h ∙ hit b candidates e))
    | inr e ↦ inr (find_hit-IsIn candidates (sym (miss b candidates e) ∙ h))
  ]

one_band-IsAdvice :
    (candidates : HopPlan) (band : HopBand) → IsIn band candidates → IsAdvice candidates (band ∷ [])
one_band-IsAdvice candidates band known = record {
  one = omega arith;
  four = omega arith;
  known = (known, tt);
}

module _ (strtoul : Text → Option (ℕ × ℕ)) (candidates : HopPlan) where
  or_miss-IsAdvice :
      (frequency : ℕ) (o : Option HopBand) (rest : Bool × HopPlan) {plan : HopPlan}
      → find_hit frequency candidates ≡ o
      → (rest ≡ (true, plan) → IsAdvice candidates plan)
      → or_miss o rest ≡ (true, plan)
      → IsAdvice candidates plan
  unfolding or_miss
  or_miss-IsAdvice frequency none rest e later h = later h
  or_miss-IsAdvice frequency (some band) rest {plan} e later h =
      subst (IsAdvice candidates) (ap (λ p. p.1) h)
        (one_band-IsAdvice candidates band (find_hit-IsIn frequency candidates e))

  or_next-IsAdvice :
      (line : Line) (rest : Bool × HopPlan) {plan : HopPlan}
      → (rest ≡ (true, plan) → IsAdvice candidates plan)
      → or_next strtoul candidates line rest ≡ (true, plan)
      → IsAdvice candidates plan
  unfolding or_next
  or_next-IsAdvice malformed rest later h = absurd (cc)
  or_next-IsAdvice no_frequency rest later h = later h
  or_next-IsAdvice (a_frequency frequency) rest {plan} later h =
      or_miss-IsAdvice frequency (find_hit frequency candidates) rest {plan = plan} refl later h

  line_and_rest :
      (line : Text) (lines : List Text) {result : Bool × HopPlan}
      → read_frequencies strtoul candidates (line ∷ lines) ≡ result
      → or_next strtoul candidates
          (read_line strtoul line)
          (read_frequencies strtoul candidates lines)
        ≡ result
  unfolding read_frequencies
  line_and_rest line lines h = h

  read_frequencies-IsAdvice :
      (lines : List Text) {plan : HopPlan}
      → read_frequencies strtoul candidates lines ≡ (true, plan)
      → IsAdvice candidates plan
  read_frequencies-IsAdvice [] h = absurd (unfold read_frequencies in cc)
  read_frequencies-IsAdvice (line ∷ lines) {plan} h =
      or_next-IsAdvice (read_line strtoul line) (read_frequencies strtoul candidates lines)
        {plan = plan} (λ e. read_frequencies-IsAdvice lines e) (line_and_rest line lines h)

  pub ft8_advisor_parse_response-IsAdvice :
      (response : Option Text) (old : HopPlan) {plan : HopPlan}
      → ft8_advisor_parse_response strtoul (some candidates) response old ≡ (true, plan)
      → IsAdvice candidates plan
  unfolding ft8_advisor_parse_response
  ft8_advisor_parse_response-IsAdvice none old h = absurd (cc)
  ft8_advisor_parse_response-IsAdvice (some response) old h =
      read_frequencies-IsAdvice (response_lines response) h
