-- ===== src/BandAdvisor/Rows/Plan.antt =====
-- The plan of `wspr_advisor_parse_response`: what it holds, and that it leaves nothing out.
use airspyhf_wsprd.Common.{
  ◌≤◌, ◌<◌, ◌≡◌, refl, sym, subst, ap, ◌∙◌, true, false, ◌||◌, Option, none, some, List, [], ◌∷◌,
  ◌++◌, ◌⊎◌, inl, inr, All, arith, ltb, leb, ◌==◌, length, Text, Bool-cases,
}
use mathlib.Core.Option.{some-injective}
use mathlib.Core.List.{append_assoc, append-nil}
use airspyhf_wsprd.Common.Int.{ℤ}
use airspyhf_wsprd.HopPlan.{HopPlan}
use airspyhf_wsprd.HopSchedule.{contains_database_band}
use airspyhf_wsprd.BandAdvisor.Rows.{
  result_bands, row_size, response_lines, Row, add_candidate, add_row, go_on, add_line, read_rows,
  with_two, wspr_advisor_parse_response,
}
use airspyhf_wsprd.BandAdvisor.Rows.Advice.{
  Added, add_candidate-Added, add_candidate-contains, IsRanked, Added-IsRanked, known-contains,
  contains-append_left,
}

with_two-some :
    (o : Option HopPlan) {ranked : HopPlan}
    → with_two o ≡ (true, ranked)
    → (o ≡ some ranked) × (2 ≤ length ranked)
unfolding with_two
with_two-some none h = absurd (cc)
with_two-some (some plan) h = ground (arith, h)

module _ (scan : Text → Option Row) (candidates : HopPlan) where
  -- A line that is accepted has a row.
  abbrev Accepted : HopPlan → Text → HopPlan → Type 0
  Accepted ranked line next =
      (row : Row) × (scan line ≡ some row)
      × (next ≡ add_candidate row.database_band ranked candidates)

  add_row-some :
      (ranked : HopPlan) (o : Option Row) {next : HopPlan}
      → add_row candidates ranked o ≡ some next
      → (row : Row) × (o ≡ some row) × (next ≡ add_candidate row.database_band ranked candidates)
  add_row-some ranked none h = absurd (unfold add_row in cc)
  add_row-some ranked (some row) h = (row, refl, unfold add_row in ground (arith, h))

  add_line-Accepted :
      (ranked : HopPlan) (line : Text) {next : HopPlan}
      → add_line scan candidates ranked line ≡ some next
      → Accepted ranked line next
  unfolding add_line
  add_line-Accepted ranked line h =
      elim (Bool-cases (length line == 0 || leb row_size (length line))) [
        | inl e ↦ absurd (ground (arith, e, h))
        | inr e ↦ add_row-some ranked (scan line) (rw e at h)
      ]

  go_on-some :
      (o : Option HopPlan) (loop : HopPlan → Option HopPlan) {final : HopPlan}
      → go_on o loop ≡ some final
      → (next : HopPlan) × (o ≡ some next) × (loop next ≡ some final)
  unfolding go_on
  go_on-some none loop h = absurd (cc)
  go_on-some (some next) loop h = (next, refl, h)

  read_rows-room :
      (ranked : HopPlan) (line : Text) (lines : List Text)
      → ltb (length ranked) result_bands ≡ true
      → read_rows scan candidates ranked (line ∷ lines)
        ≡ go_on
            (add_line scan candidates ranked line)
            (λ next. read_rows scan candidates next lines)
  unfolding read_rows
  read_rows-room ranked line lines e = rw e refl

  read_rows-full :
      (ranked : HopPlan) (line : Text) (lines : List Text)
      → ltb (length ranked) result_bands ≡ false
      → read_rows scan candidates ranked (line ∷ lines) ≡ some ranked
  unfolding read_rows
  read_rows-full ranked line lines e = rw e refl

  -- The two ways a round of the loop can end with a plan.
  read_rows-some :
      (ranked : HopPlan) (line : Text) (lines : List Text) {final : HopPlan}
      → read_rows scan candidates ranked (line ∷ lines) ≡ some final
      → ((result_bands ≤ length ranked) × (final ≡ ranked))
        ⊎ ((next : HopPlan) × (length ranked < result_bands)
            × Accepted ranked line next
            × (read_rows scan candidates next lines ≡ some final))
  read_rows-some ranked line lines {final} h =
      elim (Bool-cases (ltb (length ranked) result_bands)) [
        | inl room ↦
            let (next, e, rest) =
              go_on-some (add_line scan candidates ranked line)
                (λ p. read_rows scan candidates p lines)
                (sym (read_rows-room ranked line lines room) ∙ h) in
            inr (next, ground (arith, room), add_line-Accepted ranked line e, rest)
        | inr full ↦ inl (
          ground (arith, full),
          some-injective final ranked (sym h ∙ read_rows-full ranked line lines full),
        )
      ]

  -- The plan that the loop ends with: distinct candidates, no more than four, those before in their place.
  read_rows-IsRanked :
      (lines : List Text) (ranked : HopPlan) {final : HopPlan}
      → IsRanked candidates ranked
      → length ranked ≤ result_bands
      → read_rows scan candidates ranked lines ≡ some final
      → IsRanked candidates final
        × (length final ≤ result_bands)
        × (later : HopPlan) × (final ≡ ranked ++ later)
  read_rows-IsRanked [] ranked {final} r room h =
      let same : final ≡ ranked = some-injective final ranked (sym h ∙ unfold read_rows in refl) in
      (
        subst (IsRanked candidates) (sym same) r,
        omega (arith, ap length same),
        [],
        same ∙ sym (append-nil ranked),
      )
  read_rows-IsRanked (line ∷ lines) ranked {final} r room h =
      elim (read_rows-some ranked line lines h) [
        | inl (full, same) ↦ (
          subst (IsRanked candidates) (sym same) r,
          omega (arith, ap length same),
          [],
          same ∙ sym (append-nil ranked),
        )
        | inr (next, left, accepted, rest) ↦
            let (row, scanned, e) = accepted in
            let (r', longer, one, first) =
              Added-IsRanked candidates ranked next
                (subst (Added candidates ranked) (sym e)
                  (add_candidate-Added row.database_band ranked candidates))
                r in
            let (r'', within, others, all) =
              read_rows-IsRanked lines next r' (omega (arith, longer, left)) rest in
            (
              r'',
              within,
              one ++ others,
              all ∙ ap (λ l. l ++ others) first ∙ append_assoc ranked one others,
            )
      ]

  -- The band of the row is in the plan if it is among the candidates, and not if it is not.
  abbrev pub Counted : HopPlan → Text → Type 0
  Counted plan line =
      (row : Row) × (scan line ≡ some row)
      × (contains_database_band plan row.database_band
          ≡ contains_database_band candidates row.database_band)

  added_counts :
      (ranked later : HopPlan) (d : ℤ)
      → IsRanked candidates (add_candidate d ranked candidates ++ later)
      → contains_database_band (add_candidate d ranked candidates ++ later) d
        ≡ contains_database_band candidates d
  added_counts ranked later d r = elim (Bool-cases (contains_database_band candidates d)) [
    | inl e ↦
        contains-append_left (add_candidate d ranked candidates) later d (
          add_candidate-contains d ranked candidates
          ∙ ap (λ q. contains_database_band ranked d || q) e
          ∙ ground arith)
        ∙ sym e
    | inr e ↦
        elim (Bool-cases (contains_database_band (add_candidate d ranked candidates ++ later) d)) [
          | inl f ↦ f ∙ sym (known-contains candidates _ d r.known f)
          | inr f ↦ f ∙ sym e
        ]
  ]

  read_rows-Counted :
      (lines : List Text) (ranked : HopPlan) {final : HopPlan}
      → IsRanked candidates ranked
      → length ranked ≤ result_bands
      → read_rows scan candidates ranked lines ≡ some final
      → length final < result_bands
      → All (Counted final) lines
  read_rows-Counted [] ranked r room h short = tt
  read_rows-Counted (line ∷ lines) ranked {final} r room h short =
      elim (read_rows-some ranked line lines h) [
        | inl (full, same) ↦ absurd (omega (arith, full, short, ap length same))
        | inr (next, left, (row, scanned, e), rest) ↦
            let (r', longer, one, first) =
              Added-IsRanked candidates ranked next
                (subst (Added candidates ranked) (sym e)
                  (add_candidate-Added row.database_band ranked candidates))
                r in
            let (r'', within, others, all) =
              read_rows-IsRanked lines next r' (omega (arith, longer, left)) rest in
            let whole : final ≡ add_candidate row.database_band ranked candidates ++ others =
              all ∙ ap (λ l. l ++ others) e in
            (
              (
                row,
                scanned,
                ap (λ p. contains_database_band p row.database_band) whole
                    ∙ added_counts ranked others row.database_band
                        (subst (IsRanked candidates) whole r''),
              ),
              read_rows-Counted lines next r' (omega (arith, longer, left)) rest short,
            )
      ]

  parsed_rows :
      (response : Text) (old : HopPlan) {ranked : HopPlan}
      → wspr_advisor_parse_response scan (some candidates) (some response) old ≡ (true, ranked)
      → (read_rows scan candidates [] (response_lines response) ≡ some ranked) × (2 ≤ length ranked)
  unfolding wspr_advisor_parse_response
  parsed_rows response old h =
      with_two-some (read_rows scan candidates [] (response_lines response)) h

  none-IsRanked : IsRanked candidates []
  none-IsRanked = record { distinct = tt; known = tt }

  -- A response that is accepted gives two to four candidates, no two with the same band number.
  pub wspr_advisor_parse_response-IsRanked :
      (response : Text) (old : HopPlan) {ranked : HopPlan}
      → wspr_advisor_parse_response scan (some candidates) (some response) old ≡ (true, ranked)
      → IsRanked candidates ranked × (2 ≤ length ranked) × (length ranked ≤ result_bands)
  wspr_advisor_parse_response-IsRanked response old h =
      let (read, two) = parsed_rows response old h in
      let (r, within, later, all) =
        read_rows-IsRanked (response_lines response) [] none-IsRanked (omega arith) read in
      (r, two, within)

  -- While such a plan has fewer than four bands, each line of the response is a row, and the plan has the
  -- band of the row exactly if it is among the candidates.
  pub wspr_advisor_parse_response-Counted :
      (response : Text) (old : HopPlan) {ranked : HopPlan}
      → wspr_advisor_parse_response scan (some candidates) (some response) old ≡ (true, ranked)
      → length ranked < result_bands
      → All (Counted ranked) (response_lines response)
  wspr_advisor_parse_response-Counted response old h short =
      read_rows-Counted (response_lines response) [] none-IsRanked (omega arith)
        (parsed_rows response old h).0 short

pub wspr_advisor_parse_response-missing :
    (scan : Text → Option Row) (candidates old : HopPlan)
    → wspr_advisor_parse_response scan (some candidates) none old ≡ (false, old)
unfolding wspr_advisor_parse_response
wspr_advisor_parse_response-missing scan candidates old = refl
