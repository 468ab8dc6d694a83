-- ===== src/DecoderBridge/Results/Spots.antt =====
-- What the loop of `parse_results` makes of the lines, in one equation.
use airspyhf_wsprd.Common.{
  ℕ, ◌+◌, ◌≤◌, ◌≡◌, refl, sym, subst, ap, ap₂, ◌∙◌, true, false, Option, none, some, List, [], ◌∷◌,
  ◌++◌, map, arith, ltb, length, length-append, set, take, drop, Text,
}
use mathlib.Core.List.{append_assoc}
use airspyhf_wsprd.Common.Int.{ℤ, pos}
use airspyhf_wsprd.DecoderBridge.Results.{
  DecoderResult, SpotFields, to_int32, ParsedSpots, result_of, store_spot, or_refused, read_spots,
  counted, read_input,
}

module _ {F : Type 0} (whole tenths : ℤ → F) (scan : Text → Option (SpotFields F)) where
  abbrev add_fields :
      Option (SpotFields F) → Option (List (SpotFields F)) → Option (List (SpotFields F))
  add_fields (some fields) (some others) = some (fields ∷ others)
  add_fields (some fields) none = none
  add_fields none others = none

  -- The fields of all lines, if each of them matches.
  abbrev pub all_fields : List Text → Option (List (SpotFields F))
  all_fields [] = some []
  all_fields (line ∷ lines) = add_fields (scan line) (all_fields lines)

  -- The spots in their order at the start of the array, the rest of it as it was.
  abbrev pub spots_over : List (SpotFields F) → List (DecoderResult F) → List (DecoderResult F)
  spots_over fields results =
      map (result_of whole tenths scan) fields ++ drop (length fields) results

  -- What the loop is to give behind the spots `done`, with `rest` the other elements of the array.
  abbrev Read :
      List (DecoderResult F)
      → List (DecoderResult F)
      → Option (List (SpotFields F))
      → List (DecoderResult F) × Option ℕ
      → Type 0
  Read done rest none out = out.1 ≡ none
  Read done rest (some fields) out =
      out ≡ (done ++ spots_over fields rest, some (length done + length fields))

  set-append :
      (done rest : List (DecoderResult F)) (old new : DecoderResult F)
      → set (done ++ (old ∷ rest)) (length done) new ≡ (done ++ (new ∷ [])) ++ rest
  set-append [] rest old new = refl
  set-append (d ∷ done) rest old new = ap (λ l. d ∷ l) (set-append done rest old new)

  Read-later :
      (done rest : List (DecoderResult F)) (old : DecoderResult F) (fields : SpotFields F)
      (others : Option (List (SpotFields F))) (out : List (DecoderResult F) × Option ℕ)
      → Read (done ++ (result_of whole tenths scan fields ∷ [])) rest others out
      → Read done (old ∷ rest) (add_fields (some fields) others) out
  Read-later done rest old fields none out h = h
  Read-later done rest old fields (some others) out h =
      h
      ∙ ap₂ (λ l n. (l, some n))
          (append_assoc done (result_of whole tenths scan fields ∷ []) (spots_over others rest))
          (omega (arith, length-append done (result_of whole tenths scan fields ∷ [])))

  read_spots-full :
      (lines : List Text) (results : List (DecoderResult F)) (capacity count : ℕ)
      → capacity ≤ count
      → read_spots whole tenths scan capacity results count lines ≡ (results, some count)
  unfolding read_spots
  read_spots-full [] results capacity count full = refl
  read_spots-full (line ∷ lines) results capacity count full =
      let e : ltb count capacity ≡ false = ground (arith, full) in rw e refl

  read_spots-room :
      (results : List (DecoderResult F)) (capacity count : ℕ) (line : Text) (lines : List Text)
      → ltb count capacity ≡ true
      → read_spots whole tenths scan capacity results count (line ∷ lines)
        ≡ or_refused whole tenths scan results (scan line) (
            read_spots whole tenths scan capacity
              (store_spot whole tenths scan results count (scan line))
              (count + 1)
              lines)
  unfolding read_spots
  read_spots-room results capacity count line lines e = rw e refl

  -- One round, while there is room; `later` is what the other rounds give.
  round-Read :
      (lines : List Text) (done rest : List (DecoderResult F)) (old : DecoderResult F)
      (capacity : ℕ) (others : Option (List (SpotFields F))) (o : Option (SpotFields F))
      → ((fields : SpotFields F)
          → Read (done ++ (result_of whole tenths scan fields ∷ [])) rest others (
              read_spots whole tenths scan capacity
                ((done ++ (result_of whole tenths scan fields ∷ [])) ++ rest)
                (length done + 1)
                lines))
      → Read done (old ∷ rest) (add_fields o others) (
          or_refused whole tenths scan (done ++ (old ∷ rest)) o (
            read_spots whole tenths scan capacity
              (store_spot whole tenths scan (done ++ (old ∷ rest)) (length done) o)
              (length done + 1)
              lines))
  unfolding or_refused store_spot
  round-Read lines done rest old capacity others none later = refl
  round-Read lines done rest old capacity others (some fields) later =
      Read-later done rest old fields others _ (
        subst
          (λ r.
            Read (done ++ (result_of whole tenths scan fields ∷ [])) rest others
              (read_spots whole tenths scan capacity r (length done + 1) lines))
          (sym (set-append done rest old (result_of whole tenths scan fields))) (later fields))

  read_spots-Read :
      (lines : List Text) (done rest : List (DecoderResult F)) (capacity : ℕ)
      → length done + length rest ≡ capacity
      → Read done rest
          (all_fields (take (length rest) lines))
          (read_spots whole tenths scan capacity (done ++ rest) (length done) lines)
  read_spots-Read lines done [] capacity e =
      read_spots-full lines (done ++ []) capacity (length done) (omega (arith, e))
      ∙ ap (λ n. (done ++ [], some n)) (omega arith)
  read_spots-Read [] done (old ∷ rest) capacity e =
      unfold read_spots in ap (λ n. (done ++ (old ∷ rest), some n)) (omega arith)
  read_spots-Read (line ∷ lines) done (old ∷ rest) capacity e =
      let left : ltb (length done) capacity ≡ true = ground (arith, e) in
      rw (read_spots-room (done ++ (old ∷ rest)) capacity (length done) line lines left) (
        round-Read lines done rest old capacity (all_fields (take (length rest) lines)) (scan line)
          (λ fields.
            let next = done ++ (result_of whole tenths scan fields ∷ []) in
            let longer : length next ≡ length done + 1 =
              omega (arith, length-append done (result_of whole tenths scan fields ∷ [])) in
            subst
              (λ n.
                Read next rest (all_fields (take (length rest) lines))
                  (read_spots whole tenths scan capacity (next ++ rest) n lines))
              longer (read_spots-Read lines next rest capacity (omega (arith, longer, e)))))

  -- What the caller is promised: all lines that the array has room for, or a refusal.
  abbrev pub IsParsed :
      List (DecoderResult F) → Option (List (SpotFields F)) → ParsedSpots F → Type 0
  IsParsed results none parsed = (parsed.result_count ≡ pos 0) × (parsed.succeeded ≡ false)
  IsParsed results (some fields) parsed = parsed ≡ record {
    results = spots_over fields results;
    result_count = to_int32 (length fields);
    succeeded = true;
  }

  counted-IsParsed :
      (results : List (DecoderResult F)) (o : Option (List (SpotFields F)))
      (out : List (DecoderResult F) × Option ℕ)
      → Read [] results o out
      → IsParsed results o (counted whole tenths scan out)
  unfolding counted
  counted-IsParsed results none (spots, none) h = (refl, refl)
  counted-IsParsed results none (spots, some n) h = absurd (cc)
  counted-IsParsed results (some fields) out h =
      ap (counted whole tenths scan)
        (h ∙ ap (λ n. (spots_over fields results, some n)) (omega arith))

  -- If each of the lines that the array has room for matches, the array starts with their spots, in
  -- their order, and the number is that of the lines, as a 32-bit integer; if one of them does not,
  -- the number is 0 and the status is not 0.
  pub read_input-IsParsed :
      (results : List (DecoderResult F)) (lines : List Text)
      → IsParsed results
          (all_fields (take (length results) lines))
          (read_input whole tenths scan results (length results) (some lines))
  unfolding read_input
  read_input-IsParsed results lines =
      counted-IsParsed results (all_fields (take (length results) lines)) _
        (read_spots-Read lines [] results (length results) (omega arith))
