-- ===== src/Jt9/Line/Reports.antt =====
-- What the lines of jt9 give: the first reports, each within its bounds.
use airspyhf_wsprd.Common.{
  ℕ, zero, suc, ◌+◌, ◌-◌, ◌≤◌, ◌<◌, ◌≡◌, ◌≢◌, refl, sym, subst, ap, ◌∙◌, Bool, true, false, not,
  ◌&&◌, Option, none, some, List, [], ◌∷◌, ◌++◌, arith, ltb, ◌==◌, length, length-append,
  length-take, get_or, take, take-append, take_all, drop, Text, is_space, Bool-cases, if_some,
  &&-elim, inl, inr,
}
use airspyhf_wsprd.Common.Int.{ℤ}
use mathlib.Core.List.{append_assoc, append-nil}
use airspyhf_wsprd.Jt9.Result.{DecodeResult, message_size}
use airspyhf_wsprd.Jt9.Sender.{decode_report_fields}
use airspyhf_wsprd.Jt9.Line.{
  Scanned, trimmed_length, trim, in_window, is_report, report, message_of, parse_scanned,
  parse_decode_line, keep_parsed, read_results,
}

-- Behind the trimmed length there is only white space, and before it the last byte is none.
trimmed_length-bound : (message : Text) (n : ℕ) → trimmed_length message n ≤ n
unfolding trimmed_length
trimmed_length-bound message zero = omega arith
trimmed_length-bound message (suc n) = ground (arith, trimmed_length-bound message n)

trimmed_length-space :
    (message : Text) (n : ℕ)
    → is_space (get_or message n 0) ≡ true
    → trimmed_length message n ≡ trimmed_length message (suc n)
trimmed_length-space message n e = unfold trimmed_length in rw e refl

trimmed_length-other :
    (message : Text) (n : ℕ)
    → is_space (get_or message n 0) ≡ false
    → trimmed_length message (suc n) ≡ suc n
trimmed_length-other message n e = unfold trimmed_length in rw e refl

trimmed_length-last :
    (message : Text) (n m : ℕ)
    → trimmed_length message n ≡ suc m
    → is_space (get_or message m 0) ≡ false
trimmed_length-last message zero m h = absurd (unfold trimmed_length in omega arith)
trimmed_length-last message (suc n) m h = elim (Bool-cases (is_space (get_or message n 0))) [
  | inl e ↦ trimmed_length-last message n m (trimmed_length-space message n e ∙ h)
  | inr e ↦
      subst (λ k. is_space (get_or message k 0) ≡ false)
        (omega (arith, trimmed_length-other message n e, h)) e
]

-- No white space at the end.
abbrev pub IsTrimmed : Text → Type 0
IsTrimmed message = is_space (get_or message (length message - 1) 0) ≡ false

get_or-take : (xs : Text) (n i : ℕ) → i < n → get_or (take n xs) i 0 ≡ get_or xs i 0
get_or-take xs zero i h = absurd (omega arith)
get_or-take [] (suc n) i h = refl
get_or-take (x ∷ xs) (suc n) zero h = refl
get_or-take (x ∷ xs) (suc n) (suc i) h = get_or-take xs n i (omega arith)

IsTrimmed-take :
    (message : Text) (k n : ℕ)
    → trimmed_length message k ≡ n
    → k ≤ length message
    → length (take n message) ≢ 0
    → IsTrimmed (take n message)
IsTrimmed-take message k zero e h filled = absurd (filled refl)
IsTrimmed-take message k (suc m) e h filled =
    let m_last : length (take (suc m) message) - 1 ≡ m =
      omega (arith, length-take (suc m) message, trimmed_length-bound message k, e, h) in
    ap is_space (
      ap (λ i. get_or (take (suc m) message) i 0) m_last
      ∙ get_or-take message (suc m) m (omega arith))
    ∙ trimmed_length-last message k m e

trim-IsTrimmed : (message : Text) → length (trim message) ≢ 0 → IsTrimmed (trim message)
unfolding trim
trim-IsTrimmed message filled = IsTrimmed-take message (length message) _ refl (omega arith) filled

length-trim : (message : Text) → length (trim message) ≤ length message
unfolding trim
length-trim message = omega (arith, length-take (trimmed_length message (length message)) message)

module _ {F : Type 0} (below : F → F → Bool) (whole : ℤ → F)
    (scan : Text → Option (Scanned F)) where
  -- What a report that is passed on keeps to.
  pub record IsBounded (r : DecodeResult F) : Type 0 where
    pub window : in_window below whole scan r.snr r.dt r.audio_frequency_hz ≡ true
    pub some_text : 1 ≤ length r.message
    pub fits : length r.message < message_size
    pub trimmed : IsTrimmed r.message
    pub fields : (r.transmitter_call, r.transmitter_grid) ≡ decode_report_fields r.message

  -- The reports of the lines, in their order.
  abbrev pub reports : List Text → List (DecodeResult F)
  reports [] = []
  reports (line ∷ lines) =
      keep_parsed below whole scan [] (parse_decode_line below whole scan line) ++ reports lines

  keep_parsed-append :
      (results : List (DecodeResult F)) (o : Option (DecodeResult F))
      → keep_parsed below whole scan results o ≡ results ++ keep_parsed below whole scan [] o
  unfolding keep_parsed
  keep_parsed-append results none = sym (append-nil results)
  keep_parsed-append results (some r) = refl

  length-keep_parsed :
      (results : List (DecodeResult F)) (o : Option (DecodeResult F))
      → length (keep_parsed below whole scan results o) ≤ length results + 1
  unfolding keep_parsed
  length-keep_parsed results none = omega arith
  length-keep_parsed results (some r) = omega (arith, length-append results (r ∷ []))

  read_results_from :
      (capacity : ℕ) (results : List (DecodeResult F)) (lines : List Text)
      → length results ≤ capacity
      → read_results below whole scan capacity results lines
        ≡ take capacity (results ++ reports lines)
  unfolding read_results
  read_results_from capacity results [] room =
      sym (ap (take capacity) (append-nil results) ∙ take_all capacity results room)
  read_results_from capacity results (line ∷ lines) room =
      let parsed = parse_decode_line below whole scan line in
      elim (Bool-cases (ltb (length results) capacity)) [
        | inl left ↦ rw left (
            read_results_from capacity (keep_parsed below whole scan results parsed) lines
              (ground (arith, left, length-keep_parsed results parsed))
            ∙ ap (take capacity) (
                ap (λ l. l ++ reports lines) (keep_parsed-append results parsed)
                ∙ append_assoc results (keep_parsed below whole scan [] parsed) (reports lines)))
        | inr full ↦
            let filled : capacity ≡ length results = ground (arith, full, room) in
            rw full (
              sym (
                ap (λ n. take n (results ++ reports (line ∷ lines))) filled
                ∙ take-append results (reports (line ∷ lines))))
      ]

  -- The results that are read are the first reports of the output, as many as the array holds.
  pub read_results_lem :
      (capacity : ℕ) (lines : List Text)
      → read_results below whole scan capacity [] lines ≡ take capacity (reports lines)
  read_results_lem capacity lines = read_results_from capacity [] lines (omega arith)

  report-IsBounded :
      (line : Text) (s : Scanned F)
      → is_report below whole scan s ≡ true
      → not (length (message_of below whole scan line s) == 0) ≡ true
      → IsBounded (report below whole scan s (message_of below whole scan line s))
  unfolding message_of
  report-IsBounded line s kept filled =
      let cut = take (message_size - 1) (drop s.message_offset line) in
      let long : 1 ≤ length (trim cut) = ground (arith, filled) in
      record {
        window = (&&-elim _ (in_window below whole scan s.snr s.dt s.audio_frequency_hz) kept).1;
        some_text = long;
        fits =
            omega
              (arith, length-trim cut, length-take (message_size - 1) (drop s.message_offset line));
        trimmed = trim-IsTrimmed cut (λ e. omega (arith, e, long));
        fields = refl;
      }

  parse_scanned-IsBounded :
      (line : Text) (o : Option (Scanned F)) {r : DecodeResult F}
      → parse_scanned below whole scan line o ≡ some r
      → IsBounded r
  unfolding parse_scanned
  parse_scanned-IsBounded line none h = absurd (cc)
  parse_scanned-IsBounded line (some s) h =
      let (tests, e) =
        if_some
          (is_report below whole scan s && not (length (message_of below whole scan line s) == 0))
          (report below whole scan s (message_of below whole scan line s)) _ h in
      let (kept, filled) =
        &&-elim (is_report below whole scan s)
          (not (length (message_of below whole scan line s) == 0)) tests in
      subst IsBounded (sym e) (report-IsBounded line s kept filled)

  -- A report that a line gives has its numbers within the limits, a message of 1 to 34 bytes that
  -- does not end in white space, and the sender and locator that the message names.
  parse_decode_line-IsBounded :
      (line : Text) {r : DecodeResult F}
      → parse_decode_line below whole scan line ≡ some r
      → IsBounded r
  unfolding parse_decode_line
  parse_decode_line-IsBounded line h = parse_scanned-IsBounded line (scan line) h
