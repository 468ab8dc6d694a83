-- ===== src/BandAdvisor/Response/Holds.antt =====
-- The buffer holds what was received, as a text.
use airspyhf_wsprd.Common.{
  ℕ, zero, suc, ◌+◌, ◌-◌, ◌*◌, ◌/◌, ◌≤◌, ◌<◌, ◌≡◌, refl, sym, subst, ap, ◌∙◌, ◌⊎◌, inl, inr, Bool,
  true, false, not, ◌&&◌, ◌||◌, some, List, [], ◌∷◌, ◌++◌, arith, ltb, leb, ◌==◌, length,
  length-append, length-drop, drop, set, write_at, overlay-drop, write_at-append, Bool-cases,
}
use native.Mathlib.Nat.{le-div_iff_mul-le, mul_comm}
use mathlib.Core.List.{append_assoc}
use airspyhf_wsprd.Station.Buffer.Outcome.{set_here}
use airspyhf_wsprd.DecoderBridge.Paths.{size_max}
use airspyhf_wsprd.BandAdvisor.Response.{
  ResponseBuffer, store_bytes, receive_bytes, receive_response,
}

-- The array starts with what was received and a NUL, and has as many bytes as the capacity says.
pub record Holds (received : List ℕ) (response : ResponseBuffer) : Type 0 where
  pub rest : List ℕ
  pub bytes : response.bytes ≡ some (received ++ (0 ∷ rest))
  pub received_length : response.length ≡ length received
  pub capacity : response.capacity ≡ length (received ++ (0 ∷ rest))

write_behind :
    (received rest contents : List ℕ)
    → length contents ≤ length rest
    → write_at (received ++ rest) (length received) contents
      ≡ received ++ (contents ++ drop (length contents) rest)
unfolding write_at
write_behind received rest contents h =
    ap (λ n. write_at (received ++ rest) n contents) {y = length received + 0} (omega arith)
    ∙ write_at-append received rest 0 contents
    ∙ ap (λ l. received ++ l) (overlay-drop rest contents h)

drop_split : (n : ℕ) (xs : List ℕ) → n < length xs → (y : ℕ) × (drop n xs ≡ y ∷ drop (suc n) xs)
drop_split n [] h = absurd (omega arith)
drop_split zero (x ∷ xs) h = (x, refl)
drop_split (suc n) (x ∷ xs) h = drop_split n xs (omega arith)

-- The bytes behind a write and its NUL.
stored_bytes :
    (received rest contents : List ℕ)
    → length contents < length rest
    → set
        (write_at (received ++ rest) (length received) contents)
        (length received + length contents)
        0
      ≡ (received ++ contents) ++ (0 ∷ drop (suc (length contents)) rest)
stored_bytes received rest contents h =
    let (y, e) = drop_split (length contents) rest h in
    ap (λ l. set l (length received + length contents) 0)
      (write_behind received rest contents (omega arith)
        ∙ sym (append_assoc received contents (drop (length contents) rest))
        ∙ ap (λ l. (received ++ contents) ++ l) e)
    ∙ ap (λ n. set ((received ++ contents) ++ (y ∷ drop (suc (length contents)) rest)) n 0)
        (sym (length-append received contents))
    ∙ set_here (received ++ contents) y 0 (drop (suc (length contents)) rest)

not_overflowing :
    (size count : ℕ)
    → size * count ≤ size_max
    → not (size == 0) && ltb (size_max / size) count ≡ false
not_overflowing zero count h = refl
not_overflowing (suc size) count h =
    let enough : count ≤ size_max / suc size =
      (le-div_iff_mul-le {x = count} {y = size_max} (omega arith)).1
        (omega (arith, mul_comm (suc size) count, h)) in
    ground (arith, enough)

abbrev too_large : ResponseBuffer → ℕ → Bool
too_large response size =
    response.capacity == 0
    || leb response.capacity response.length
    || ltb (response.capacity - response.length - 1) size

module _ (contents : List ℕ) (size count : ℕ) (response : ResponseBuffer) (bytes : List ℕ) where
  received_from :
      size * count ≤ size_max
      → response.bytes ≡ some bytes
      → length contents ≡ size * count
      → receive_response contents size count response
        ≡ receive_bytes response (some bytes) contents (length contents)
  unfolding receive_response
  received_from small e whole = rw (not_overflowing size count small) (
      ap (λ b. receive_bytes response b contents (size * count)) e
      ∙ ap (receive_bytes response (some bytes) contents) (sym whole))

  bytes_refused :
      too_large response (length contents) ≡ true
      → receive_bytes response (some bytes) contents (length contents) ≡ (0, response)
  unfolding receive_bytes
  bytes_refused e = rw e refl

  bytes_taken :
      too_large response (length contents) ≡ false
      → receive_bytes response (some bytes) contents (length contents)
        ≡ (length contents, store_bytes response bytes contents (length contents))
  unfolding receive_bytes
  bytes_taken e = rw e refl

store_bytes-Holds :
    (received contents : List ℕ) (response : ResponseBuffer) (h : Holds received response)
    → length contents ≤ length h.rest
    → Holds
        (received ++ contents)
        (store_bytes response (received ++ (0 ∷ h.rest)) contents (length contents))
store_bytes-Holds received contents response h fits = record {
  rest = drop (length contents) h.rest;
  bytes =
      ap (λ n. some (set (write_at (received ++ (0 ∷ h.rest)) n contents) (n + length contents) 0))
        h.received_length
      ∙ ap some (stored_bytes received (0 ∷ h.rest) contents (omega (arith, fits)));
  received_length = omega (arith, h.received_length, length-append received contents);
  capacity = omega (
    arith,
    h.capacity,
    fits,
    length-append received (0 ∷ h.rest),
    length-append received contents,
    length-append (received ++ contents) (0 ∷ drop (length contents) h.rest),
    length-drop (length contents) h.rest,
  );
}

-- What a call does, if the piece is an object in memory: the bytes are stored behind those before, while they
-- leave room for the NUL, and are refused otherwise, with the buffer as it was.
pub receive_response-Holds :
    (received contents : List ℕ) (size count : ℕ) (response : ResponseBuffer)
    → Holds received response
    → length contents ≡ size * count
    → length contents ≤ size_max
    → ((length (received ++ contents) < response.capacity)
        × ((receive_response contents size count response).0 ≡ length contents)
        × Holds (received ++ contents) (receive_response contents size count response).1)
      ⊎ ((response.capacity ≤ length (received ++ contents))
          × (receive_response contents size count response ≡ (0, response)))
receive_response-Holds received contents size count response h whole small =
    let bytes = received ++ (0 ∷ h.rest) in
    let from =
      received_from contents size count response bytes (omega (arith, whole, small)) h.bytes
        whole in
    let sizes = length-append received (0 ∷ h.rest) in
    let sum = length-append received contents in
    elim (Bool-cases (too_large response (length contents))) [
      | inl e ↦ inr (
        ground (arith, e, h.capacity, h.received_length, sizes, sum),
        from ∙ bytes_refused contents size count response bytes e,
      )
      | inr e ↦
          let taken = from ∙ bytes_taken contents size count response bytes e in
          let fits : length contents ≤ length h.rest =
            ground (arith, e, h.capacity, h.received_length, sizes) in
          inl (
            omega (arith, fits, h.capacity, sizes, sum),
            ap (λ p. p.0) taken,
            subst (λ p. Holds (received ++ contents) p.1) (sym taken)
                (store_bytes-Holds received contents response h fits),
          )
    ]
