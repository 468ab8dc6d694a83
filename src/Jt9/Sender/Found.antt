-- ===== src/Jt9/Sender/Found.antt =====
-- The sender of a CQ.
use airspyhf_wsprd.Common.{
  ℕ, ◌≡◌, refl, ap, ap₂, ◌∙◌, true, false, Option, none, some, List, [], ◌∷◌, ◌++◌, All, length,
  replicate, Text, text_eq, codes,
}
use airspyhf_wsprd.Station.{normalize_callsign}
use airspyhf_wsprd.Station.Buffer.{text_in}
use airspyhf_wsprd.Station.Buffer.Outcome.{
  length-write_callsign, write_callsign-some, write_callsign-none,
}
use airspyhf_wsprd.Jt9.Sender.{
  unwrapped, normalize_jt9_callsign, tokens, first_callsign, find_sender, find_grid,
  decode_report_fields,
}

-- The callsign that a token is, with or without its brackets.
abbrev pub callsign_of : Text → Option Text
callsign_of token = normalize_callsign true 13 (some (unwrapped token))

first_callsign-skip :
    (output : List ℕ) (token : Text) (behind : List Text)
    → (normalize_jt9_callsign output token).0 ≡ false
    → first_callsign output (token ∷ behind)
      ≡ first_callsign (normalize_jt9_callsign output token).1 behind
unfolding first_callsign
first_callsign-skip output token behind e = rw e refl

first_callsign-take :
    (output : List ℕ) (token : Text) (behind : List Text)
    → (normalize_jt9_callsign output token).0 ≡ true
    → first_callsign output (token ∷ behind)
      ≡ ((normalize_jt9_callsign output token).1, some behind)
unfolding first_callsign
first_callsign-take output token behind e = rw e refl

sized :
    {n : ℕ} {o : Option Text} (output : List ℕ) (token : Text)
    → length output ≡ n
    → normalize_callsign true n (some token) ≡ o
    → normalize_callsign true (length output) (some token) ≡ o
sized output token e h = ap (λ k. normalize_callsign true k (some token)) e ∙ h

first_callsign_found :
    (skipped : List Text) (output : List ℕ) (token : Text) (behind : List Text) {call : Text}
    → length output ≡ 13
    → All (λ t. callsign_of t ≡ none) skipped
    → callsign_of token ≡ some call
    → let (written, left) = first_callsign output (skipped ++ (token ∷ behind)) in
      (text_in written ≡ call) × (left ≡ some behind)
unfolding normalize_jt9_callsign
first_callsign_found [] output token behind size none_before is_call =
    let (ok, held) =
      write_callsign-some output (unwrapped token) (sized output (unwrapped token) size is_call) in
    rw (first_callsign-take output token behind ok) (held, refl)
first_callsign_found (t ∷ skipped) output token behind size none_before is_call =
    let failed =
      write_callsign-none output (unwrapped t) (sized output (unwrapped t) size none_before.0) in
    rw (first_callsign-skip output t (skipped ++ (token ∷ behind)) failed) (
      first_callsign_found skipped (normalize_jt9_callsign output t).1 token behind
        (length-write_callsign output (unwrapped t) ∙ size) none_before.1 is_call)

find_sender-cq :
    (output : List ℕ) (skipped : List Text) (token : Text) (behind : List Text)
    → find_sender output (codes "CQ" ∷ (skipped ++ (token ∷ behind)))
      ≡ first_callsign output (skipped ++ (token ∷ behind))
unfolding find_sender text_eq
find_sender-cq output [] token behind = refl
find_sender-cq output (t ∷ skipped) token behind = refl

-- The transmitter of a CQ is the first token that is a callsign, in or out of angle brackets, in
-- capitals: the tokens before it that are none, such as DX, leave no trace, and the locator is looked
-- for in the token behind it.
pub cq_sender_found :
    (message : Text) (skipped : List Text) (token : Text) (behind : List Text) {call : Text}
    → tokens message ≡ codes "CQ" ∷ (skipped ++ (token ∷ behind))
    → All (λ t. callsign_of t ≡ none) skipped
    → callsign_of token ≡ some call
    → decode_report_fields message ≡ (call, text_in (find_grid (replicate 7 0) (some behind)))
unfolding decode_report_fields
cq_sender_found message skipped token behind e none_before is_call =
    let (held, left) =
      first_callsign_found skipped (replicate 13 0) token behind refl none_before is_call in
    rw (e, find_sender-cq (replicate 13 0) skipped token behind)
      (ap₂ (λ (c : Text) (o : Option (List Text)). (c, text_in (find_grid (replicate 7 0) o))) held
        left)
