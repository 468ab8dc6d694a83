-- ===== src/Jt9/Sender/Examples.antt =====
-- A directed CQ, and a message of free text.
use airspyhf_wsprd.Common.{
  ◌≡◌, refl, true, false, none, some, [], ◌∷◌, map, arith, replicate, Text, text_eq, codes,
  to_upper,
}
use airspyhf_wsprd.Station.{normalize_callsign, normalize_from, misshapen}
use airspyhf_wsprd.Station.Buffer.{text_in}
use airspyhf_wsprd.Jt9.Sender.{unwrapped, split_from, tokens, find_grid, decode_report_fields}
use airspyhf_wsprd.Jt9.Sender.Found.{callsign_of, cq_sender_found}
use airspyhf_wsprd.Jt9.Sender.Word.{word_left_as_callsign}

abbrev directed : Text
directed = codes "CQ POTA <K1ABC> FN42"

directed-tokens : tokens directed ≡ codes "CQ" ∷ codes "POTA" ∷ codes "<K1ABC>" ∷ codes "FN42" ∷ []
unfolding tokens split_from
directed-tokens = refl

pota_is_none : callsign_of (codes "POTA") ≡ none
unfolding unwrapped normalize_callsign normalize_from misshapen
pota_is_none = refl

k1abc_is_call : callsign_of (codes "<K1ABC>") ≡ some (codes "K1ABC")
unfolding unwrapped normalize_callsign normalize_from misshapen
k1abc_is_call = refl

cq_sender_found_example :
    decode_report_fields directed
    ≡ (codes "K1ABC", text_in (find_grid (replicate 7 0) (some (codes "FN42" ∷ []))))
cq_sender_found_example =
    cq_sender_found directed (codes "POTA" ∷ []) (codes "<K1ABC>") (codes "FN42" ∷ [])
      directed-tokens (pota_is_none, tt) k1abc_is_call

abbrev free_text : Text
free_text = codes "TNX BOB 73 GL"

free_text-tokens : tokens free_text ≡ codes "TNX" ∷ codes "BOB" ∷ codes "73" ∷ codes "GL" ∷ []
unfolding tokens split_from
free_text-tokens = refl

no_cq : text_eq (codes "TNX") (codes "CQ") ≡ false
unfolding text_eq
no_cq = refl

word_left_as_callsign_example :
    ((decode_report_fields free_text).0 ≡ map to_upper (codes "BOB"))
    × (normalize_callsign true 13 (some (codes "BOB")) ≡ none)
word_left_as_callsign_example =
    word_left_as_callsign free_text (codes "TNX") (codes "BOB") (codes "73" ∷ codes "GL" ∷ [])
      free_text-tokens no_cq (refl, (refl, (refl, tt))) (omega arith) (omega arith)
