-- ===== src/Jt9/Sender/Word.antt =====
-- A word that is no callsign, where the sender's callsign is expected.
use airspyhf_wsprd.Common.{
  ◌≤◌, ◌≡◌, refl, true, false, none, some, List, [], ◌∷◌, All, map, arith, length, replicate, Text,
  text_eq, codes, is_alpha, to_upper,
}
use airspyhf_wsprd.Station.{normalize_callsign}
use airspyhf_wsprd.Station.Buffer.Word.{write_callsign_word, text_in-capitals}
use airspyhf_wsprd.Jt9.Sender.{
  unwrapped, normalize_jt9_callsign, tokens, second_callsign, find_sender, decode_report_fields,
}

unwrapped_word : (word : Text) → All (λ c. is_alpha c ≡ true) word → unwrapped word ≡ word
unfolding unwrapped
unwrapped_word [] letters = refl
unwrapped_word (c ∷ word) letters = ground (arith, letters.0)

-- In a message that is no CQ and whose second word has 3 to 12 letters and no digit, this word is left
-- in capitals as the transmitter's callsign, though it is none.
pub word_left_as_callsign :
    (message first word : Text) (behind : List Text)
    → tokens message ≡ first ∷ word ∷ behind
    → text_eq first (codes "CQ") ≡ false
    → All (λ c. is_alpha c ≡ true) word
    → 3 ≤ length word
    → length word ≤ 12
    → ((decode_report_fields message).0 ≡ map to_upper word)
      × (normalize_callsign true 13 (some word) ≡ none)
unfolding decode_report_fields find_sender second_callsign normalize_jt9_callsign
word_left_as_callsign message first word behind e no_cq letters at_least at_most =
    let (written, lost) =
      write_callsign_word (replicate 13 0) word letters at_least at_most (omega arith) in
    (
      rw (e, no_cq, unwrapped_word word letters, written)
          (text_in-capitals word (replicate 13 0) letters),
      lost,
    )
