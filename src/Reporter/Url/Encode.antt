-- ===== src/Reporter/Url/Encode.antt =====
-- `url_encode` against the escaped text: it writes it whole, or fails where it does not fit.
use airspyhf_wsprd.Common.{
  ℕ, ◌+◌, ◌*◌, ◌≤◌, ◌<◌, ◌≡◌, refl, ap, sym, ◌∙◌, true, none, some, [], ◌∷◌, ◌++◌, arith, ltb, leb,
  if◌then◌else◌, length, length-append, Text,
}
use mathlib.Core.Option
use airspyhf_wsprd.Reporter.Url.{encode_byte, encode_from, url_encode}

-- The escaped text of a source.
unfoldable pub escaped : Text → Text
escaped [] = []
escaped (c ∷ cs) = encode_byte c ++ escaped cs

-- One round of the loop, over what its test says.
round :
    (output size rest capacity : ℕ) (piece more : Text)
    → length piece ≡ size
    → length more ≡ rest
    → (if leb capacity (output + size)
        then none
        else Option.map
            (λ t. piece ++ t)
            (if ltb (output + size + rest) capacity then some more else none))
      ≡ (if ltb (output + (size + rest)) capacity then some (piece ++ more) else none)
round output size rest capacity piece more p m = ground arith

encode_from_lem :
    (capacity output : ℕ) (source : Text)
    → encode_from capacity output source
      ≡ (if ltb (output + length (escaped source)) capacity then some (escaped source) else none)
unfolding encode_from escaped
encode_from_lem capacity output [] = ground arith
encode_from_lem capacity output (c ∷ cs) =
    let piece = encode_byte c in
    ap (λ o. if leb capacity (output + length piece) then none else Option.map (λ t. piece ++ t) o)
      (encode_from_lem capacity (output + length piece) cs)
    ∙ round output (length piece) (length (escaped cs)) capacity piece (escaped cs) refl refl
    ∙ ap (λ n. if ltb (output + n) capacity then some (piece ++ escaped cs) else none)
        (sym (length-append piece (escaped cs)))

-- `url_encode` writes the escaped source where it fits the buffer with its NUL, and fails elsewhere.
url_encode_lem :
    (capacity : ℕ) (source : Text)
    → url_encode capacity source
      ≡ (if ltb (length (escaped source)) capacity then some (escaped source) else none)
unfolding url_encode
url_encode_lem capacity source =
    encode_from_lem capacity 0 source
    ∙ ap (λ n. if ltb n capacity then some (escaped source) else none) (omega arith)

length-encode_byte : (c : ℕ) → length (encode_byte c) ≤ 3
unfolding encode_byte
length-encode_byte c = ground arith

pub length-escaped : (source : Text) → length (escaped source) ≤ 3 * length source
unfolding escaped
length-escaped [] = omega arith
length-escaped (c ∷ cs) =
    omega
      (arith, length-append (encode_byte c) (escaped cs), length-encode_byte c, length-escaped cs)

-- A buffer of three bytes for each character and one for the NUL is large enough.
pub url_encode_fits :
    (capacity n : ℕ) (source : Text)
    → length source ≤ n
    → 3 * n < capacity
    → url_encode capacity source ≡ some (escaped source)
url_encode_fits capacity n source h k =
    url_encode_lem capacity source
    ∙ ap (λ b. if b then some (escaped source) else none) {y = true}
        (ground (arith, length-escaped source))
