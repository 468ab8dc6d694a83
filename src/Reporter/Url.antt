-- ===== src/Reporter/Url.antt =====
-- `url_encode` and `wspr_report_format_url`.
pub mod Encode
pub mod Decode
pub mod Format
mod Examples
use airspyhf_wsprd.Common.{
  ℕ, ◌+◌, ◌-◌, ◌/◌, ◌%◌, Bool, true, false, ◌||◌, Option, none, some, List, [], ◌∷◌, ◌++◌, ltb, leb,
  ◌==◌, if◌then◌else◌, length, Text, codes, is_alnum,
}
use mathlib.Core.Option

-- A byte that stands for itself.
pub is_unreserved : ℕ → Bool
is_unreserved c = is_alnum c || c == b'-' || c == b'_' || c == b'.' || c == b'~'

-- The digit of "0123456789ABCDEF" at an index below 16.
pub hexadecimal : ℕ → ℕ
hexadecimal n = if ltb n 10 then b'0' + n else b'A' + (n - 10)

-- What is written for one byte.
pub encode_byte : ℕ → Text
encode_byte c =
    if is_unreserved c then c ∷ [] else b'%' ∷ hexadecimal (c / 16) ∷ hexadecimal (c % 16) ∷ []

-- The loop, with the number of bytes written so far; each byte or escape must leave room for the NUL.
pub encode_from : ℕ → ℕ → Text → Option Text
encode_from capacity output [] = if leb capacity output then none else some []
encode_from capacity output (c ∷ cs) =
    let piece = encode_byte c in
    if leb capacity (output + length piece)
    then none
    else Option.map (λ t. piece ++ t) (encode_from capacity (output + length piece) cs)

pub url_encode : ℕ → Text → Option Text
url_encode capacity source = encode_from capacity 0 source

-- `struct wspr_report`, over a type of floating point numbers.
pub record Report (F : Type 0) : Type 0 where
  pub receiver_call : Text
  pub receiver_grid : Text
  pub date : Text
  pub time : Text
  pub transmitter_call : Text
  pub transmitter_grid : Text
  pub power : Text
  pub receiver_frequency_mhz : F
  pub transmitter_frequency_mhz : F
  pub snr : F
  pub dt : F
  pub drift : F

-- The five encoded texts.
pub record Encoded : Type 0 where
  pub receiver_call : Text
  pub receiver_grid : Text
  pub transmitter_call : Text
  pub transmitter_grid : Text
  pub power : Text

-- `fixed n x` is what printf writes for `%.nf`.
module _ {F : Type 0} (fixed : ℕ → F → Text) where
  -- The text that the call of snprintf describes.
  pub url_text : Text → Text → Report F → Encoded → Text
  url_text endpoint version report e =
      endpoint
      ++ (codes "?function=wspr&rcall="
          ++ (e.receiver_call
              ++ (codes "&rgrid="
                  ++ (e.receiver_grid
                      ++ (codes "&rqrg="
                          ++ (fixed 6 report.receiver_frequency_mhz
                              ++ (codes "&date="
                                  ++ (report.date
                                      ++ (codes "&time="
                                          ++ (report.time
                                              ++ (codes "&sig="
                                                  ++ (fixed 0 report.snr
                                                      ++ (codes "&dt="
                                                          ++ (fixed 1 report.dt
                                                            ++ (codes "&drift="
                                                            ++ (fixed 0 report.drift
                                                            ++ (codes "&tqrg="
                                                            ++ (fixed 6
                                                            report.transmitter_frequency_mhz
                                                            ++ (codes "&tcall="
                                                            ++ (e.transmitter_call
                                                            ++ (codes "&tgrid="
                                                            ++ (e.transmitter_grid
                                                            ++ (codes "&dbm="
                                                            ++ (e.power
                                                            ++ (codes "&version="
                                                            ++ (version
                                                            ++ codes
                                                            "&mode=2"))))))))))))))))))))))))))

-- The calls of `url_encode` with the sizes of their buffers; the first failure ends them.
infixl 5 ◌>>=◌
abbrev ◌>>=◌ : {A B : Type 0} → Option A → (A → Option B) → Option B
none >>= f = none
some a >>= f = f a

pub encode_fields : {F : Type 0} → Report F → Option Encoded
encode_fields report = do
  receiver_call ← url_encode 37 report.receiver_call
  receiver_grid ← url_encode 19 report.receiver_grid
  transmitter_call ← url_encode 37 report.transmitter_call
  transmitter_grid ← url_encode 19 report.transmitter_grid
  power ← url_encode 7 report.power
  some (record {
    receiver_call = receiver_call;
    receiver_grid = receiver_grid;
    transmitter_call = transmitter_call;
    transmitter_grid = transmitter_grid;
    power = power;
  })

-- snprintf into a buffer of a size: the text, if it fits with its NUL.
abbrev pub print_into : ℕ → Text → Option Text
print_into size text = if leb size (length text) then none else some text

module _ {F : Type 0} (fixed : ℕ → F → Text) where
  -- The body of `wspr_report_format_url`; `none` is the result -1.
  pub format_report : ℕ → Text → Text → Report F → Option Text
  format_report url_size endpoint version report =
      encode_fields report >>= λ e. print_into url_size (url_text fixed endpoint version report e)

  -- With the tests for NULL.
  pub format_url : Bool → ℕ → Option Text → Option Text → Option (Report F) → Option Text
  format_url true url_size (some endpoint) (some version) (some report) =
      format_report url_size endpoint version report
  format_url _ _ _ _ _ = none
