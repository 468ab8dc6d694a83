-- ===== src/Reporter/Url/Examples.antt =====
-- A report whose callsign holds a slash, and whose numbers are printed as they stand.
use airspyhf_wsprd.Common.{
  ℕ, ◌≡◌, refl, true, some, none, arith, codes, length, Text, ltb, if◌then◌else◌,
}
use airspyhf_wsprd.Reporter.Url.{
  is_unreserved, hexadecimal, encode_byte, encode_from, url_encode, Report, url_text, format_url,
}
use airspyhf_wsprd.Reporter.Url.Encode.{escaped}
use airspyhf_wsprd.Reporter.Url.Decode.{unescaped, unescaped-escaped}
use airspyhf_wsprd.Reporter.Url.Format.{Fits, escaped_fields, format_url_lem}

abbrev call : Text
call = codes "VU3CER/P"

encode_call : url_encode 37 call ≡ some (codes "VU3CER%2FP")
unfolding url_encode encode_from encode_byte is_unreserved hexadecimal
encode_call = refl

-- One byte short of the NUL.
encode_too_long : url_encode 10 call ≡ none
unfolding url_encode encode_from encode_byte is_unreserved hexadecimal
encode_too_long = refl

unescaped-escaped_example : unescaped (escaped call) ≡ call
unescaped-escaped_example = unescaped-escaped call (omega arith)

-- Floating point numbers as the texts that printf makes of them.
abbrev printed : ℕ → Text → Text
printed digits number = number

abbrev spot : Report Text
spot = record {
  receiver_call = call;
  receiver_grid = codes "MK68xm";
  date = codes "250101";
  time = codes "1230";
  transmitter_call = codes "K1ABC";
  transmitter_grid = codes "FN42";
  power = codes "37";
  receiver_frequency_mhz = codes "14.095600";
  transmitter_frequency_mhz = codes "14.097100";
  snr = codes "-21";
  dt = codes "0.3";
  drift = codes "0";
}

spot-Fits : Fits spot
spot-Fits = omega arith

abbrev post : Text
post = codes "https://wsprnet.org/post"

format_url_lem_example :
    format_url printed true 768 (some post) (some (codes "0.9")) (some spot) ≡ (
      if ltb (length (url_text printed post (codes "0.9") spot (escaped_fields spot))) 768
      then some (url_text printed post (codes "0.9") spot (escaped_fields spot))
      else none)
format_url_lem_example = format_url_lem printed 768 post (codes "0.9") spot spot-Fits
