-- ===== src/Reporter/Url/Format.antt =====
-- `wspr_report_format_url` with fields that the report's arrays can hold.
use airspyhf_wsprd.Common.{ℕ, ◌≤◌, ◌≡◌, true, none, some, arith, ltb, if◌then◌else◌, length, Text}
use airspyhf_wsprd.Reporter.Url.{
  Report, Encoded, url_text, encode_fields, print_into, format_report, format_url,
}
use airspyhf_wsprd.Reporter.Url.Encode.{escaped, url_encode_fits}

-- The texts fit `char receiver_call[13]` and the other arrays of `struct wspr_report`.
pub record Fits {F : Type 0} (report : Report F) : Type 0 where
  pub receiver_call : length report.receiver_call ≤ 12
  pub receiver_grid : length report.receiver_grid ≤ 6
  pub transmitter_call : length report.transmitter_call ≤ 12
  pub transmitter_grid : length report.transmitter_grid ≤ 6
  pub power : length report.power ≤ 2

abbrev pub escaped_fields : {F : Type 0} → Report F → Encoded
escaped_fields report = record {
  receiver_call = escaped report.receiver_call;
  receiver_grid = escaped report.receiver_grid;
  transmitter_call = escaped report.transmitter_call;
  transmitter_grid = escaped report.transmitter_grid;
  power = escaped report.power;
}

encode_fields_lem :
    {F : Type 0} (report : Report F)
    → Fits report
    → encode_fields report ≡ some (escaped_fields report)
unfolding encode_fields
encode_fields_lem report fits = rw (
  url_encode_fits 37 12 report.receiver_call fits.receiver_call (omega arith),
  url_encode_fits 19 6 report.receiver_grid fits.receiver_grid (omega arith),
  url_encode_fits 37 12 report.transmitter_call fits.transmitter_call (omega arith),
  url_encode_fits 19 6 report.transmitter_grid fits.transmitter_grid (omega arith),
  url_encode_fits 7 2 report.power fits.power (omega arith),
)

-- The five buffers of the escapes are never too small for a report whose texts fit its arrays: the
-- URL is made, with every field escaped, exactly if it fits its own buffer with the NUL.
pub format_url_lem :
    {F : Type 0} (fixed : ℕ → F → Text) (size : ℕ) (endpoint version : Text) (report : Report F)
    → Fits report
    → format_url fixed true size (some endpoint) (some version) (some report) ≡ (
        if ltb (length (url_text fixed endpoint version report (escaped_fields report))) size
        then some (url_text fixed endpoint version report (escaped_fields report))
        else none)
unfolding format_url format_report
format_url_lem fixed size endpoint version report fits =
    rw (encode_fields_lem report fits)
      (either size (url_text fixed endpoint version report (escaped_fields report)))
  where
    either :
        (size : ℕ) (t : Text) → print_into size t ≡ (if ltb (length t) size then some t else none)
    either size t = ground arith
