-- ===== src/Jt9/Line/Examples.antt =====
-- A line of jt9 on an example; the numbers of the report are whole.
use airspyhf_wsprd.Common.{◌≡◌, refl, Option, none, some, Text, text_eq, codes, if◌then◌else◌}
use airspyhf_wsprd.Common.Int.{ℤ, pos, negsuc, ltb_ℤ}
use airspyhf_wsprd.Jt9.Line.{
  Scanned, trimmed_length, trim, report, message_of, parse_scanned, parse_decode_line,
}

whole : ℤ → ℤ
whole n = n

-- sscanf on the lines of the example: it reads the first, and not those that differ from it.
abbrev scanned : Scanned ℤ
scanned = record {
  utc = codes "120000";
  snr = negsuc 4;
  dt = pos 0;
  audio_frequency_hz = pos 1500;
  marker = codes "~";
  message_offset = 24;
}

abbrev line : Text
line = codes "120000 -5 0.0 1500  ~   CQ K1AA "

scan : Text → Option (Scanned ℤ)
scan text = if text_eq text line then some scanned else none

abbrev message : Text
message = codes "CQ K1AA"

parsed_lem :
    parse_decode_line ltb_ℤ whole scan line ≡ some (report ltb_ℤ whole scan scanned message)
unfolding parse_decode_line parse_scanned scan text_eq whole trim trimmed_length message_of
parsed_lem = refl
