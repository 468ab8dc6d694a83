-- ===== src/Jt9/Line.antt =====
-- `jt9_parse_decode_line`, and the loops of `jt9_decoder_finish` that read the output of jt9.
pub mod Reports
mod Examples
use airspyhf_wsprd.Common.{
  ℕ, zero, suc, ◌-◌, Bool, true, false, not, ◌&&◌, ◌||◌, Option, none, some, List, [], ◌∷◌, ◌++◌,
  leb, ltb, ◌==◌, if◌then◌else◌, length, get_or, take, drop, Text, text_eq, codes, is_space,
}
use airspyhf_wsprd.Common.Int.{ℤ, pos, negsuc}
use airspyhf_wsprd.Jt9.Result.{DecodeResult, message_size}
use airspyhf_wsprd.Jt9.Sender.{decode_report_fields}

-- What sscanf assigns when all five fields match.
pub record Scanned (F : Type 0) : Type 0 where
  pub utc : Text
  pub snr : F
  pub dt : F
  pub audio_frequency_hz : F
  pub marker : Text
  pub message_offset : ℕ

-- The loop that cuts white space off the end, from a message length down.
pub trimmed_length : Text → ℕ → ℕ
trimmed_length message zero = 0
trimmed_length message (suc n) =
    let shorter = trimmed_length message n in
    if is_space (get_or message n 0) then shorter else suc n

pub trim : Text → Text
trim message = take (trimmed_length message (length message)) message

-- `strncmp (text, word, strlen (word)) == 0`
pub begins_with : Text → Text → Bool
begins_with text [] = true
begins_with [] (w ∷ word) = false
begins_with (c ∷ text) (w ∷ word) = c == w && begins_with text word

-- `strstr (text, word) != NULL`
pub has_word : Text → Text → Bool
has_word [] word = begins_with [] word
has_word (c ∷ text) word = begins_with (c ∷ text) word || has_word text word

pub failure_diagnostic : Text → Bool
failure_diagnostic line =
    has_word line (codes "error")
    || has_word line (codes "Error")
    || has_word line (codes "failed")
    || has_word line (codes "Permission denied")

-- `strcspn (line, "\r\n")` cuts the line.
pub without_line_end : Text → Text
without_line_end [] = []
without_line_end (c ∷ line) =
    let rest = without_line_end line in if c == 13 || c == 10 then [] else c ∷ rest

-- The loop of a failed child: its first diagnostic, as `last_error` holds it.
pub diagnostic : List Text → Option Text
diagnostic [] = none
diagnostic (line ∷ lines) =
    let rest = diagnostic lines in
    if failure_diagnostic line then some (take 191 (without_line_end line)) else rest

-- `below` is `<` on F, and `whole` gives the whole numbers; `scan` is sscanf with the format of the
-- source.
module _ {F : Type 0} (below : F → F → Bool) (whole : ℤ → F)
    (scan : Text → Option (Scanned F)) where
  abbrev pub in_window : F → F → F → Bool
  in_window snr dt frequency =
      not (below snr (whole (negsuc 59)))
      && not (below (whole (pos 60)) snr)
      && not (below dt (whole (negsuc 4)))
      && not (below (whole (pos 5)) dt)
      && not (below frequency (whole (pos 100)))
      && not (below (whole (pos 5000)) frequency)

  abbrev pub is_report : Scanned F → Bool
  is_report s =
      length s.utc == 6
      && text_eq s.marker (codes "~")
      && not (s.message_offset == 0)
      && in_window s.snr s.dt s.audio_frequency_hz

  -- A result with its fields filled in from the message.
  abbrev pub report : Scanned F → Text → DecodeResult F
  report s message = record {
    snr = s.snr;
    dt = s.dt;
    audio_frequency_hz = s.audio_frequency_hz;
    transmitter_call = (decode_report_fields message).0;
    transmitter_grid = (decode_report_fields message).1;
    message = message;
  }

  abbrev pub message_of : Text → Scanned F → Text
  unfolding trim
  message_of line s = trim (take (message_size - 1) (drop s.message_offset line))

  pub parse_scanned : Text → Option (Scanned F) → Option (DecodeResult F)
  parse_scanned line none = none
  parse_scanned line (some s) =
      if is_report s && not (length (message_of line s) == 0)
      then some (report s (message_of line s))
      else none

  -- `none`: the line is not a report.
  pub parse_decode_line : Text → Option (DecodeResult F)
  parse_decode_line line = parse_scanned line (scan line)

  pub keep_parsed : List (DecodeResult F) → Option (DecodeResult F) → List (DecodeResult F)
  keep_parsed results none = results
  keep_parsed results (some r) = results ++ (r ∷ [])

  -- The loop that reads the results, with those read so far.
  pub read_results : ℕ → List (DecodeResult F) → List Text → List (DecodeResult F)
  read_results capacity results [] = results
  read_results capacity results (line ∷ lines) =
      let rest = read_results capacity (keep_parsed results (parse_decode_line line)) lines in
      if ltb (length results) capacity then rest else results
