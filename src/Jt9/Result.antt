-- ===== src/Jt9/Result.antt =====
-- `struct ft8_decode_result` and the constants that its users share.
use airspyhf_wsprd.Common.{ℕ, Text}

-- The texts are those of the arrays, over a type of floating point numbers.
pub record DecodeResult (F : Type 0) : Type 0 where
  pub snr : F
  pub dt : F
  pub audio_frequency_hz : F
  pub transmitter_call : Text
  pub transmitter_grid : Text
  pub message : Text

-- `FTX_MAX_MESSAGE_LENGTH`, the size of `message`
abbrev pub message_size : ℕ
message_size = 35
