-- ===== src/Ft8/Seen.antt =====
-- `already_decoded` and `retain_message`: a hash table of the messages of a frame, with open addressing.
pub mod Slots
pub mod Probe
pub mod Set
mod Examples
use airspyhf_wsprd.Common.{
  ℕ, zero, suc, ◌+◌, ◌%◌, Bool, true, false, ◌&&◌, ◌||◌, Option, none, some, List, ◌==◌,
  if◌then◌else◌, text_eq,
}

-- `FT8_MAX_RESULTS`
abbrev pub max_results : ℕ
max_results = 50

-- `ftx_message_t`; `snr` is not looked at here.
pub record Message : Type 0 where
  pub payload : List ℕ
  pub hash : ℕ

abbrev pub same_message : Message → Message → Bool
same_message known message = known.hash == message.hash && text_eq known.payload message.payload

-- The array of pointers; `none` is NULL.
abbrev pub Decoded : Type 0
Decoded = ℕ → Option Message

abbrev pub fill : Decoded → ℕ → Message → Decoded
fill decoded index message = λ i. if i == index then some message else decoded i

-- What a probe finds in its slot, and the probes behind it.
pub found_at : Option Message → Message → Bool → Bool
found_at none message rest = false
found_at (some known) message rest = same_message known message || rest

pub probe_decoded : ℕ → Decoded → ℕ → Message → Bool
probe_decoded zero decoded index message = true
probe_decoded (suc left) decoded index message =
    found_at (decoded index) message
      (probe_decoded left decoded ((index + 1) % max_results) message)

pub already_decoded : Decoded → Message → Bool
already_decoded decoded message =
    probe_decoded max_results decoded (message.hash % max_results) message

pub kept_at : Option Message → Decoded → Option Decoded → Option Decoded
kept_at none filled rest = some filled
kept_at (some known) filled rest = rest

pub probe_free : ℕ → Decoded → ℕ → Message → Option Decoded
probe_free zero decoded index message = none
probe_free (suc left) decoded index message =
    kept_at (decoded index) (fill decoded index message)
      (probe_free left decoded ((index + 1) % max_results) message)

-- `none`: the table is full.
pub retain_message : Decoded → Message → Option Decoded
retain_message decoded message = probe_free max_results decoded (message.hash % max_results) message
