-- ===== src/Ft8/Calls.antt =====
-- The table that finds a callsign by the hash that stands for it in a message.
pub mod Saved
pub mod Aged
mod Examples
use airspyhf_wsprd.Common.{
  ℕ, zero, suc, ◌+◌, ◌-◌, ◌*◌, ◌/◌, ◌%◌, ◌^◌, Bool, true, false, ◌&&◌, ◌||◌, Option, none, some,
  List, [], ◌∷◌, ltb, ◌==◌, if◌then◌else◌, length, take, Text, text_eq,
}

-- `FT8_CALLSIGN_TABLE_SIZE`
abbrev pub table_size : ℕ
table_size = 256

-- `struct callsign_entry`; the age stands in the bits of `hash` above the 22 of the hash itself.
pub record CallsignEntry : Type 0 where
  pub callsign : Text
  pub hash : ℕ

abbrev pub empty_entry : CallsignEntry
empty_entry = record { callsign = []; hash = 0 }

abbrev pub CallsignTable : Type 0
CallsignTable = ℕ → CallsignEntry

abbrev pub put : CallsignTable → ℕ → CallsignEntry → CallsignTable
put table index entry = λ i. if i == index then entry else table i

pub callsign_table_reset : CallsignTable
callsign_table_reset = λ i. empty_entry

-- `hash & 0x3fffffU`
abbrev pub hash_bits : ℕ → ℕ
hash_bits hash = hash % 2 ^ 22

pub age_entry : CallsignEntry → CallsignEntry
age_entry entry =
    let age = entry.hash / 2 ^ 24 % 2 ^ 8 in
    if length entry.callsign == 0
    then entry
    else if ltb 10 age
    then empty_entry
    else record entry { hash = (age + 1) * 2 ^ 24 + hash_bits entry.hash }

pub callsign_table_age : CallsignTable → CallsignTable
callsign_table_age table = λ i. age_entry (table i)

abbrev pub home_slot : ℕ → ℕ
home_slot top_bits = top_bits % 1024 * 23 % table_size

abbrev pub is_entry_of : CallsignEntry → Text → ℕ → Bool
is_entry_of entry callsign hash =
    hash_bits entry.hash == hash_bits hash && text_eq entry.callsign callsign

pub probe_save : ℕ → CallsignTable → ℕ → Text → ℕ → CallsignTable
probe_save zero table index callsign hash = table
probe_save (suc left) table index callsign hash =
    let rest = probe_save left table ((index + 1) % table_size) callsign hash in
    if length (table index).callsign == 0
    then put table index (record { callsign = take 11 callsign; hash = hash_bits hash })
    else if is_entry_of (table index) callsign hash
    then put table index (record (table index) { hash = hash_bits (table index).hash })
    else rest

pub save_callsign : CallsignTable → Text → ℕ → CallsignTable
save_callsign table callsign hash =
    probe_save table_size table (home_slot (hash / 2 ^ 12)) callsign hash

-- `ftx_callsign_hash_type_t`
pub data HashType : Type 0 where
  hash_22_bits : HashType
  hash_12_bits : HashType
  hash_10_bits : HashType

pub shift_of : HashType → ℕ
shift_of hash_22_bits = 0
shift_of hash_12_bits = 10
shift_of hash_10_bits = 12

pub probe_lookup : ℕ → CallsignTable → ℕ → ℕ → ℕ → Option Text
probe_lookup zero table index shift hash = none
probe_lookup (suc left) table index shift hash =
    let rest = probe_lookup left table ((index + 1) % table_size) shift hash in
    if length (table index).callsign == 0
    then none
    else if hash_bits (table index).hash / 2 ^ shift == hash
    then some (take 11 (table index).callsign)
    else rest

-- `none`: the text is empty, and `false` is returned.
pub lookup_callsign : CallsignTable → HashType → ℕ → Option Text
lookup_callsign table hash_type hash =
    let shift = shift_of hash_type in
    probe_lookup table_size table (home_slot (hash / 2 ^ (12 - shift))) shift hash
