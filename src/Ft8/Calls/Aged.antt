-- ===== src/Ft8/Calls/Aged.antt =====
-- What the removal of an old callsign does to another one in the table.
use airspyhf_wsprd.Common.{
  ℕ, ◌+◌, ◌/◌, ◌%◌, ◌^◌, ◌≡◌, refl, ◌∙◌, true, false, none, some, ltb, ◌==◌, length, take,
}
use airspyhf_wsprd.Ft8.Calls.{
  table_size, CallsignTable, hash_bits, home_slot, age_entry, callsign_table_age, hash_22_bits,
  shift_of, lookup_callsign,
}
use airspyhf_wsprd.Ft8.Calls.Saved.{is_free, lookup_found, lookup_later, lookup_ends}

age_entry_old :
    (table : CallsignTable) (i : ℕ)
    → is_free (table i) ≡ false
    → ltb 10 ((table i).hash / 2 ^ 24 % 2 ^ 8) ≡ true
    → is_free (callsign_table_age table i) ≡ true
unfolding callsign_table_age age_entry
age_entry_old table i taken old = rw (taken, old) refl

-- An old callsign in the home slot of a hash, and in the slot behind it the callsign of that hash: it is found
-- before the table is aged, and not found afterwards.
pub callsign_table_age_hides :
    (table : CallsignTable) (hash : ℕ)
    → length (table (home_slot (hash / 2 ^ 12))).callsign == 0 ≡ false
    → ltb 10 ((table (home_slot (hash / 2 ^ 12))).hash / 2 ^ 24 % 2 ^ 8) ≡ true
    → hash_bits (table (home_slot (hash / 2 ^ 12))).hash / 2 ^ 0 == hash ≡ false
    → length (table ((home_slot (hash / 2 ^ 12) + 1) % table_size)).callsign == 0 ≡ false
    → hash_bits (table ((home_slot (hash / 2 ^ 12) + 1) % table_size)).hash / 2 ^ 0 == hash ≡ true
    → (lookup_callsign table hash_22_bits hash
        ≡ some (take 11 (table ((home_slot (hash / 2 ^ 12) + 1) % table_size)).callsign))
      × (lookup_callsign (callsign_table_age table) hash_22_bits hash ≡ none)
unfolding lookup_callsign shift_of
callsign_table_age_hides table hash taken old other behind same =
    let home = home_slot (hash / 2 ^ 12) in
    (
      lookup_later 0 hash 255 table home (table home) refl taken other
          ∙ lookup_found 0 hash 254 table ((home + 1) % table_size)
              (table ((home + 1) % table_size)) refl behind same,
      lookup_ends 0 hash 255 (callsign_table_age table) home (age_entry_old table home taken old),
    )
