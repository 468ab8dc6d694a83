-- ===== src/Ft8/Calls/Examples.antt =====
-- Two callsigns with the same home slot.
use airspyhf_wsprd.Common.{ℕ, ◌+◌, ◌*◌, ◌/◌, ◌^◌, ◌≡◌, refl, some, none, arith, codes, length}
use airspyhf_wsprd.Ft8.Calls.{
  CallsignTable, empty_entry, put, callsign_table_reset, callsign_table_age, hash_bits,
  save_callsign, hash_22_bits, hash_12_bits, shift_of, lookup_callsign,
}
use airspyhf_wsprd.Ft8.Calls.Saved.{lookup_callsign-save_callsign}
use airspyhf_wsprd.Ft8.Calls.Aged.{callsign_table_age_hides}

abbrev crowded : CallsignTable
crowded =
    put
      (put (λ i. empty_entry) 23
        (record { callsign = codes "PJ4/K1ABC"; hash = 11 * 2 ^ 24 + 4096 }))
      24 (record { callsign = codes "YW18FIFA"; hash = 4097 })

callsign_table_age_hides_example :
    (lookup_callsign crowded hash_22_bits 4097 ≡ some (codes "YW18FIFA"))
    × (lookup_callsign (callsign_table_age crowded) hash_22_bits 4097 ≡ none)
callsign_table_age_hides_example = callsign_table_age_hides crowded 4097 refl refl refl refl refl

no_callsigns : (i : ℕ) → length (callsign_table_reset i).callsign ≡ 0
unfolding callsign_table_reset
no_callsigns i = refl

lookup_callsign-save_callsign_example :
    lookup_callsign
      (save_callsign callsign_table_reset (codes "YW18FIFA") 4097)
      hash_12_bits
      (hash_bits 4097 / 2 ^ shift_of hash_12_bits)
    ≡ some (codes "YW18FIFA")
lookup_callsign-save_callsign_example =
    lookup_callsign-save_callsign hash_12_bits callsign_table_reset (codes "YW18FIFA") 4097 0
      (omega arith) (omega arith) (omega arith) (no_callsigns 0)
      (λ i taken bits. absurd (ground (arith, no_callsigns i, taken)))
