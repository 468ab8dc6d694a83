-- ===== src/HopPlan/Table.antt =====
-- The two tables of bands: each entry is found again by its canonical name, which is short and holds
-- neither a comma nor a blank.
use airspyhf_wsprd.Common.{
  ◌≡◌, refl, subst, Bool, true, not, ◌&&◌, some, List, [], ◌∷◌, arith, ltb, ◌==◌, length, All, Text,
  text_case_eq, is_space, Bool-cases, inl, inr,
}
use mathlib.Core.Option
use airspyhf_wsprd.Bands.{BandFrequency, band_frequencies, ft8_band_frequencies, find_in}
use airspyhf_wsprd.HopPlan.{HopBand, hop_band}

unfoldable pub is_plain : Text → Bool
is_plain [] = true
is_plain (c ∷ cs) = not (is_space c) && not (c == b',') && is_plain cs

pub record IsListed (table : List BandFrequency) (band : HopBand) : Type 0 where
  pub found : Option.map hop_band (find_in table band.name) ≡ some band
  pub plain : is_plain band.name ≡ true
  pub short : ltb (length band.name) 8 ≡ true
  pub named : ltb 0 (length band.name) ≡ true

abbrev pub IsTable : List BandFrequency → Type 0
IsTable table = All (λ e. IsListed table (hop_band e)) table

find_in-All :
    (P : BandFrequency → Type 0) (table : List BandFrequency) (name : Text) {e : BandFrequency}
    → All P table
    → find_in table name ≡ some e
    → P e
unfolding find_in
find_in-All P [] name a h = absurd (cc)
find_in-All P (band ∷ table) name a h = elim (Bool-cases (text_case_eq name band.alias)) [
  | inl same ↦ subst P (ground arith) a.0
  | inr other ↦ find_in-All P table name a.1 (ground arith)
]

-- What the search finds in such a table.
pub find_in-IsListed :
    (table : List BandFrequency) (name : Text) {e : BandFrequency}
    → IsTable table
    → find_in table name ≡ some e
    → IsListed table (hop_band e)
find_in-IsListed table name good h =
    find_in-All (λ e. IsListed table (hop_band e)) table name good h

-- The table of WSPR.
pub band_frequencies-IsTable : IsTable band_frequencies
unfolding band_frequencies find_in text_case_eq is_plain
band_frequencies-IsTable = (
  record { found = refl; plain = refl; short = refl; named = refl },
  (
    record { found = refl; plain = refl; short = refl; named = refl },
    (
      record { found = refl; plain = refl; short = refl; named = refl },
      (
        record { found = refl; plain = refl; short = refl; named = refl },
        (
          record { found = refl; plain = refl; short = refl; named = refl },
          (
            record { found = refl; plain = refl; short = refl; named = refl },
            (
              record { found = refl; plain = refl; short = refl; named = refl },
              (
                record { found = refl; plain = refl; short = refl; named = refl },
                (
                  record { found = refl; plain = refl; short = refl; named = refl },
                  (
                    record { found = refl; plain = refl; short = refl; named = refl },
                    (
                      record { found = refl; plain = refl; short = refl; named = refl },
                      (
                        record { found = refl; plain = refl; short = refl; named = refl },
                        (
                          record { found = refl; plain = refl; short = refl; named = refl },
                          (
                            record { found = refl; plain = refl; short = refl; named = refl },
                            (
                              record { found = refl; plain = refl; short = refl; named = refl },
                              (
                                record { found = refl; plain = refl; short = refl; named = refl },
                                (
                                  record { found = refl; plain = refl; short = refl; named = refl },
                                  (
                                    record {
                                      found = refl;
                                      plain = refl;
                                      short = refl;
                                      named = refl;
                                    },
                                    tt,
                                  ),
                                ),
                              ),
                            ),
                          ),
                        ),
                      ),
                    ),
                  ),
                ),
              ),
            ),
          ),
        ),
      ),
    ),
  ),
)

-- The table of FT8.
pub ft8_band_frequencies-IsTable : IsTable ft8_band_frequencies
unfolding ft8_band_frequencies find_in text_case_eq is_plain
ft8_band_frequencies-IsTable = (
  record { found = refl; plain = refl; short = refl; named = refl },
  (
    record { found = refl; plain = refl; short = refl; named = refl },
    (
      record { found = refl; plain = refl; short = refl; named = refl },
      (
        record { found = refl; plain = refl; short = refl; named = refl },
        (
          record { found = refl; plain = refl; short = refl; named = refl },
          (
            record { found = refl; plain = refl; short = refl; named = refl },
            (
              record { found = refl; plain = refl; short = refl; named = refl },
              (
                record { found = refl; plain = refl; short = refl; named = refl },
                (
                  record { found = refl; plain = refl; short = refl; named = refl },
                  (record { found = refl; plain = refl; short = refl; named = refl }, tt),
                ),
              ),
            ),
          ),
        ),
      ),
    ),
  ),
)
