-- ===== src/Jt9/Merge/Examples.antt =====
-- The merge of two lists of results on examples; frequencies are whole numbers.
use airspyhf_wsprd.Common.{
  ℕ, ◌+◌, ◌≤◌, ◌≡◌, refl, Bool, true, ◌&&◌, some, List, [], ◌∷◌, All, arith, leb, length, Text,
  text_eq, codes,
}
use airspyhf_wsprd.Jt9.Result.{DecodeResult}
use airspyhf_wsprd.Jt9.Merge.{
  fill_sender, merge_duplicate, or_append, merge_one, merge_from, merge_results,
}
use airspyhf_wsprd.Jt9.Merge.Distinct.{Extends, merge_results-Extends, spot_of, spots_of}
use airspyhf_wsprd.Jt9.Merge.Covers.{has_spot, merge_results_covers}

near : ℕ → ℕ → Bool
near f g = leb f (g + 10) && leb g (f + 10)

near_self : (f : ℕ) → near f f ≡ true
unfolding near
near_self f = ground arith

abbrev result : Text → ℕ → Text → DecodeResult ℕ
result sender frequency message = record {
  snr = 0;
  dt = 0;
  audio_frequency_hz = frequency;
  transmitter_call = sender;
  transmitter_grid = [];
  message = message;
}

abbrev built_in : List (DecodeResult ℕ)
built_in = result [] 700 (codes "TNX BOB 73") ∷ result (codes "K1AA") 900 (codes "CQ K1AA") ∷ []

abbrev of_jt9 : List (DecodeResult ℕ)
of_jt9 =
    result (codes "DL1AA") 705 (codes "TNX BOB 73")
    ∷ result (codes "K1AA") 950 (codes "CQ K1AA")
    ∷ []

abbrev merged : List (DecodeResult ℕ)
merged =
    result (codes "DL1AA") 700 (codes "TNX BOB 73")
    ∷ result (codes "K1AA") 900 (codes "CQ K1AA")
    ∷ result (codes "K1AA") 950 (codes "CQ K1AA")
    ∷ []

merged_lem : merge_results near (some built_in) 4 (some of_jt9) ≡ some merged
unfolding merge_results merge_from merge_one merge_duplicate or_append fill_sender near text_eq
merged_lem = refl

full_lem : merge_results near (some built_in) 2 (some of_jt9) ≡ some built_in
unfolding merge_results merge_from merge_one merge_duplicate or_append fill_sender near text_eq
full_lem = refl

merge_results-Extends_example : Extends near built_in merged × (length merged ≤ 4)
unfolding near text_eq
merge_results-Extends_example =
    merge_results-Extends near built_in of_jt9 4 ((refl, tt), (tt, tt)) (omega arith) merged_lem

merge_results_covers_example : All (λ a. has_spot near (spots_of merged) (spot_of a) ≡ true) of_jt9
merge_results_covers_example =
    merge_results_covers near near_self built_in of_jt9 4 (omega arith) merged_lem (omega arith)
