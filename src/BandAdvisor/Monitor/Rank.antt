-- ===== src/BandAdvisor/Monitor/Rank.antt =====
-- The ranking takes the largest count that is left, the first of several, until four are taken or none
-- is left.
use airspyhf_wsprd.Common.{
  ℕ, zero, suc, ◌+◌, ◌-◌, ◌≤◌, ◌<◌, ◌≡◌, refl, sym, subst, ap, ◌∙◌, Bool, true, false, not, ◌&&◌,
  Option, none, some, List, [], ◌∷◌, ◌⊎◌, inl, inr, All, arith, ltb, if◌then◌else◌, length, take,
  set, get_or, replicate, Bool-cases,
}
use airspyhf_wsprd.BandAdvisor.Monitor.{best_of, take_best, rank}

-- The counts, with 0 for those that are selected.
abbrev pub masked : List Bool → List ℕ → List ℕ
masked [] counts = []
masked (s ∷ selected) [] = []
masked (s ∷ selected) (n ∷ counts) = (if s then 0 else n) ∷ masked selected counts

-- What the inner loop gives for the counts that are left.
abbrev Best : ℕ → Option ℕ → ℕ → List ℕ → Option ℕ → Type 0
Best index best best_count counts found =
    (All (λ n. n ≤ best_count) counts × (found ≡ best))
    ⊎ ((k : ℕ) × (found ≡ some (index + k))
        × (best_count < get_or counts k 0)
        × All (λ n. n ≤ get_or counts k 0) counts
        × All (λ n. n < get_or counts k 0) (take k counts))

All-le : (m k : ℕ) (counts : List ℕ) → m ≤ k → All (λ n. n ≤ m) counts → All (λ n. n ≤ k) counts
All-le m k [] h all = tt
All-le m k (n ∷ counts) h (first, all) = (omega (arith, first, h), All-le m k counts h all)

better_step :
    (index m best_count : ℕ) (best : Option ℕ) (counts : List ℕ) (found : Option ℕ)
    → best_count < m
    → Best (index + 1) (some index) m counts found
    → Best index best best_count (m ∷ counts) found
better_step index m best_count best counts found more (inl (all, e)) =
    inr (0, e ∙ ap some (omega arith), more, (omega arith, all), tt)
better_step index m best_count best counts found more (inr (k, e, larger, all, before)) = inr (
  suc k,
  e ∙ ap some (omega arith),
  omega (arith, more, larger),
  (omega (arith, larger), all),
  (larger, before),
)

worse_step :
    (index m best_count : ℕ) (best : Option ℕ) (counts : List ℕ) (found : Option ℕ)
    → m ≤ best_count
    → Best (index + 1) best best_count counts found
    → Best index best best_count (m ∷ counts) found
worse_step index m best_count best counts found less (inl (all, e)) = inl ((less, all), e)
worse_step index m best_count best counts found less (inr (k, e, larger, all, before)) = inr (
  suc k,
  e ∙ ap some (omega arith),
  larger,
  (omega (arith, less, larger), all),
  (omega (arith, less, larger), before),
)

best_of-Best :
    (selected : List Bool) (counts : List ℕ) (index : ℕ) (best : Option ℕ) (best_count : ℕ)
    → Best index best best_count
        (masked selected counts)
        (best_of index best best_count selected counts)
unfolding best_of
best_of-Best [] counts index best best_count = inl (tt, refl)
best_of-Best (s ∷ selected) [] index best best_count = inl (tt, refl)
best_of-Best (s ∷ selected) (n ∷ counts) index best best_count =
    elim (Bool-cases (not s && ltb best_count n)) [
      | inl e ↦ rw e (
          better_step index (if s then 0 else n) best_count best (masked selected counts) _
            (ground (arith, e))
            (subst
              (λ m.
                Best (index + 1) (some index) m (masked selected counts)
                  (best_of (index + 1) (some index) n selected counts))
              (ground (arith, e)) (best_of-Best selected counts (index + 1) (some index) n)))
      | inr e ↦ rw e (
          worse_step index (if s then 0 else n) best_count best (masked selected counts) _
            (ground (arith, e)) (best_of-Best selected counts (index + 1) best best_count))
    ]

masked-set :
    (selected : List Bool) (counts : List ℕ) (i : ℕ)
    → masked (set selected i true) counts ≡ set (masked selected counts) i 0
masked-set [] counts i = refl
masked-set (s ∷ selected) [] zero = refl
masked-set (s ∷ selected) [] (suc i) = refl
masked-set (s ∷ selected) (n ∷ counts) zero = refl
masked-set (s ∷ selected) (n ∷ counts) (suc i) =
    ap (λ l. (if s then 0 else n) ∷ l) (masked-set selected counts i)

-- The indices of the largest counts, the first of equal ones first; a count that is taken is 0 from there
-- on. There are `left` of them, or no count is left.
abbrev pub IsRanking : ℕ → List ℕ → List ℕ → Type 0
IsRanking left counts [] = (left ≡ 0) ⊎ All (λ n. n ≤ 0) counts
IsRanking left counts (i ∷ indices) =
    (1 ≤ left)
    × (0 < get_or counts i 0)
    × All (λ n. n ≤ get_or counts i 0) counts
    × All (λ n. n < get_or counts i 0) (take i counts)
    × IsRanking (left - 1) (set counts i 0) indices

rank_ends :
    (left : ℕ) (selected : List Bool) (counts : List ℕ)
    → best_of 0 none 0 selected counts ≡ none
    → rank (suc left) selected counts ≡ []
unfolding rank take_best
rank_ends left selected counts e =
    ap (λ o. take_best o (λ best. rank left (set selected best true) counts)) e

rank_goes_on :
    (left : ℕ) (selected : List Bool) (counts : List ℕ) (k : ℕ)
    → best_of 0 none 0 selected counts ≡ some k
    → rank (suc left) selected counts ≡ k ∷ rank left (set selected k true) counts
unfolding rank take_best
rank_goes_on left selected counts k e =
    ap (λ o. take_best o (λ best. rank left (set selected best true) counts)) e

-- The loop of the ranking, on what is left of the counts.
pub rank-IsRanking :
    (left : ℕ) (selected : List Bool) (counts : List ℕ)
    → IsRanking left (masked selected counts) (rank left selected counts)
rank-IsRanking zero selected counts = unfold rank in inl refl
rank-IsRanking (suc left) selected counts = elim (best_of-Best selected counts 0 none 0) [
  | inl (all, e) ↦
      subst (IsRanking (suc left) (masked selected counts)) (sym (rank_ends left selected counts e))
        (inr all)
  | inr (k, e, larger, all, before) ↦
      subst (IsRanking (suc left) (masked selected counts))
        (sym (rank_goes_on left selected counts k (e ∙ ap some (omega arith))))
        (
          omega arith,
          larger,
          all,
          before,
          subst
              (λ l.
                IsRanking l (set (masked selected counts) k 0)
                  (rank left (set selected k true) counts))
              (omega arith)
              (subst (λ c. IsRanking left c (rank left (set selected k true) counts))
                (masked-set selected counts k) (rank-IsRanking left (set selected k true) counts)),
        )
]

masked_none :
    (n : ℕ) (counts : List ℕ) → length counts ≡ n → masked (replicate n false) counts ≡ counts
masked_none zero [] h = refl
masked_none zero (c ∷ counts) h = absurd (omega arith)
masked_none (suc n) [] h = absurd (omega arith)
masked_none (suc n) (c ∷ counts) h = ap (λ l. c ∷ l) (masked_none n counts (omega arith))

-- With nothing selected, the ranking is that of the counts.
pub rank_lem :
    (left n : ℕ) (counts : List ℕ)
    → length counts ≡ n
    → IsRanking left counts (rank left (replicate n false) counts)
rank_lem left n counts h =
    subst (λ c. IsRanking left c (rank left (replicate n false) counts)) (masked_none n counts h)
      (rank-IsRanking left (replicate n false) counts)
