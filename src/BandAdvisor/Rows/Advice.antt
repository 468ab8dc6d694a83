-- ===== src/BandAdvisor/Rows/Advice.antt =====
-- A plan that candidates are added to: which bands it holds, and that it holds none twice.
use airspyhf_wsprd.Common.{
  ◌+◌, ◌≤◌, ◌≡◌, refl, sym, subst, ap, ap₂, ◌∙◌, Bool, true, false, ◌||◌, [], ◌∷◌, ◌++◌, ◌⊎◌, inl,
  inr, All, All-append, arith, length, length-append, Bool-cases,
}
use mathlib.Core.List.{append-nil}
use airspyhf_wsprd.Common.Int.{ℤ, ◌==ℤ◌}
use airspyhf_wsprd.HopPlan.{HopBand, HopPlan}
use airspyhf_wsprd.HopSchedule.{contains_database_band}
use airspyhf_wsprd.BandAdvisor.Rows.{result_bands, add_candidate}

==ℤ→≡ : (a b : ℤ) → a ==ℤ b ≡ true → a ≡ b
==ℤ→≡ a b h = ground arith

==ℤ_comm : (a b : ℤ) → (a ==ℤ b) ≡ (b ==ℤ a)
==ℤ_comm a b = ground arith

abbrev pub IsIn : HopBand → HopPlan → Type 0
IsIn band [] = ⊥
IsIn band (b ∷ plan) = (band ≡ b) ⊎ IsIn band plan

-- One to four candidates.
pub record IsAdvice (candidates plan : HopPlan) : Type 0 where
  pub one : 1 ≤ length plan
  pub four : length plan ≤ result_bands
  pub known : All (λ band. IsIn band candidates) plan

-- No two bands have the same number.
abbrev pub AreDistinct : HopPlan → Type 0
AreDistinct [] = Unit
AreDistinct (band ∷ plan) =
    (contains_database_band plan band.database_band ≡ false) × AreDistinct plan

contains-append :
    (plan : HopPlan) (band : HopBand) (d : ℤ)
    → contains_database_band (plan ++ (band ∷ [])) d
      ≡ (contains_database_band plan d || band.database_band ==ℤ d)
unfolding contains_database_band
contains-append [] band d = ground arith
contains-append (b ∷ plan) band d = ground (arith, contains-append plan band d)

||-false : (p q : Bool) → p || q ≡ false → (p ≡ false) × (q ≡ false)
||-false true q h = absurd (cc)
||-false false q h = (refl, h)

contains_cons :
    (b : HopBand) (plan : HopPlan) (d : ℤ)
    → contains_database_band (b ∷ plan) d ≡ (b.database_band ==ℤ d || contains_database_band plan d)
unfolding contains_database_band
contains_cons b plan d = refl

append-AreDistinct :
    (plan : HopPlan) (band : HopBand)
    → AreDistinct plan
    → contains_database_band plan band.database_band ≡ false
    → AreDistinct (plan ++ (band ∷ []))
append-AreDistinct [] band d new = (unfold contains_database_band in refl, tt)
append-AreDistinct (b ∷ plan) band d new =
    let (other, rest) =
      ||-false (b.database_band ==ℤ band.database_band)
        (contains_database_band plan band.database_band)
        (sym (contains_cons b plan band.database_band) ∙ new) in
    (
      contains-append plan band b.database_band
          ∙ ap₂ ◌||◌ d.0 (==ℤ_comm band.database_band b.database_band ∙ other),
      append-AreDistinct plan band d.1 rest,
    )

-- The plan as it was, or with one candidate more, which it did not hold.
pub Added : HopPlan → HopPlan → HopPlan → Type 0
Added candidates ranked next =
    (next ≡ ranked)
    ⊎ ((band : HopBand) × IsIn band candidates
        × (contains_database_band ranked band.database_band ≡ false)
        × (next ≡ ranked ++ (band ∷ [])))

Added-later :
    (band : HopBand) (candidates ranked next : HopPlan)
    → Added candidates ranked next
    → Added (band ∷ candidates) ranked next
unfolding Added
Added-later band candidates ranked next (inl same) = inl same
Added-later band candidates ranked next (inr (b, known, new, e)) = inr (b, inr known, new, e)

module _ (d : ℤ) (ranked : HopPlan) where
  candidate_held :
      (band : HopBand) (candidates : HopPlan)
      → band.database_band ==ℤ d ≡ true
      → contains_database_band ranked d ≡ true
      → add_candidate d ranked (band ∷ candidates) ≡ ranked
  unfolding add_candidate
  candidate_held band candidates e f = rw (e, f) refl

  candidate_new :
      (band : HopBand) (candidates : HopPlan)
      → band.database_band ==ℤ d ≡ true
      → contains_database_band ranked d ≡ false
      → add_candidate d ranked (band ∷ candidates) ≡ ranked ++ (band ∷ [])
  unfolding add_candidate
  candidate_new band candidates e f = rw (e, f) refl

  candidate_other :
      (band : HopBand) (candidates : HopPlan)
      → band.database_band ==ℤ d ≡ false
      → add_candidate d ranked (band ∷ candidates) ≡ add_candidate d ranked candidates
  unfolding add_candidate
  candidate_other band candidates e = rw e refl

  pub add_candidate-Added :
      (candidates : HopPlan) → Added candidates ranked (add_candidate d ranked candidates)
  add_candidate-Added [] = unfold add_candidate Added in inl refl
  add_candidate-Added (band ∷ candidates) = elim (Bool-cases (band.database_band ==ℤ d)) [
    | inl e ↦ elim (Bool-cases (contains_database_band ranked d)) [
      | inl f ↦ unfold Added in inl (candidate_held band candidates e f)
      | inr f ↦
          let new : contains_database_band ranked band.database_band ≡ false =
            ap (contains_database_band ranked) (==ℤ→≡ band.database_band d e) ∙ f in
          unfold Added in inr (band, inl refl, new, candidate_new band candidates e f)
    ]
    | inr e ↦
        subst (Added (band ∷ candidates) ranked) (sym (candidate_other band candidates e))
          (Added-later band candidates ranked _ (add_candidate-Added candidates))
  ]

  -- Whether the band is there afterwards.
  pub add_candidate-contains :
      (candidates : HopPlan)
      → contains_database_band (add_candidate d ranked candidates) d
        ≡ (contains_database_band ranked d || contains_database_band candidates d)
  add_candidate-contains [] = unfold add_candidate contains_database_band in ground arith
  add_candidate-contains (band ∷ candidates) = elim (Bool-cases (band.database_band ==ℤ d)) [
    | inl e ↦ elim (Bool-cases (contains_database_band ranked d)) [
      | inl f ↦
          ap (λ r. contains_database_band r d) (candidate_held band candidates e f) ∙ rw f refl
      | inr f ↦
          ap (λ r. contains_database_band r d) (candidate_new band candidates e f)
          ∙ contains-append ranked band d
          ∙ ap (λ q. contains_database_band ranked d || q)
              (e
                ∙ sym (
                    contains_cons band candidates d
                    ∙ ap (λ q. q || contains_database_band candidates d) e))
    ]
    | inr e ↦
        ap (λ r. contains_database_band r d) (candidate_other band candidates e)
        ∙ add_candidate-contains candidates
        ∙ ap (λ q. contains_database_band ranked d || q)
            (sym (
              contains_cons band candidates d
              ∙ ap (λ q. q || contains_database_band candidates d) e))
  ]

-- Distinct candidates.
pub record IsRanked (candidates ranked : HopPlan) : Type 0 where
  pub distinct : AreDistinct ranked
  pub known : All (λ band. IsIn band candidates) ranked

pub Added-IsRanked :
    (candidates ranked next : HopPlan)
    → Added candidates ranked next
    → IsRanked candidates ranked
    → IsRanked candidates next
      × (length next ≤ length ranked + 1)
      × (later : HopPlan) × (next ≡ ranked ++ later)
unfolding Added
Added-IsRanked candidates ranked next (inl same) r = (
  subst (IsRanked candidates) (sym same) r,
  omega (arith, ap length same),
  [],
  same ∙ sym (append-nil ranked),
)
Added-IsRanked candidates ranked next (inr (band, known, new, e)) r = (
  subst (IsRanked candidates) (sym e) (record {
    distinct = append-AreDistinct ranked band r.distinct new;
    known = All-append (λ b. IsIn b candidates) ranked (band ∷ []) r.known (known, tt);
  }),
  omega (arith, ap length e, length-append ranked (band ∷ [])),
  band ∷ [],
  e,
)

IsIn-contains :
    (band : HopBand) (candidates : HopPlan) (d : ℤ)
    → IsIn band candidates
    → band.database_band ==ℤ d ≡ true
    → contains_database_band candidates d ≡ true
IsIn-contains band [] d h e = absurd h
IsIn-contains band (b ∷ candidates) d (inl same) e =
    contains_cons b candidates d
    ∙ ap (λ q. q || contains_database_band candidates d)
        (ap (λ c. c.database_band ==ℤ d) (sym same) ∙ e)
IsIn-contains band (b ∷ candidates) d (inr later) e =
    contains_cons b candidates d
    ∙ ap (λ q. b.database_band ==ℤ d || q) (IsIn-contains band candidates d later e)
    ∙ ground arith

-- A band number of the plan is one of a candidate.
pub known-contains :
    (candidates plan : HopPlan) (d : ℤ)
    → All (λ band. IsIn band candidates) plan
    → contains_database_band plan d ≡ true
    → contains_database_band candidates d ≡ true
known-contains candidates [] d known h = absurd (unfold contains_database_band in cc)
known-contains candidates (b ∷ plan) d (first, known) h =
    elim (Bool-cases (b.database_band ==ℤ d)) [
      | inl e ↦ IsIn-contains b candidates d first e
      | inr e ↦
          known-contains candidates plan d known (
            ap (λ q. q || contains_database_band plan d) (sym e) ∙ sym (contains_cons b plan d) ∙ h)
    ]

pub contains-append_left :
    (plan later : HopPlan) (d : ℤ)
    → contains_database_band plan d ≡ true
    → contains_database_band (plan ++ later) d ≡ true
unfolding contains_database_band
contains-append_left [] later d h = absurd (cc)
contains-append_left (b ∷ plan) later d h = elim (Bool-cases (b.database_band ==ℤ d)) [
  | inl e ↦ rw e refl
  | inr e ↦
      rw e (
        contains-append_left plan later d
          (ap (λ q. q || contains_database_band plan d) (sym e) ∙ h))
]
