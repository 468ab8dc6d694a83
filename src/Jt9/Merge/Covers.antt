-- ===== src/Jt9/Merge/Covers.antt =====
-- No spot of jt9 is left out while there is room.
use airspyhf_wsprd.Common.{
  ℕ, ◌≤◌, ◌<◌, ◌≡◌, refl, sym, subst, ap, ◌∙◌, Bool, true, false, ◌||◌, none, some, List, [], ◌∷◌,
  ◌++◌, All, arith, leb, length, Text, text_eq_refl, Bool-cases, Option-cases, inl, inr,
}
use mathlib.Core.Option
use mathlib.Core.Option.{some-injective}
use mathlib.Core.List.{append-nil, append_assoc}
use airspyhf_wsprd.Jt9.Result.{DecodeResult}
use airspyhf_wsprd.Jt9.Merge.{
  same_spot, merge_duplicate, or_append, merge_one, merge_from, merge_results,
}
use airspyhf_wsprd.Jt9.Merge.Distinct.{
  spot_of, spots_of, spots_of-append, same, merge_duplicate-miss, Searched,
  merge_duplicate-Searched, merge_results_room,
}

none≢some : {A : Type 0} (a : A) → ¬ (none ≡ some a)
none≢some a e = cc

module _ {F : Type 0} (near : F → F → Bool) where
  -- One of the spots is that one.
  abbrev pub has_spot : List (Text × F) → Text × F → Bool
  has_spot [] t = false
  has_spot (s ∷ spots) t = same near s t || has_spot spots t

  has_spot-append :
      (spots later : List (Text × F)) (t : Text × F)
      → has_spot spots t ≡ true
      → has_spot (spots ++ later) t ≡ true
  has_spot-append [] later t h = absurd (cc)
  has_spot-append (s ∷ spots) later t h = elim (Bool-cases (same near s t)) [
    | inl e ↦ rw e refl
    | inr e ↦ rw e (has_spot-append spots later t (ground (arith, e, h)))
  ]

  has_spot-last :
      (spots : List (Text × F)) (t : Text × F)
      → same near t t ≡ true
      → has_spot (spots ++ (t ∷ [])) t ≡ true
  has_spot-last [] t h = rw h refl
  has_spot-last (s ∷ spots) t h = elim (Bool-cases (same near s t)) [
    | inl e ↦ rw e refl
    | inr e ↦ rw e (has_spot-last spots t h)
  ]

  same_self : ((f : F) → near f f ≡ true) → (t : Text × F) → same near t t ≡ true
  same_self self (m, f) = rw (text_eq_refl m, self f) refl

  -- A duplicate that the inner loop finds is among the spots.
  merge_duplicate-has_spot :
      (rs : List (DecodeResult F)) (a : DecodeResult F) {merged : List (DecodeResult F)}
      → merge_duplicate near rs a ≡ some merged
      → has_spot (spots_of rs) (spot_of a) ≡ true
  merge_duplicate-has_spot [] a h = absurd (unfold merge_duplicate in cc)
  merge_duplicate-has_spot (r ∷ rs) a h = elim (Bool-cases (same_spot near r a)) [
    | inl e ↦ rw e refl
    | inr e ↦ elim (Option-cases (merge_duplicate near rs a)) [
      | inl n ↦ absurd (
          none≢some _
            (sym (ap (Option.map (λ l. r ∷ l)) n) ∙ sym (merge_duplicate-miss near r rs a e) ∙ h))
      | inr (later, n) ↦ rw e (merge_duplicate-has_spot rs a n)
    ]
  ]

  -- What one round of the outer loop does to the spots.
  abbrev Grown : List (Text × F) → Text × F → List (Text × F) → Type 0
  Grown spots t spots' =
      ((later : List (Text × F)) × (spots' ≡ spots ++ later)) × (has_spot spots' t ≡ true)

  merge_one-Grown :
      ((f : F) → near f f ≡ true)
      → (rs : List (DecodeResult F)) (a : DecodeResult F)
      → Grown (spots_of rs) (spot_of a) (spots_of (merge_one near rs a))
  unfolding merge_one or_append
  merge_one-Grown self rs a = elim (Option-cases (merge_duplicate near rs a)) [
    | inl n ↦ rw n (
      (spot_of a ∷ [], spots_of-append rs a),
      ap (λ l. has_spot l (spot_of a)) (spots_of-append rs a)
          ∙ has_spot-last (spots_of rs) (spot_of a) (same_self self (spot_of a)),
    )
    | inr (merged, n) ↦
        let kept : spots_of merged ≡ spots_of rs =
          subst (λ o. Searched near rs a o) n (merge_duplicate-Searched near rs a) in
        rw n (
          ([], kept ∙ sym (append-nil (spots_of rs))),
          ap (λ l. has_spot l (spot_of a)) kept ∙ merge_duplicate-has_spot rs a n,
        )
  ]

  -- What all rounds do: the spots of the additions are found.
  abbrev Covered : List (Text × F) → List (DecodeResult F) → List (Text × F) → Type 0
  Covered spots additional spots' =
      ((later : List (Text × F)) × (spots' ≡ spots ++ later))
      × All (λ a. has_spot spots' (spot_of a) ≡ true) additional

  Covered-step :
      (spots next last : List (Text × F)) (a : DecodeResult F) (additional : List (DecodeResult F))
      → Grown spots (spot_of a) next
      → Covered next additional last
      → Covered spots (a ∷ additional) last
  Covered-step spots next last a additional ((l1, e1), found) ((l2, e2), all) = (
    (l1 ++ l2, e2 ∙ ap (λ l. l ++ l2) e1 ∙ append_assoc spots l1 l2),
    (ap (λ l. has_spot l (spot_of a)) e2 ∙ has_spot-append next l2 (spot_of a) found, all),
  )

  merge_from-full :
      (capacity : ℕ) (rs : List (DecodeResult F)) (a : DecodeResult F)
      (additional : List (DecodeResult F))
      → leb capacity (length rs) ≡ true
      → merge_from near capacity rs (a ∷ additional) ≡ rs
  unfolding merge_from
  merge_from-full capacity rs a additional e = rw e refl

  merge_from-room :
      (capacity : ℕ) (rs : List (DecodeResult F)) (a : DecodeResult F)
      (additional : List (DecodeResult F))
      → leb capacity (length rs) ≡ false
      → merge_from near capacity rs (a ∷ additional)
        ≡ merge_from near capacity (merge_one near rs a) additional
  unfolding merge_from
  merge_from-room capacity rs a additional e = rw e refl

  merge_from-Covered :
      ((f : F) → near f f ≡ true)
      → (capacity : ℕ) (additional rs : List (DecodeResult F))
      → length (merge_from near capacity rs additional) < capacity
      → Covered (spots_of rs) additional (spots_of (merge_from near capacity rs additional))
  merge_from-Covered self capacity [] rs room =
      unfold merge_from in (([], sym (append-nil (spots_of rs))), tt)
  merge_from-Covered self capacity (a ∷ additional) rs room =
      elim (Bool-cases (leb capacity (length rs))) [
        | inl full ↦
            absurd (
              ground (arith, full, ap length (merge_from-full capacity rs a additional full), room))
        | inr left ↦
            let e = merge_from-room capacity rs a additional left in
            subst (λ m. Covered (spots_of rs) (a ∷ additional) (spots_of m)) (sym e)
              (Covered-step (spots_of rs) (spots_of (merge_one near rs a)) _ a additional
                (merge_one-Grown self rs a)
                (merge_from-Covered self capacity additional (merge_one near rs a)
                  (subst (λ m. length m < capacity) e room)))
      ]

  -- While the merged results do not fill the array, each of the additional results has its spot
  -- among them, if a frequency is near itself.
  pub merge_results_covers :
      ((f : F) → near f f ≡ true)
      → (primary additional : List (DecodeResult F)) (capacity : ℕ) {merged : List (DecodeResult F)}
      → length primary ≤ capacity
      → merge_results near (some primary) capacity (some additional) ≡ some merged
      → length merged < capacity
      → All (λ a. has_spot (spots_of merged) (spot_of a) ≡ true) additional
  merge_results_covers self primary additional capacity {merged} room h left =
      let e : merge_from near capacity primary additional ≡ merged =
        some-injective _ merged
          (sym (merge_results_room near primary additional capacity room) ∙ h) in
      let covered =
        merge_from-Covered self capacity additional primary
          (subst (λ m. length m < capacity) (sym e) left) in
      subst (λ m. All (λ a. has_spot (spots_of m) (spot_of a) ≡ true) additional) e covered.1
