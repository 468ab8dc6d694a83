-- ===== src/Jt9/Merge/Distinct.antt =====
-- No spot stands twice in the merged results.
use airspyhf_wsprd.Common.{
  ℕ, suc, ◌+◌, ◌≤◌, ◌≡◌, refl, sym, subst, ap, ◌∙◌, Bool, true, false, ◌&&◌, Option, none, some,
  List, [], ◌∷◌, ◌++◌, All, All-append, arith, leb, length, length-append, Text, text_eq,
  Bool-cases, inl, inr,
}
use mathlib.Core.Option
use mathlib.Core.List.{append_assoc, append-nil}
use mathlib.Core.Option.{some-injective}
use airspyhf_wsprd.Jt9.Result.{DecodeResult}
use airspyhf_wsprd.Jt9.Merge.{
  same_spot, fill_sender, merge_duplicate, or_append, merge_one, merge_from, merge_results,
}

-- What tells two spots apart.
abbrev pub spot_of : {F : Type 0} → DecodeResult F → Text × F
spot_of r = (r.message, r.audio_frequency_hz)

abbrev pub spots_of : {F : Type 0} → List (DecodeResult F) → List (Text × F)
spots_of [] = []
spots_of (r ∷ rs) = spot_of r ∷ spots_of rs

pub length-spots_of : {F : Type 0} (rs : List (DecodeResult F)) → length (spots_of rs) ≡ length rs
length-spots_of [] = refl
length-spots_of (r ∷ rs) = ap suc (length-spots_of rs)

pub spots_of-append :
    {F : Type 0} (rs : List (DecodeResult F)) (a : DecodeResult F)
    → spots_of (rs ++ (a ∷ [])) ≡ spots_of rs ++ (spot_of a ∷ [])
spots_of-append [] a = refl
spots_of-append (r ∷ rs) a = ap (λ t. spot_of r ∷ t) (spots_of-append rs a)

pub fill_sender-spot : {F : Type 0} (r a : DecodeResult F) → spot_of (fill_sender r a) ≡ spot_of r
unfolding fill_sender
fill_sender-spot r a = ground arith

module _ {F : Type 0} (near : F → F → Bool) where
  abbrev pub same : Text × F → Text × F → Bool
  same (m, f) (n, g) = text_eq m n && near f g

  -- No later spot is one of those before it.
  abbrev pub AreDistinct : List (Text × F) → Type 0
  AreDistinct [] = Unit
  AreDistinct (s ∷ spots) = All (λ t. same s t ≡ false) spots × AreDistinct spots

  append-AreDistinct :
      (spots : List (Text × F)) (t : Text × F)
      → AreDistinct spots
      → All (λ s. same s t ≡ false) spots
      → AreDistinct (spots ++ (t ∷ []))
  append-AreDistinct [] t d new = (tt, tt)
  append-AreDistinct (s ∷ spots) t d new = (
    All-append (λ u. same s u ≡ false) spots (t ∷ []) d.0 (new.0, tt),
    append-AreDistinct spots t d.1 new.1,
  )

  pub merge_duplicate-hit :
      (r : DecodeResult F) (rs : List (DecodeResult F)) (a : DecodeResult F)
      → same_spot near r a ≡ true
      → merge_duplicate near (r ∷ rs) a ≡ some (fill_sender r a ∷ rs)
  unfolding merge_duplicate
  merge_duplicate-hit r rs a e = rw e refl

  pub merge_duplicate-miss :
      (r : DecodeResult F) (rs : List (DecodeResult F)) (a : DecodeResult F)
      → same_spot near r a ≡ false
      → merge_duplicate near (r ∷ rs) a ≡ Option.map (λ l. r ∷ l) (merge_duplicate near rs a)
  unfolding merge_duplicate
  merge_duplicate-miss r rs a e = rw e refl

  -- What the inner loop finds, and what it leaves.
  abbrev pub Searched :
      List (DecodeResult F) → DecodeResult F → Option (List (DecodeResult F)) → Type 0
  Searched rs a none = All (λ s. same s (spot_of a) ≡ false) (spots_of rs)
  Searched rs a (some merged) = spots_of merged ≡ spots_of rs

  Searched-later :
      (r : DecodeResult F) (rs : List (DecodeResult F)) (a : DecodeResult F)
      (o : Option (List (DecodeResult F)))
      → same_spot near r a ≡ false
      → Searched rs a o
      → Searched (r ∷ rs) a (Option.map (λ l. r ∷ l) o)
  Searched-later r rs a none e s = (e, s)
  Searched-later r rs a (some merged) e s = ap (λ t. spot_of r ∷ t) s

  pub merge_duplicate-Searched :
      (rs : List (DecodeResult F)) (a : DecodeResult F) → Searched rs a (merge_duplicate near rs a)
  merge_duplicate-Searched [] a = unfold merge_duplicate in tt
  merge_duplicate-Searched (r ∷ rs) a = elim (Bool-cases (same_spot near r a)) [
    | inl e ↦ rw (merge_duplicate-hit r rs a e) (ap (λ s. s ∷ spots_of rs) (fill_sender-spot r a))
    | inr e ↦
        rw (merge_duplicate-miss r rs a e)
          (Searched-later r rs a (merge_duplicate near rs a) e (merge_duplicate-Searched rs a))
  ]

  -- One addition puts at most its own spot at the end.
  pub record Extends (rs rs' : List (DecodeResult F)) : Type 0 where
    pub distinct : AreDistinct (spots_of rs')
    pub added : List (Text × F)
    pub order : spots_of rs' ≡ spots_of rs ++ added

  pub or_append-Extends :
      (rs : List (DecodeResult F)) (a : DecodeResult F) (o : Option (List (DecodeResult F)))
      → AreDistinct (spots_of rs)
      → Searched rs a o
      → Extends rs (or_append rs a o) × (length (or_append rs a o) ≤ length rs + 1)
  unfolding or_append
  or_append-Extends rs a none d s = (
    record {
      distinct =
          subst AreDistinct (sym (spots_of-append rs a))
            (append-AreDistinct (spots_of rs) (spot_of a) d s);
      added = spot_of a ∷ [];
      order = spots_of-append rs a;
    },
    omega (arith, length-append rs (a ∷ [])),
  )
  or_append-Extends rs a (some merged) d s = (
    record {
      distinct = subst AreDistinct (sym s) d;
      added = [];
      order = s ∙ sym (append-nil (spots_of rs));
    },
    omega (arith, ap length s, length-spots_of merged, length-spots_of rs),
  )

  pub merge_from-Extends :
      (capacity : ℕ) (additional : List (DecodeResult F)) (rs : List (DecodeResult F))
      → AreDistinct (spots_of rs)
      → length rs ≤ capacity
      → Extends rs (merge_from near capacity rs additional)
        × (length (merge_from near capacity rs additional) ≤ capacity)
  unfolding merge_from merge_one
  merge_from-Extends capacity [] rs d room =
      (record { distinct = d; added = []; order = sym (append-nil (spots_of rs)) }, room)
  merge_from-Extends capacity (a ∷ additional) rs d room =
      elim (Bool-cases (leb capacity (length rs))) [
        | inl full ↦
            rw full
              (record { distinct = d; added = []; order = sym (append-nil (spots_of rs)) }, room)
        | inr left ↦
            let (first, longer) =
              or_append-Extends rs a (merge_duplicate near rs a) d
                (merge_duplicate-Searched rs a) in
            let (later, within) =
              merge_from-Extends capacity additional (merge_one near rs a) first.distinct
                (ground (arith, longer)) in
            rw left (
              record {
                distinct = later.distinct;
                added = first.added ++ later.added;
                order =
                    later.order
                    ∙ ap (λ l. l ++ later.added) first.order
                    ∙ append_assoc (spots_of rs) first.added later.added;
              },
              within,
            )
      ]

  pub merge_results_room :
      (primary additional : List (DecodeResult F)) (capacity : ℕ)
      → length primary ≤ capacity
      → merge_results near (some primary) capacity (some additional)
        ≡ some (merge_from near capacity primary additional)
  unfolding merge_results
  merge_results_room primary additional capacity room = ground arith

  -- If no spot stands twice among the primary results, none stands twice in the merged ones: they
  -- are the primary spots, in their order, and added ones behind them, no more than the array holds.
  pub merge_results-Extends :
      (primary additional : List (DecodeResult F)) (capacity : ℕ) {merged : List (DecodeResult F)}
      → AreDistinct (spots_of primary)
      → length primary ≤ capacity
      → merge_results near (some primary) capacity (some additional) ≡ some merged
      → Extends primary merged × (length merged ≤ capacity)
  merge_results-Extends primary additional capacity {merged} d room h =
      subst (λ m. Extends primary m × (length m ≤ capacity))
        (some-injective _ merged (sym (merge_results_room primary additional capacity room) ∙ h))
        (merge_from-Extends capacity additional primary d room)
