-- ===== src/Ft8/Seen/Slots.antt =====
-- The slots of the table that are filled, and one more.
use airspyhf_wsprd.Common.{
  ℕ, zero, suc, ◌+◌, ◌≤◌, ◌<◌, ◌≡◌, ◌≢◌, refl, subst, ap, ap₂, inl, inr, Option, none, some, arith,
  ◌==◌, Bool-cases,
}
use airspyhf_wsprd.Ft8.Seen.{max_results, Message, Decoded, fill}

-- How many of the first slots are filled.
pub one_if : Option Message → ℕ
one_if none = 0
one_if (some message) = 1

pub filled : ℕ → Decoded → ℕ
filled zero decoded = 0
filled (suc k) decoded = one_if (decoded k) + filled k decoded

pub filled_empty : filled max_results (λ i. none) ≡ 0
unfolding filled one_if
filled_empty = omega arith

pub fill_here : (t : Decoded) (i : ℕ) (m : Message) → fill t i m i ≡ some m
fill_here t i m = ground arith

pub fill_other : (t : Decoded) (i j : ℕ) (m : Message) → i ≢ j → fill t i m j ≡ t j
fill_other t i j m h = ground arith

slot_or_before :
    (k : ℕ) (t : Decoded) (o : Option Message)
    → t k ≡ o
    → (filled k t < k → (j : ℕ) × (j < k) × (t j ≡ none))
    → one_if o + filled k t < suc k
    → (j : ℕ) × (j < suc k) × (t j ≡ none)
unfolding one_if
slot_or_before k t none e before h = (k, omega arith, e)
slot_or_before k t (some m) e before h =
    let (j, l, f) = before (omega (arith, h)) in (j, omega (arith, l), f)

-- An empty slot among the first.
pub free_slot : (k : ℕ) (t : Decoded) → filled k t < k → (j : ℕ) × (j < k) × (t j ≡ none)
unfolding filled
free_slot zero t h = absurd (omega (arith, h))
free_slot (suc k) t h = slot_or_before k t (t k) refl (free_slot k t) h

filled-fill_outside :
    (k : ℕ) (t : Decoded) (i : ℕ) (m : Message) → k ≤ i → filled k (fill t i m) ≡ filled k t
unfolding filled
filled-fill_outside zero t i m h = refl
filled-fill_outside (suc k) t i m h =
    ap₂ ◌+◌ (ap one_if (fill_other t i k m (λ e. omega (arith, e, h))))
      (filled-fill_outside k t i m (omega (arith, h)))

pub filled-fill_inside :
    (k : ℕ) (t : Decoded) (i : ℕ) (m : Message)
    → i < k
    → t i ≡ none
    → filled k (fill t i m) ≡ suc (filled k t)
unfolding filled one_if
filled-fill_inside zero t i m h e = absurd (omega (arith, h))
filled-fill_inside (suc k) t i m h e = elim (Bool-cases (i == k)) [
  | inl b ↦
      let same : i ≡ k = ground (arith, b) in
      omega (
        arith,
        ap one_if (subst (λ j. fill t i m j ≡ some m) same (fill_here t i m)),
        filled-fill_outside k t i m (omega (arith, same)),
        ap one_if (subst (λ j. t j ≡ none) same e),
      )
  | inr b ↦
      let other : i ≢ k = λ q. ground (arith, b, q) in
      omega (
        arith,
        ap one_if (fill_other t i k m other),
        filled-fill_inside k t i m (omega (arith, h, other)) e,
      )
]
