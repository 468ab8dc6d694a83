-- ===== src/BandAdvisor/Monitor/Fuel.antt =====
-- The length of the text is enough fuel for the loop over the objects.
use airspyhf_wsprd.Common.{
  ℕ, zero, suc, ◌+◌, ◌≤◌, ◌≡◌, refl, Option, none, some, List, [], ◌∷◌, arith, ◌==◌, length,
  length-drop, drop, Text, Bool-cases, inl, inr,
}
use airspyhf_wsprd.HopPlan.{HopPlan}
use airspyhf_wsprd.BandAdvisor.Json.{json_object_end}
use airspyhf_wsprd.BandAdvisor.Monitor.{and_then, at_object, count_objects}

module _ (strtoul : Text → Option (ℕ × ℕ)) (candidates : HopPlan) (behind : Text) where
  -- Two loops that agree on the texts of no more than `n` bytes.
  abbrev Agree : ℕ → (Text → List ℕ → Option (List ℕ)) → (Text → List ℕ → Option (List ℕ)) → Type 0
  Agree n go go' = (t : Text) (counts : List ℕ) → length t ≤ n → go t counts ≡ go' t counts

  and_then-Agree :
      (o : Option (List ℕ)) (next next' : List ℕ → Option (List ℕ))
      → ((counts : List ℕ) → next counts ≡ next' counts)
      → and_then o next ≡ and_then o next'
  unfolding and_then
  and_then-Agree none next next' same = refl
  and_then-Agree (some counts) next next' same = same counts

  at_object-Agree :
      (go go' : Text → List ℕ → Option (List ℕ)) (text : Text) (counts : List ℕ) (o : Option ℕ)
      → Agree (length text) go go'
      → at_object strtoul go candidates text behind counts o
        ≡ at_object strtoul go' candidates text behind counts o
  unfolding at_object
  at_object-Agree go go' text counts none agree = refl
  at_object-Agree go go' text counts (some size) agree =
      and_then-Agree _ _ _
        (λ c. agree (drop (size + 1) text) c (omega (arith, length-drop (size + 1) text)))

  round-Agree :
      (f g : ℕ) (c : ℕ) (text : Text) (counts : List ℕ)
      → Agree
          (length text)
          (count_objects strtoul f candidates behind)
          (count_objects strtoul g candidates behind)
      → count_objects strtoul (suc f) candidates behind (c ∷ text) counts
        ≡ count_objects strtoul (suc g) candidates behind (c ∷ text) counts
  unfolding count_objects
  round-Agree f g c text counts agree = elim (Bool-cases (c == b'{')) [
    | inl e ↦ rw e (
        at_object-Agree (count_objects strtoul f candidates behind)
          (count_objects strtoul g candidates behind) text counts (json_object_end text) agree)
    | inr e ↦ rw e (agree text counts (omega arith))
  ]

  -- What is counted does not depend on the fuel.
  pub count_objects_enough :
      (f g : ℕ) (text : Text) (counts : List ℕ)
      → length text ≤ f
      → length text ≤ g
      → count_objects strtoul f candidates behind text counts
        ≡ count_objects strtoul g candidates behind text counts
  count_objects_enough zero zero text counts h k = refl
  count_objects_enough zero (suc g) [] counts h k = unfold count_objects in refl
  count_objects_enough zero (suc g) (c ∷ text) counts h k = absurd (omega arith)
  count_objects_enough (suc f) zero [] counts h k = unfold count_objects in refl
  count_objects_enough (suc f) zero (c ∷ text) counts h k = absurd (omega arith)
  count_objects_enough (suc f) (suc g) [] counts h k = unfold count_objects in refl
  count_objects_enough (suc f) (suc g) (c ∷ text) counts h k =
      round-Agree f g c text counts (λ t counts' n.
        count_objects_enough f g t counts' (omega (arith, n, h)) (omega (arith, n, k)))
