-- ===== src/Ft8/Seen/Set.antt =====
-- The table is a set of messages, as long as it is not full.
use airspyhf_wsprd.Common.{
  true≢false, ℕ, suc, ◌%◌, ◌<◌, ◌≡◌, sym, subst, ap, ◌∙◌, ◌⊎◌, inl, inr, Bool, true, false, ◌||◌,
  none, some, List, [], ◌∷◌, arith, ◌==◌, length, Bool-cases,
}
use mathlib.Core.Option.{some-injective}
use airspyhf_wsprd.Ft8.Seen.{
  max_results, Message, same_message, Decoded, fill, probe_decoded, already_decoded, retain_message,
}
use airspyhf_wsprd.Ft8.Seen.Slots.{
  filled_empty, filled, fill_here, fill_other, free_slot, filled-fill_inside,
}
use airspyhf_wsprd.Ft8.Seen.Probe.{probe_mono, probe_absent, probe-IsKept, same_message→≡}

pub contains : List Message → Message → Bool
contains [] message = false
contains (known ∷ messages) message = same_message known message || contains messages message

-- The table has these messages and no others.
pub record IsMessageSet (messages : List Message) (decoded : Decoded) : Type 0 where
  pub no_others :
      (i : ℕ) (message : Message)
      → decoded i ≡ some message
      → (other : Message) → same_message message other ≡ true
      → contains messages other ≡ true
  pub found :
      (message : Message)
      → contains messages message ≡ true
      → already_decoded decoded message ≡ true
  pub size : filled max_results decoded ≡ length messages

contains_later :
    (m x : Message) (messages : List Message)
    → contains messages x ≡ true
    → contains (m ∷ messages) x ≡ true
unfolding contains
contains_later m x messages h = ground (arith, h)

contains_here :
    (m x : Message) (messages : List Message)
    → same_message m x ≡ true
    → contains (m ∷ messages) x ≡ true
unfolding contains
contains_here m x messages h = ap (λ b. b || contains messages x) h

contains_cases :
    (m x : Message) (messages : List Message)
    → contains (m ∷ messages) x ≡ true
    → (same_message m x ≡ true) ⊎ (contains messages x ≡ true)
unfolding contains
contains_cases m x messages h = elim (Bool-cases (same_message m x)) [
  | inl e ↦ inl e
  | inr e ↦ inr (sym (ap (λ b. b || contains messages x) e) ∙ h)
]

module _ (messages : List Message) (t : Decoded) (set : IsMessageSet messages t) where
  already_decoded_lem :
      (j : ℕ)
      → j < max_results
      → t j ≡ none
      → (x : Message) → already_decoded t x ≡ contains messages x
  already_decoded_lem j hj e x = elim (Bool-cases (contains messages x)) [
    | inl h ↦ set.found x h ∙ sym h
    | inr h ↦
        unfold already_decoded in
        (probe_absent max_results t (x.hash % max_results) j x (omega arith) hj (omega arith) e
            (λ s known f. absent s known f h)
          ∙ sym h)
  ]
    where
      absent :
          (s : ℕ) (known : Message)
          → t s ≡ some known
          → contains messages x ≡ false
          → same_message known x ≡ false
      absent s known f h = elim (Bool-cases (same_message known x)) [
        | inl e ↦ absurd (true≢false (sym (set.no_others s known f x e) ∙ h))
        | inr e ↦ e
      ]

  module _ (slot : ℕ) (m : Message) (empty : t slot ≡ none) (within : slot < max_results) where
    fill-IsMessageSet :
        probe_decoded max_results (fill t slot m) (m.hash % max_results) m ≡ true
        → IsMessageSet (m ∷ messages) (fill t slot m)
    fill-IsMessageSet found_there = record {
      no_others = filled_by;
      found = found_in;
      size = filled-fill_inside max_results t slot m within empty ∙ ap suc set.size ∙ omega arith;
    }
      where
        filled_by :
            (i : ℕ) (y : Message)
            → fill t slot m i ≡ some y
            → (other : Message) → same_message y other ≡ true
            → contains (m ∷ messages) other ≡ true
        filled_by i y e other h = elim (Bool-cases (slot == i)) [
          | inl b ↦
              let here : m ≡ y = some-injective m y (
                sym (subst (λ j. fill t slot m j ≡ some m) (ground (arith, b)) (fill_here t slot m))
                ∙ e) in
              contains_here m other messages (subst (λ n. same_message n other ≡ true) (sym here) h)
          | inr b ↦ contains_later m other messages (
              set.no_others i y (sym (fill_other t slot i m (λ q. ground (arith, b, q))) ∙ e) other
                h)
        ]

        found_in :
            (x : Message)
            → contains (m ∷ messages) x ≡ true
            → already_decoded (fill t slot m) x ≡ true
        found_in x h = elim (contains_cases m x messages h) [
          | inl e ↦
              subst (λ n. already_decoded (fill t slot m) n ≡ true) (same_message→≡ m x e)
                (unfold already_decoded in found_there)
          | inr later ↦
              unfold already_decoded in
              probe_mono max_results t (x.hash % max_results) slot m x empty
                (unfold already_decoded in set.found x later)
        ]

pub empty-IsMessageSet : IsMessageSet [] (λ i. none)
empty-IsMessageSet = record {
  no_others = λ i m e other h. absurd (cc);
  found = λ m h. absurd (unfold contains in cc);
  size = filled_empty;
}

-- While fewer than fifty messages are kept, a message counts as decoded exactly if it is one of them, and a
-- further one is kept beside them.
pub retain_message-IsMessageSet :
    (messages : List Message) (decoded : Decoded) (message : Message)
    → IsMessageSet messages decoded
    → length messages < max_results
    → ((other : Message) → already_decoded decoded other ≡ contains messages other)
      × (next : Decoded) × (retain_message decoded message ≡ some next)
      × IsMessageSet (message ∷ messages) next
unfolding retain_message
retain_message-IsMessageSet messages decoded message set few =
    let (j, within, empty) = free_slot max_results decoded (omega (arith, set.size, few)) in
    let k =
      probe-IsKept max_results decoded (message.hash % max_results) j message (omega arith) within
        (omega arith) empty in
    (
      already_decoded_lem messages decoded set j within empty,
      fill decoded k.slot message,
      k.kept,
      fill-IsMessageSet messages decoded set k.slot message k.empty k.within k.found,
    )
