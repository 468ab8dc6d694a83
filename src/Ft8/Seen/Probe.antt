-- ===== src/Ft8/Seen/Probe.antt =====
-- Where the probes for a message lead to.
use airspyhf_wsprd.Common.{
  &&-elim, ℕ, zero, suc, ◌+◌, ◌-◌, ◌%◌, ◌<◌, ◌≡◌, ◌≢◌, refl, sym, subst, ap, ap₂, ◌∙◌, inl, inr,
  Bool, true, false, ◌||◌, Option, none, some, arith, ◌==◌, text_eq, text_eq_refl, text_eq→≡,
  Bool-cases, Option-cases,
}
use airspyhf_wsprd.Ft8.Seen.{
  max_results, Message, same_message, Decoded, fill, found_at, probe_decoded, kept_at, probe_free,
}
use airspyhf_wsprd.Ft8.Seen.Slots.{filled, fill_here, fill_other}

-- How many slots a slot is ahead.
abbrev away : ℕ → ℕ → ℕ
away i j = (j + max_results - i) % max_results

away_next :
    (i j : ℕ)
    → i < max_results
    → j < max_results
    → i ≢ j
    → suc (away ((i + 1) % max_results) j) ≡ away i j
away_next i j h k other = omega (arith, other)

some≢none : {m : Message} → ¬ (◌≡◌ {A = Option Message} (some m) none)
some≢none e = cc

found_at_mono :
    (o : Option Message) (x : Message) (a b : Bool)
    → (a ≡ true → b ≡ true)
    → found_at o x a ≡ true
    → found_at o x b ≡ true
unfolding found_at
found_at_mono none x a b f h = h
found_at_mono (some known) x a b f h = elim (Bool-cases (same_message known x)) [
  | inl e ↦ rw e refl
  | inr e ↦ rw e (f (rw e at h))
]

empty_slot :
    (o : Option Message) (x : Message) (rest : Bool) → o ≡ none → found_at o x rest ≡ true → ⊥
unfolding found_at
empty_slot none x rest e h = cc
empty_slot (some m) x rest e h = some≢none e

slot_absent :
    (o : Option Message) (x : Message) (rest : Bool)
    → ((known : Message) → o ≡ some known → same_message known x ≡ false)
    → ((known : Message) → o ≡ some known → rest ≡ false)
    → found_at o x rest ≡ false
unfolding found_at
slot_absent none x rest absent later = refl
slot_absent (some known) x rest absent later = ap₂ ◌||◌ (absent known refl) (later known refl)

found_known :
    {o : Option Message} (known x : Message) (rest : Bool)
    → o ≡ some known
    → same_message known x ≡ true
    → found_at o x rest ≡ true
unfolding found_at
found_known known x rest h e = ap (λ o. found_at o x rest) h ∙ ap (λ b. b || rest) e

found_later :
    {o : Option Message} (known x : Message) {rest : Bool}
    → o ≡ some known
    → rest ≡ true
    → found_at o x rest ≡ true
unfolding found_at
found_later known x {rest} h e = ap (λ o. found_at o x rest) h ∙ ground (arith, e)

kept_none :
    {o : Option Message} (filled : Decoded) (rest : Option Decoded)
    → o ≡ none
    → kept_at o filled rest ≡ some filled
unfolding kept_at
kept_none filled rest h = ap (λ o. kept_at o filled rest) h

kept_some :
    {o : Option Message} (known : Message) (filled : Decoded) {rest : Option Decoded}
    {final : Decoded}
    → o ≡ some known
    → rest ≡ some final
    → kept_at o filled rest ≡ some final
unfolding kept_at
kept_some known filled {rest} h e = ap (λ o. kept_at o filled rest) h ∙ e

-- What is found stays so.
pub probe_mono :
    (k : ℕ) (t : Decoded) (i j : ℕ) (m x : Message)
    → t j ≡ none
    → probe_decoded k t i x ≡ true
    → probe_decoded k (fill t j m) i x ≡ true
unfolding probe_decoded
probe_mono zero t i j m x e h = refl
probe_mono (suc k) t i j m x e h = elim (Bool-cases (j == i)) [
  | inl b ↦ absurd (empty_slot (t i) x _ (subst (λ s. t s ≡ none) (ground (arith, b)) e) h)
  | inr b ↦
      subst (λ o. found_at o x (probe_decoded k (fill t j m) ((i + 1) % max_results) x) ≡ true)
        (sym (fill_other t j i m (λ q. ground (arith, b, q))))
        (found_at_mono (t i) x (probe_decoded k t ((i + 1) % max_results) x) _
          (probe_mono k t ((i + 1) % max_results) j m x e) h)
]

-- A message that is in no slot is not found, if an empty slot is among the probed ones.
pub probe_absent :
    (k : ℕ) (t : Decoded) (i j : ℕ) (x : Message)
    → i < max_results
    → j < max_results
    → away i j < k
    → t j ≡ none
    → ((s : ℕ) (known : Message) → t s ≡ some known → same_message known x ≡ false)
    → probe_decoded k t i x ≡ false
unfolding probe_decoded
probe_absent zero t i j x hi hj h e absent = absurd (omega (arith, h))
probe_absent (suc k) t i j x hi hj h e absent = slot_absent (t i) x _ (absent i) (λ known f.
    let other : i ≢ j = λ q. some≢none (sym f ∙ ap t q ∙ e) in
    probe_absent k t ((i + 1) % max_results) j x (omega arith) hj
      (omega (arith, h, away_next i j hi hj other)) e absent)

-- The slot that a message is kept in, and that it is found there.
pub record IsKept (k : ℕ) (t : Decoded) (i : ℕ) (m : Message) : Type 0 where
  pub slot : ℕ
  pub within : slot < max_results
  pub empty : t slot ≡ none
  pub kept : probe_free k t i m ≡ some (fill t slot m)
  pub found : probe_decoded k (fill t slot m) i m ≡ true

same_message_refl : (m : Message) → same_message m m ≡ true
same_message_refl m = ground (arith, text_eq_refl m.payload)

pub probe-IsKept :
    (k : ℕ) (t : Decoded) (i j : ℕ) (m : Message)
    → i < max_results
    → j < max_results
    → away i j < k
    → t j ≡ none
    → IsKept k t i m
unfolding probe_decoded probe_free
probe-IsKept zero t i j m hi hj h e = absurd (omega (arith, h))
probe-IsKept (suc k) t i j m hi hj h e = elim (Option-cases (t i)) [
  | inl free ↦ record {
    slot = i;
    within = hi;
    empty = free;
    kept = kept_none (fill t i m) _ free;
    found = found_known m m _ (fill_here t i m) (same_message_refl m);
  }
  | inr (known, f) ↦
      let other : i ≢ j = λ q. some≢none (sym f ∙ ap t q ∙ e) in
      let later =
        probe-IsKept k t ((i + 1) % max_results) j m (omega arith) hj
          (omega (arith, h, away_next i j hi hj other)) e in
      record {
        slot = later.slot;
        within = later.within;
        empty = later.empty;
        kept = kept_some known (fill t i m) f later.kept;
        found =
            found_later known m
              (fill_other t later.slot i m (λ q. some≢none (sym f ∙ ap t (sym q) ∙ later.empty))
                ∙ f)
              later.found;
      }
]

pub same_message→≡ : (m x : Message) → same_message m x ≡ true → m ≡ x
same_message→≡ m x h =
    let (hash, payload) = &&-elim (m.hash == x.hash) (text_eq m.payload x.payload) h in
    ap₂ (λ p h. record { payload = p; hash = h }) (text_eq→≡ m.payload x.payload payload)
      (ground (arith, hash))
