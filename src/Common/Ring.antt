-- ===== src/Common/Ring.antt =====
-- The window of a ring buffer: `n` entries from index `h` on, going round at `cap`. Both queues of
-- the program keep their entries so.
use Prim.Native.Nat.{ℕ, zero, suc, ◌+◌, ◌-◌, ◌%◌, ◌<◌}
use mathlib.Core.Path.{◌≡◌, refl, sym, ap, ap₂, ◌∙◌}
use mathlib.Core.Logic.{◌≢◌}
use mathlib.Core.List.{List, [], ◌∷◌, ◌++◌}
use native.Mathlib.Nat.{mod-add-mod, mod-eq_of_lt, mod-eq-sub-mod, add-zero}
use native.Mathlib.Decide.{dec_lt}
use native.Mathlib.Omega.{arith}
use airspyhf_wsprd.Common.Lists.{length}

-- The entry at an index is given by a function, so that an entry may be read through a pointer.
module _ {ℓ} {A : Type ℓ} (cap : ℕ) where
  abbrev pub window : (ℕ → A) → ℕ → ℕ → List A
  window at h zero = []
  window at h (suc n) = at h ∷ window at ((h + 1) % cap) n

  pub length-window : (at : ℕ → A) (h n : ℕ) → length (window at h n) ≡ n
  length-window at h zero = refl
  length-window at h (suc n) = ap suc (length-window at ((h + 1) % cap) n)

  pub window_of_pos :
      (at : ℕ → A) (h n : ℕ) → n ≢ 0 → window at h n ≡ at h ∷ window at ((h + 1) % cap) (n - 1)
  window_of_pos at h zero p = absurd (p refl)
  window_of_pos at h (suc n) p = ap (λ k. at h ∷ window at ((h + 1) % cap) k) (omega arith)

-- Fewer than `cap` steps forward from `h` lead elsewhere.
pub step_elsewhere : (cap h k : ℕ) → h < cap → 0 < k → k < cap → (h + k) % cap ≢ h
step_elsewhere cap h k hh pos hk = elim (dec_lt (h + k) cap) [
  | yes p ↦ omega (arith, mod-eq_of_lt p)
  | no p ↦ omega (
    arith,
    mod-eq-sub-mod {n = h + k} {m = cap} (omega arith),
    mod-eq_of_lt {n = h + k - cap} {m = cap} (omega arith),
  )
]

pub shift_index : (cap h n : ℕ) → (h + suc n) % cap ≡ ((h + 1) % cap + n) % cap
shift_index cap h n = rw mod-add-mod (ap (λ k. k % cap) (omega arith))

module _ {ℓ} {A : Type ℓ} (cap : ℕ) where
  -- Two buffers that agree but at one index outside the window have the same window.
  pub window_agree :
      (at at' : ℕ → A) (h n i : ℕ)
      → h < cap
      → n < cap
      → i ≡ (h + n) % cap
      → ((j : ℕ) → j < cap → i ≢ j → at' j ≡ at j)
      → window cap at' h n ≡ window cap at h n
  window_agree at at' h zero i hh hn e same = refl
  window_agree at at' h (suc n) i hh hn e same =
      ap₂ ◌∷◌ (same h hh (λ q. step_elsewhere cap h (suc n) hh (omega arith) hn (omega arith))) (
        window_agree at at' ((h + 1) % cap) n i (omega arith) (omega arith)
          (e ∙ shift_index cap h n) same)

  pub window_snoc :
      (at : ℕ → A) (h n : ℕ)
      → h < cap
      → window cap at h (suc n) ≡ window cap at h n ++ (at ((h + n) % cap) ∷ [])
  window_snoc at h zero hh = ap (λ k. at k ∷ []) (rw (add-zero, mod-eq_of_lt hh))
  window_snoc at h (suc n) hh =
      ap (λ t. at h ∷ t)
        (window_snoc at ((h + 1) % cap) n (omega arith)
          ∙ ap (λ k. window cap at ((h + 1) % cap) n ++ (at k ∷ []))
              (omega (arith, shift_index cap h n)))

  -- Writing the entry just past a window that leaves room extends the window by that entry.
  pub window_push :
      (at at' : ℕ → A) (h n i : ℕ) (v : A)
      → h < cap
      → n < cap
      → i ≡ (h + n) % cap
      → at' i ≡ v
      → ((j : ℕ) → j < cap → i ≢ j → at' j ≡ at j)
      → window cap at' h (suc n) ≡ window cap at h n ++ (v ∷ [])
  window_push at at' h n i v hh hn e new same =
      window_snoc at' h n hh
      ∙ ap₂ (λ w x. w ++ (x ∷ [])) (window_agree at at' h n i hh hn e same) (ap at' (sym e) ∙ new)
