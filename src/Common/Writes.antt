-- ===== src/Common/Writes.antt =====
-- Writes into a flat buffer, one behind the other, put together.
use Prim.Native.Nat.{ℕ, zero, suc, ◌+◌, ◌-◌, ◌≤◌}
use mathlib.Core.Path.{◌≡◌, refl, ap, ◌∙◌}
use mathlib.Core.List.{List, [], ◌∷◌, ◌++◌}
use native.Mathlib.Omega.{arith}
use airspyhf_wsprd.Common.Lists.{length, drop, replicate}
use airspyhf_wsprd.Common.Slices.{overlay, write_at}

module _ {ℓ} {A : Type ℓ} where
  overlay_nil : (xs : List A) → overlay xs [] ≡ xs
  unfolding overlay
  overlay_nil [] = refl
  overlay_nil (x ∷ xs) = refl

  write_at-overlay : (xs a b : List A) → write_at (overlay xs a) (length a) b ≡ overlay xs (a ++ b)
  unfolding overlay write_at
  write_at-overlay [] [] b = refl
  write_at-overlay [] (s ∷ a) b = refl
  write_at-overlay (x ∷ xs) [] b = refl
  write_at-overlay (x ∷ xs) (s ∷ a) b = ap (λ t. s ∷ t) (write_at-overlay xs a b)

  -- Two writes, the second where the first has ended, are one.
  pub write_at-write_at :
      (xs : List A) (o : ℕ) (a b : List A)
      → write_at (write_at xs o a) (o + length a) b ≡ write_at xs o (a ++ b)
  unfolding write_at overlay
  write_at-write_at xs zero a b =
      ap (λ k. write_at (overlay xs a) k b) (omega arith) ∙ write_at-overlay xs a b
  write_at-write_at [] (suc o) a b =
      ap (λ k. write_at [] k b) {y = suc (o + length a)} (omega arith)
  write_at-write_at (x ∷ xs) (suc o) a b =
      ap (λ k. write_at (x ∷ write_at xs o a) k b) {y = suc (o + length a)} (omega arith)
      ∙ ap (λ t. x ∷ t) (write_at-write_at xs o a b)

  -- A write behind a prefix.
  pub write_at-append :
      (xs ys : List A) (k : ℕ) (src : List A)
      → write_at (xs ++ ys) (length xs + k) src ≡ xs ++ write_at ys k src
  unfolding write_at
  write_at-append [] ys k src = ap (λ n. write_at ys n src) (omega arith)
  write_at-append (x ∷ xs) ys k src =
      ap (λ n. write_at (x ∷ (xs ++ ys)) n src) {y = suc (length xs + k)} (omega arith)
      ∙ ap (λ t. x ∷ t) (write_at-append xs ys k src)

  pub overlay-drop :
      (xs src : List A) → length src ≤ length xs → overlay xs src ≡ src ++ drop (length src) xs
  unfolding overlay
  overlay-drop [] [] h = refl
  overlay-drop [] (s ∷ src) h = absurd (omega arith)
  overlay-drop (x ∷ xs) [] h = refl
  overlay-drop (x ∷ xs) (s ∷ src) h = ap (λ t. s ∷ t) (overlay-drop xs src (omega arith))

  pub replicate_add : (m n : ℕ) (a : A) → replicate (m + n) a ≡ replicate m a ++ replicate n a
  replicate_add zero n a = ap (λ k. replicate k a) (omega arith)
  replicate_add (suc m) n a =
      ap (λ k. replicate k a) {y = suc (m + n)} (omega arith)
      ∙ ap (λ t. a ∷ t) (replicate_add m n a)

  -- A source laid over a block of one value leaves the rest of the block.
  pub overlay-replicate :
      (n : ℕ) (a : A) (ys src : List A)
      → length src ≤ n
      → overlay (replicate n a ++ ys) src ≡ src ++ (replicate (n - length src) a ++ ys)
  unfolding overlay
  overlay-replicate zero a ys [] h = overlay_nil ys
  overlay-replicate zero a ys (s ∷ src) h = absurd (omega arith)
  overlay-replicate (suc n) a ys [] h = ap (λ k. replicate k a ++ ys) {x = suc n} (omega arith)
  overlay-replicate (suc n) a ys (s ∷ src) h =
      ap (λ t. s ∷ t) (overlay-replicate n a ys src (omega arith))
      ∙ ap (λ k. s ∷ (src ++ (replicate k a ++ ys))) (omega arith)
