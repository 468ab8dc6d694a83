-- ===== src/Common/Slices.antt =====
-- `memcpy` into and out of a flat buffer: reading a slice, writing one, and when they do not meet.
use Prim.Native.Nat.{ℕ, zero, suc, ◌+◌, ◌≤◌}
use mathlib.Core.Path.{◌≡◌, refl, ap}
use mathlib.Core.List.{List, [], ◌∷◌}
use native.Mathlib.Omega.{arith}
use airspyhf_wsprd.Common.Lists.{length, take}

module _ {ℓ} {A : Type ℓ} where
  -- The `n` items from offset `o` on.
  unfoldable pub read_at : List A → ℕ → ℕ → List A
  read_at xs zero n = take n xs
  read_at [] (suc o) n = []
  read_at (x ∷ xs) (suc o) n = read_at xs o n

  -- The source laid over the start of a buffer; what would stick out is not written.
  unfoldable pub overlay : List A → List A → List A
  overlay [] src = []
  overlay (x ∷ xs) [] = x ∷ xs
  overlay (x ∷ xs) (s ∷ src) = s ∷ overlay xs src

  unfoldable pub write_at : List A → ℕ → List A → List A
  unfolding overlay
  write_at xs zero src = overlay xs src
  write_at [] (suc o) src = []
  write_at (x ∷ xs) (suc o) src = x ∷ write_at xs o src

module _ {ℓ} {A : Type ℓ} where
  length-overlay : (xs src : List A) → length (overlay xs src) ≡ length xs
  unfolding overlay
  length-overlay [] src = refl
  length-overlay (x ∷ xs) [] = refl
  length-overlay (x ∷ xs) (s ∷ src) = ap suc (length-overlay xs src)

  pub length-write_at :
      (xs : List A) (o : ℕ) (src : List A) → length (write_at xs o src) ≡ length xs
  unfolding write_at
  length-write_at [] zero src = refl
  length-write_at (x ∷ xs) zero src = length-overlay (x ∷ xs) src
  length-write_at [] (suc o) src = refl
  length-write_at (x ∷ xs) (suc o) src = ap suc (length-write_at xs o src)

  take-overlay :
      (xs src : List A) → length src ≤ length xs → take (length src) (overlay xs src) ≡ src
  unfolding overlay
  take-overlay [] [] h = refl
  take-overlay [] (s ∷ src) h = absurd (omega arith)
  take-overlay (x ∷ xs) [] h = refl
  take-overlay (x ∷ xs) (s ∷ src) h = ap (λ t. s ∷ t) (take-overlay xs src (omega arith))

  -- What was written is read back.
  pub read_at-write_at_self :
      (xs : List A) (o : ℕ) (src : List A)
      → o + length src ≤ length xs
      → read_at (write_at xs o src) o (length src) ≡ src
  unfolding read_at write_at
  read_at-write_at_self [] zero src h = take-overlay [] src (omega arith)
  read_at-write_at_self (x ∷ xs) zero src h = take-overlay (x ∷ xs) src (omega arith)
  read_at-write_at_self [] (suc o) src h = absurd (omega arith)
  read_at-write_at_self (x ∷ xs) (suc o) src h = read_at-write_at_self xs o src (omega arith)

  take-write_at :
      (xs : List A) (n p : ℕ) (src : List A) → n ≤ p → take n (write_at xs p src) ≡ take n xs
  unfolding write_at
  take-write_at xs zero p src h = refl
  take-write_at xs (suc n) zero src h = absurd (omega arith)
  take-write_at [] (suc n) (suc p) src h = refl
  take-write_at (x ∷ xs) (suc n) (suc p) src h =
      ap (λ t. x ∷ t) (take-write_at xs n p src (omega arith))

  read_at-overlay :
      (xs : List A) (o n : ℕ) (src : List A)
      → length src ≤ o
      → read_at (overlay xs src) o n ≡ read_at xs o n
  unfolding read_at overlay
  read_at-overlay [] zero n src h = refl
  read_at-overlay [] (suc o) n src h = refl
  read_at-overlay (x ∷ xs) o n [] h = refl
  read_at-overlay (x ∷ xs) zero n (s ∷ src) h = absurd (omega arith)
  read_at-overlay (x ∷ xs) (suc o) n (s ∷ src) h = read_at-overlay xs o n src (omega arith)

  -- A slice that ends before the write begins is unchanged.
  pub read_at-write_at_before :
      (xs : List A) (o n p : ℕ) (src : List A)
      → o + n ≤ p
      → read_at (write_at xs p src) o n ≡ read_at xs o n
  unfolding read_at write_at
  read_at-write_at_before xs zero n p src h = take-write_at xs n p src (omega arith)
  read_at-write_at_before xs (suc o) n zero src h = absurd (omega arith)
  read_at-write_at_before [] (suc o) n (suc p) src h = refl
  read_at-write_at_before (x ∷ xs) (suc o) n (suc p) src h =
      read_at-write_at_before xs o n p src (omega arith)

  -- A slice that begins where the write has ended is unchanged.
  pub read_at-write_at_after :
      (xs : List A) (o n p : ℕ) (src : List A)
      → p + length src ≤ o
      → read_at (write_at xs p src) o n ≡ read_at xs o n
  unfolding read_at write_at
  read_at-write_at_after xs o n zero src h = read_at-overlay xs o n src (omega arith)
  read_at-write_at_after xs zero n (suc p) src h = absurd (omega arith)
  read_at-write_at_after [] (suc o) n (suc p) src h = refl
  read_at-write_at_after (x ∷ xs) (suc o) n (suc p) src h =
      read_at-write_at_after xs o n p src (omega arith)
