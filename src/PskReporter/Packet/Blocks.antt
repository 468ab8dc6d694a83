-- ===== src/PskReporter/Packet/Blocks.antt =====
-- Two blocks in a cleared buffer.
use airspyhf_wsprd.Common.{
  ℕ, ◌+◌, ◌≤◌, ◌≡◌, ap, ◌∙◌, List, ◌++◌, arith, length, length-replicate, replicate, drop, overlay,
  write_at, write_at-append, overlay-drop, overlay-replicate, replicate_add,
}
use mathlib.Core.List.{append_assoc}

-- Two blocks written into a cleared part of a buffer, the second `k` bytes behind the first.
pub two_blocks :
    (packet a s : List ℕ) (k p : ℕ)
    → length a + k + length s + p ≤ length packet
    → write_at
        (write_at (write_at packet 0 (replicate (length a + k + length s + p) 0)) 0 a)
        (length a + k)
        s
      ≡ a ++ (replicate k 0 ++ (s ++ (replicate p 0 ++ drop (length a + k + length s + p) packet)))
unfolding write_at
two_blocks packet a s k p h =
    let total = length a + k + length s + p in
    let left = drop total packet in
    ap (λ b. write_at (overlay b a) (length a + k) s)
      (overlay-drop packet (replicate total 0) (omega (arith, length-replicate {A = ℕ} total 0))
        ∙ ap (λ n. replicate total 0 ++ drop n packet) (length-replicate {A = ℕ} total 0))
    ∙ ap (λ b. write_at b (length a + k) s)
        (overlay-replicate total 0 left a (omega arith)
          ∙ ap (λ n. a ++ (replicate n 0 ++ left)) {y = k + (length s + p)} (omega arith)
          ∙ ap (λ z. a ++ (z ++ left)) (replicate_add {A = ℕ} k (length s + p) 0)
          ∙ ap (λ z. a ++ z) (append_assoc (replicate k 0) (replicate (length s + p) 0) left))
    ∙ write_at-append a (replicate k 0 ++ (replicate (length s + p) 0 ++ left)) k s
    ∙ ap (λ z. a ++ z)
        (ap (λ n. write_at (replicate k 0 ++ (replicate (length s + p) 0 ++ left)) n s)
            {y = length (replicate k 0) + 0} (omega (arith, length-replicate {A = ℕ} k 0))
          ∙ write_at-append (replicate k 0) (replicate (length s + p) 0 ++ left) 0 s
          ∙ ap (λ z. replicate k 0 ++ z)
              (overlay-replicate (length s + p) 0 left s (omega arith)
                ∙ ap (λ n. s ++ (replicate n 0 ++ left)) (omega arith)))
