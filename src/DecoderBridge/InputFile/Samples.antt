-- ===== src/DecoderBridge/InputFile/Samples.antt =====
-- What stands where in the file of the core.
use airspyhf_wsprd.Common.{
  ℕ, zero, suc, ◌+◌, ◌*◌, ◌≤◌, ◌<◌, ◌≡◌, ◌≢◌, refl, sym, subst, ap, ap₂, ◌∙◌, some, List, arith,
  ltb, if_some, ◌==◌, if◌then◌else◌, length, length-set, length-replicate, get_or, get_or-set_self,
  get_or-set_ne, set, replicate, Text, Bool-cases, inl, inr,
}
use airspyhf_wsprd.DecoderBridge.InputFile.{
  C2File, C2Answers, c2_sample_count, interleave, clamp, c2_file, write_c2,
}

module _ {F : Type 0} (null : F) (negate : F → F) where
  -- The pair of sample `k`.
  abbrev pub pair_at : List F → ℕ → F × F
  pair_at interleaved k = (get_or interleaved (k * 2) null, get_or interleaved (k * 2 + 1) null)

  -- One round stores the pair at its place and leaves the others.
  abbrev stored : List F → ℕ → F → F → List F
  stored interleaved index a b = set (set interleaved (index * 2) a) (index * 2 + 1) b

  stored_self :
      (interleaved : List F) (index : ℕ) (a b : F)
      → index * 2 + 1 < length interleaved
      → pair_at (stored interleaved index a b) index ≡ (a, b)
  stored_self interleaved index a b room =
      ap₂ (λ x y. (x, y))
        (get_or-set_ne (set interleaved (index * 2) a) (index * 2 + 1) (index * 2) b null
            (λ e. omega (arith, e))
          ∙ get_or-set_self interleaved (index * 2) a null (omega (arith, room)))
        (get_or-set_self (set interleaved (index * 2) a) (index * 2 + 1) b null
          (omega (arith, length-set interleaved (index * 2) a, room)))

  get_or-stored :
      (interleaved : List F) (index place : ℕ) (a b : F)
      → place ≢ index * 2
      → place ≢ index * 2 + 1
      → get_or (stored interleaved index a b) place null ≡ get_or interleaved place null
  get_or-stored interleaved index place a b here next =
      get_or-set_ne (set interleaved (index * 2) a) (index * 2 + 1) place b null (λ e. next (sym e))
      ∙ get_or-set_ne interleaved (index * 2) place a null (λ e. here (sym e))

  stored-ne :
      (interleaved : List F) (index k : ℕ) (a b : F)
      → index ≢ k
      → pair_at (stored interleaved index a b) k ≡ pair_at interleaved k
  stored-ne interleaved index k a b ne =
      ap₂ (λ x y. (x, y))
        (get_or-stored interleaved index (k * 2) a b (λ e. ne (omega (arith, e)))
          (λ e. omega (arith, e)))
        (get_or-stored interleaved index (k * 2 + 1) a b (λ e. omega (arith, e))
          (λ e. ne (omega (arith, e))))

  length-stored :
      (interleaved : List F) (index : ℕ) (a b : F)
      → length (stored interleaved index a b) ≡ length interleaved
  length-stored interleaved index a b =
      length-set (set interleaved (index * 2) a) (index * 2 + 1) b
      ∙ length-set interleaved (index * 2) a

  module _ (i_samples q_samples : List F) where
    before_kept :
        (left index k : ℕ) (interleaved : List F)
        → k < index
        → pair_at (interleave null negate i_samples q_samples index left interleaved) k
          ≡ pair_at interleaved k
    unfolding interleave
    before_kept zero index k interleaved h = refl
    before_kept (suc left) index k interleaved h =
        before_kept left (index + 1) k _ (omega arith)
        ∙ stored-ne interleaved index k _ _ (λ e. omega (arith, e, h))

    behind_kept :
        (left index k : ℕ) (interleaved : List F)
        → index + left ≤ k
        → pair_at (interleave null negate i_samples q_samples index left interleaved) k
          ≡ pair_at interleaved k
    unfolding interleave
    behind_kept zero index k interleaved h = refl
    behind_kept (suc left) index k interleaved h =
        behind_kept left (index + 1) k _ (omega arith)
        ∙ stored-ne interleaved index k _ _ (λ e. omega (arith, e, h))

    interleave-pair :
        (left index k : ℕ) (interleaved : List F)
        → index ≤ k
        → k < index + left
        → (index + left) * 2 ≤ length interleaved
        → pair_at (interleave null negate i_samples q_samples index left interleaved) k
          ≡ (get_or i_samples k null, negate (get_or q_samples k null))
    unfolding interleave
    interleave-pair zero index k interleaved lo hi room = absurd (omega arith)
    interleave-pair (suc left) index k interleaved lo hi room =
        let a = get_or i_samples index null in
        let b = negate (get_or q_samples index null) in
        elim (Bool-cases (index == k)) [
          | inl e ↦
              let here : index ≡ k = ground (arith, e) in
              before_kept left (index + 1) k (stored interleaved index a b) (omega (arith, here))
              ∙ ap (pair_at (stored interleaved index a b)) (sym here)
              ∙ stored_self interleaved index a b (omega (arith, room))
              ∙ ap (λ n. (get_or i_samples n null, negate (get_or q_samples n null))) here
          | inr ne ↦
              interleave-pair left (index + 1) k (stored interleaved index a b)
                (ground (arith, ne, lo)) (omega (arith, hi))
                (omega (arith, room, length-stored interleaved index a b))
        ]

    length-interleave :
        (left index : ℕ) (interleaved : List F)
        → length (interleave null negate i_samples q_samples index left interleaved)
          ≡ length interleaved
    unfolding interleave
    length-interleave zero index interleaved = refl
    length-interleave (suc left) index interleaved =
        length-interleave left (index + 1) _ ∙ length-stored interleaved index _ _

    -- The samples that there are, and zeros behind them.
    abbrev pub frame_pair : ℕ → ℕ → F × F
    frame_pair sample_count k =
        if ltb k sample_count
        then (get_or i_samples k null, negate (get_or q_samples k null))
        else (null, null)

    get_or-replicate : (n i : ℕ) → get_or (replicate n null) i null ≡ null
    get_or-replicate zero i = refl
    get_or-replicate (suc n) zero = refl
    get_or-replicate (suc n) (suc i) = get_or-replicate n i

    interleave-frame_pair :
        (size count k : ℕ)
        → count ≤ size
        → pair_at (interleave null negate i_samples q_samples 0 count (replicate (size * 2) null)) k
          ≡ frame_pair count k
    interleave-frame_pair size count k within = elim (Bool-cases (ltb k count)) [
      | inl e ↦ rw e (
          interleave-pair count 0 k (replicate (size * 2) null) (omega arith) (ground (arith, e))
            (omega (arith, within, length-replicate (size * 2) null)))
      | inr e ↦ rw e (
          behind_kept count 0 k (replicate (size * 2) null) (ground (arith, e))
          ∙ ap₂ (λ x y. (x, y)) (get_or-replicate (size * 2) (k * 2))
              (get_or-replicate (size * 2) (k * 2 + 1)))
    ]

    clamp-frame_pair :
        (sample_count k : ℕ)
        → k < c2_sample_count
        → frame_pair (clamp null negate sample_count) k ≡ frame_pair sample_count k
    clamp-frame_pair sample_count k h = ground arith

  -- A file that is written has 45000 pairs: sample k of the frame, with its Q component negated, for each of
  -- the first `sample_count`, and zeros for the others.
  pub write_c2-frame_pair :
      (answers : C2Answers) (path : Text) (i_samples q_samples : List F) (sample_count : ℕ)
      (mhz : F) (k : ℕ) {file : C2File F}
      → k < c2_sample_count
      → write_c2 null negate answers path i_samples q_samples sample_count mhz ≡ some file
      → (length file.interleaved ≡ c2_sample_count * 2)
        × (pair_at file.interleaved k ≡ frame_pair i_samples q_samples sample_count k)
  unfolding write_c2 c2_file
  write_c2-frame_pair answers path i_samples q_samples sample_count mhz k {file} h e =
      let (ok, same) =
        if_some _ (c2_file null negate path i_samples q_samples sample_count mhz) file e in
      subst
        (λ f.
          (length f.interleaved ≡ c2_sample_count * 2)
          × (pair_at f.interleaved k ≡ frame_pair i_samples q_samples sample_count k))
        (sym same)
        (
          length-interleave i_samples q_samples (clamp null negate sample_count) 0 _
              ∙ length-replicate (c2_sample_count * 2) null,
          interleave-frame_pair i_samples q_samples c2_sample_count (clamp null negate sample_count)
                k (ground arith)
              ∙ clamp-frame_pair i_samples q_samples sample_count k h,
        )
