-- ===== src/Ft8/Calls/Saved.antt =====
-- A callsign that has been saved is found by its hash.
use airspyhf_wsprd.Common.{
  true≢false, &&-elim, ℕ, zero, suc, ◌+◌, ◌-◌, ◌/◌, ◌%◌, ◌^◌, ◌≤◌, ◌<◌, ◌≡◌, ◌≢◌, refl, sym, ap,
  ap₂, ◌∙◌, ◌⊎◌, inl, inr, Bool, true, false, none, some, arith, ◌==◌, if◌then◌else◌, length, take,
  take_all, Text, text_eq, text_eq→≡, Bool-cases, ==_refl,
}
use airspyhf_wsprd.Ft8.Calls.{
  table_size, CallsignEntry, CallsignTable, put, hash_bits, home_slot, is_entry_of, probe_save,
  save_callsign, HashType, hash_22_bits, hash_12_bits, hash_10_bits, shift_of, probe_lookup,
  lookup_callsign,
}

put_here : (t : CallsignTable) (i : ℕ) (e : CallsignEntry) → put t i e i ≡ e
put_here t i e = ground arith

put_other : (t : CallsignTable) (i j : ℕ) (e : CallsignEntry) → i ≢ j → put t i e j ≡ t j
put_other t i j e h = ground arith

-- How many slots a slot is ahead.
abbrev away : ℕ → ℕ → ℕ
away i j = (j + table_size - i) % table_size

away_next :
    (i j : ℕ)
    → i < table_size
    → j < table_size
    → i ≢ j
    → suc (away ((i + 1) % table_size) j) ≡ away i j
away_next i j h k other = omega (arith, other)

same_bits :
    (shift a h : ℕ)
    → hash_bits a == hash_bits h ≡ true
    → hash_bits (hash_bits a) / 2 ^ shift == hash_bits h / 2 ^ shift ≡ true
same_bits shift a h e =
    let same : hash_bits (hash_bits a) ≡ hash_bits h = ground (arith, e) in
    ap (λ n. n / 2 ^ shift == hash_bits h / 2 ^ shift) same ∙ ==_refl (hash_bits h / 2 ^ shift)

abbrev pub is_free : CallsignEntry → Bool
is_free entry = length entry.callsign == 0

module _ (shift hash : ℕ) where
  pub lookup_found :
      (k : ℕ) (t : CallsignTable) (i : ℕ) (e : CallsignEntry)
      → t i ≡ e
      → is_free e ≡ false
      → hash_bits e.hash / 2 ^ shift == hash ≡ true
      → probe_lookup (suc k) t i shift hash ≡ some (take 11 e.callsign)
  unfolding probe_lookup
  lookup_found k t i e same occupied h =
      ap
        (λ x.
          if is_free x
          then none
          else if hash_bits x.hash / 2 ^ shift == hash
          then some (take 11 x.callsign)
          else probe_lookup k t ((i + 1) % table_size) shift hash)
        same
      ∙ rw (occupied, h) refl

  pub lookup_later :
      (k : ℕ) (t : CallsignTable) (i : ℕ) (e : CallsignEntry)
      → t i ≡ e
      → is_free e ≡ false
      → hash_bits e.hash / 2 ^ shift == hash ≡ false
      → probe_lookup (suc k) t i shift hash ≡ probe_lookup k t ((i + 1) % table_size) shift hash
  unfolding probe_lookup
  lookup_later k t i e same occupied h =
      ap
        (λ x.
          if is_free x
          then none
          else if hash_bits x.hash / 2 ^ shift == hash
          then some (take 11 x.callsign)
          else probe_lookup k t ((i + 1) % table_size) shift hash)
        same
      ∙ rw (occupied, h) refl

  pub lookup_ends :
      (k : ℕ) (t : CallsignTable) (i : ℕ)
      → is_free (t i) ≡ true
      → probe_lookup (suc k) t i shift hash ≡ none
  unfolding probe_lookup
  lookup_ends k t i h = rw h refl

module _ (c : Text) (h : ℕ) where
  abbrev fresh : CallsignEntry
  fresh = record { callsign = take 11 c; hash = hash_bits h }

  save_free :
      (k : ℕ) (t : CallsignTable) (i : ℕ)
      → is_free (t i) ≡ true
      → probe_save (suc k) t i c h ≡ put t i fresh
  unfolding probe_save
  save_free k t i e = rw e refl

  save_again :
      (k : ℕ) (t : CallsignTable) (i : ℕ)
      → is_free (t i) ≡ false
      → is_entry_of (t i) c h ≡ true
      → probe_save (suc k) t i c h ≡ put t i (record (t i) { hash = hash_bits (t i).hash })
  unfolding probe_save
  save_again k t i e m = rw (e, m) refl

  save_later :
      (k : ℕ) (t : CallsignTable) (i : ℕ)
      → is_free (t i) ≡ false
      → is_entry_of (t i) c h ≡ false
      → probe_save (suc k) t i c h ≡ probe_save k t ((i + 1) % table_size) c h
  unfolding probe_save
  save_later k t i e m = rw (e, m) refl

  -- The slot that is written was free, or had the callsign.
  record IsSaved (shift k : ℕ) (t : CallsignTable) (i : ℕ) : Type 0 where
    slot : ℕ
    entry : CallsignEntry
    target : (is_free (t slot) ≡ true) ⊎ (is_entry_of (t slot) c h ≡ true)
    written : probe_save k t i c h ≡ put t slot entry
    found : probe_lookup k (put t slot entry) i shift (hash_bits h / 2 ^ shift) ≡ some c

  module _ (shift : ℕ) (short : length c ≤ 11) (some_text : 1 ≤ length c) where
    -- No other callsign has the bits of the hash.
    IsOnly : CallsignTable → Type 0
    IsOnly t =
        (i : ℕ)
        → is_free (t i) ≡ false
        → hash_bits (t i).hash / 2 ^ shift == hash_bits h / 2 ^ shift ≡ true
        → (t i).callsign ≡ c

    at_free : (k : ℕ) (t : CallsignTable) (i : ℕ) → is_free (t i) ≡ true → IsSaved shift (suc k) t i
    at_free k t i e = record {
      slot = i;
      entry = fresh;
      target = inl e;
      written = save_free k t i e;
      found =
          lookup_found shift _ k (put t i fresh) i fresh (put_here t i fresh)
            (ap (λ s. length s == 0) (take_all 11 c short) ∙ ground (arith, some_text))
            (ground arith)
          ∙ ap some (ap (take 11) (take_all 11 c short) ∙ take_all 11 c short);
    }

    at_entry :
        (k : ℕ) (t : CallsignTable) (i : ℕ)
        → is_free (t i) ≡ false
        → is_entry_of (t i) c h ≡ true
        → IsSaved shift (suc k) t i
    at_entry k t i e m =
        let again : CallsignEntry = record (t i) { hash = hash_bits (t i).hash } in
        let (hash, callsign) =
          &&-elim (hash_bits (t i).hash == hash_bits h) (text_eq (t i).callsign c) m in
        record {
          slot = i;
          entry = again;
          target = inr m;
          written = save_again k t i e m;
          found =
              lookup_found shift _ k (put t i again) i again (put_here t i again) e
                (same_bits shift (t i).hash h hash)
              ∙ ap some (ap (take 11) (text_eq→≡ (t i).callsign c callsign) ∙ take_all 11 c short);
        }

    -- The written slot is another one than a slot that is taken and has another callsign.
    other_slot :
        (t : CallsignTable) (i s : ℕ)
        → is_free (t i) ≡ false
        → is_entry_of (t i) c h ≡ false
        → (is_free (t s) ≡ true) ⊎ (is_entry_of (t s) c h ≡ true)
        → s ≢ i
    other_slot t i s e m (inl free) q = true≢false (sym free ∙ ap (λ n. is_free (t n)) q ∙ e)
    other_slot t i s e m (inr entry) q =
        true≢false (sym entry ∙ ap (λ n. is_entry_of (t n) c h) q ∙ m)

    at_other :
        (k : ℕ) (t : CallsignTable) (i : ℕ)
        → IsOnly t
        → is_free (t i) ≡ false
        → is_entry_of (t i) c h ≡ false
        → IsSaved shift k t ((i + 1) % table_size)
        → IsSaved shift (suc k) t i
    unfolding IsOnly
    at_other k t i only e m later =
        let stays : put t later.slot later.entry i ≡ t i =
          put_other t later.slot i later.entry (other_slot t i later.slot e m later.target) in
        record {
          slot = later.slot;
          entry = later.entry;
          target = later.target;
          written = save_later k t i e m ∙ later.written;
          found = elim (Bool-cases (hash_bits (t i).hash / 2 ^ shift == hash_bits h / 2 ^ shift)) [
            | inl b ↦
                lookup_found shift _ k (put t later.slot later.entry) i (t i) stays e b
                ∙ ap some (ap (take 11) (only i e b) ∙ take_all 11 c short)
            | inr b ↦
                lookup_later shift _ k (put t later.slot later.entry) i (t i) stays e b
                ∙ later.found
          ];
        }

    save-IsSaved :
        (k : ℕ) (t : CallsignTable) (i j : ℕ)
        → IsOnly t
        → i < table_size
        → j < table_size
        → away i j < k
        → is_free (t j) ≡ true
        → IsSaved shift k t i
    save-IsSaved zero t i j only hi hj near free = absurd (omega (arith, near))
    save-IsSaved (suc k) t i j only hi hj near free = elim (Bool-cases (is_free (t i))) [
      | inl e ↦ at_free k t i e
      | inr e ↦ elim (Bool-cases (is_entry_of (t i) c h)) [
        | inl m ↦ at_entry k t i e m
        | inr m ↦
            let other : i ≢ j = λ q. true≢false (sym free ∙ ap (λ n. is_free (t n)) (sym q) ∙ e) in
            at_other k t i only e m (
              save-IsSaved k t ((i + 1) % table_size) j only (omega arith) hj
                (omega (arith, near, away_next i j hi hj other)) free)
      ]
    ]

-- The three lengths of a hash lead to the same slot.
same_home :
    (hash_type : HashType) (h : ℕ)
    → home_slot (hash_bits h / 2 ^ shift_of hash_type / 2 ^ (12 - shift_of hash_type))
      ≡ home_slot (h / 2 ^ 12)
unfolding shift_of
same_home hash_22_bits h = omega arith
same_home hash_12_bits h = omega arith
same_home hash_10_bits h = omega arith

-- A callsign of 1 to 11 bytes that has been saved is found by its hash of 22, 12 or 10 bits, if there was an
-- empty slot and no other callsign in the table has these bits.
pub lookup_callsign-save_callsign :
    (hash_type : HashType) (table : CallsignTable) (callsign : Text) (hash free : ℕ)
    → 1 ≤ length callsign
    → length callsign ≤ 11
    → free < table_size
    → length (table free).callsign ≡ 0
    → ((i : ℕ)
        → length (table i).callsign == 0 ≡ false
        → hash_bits (table i).hash / 2 ^ shift_of hash_type
            == hash_bits hash / 2 ^ shift_of hash_type
          ≡ true
        → (table i).callsign ≡ callsign)
    → lookup_callsign
        (save_callsign table callsign hash)
        hash_type
        (hash_bits hash / 2 ^ shift_of hash_type)
      ≡ some callsign
unfolding lookup_callsign save_callsign
lookup_callsign-save_callsign hash_type table callsign hash free some_text short within empty only =
    let s =
      save-IsSaved callsign hash (shift_of hash_type) short some_text table_size table
        (home_slot (hash / 2 ^ 12)) free (unfold IsOnly in only) (omega arith) within (omega arith)
        (ground (arith, empty)) in
    ap₂
      (λ t i.
        probe_lookup table_size t i (shift_of hash_type) (hash_bits hash / 2 ^ shift_of hash_type))
      s.written (same_home hash_type hash)
    ∙ s.found
