-- ===== src/SampleQueue/Invariant.antt =====
-- What holds of a sample queue between two calls: the indices stay in range, each slot owns its
-- block of the buffer, and no `size_t` or `uint64_t` sum wraps.
use airspyhf_wsprd.Common.{
  ℕ, zero, suc, ◌+◌, ◌*◌, ◌/◌, ◌%◌, ◌≤◌, ◌<◌, ◌≡◌, refl, ap, ◌∙◌, true, false, Option, none, some,
  List, arith, length, get_or, Bool-cases, inl, inr,
}
use airspyhf_wsprd.SampleQueue.{
  size_max, saturating_add, SampleQueue, zero_slot, zeroed, System, point_slots, allocate,
  refused_sizes, init,
}

-- `saturating_add` is the sum, held at the greatest `uint64_t`.
pub saturating_add_lem :
    (left right : ℕ)
    → left ≤ size_max
    → ((left + right ≤ size_max) → saturating_add left right ≡ left + right)
      × ((size_max < left + right) → saturating_add left right ≡ size_max)
unfolding saturating_add
saturating_add_lem left right h = (λ p. ground arith, λ p. ground arith)

pub saturating_add-le : (left right : ℕ) → left ≤ size_max → saturating_add left right ≤ size_max
unfolding saturating_add
saturating_add-le left right h = ground arith

-- One slot: it points at its own block, and what it counts fits.
pub record OwnsBlock (q : SampleQueue) (i : ℕ) : Type 0 where
  pub offset : (get_or q.slots i zero_slot).samples ≡ i * (q.element_size * q.block_capacity)
  pub fits : (get_or q.slots i zero_slot).sample_count ≤ q.block_capacity

pub record IsValid (q : SampleQueue) : Type 0 where
  pub slots_len : length q.slots ≡ q.slot_count
  pub storage_len : q.slot_count * (q.element_size * q.block_capacity) ≤ length q.storage
  pub has_slots : 0 < q.slot_count
  pub small : q.slot_count ≤ size_max
  pub count_in : q.count ≤ q.slot_count
  pub tail_in : q.tail < q.slot_count
  pub head_at : q.head ≡ (q.tail + q.count) % q.slot_count
  pub device_in : q.pending_device_drops ≤ size_max
  pub queue_in : q.pending_queue_drops ≤ size_max
  pub owns : (i : ℕ) → i < q.slot_count → OwnsBlock q i

pub head_in : {q : SampleQueue} → IsValid q → q.head < q.slot_count
head_in v = omega arith

length-point_slots : (n i b : ℕ) → length (point_slots n i b) ≡ n
unfolding point_slots
length-point_slots zero i b = refl
length-point_slots (suc n) i b = ap suc (length-point_slots n (i + 1) b)

get_or-point_slots :
    (n i b j : ℕ)
    → j < n
    → get_or (point_slots n i b) j zero_slot ≡ record zero_slot { samples = (i + j) * b }
unfolding point_slots
get_or-point_slots zero i b j h = absurd (omega arith)
get_or-point_slots (suc n) i b zero h = ap (λ k. record zero_slot { samples = k * b }) (omega arith)
get_or-point_slots (suc n) i b (suc j) h =
    get_or-point_slots n (i + 1) b j (omega arith)
    ∙ ap (λ k. record zero_slot { samples = k * b }) (omega arith)

-- A queue as `init` leaves it.
abbrev pub fresh : List ℕ → ℕ → ℕ → ℕ → SampleQueue
fresh bytes e c n = record zeroed {
  slots = point_slots n 0 (e * c);
  storage = bytes;
  element_size = e;
  block_capacity = c;
  slot_count = n;
}

fresh-IsValid :
    (bytes : List ℕ) (e c n : ℕ)
    → 0 < n
    → n ≤ size_max
    → n * (e * c) ≤ length bytes
    → IsValid (fresh bytes e c n)
fresh-IsValid bytes e c n pos small enough = record {
  slots_len = length-point_slots n 0 (e * c);
  storage_len = enough;
  has_slots = pos;
  small = small;
  count_in = omega arith;
  tail_in = pos;
  head_at = omega arith;
  device_in = omega arith;
  queue_in = omega arith;
  owns = λ i h. record {
    offset = ap (λ s. s.samples) (get_or-point_slots n 0 (e * c) i h) ∙ omega arith;
    fits = omega (arith, ap (λ s. s.sample_count) (get_or-point_slots n 0 (e * c) i h));
  };
}

div-le→mul-le : (a b m : ℕ) → 0 < b → a ≤ m / b → a * b ≤ m
div-le→mul-le a b m pos h = grind arith

pos_of_mul : (a b : ℕ) → 0 < a → 0 < b → 0 < a * b
pos_of_mul a b p q = grind arith

record Started (sys : System) (e c n : ℕ) (q : SampleQueue) : Type 0 where
  bytes : List ℕ
  found : sys.storage_found ≡ some bytes
  is_fresh : q ≡ fresh bytes e c n
  e_pos : 0 < e
  c_pos : 0 < c
  n_pos : 0 < n
  n_le : n ≤ size_max / (e * c)

allocate-fresh :
    (sys : System) (e c n : ℕ) (o : Option (List ℕ)) {q : SampleQueue}
    → allocate sys e c n o ≡ (true, q)
    → (bytes : List ℕ) × (o ≡ some bytes) × (q ≡ fresh bytes e c n)
unfolding allocate
allocate-fresh sys e c n none h = cc
allocate-fresh sys e c n (some bytes) h = (bytes, refl, ground arith)

refused_sizes-false :
    (e c n : ℕ)
    → refused_sizes e c n ≡ false
    → (0 < e) × (0 < c) × (0 < n) × (n ≤ size_max / (e * c))
unfolding refused_sizes
refused_sizes-false e c n h = ground arith

init-Started :
    (sys : System) (old : Option SampleQueue) (e c n : ℕ) {q : SampleQueue}
    → init sys old e c n ≡ (true, some q)
    → Started sys e c n q
unfolding init
init-Started sys none e c n h = cc
init-Started sys (some old) e c n {q} h = elim (Bool-cases (refused_sizes e c n)) [
  | inl bad ↦ absurd (ground arith)
  | inr good ↦
      let made : allocate sys e c n sys.storage_found ≡ (true, q) = ground arith in
      let (bytes, found, same) = allocate-fresh sys e c n sys.storage_found made in
      let (e_pos, c_pos, n_pos, n_le) = refused_sizes-false e c n good in
      record {
        bytes = bytes;
        found = found;
        is_fresh = same;
        e_pos = e_pos;
        c_pos = c_pos;
        n_pos = n_pos;
        n_le = n_le;
      }
]

-- A queue that `init` makes is valid and empty, if `malloc` gives as many bytes as it is asked for,
-- and the product of the three sizes has not wrapped.
pub init-IsValid :
    (sys : System) (old : Option SampleQueue) (e c n : ℕ) {q : SampleQueue}
    → ((bytes : List ℕ) → sys.storage_found ≡ some bytes → n * (e * c) ≤ length bytes)
    → init sys old e c n ≡ (true, some q)
    → IsValid q
      × (n * (e * c) ≤ size_max)
      × (q.count ≡ 0)
      × (q.stopping ≡ false)
      × (q.element_size ≡ e)
      × (q.block_capacity ≡ c)
      × (q.slot_count ≡ n)
init-IsValid sys old e c n {q} enough h =
    let s = init-Started sys old e c n h in
    let area = div-le→mul-le n (e * c) size_max (pos_of_mul e c s.e_pos s.c_pos) s.n_le in
    let small : n ≤ size_max = grind arith in
    let valid = fresh-IsValid s.bytes e c n s.n_pos small (enough s.bytes s.found) in
    rw s.is_fresh (valid, area, refl, refl, refl, refl, refl)
