-- ===== src/BandAdvisor/Json/Fuel.antt =====
-- The length of the text is enough fuel for the search of a value.
use airspyhf_wsprd.Common.{
  ℕ, zero, suc, ◌≤◌, ◌≡◌, refl, true, false, Option, none, some, [], ◌∷◌, arith, ◌==◌, length, Text,
  text_eq, Bool-cases, inl, inr,
}
use airspyhf_wsprd.HopPlan.{trim_left}
use airspyhf_wsprd.BandAdvisor.Json.{
  backslash, add_bytes, split_key, behind_key, at_key, find_value, json_object_value,
}

length-trim_left : (s : Text) → length (trim_left s) ≤ length s
unfolding trim_left
length-trim_left [] = omega arith
length-trim_left (c ∷ cs) = ground (arith, length-trim_left cs)

-- The rest behind a key is no longer than the text.
abbrev IsShort : ℕ → Option (Text × Text) → Type 0
IsShort n none = Unit
IsShort n (some split) = length (split.1) ≤ n

add_bytes-IsShort :
    (n : ℕ) (before : Text) (o : Option (Text × Text))
    → IsShort n o
    → IsShort n (add_bytes before o)
add_bytes-IsShort n before none h = h
add_bytes-IsShort n before (some split) h = h

split_key_quote :
    (c d : ℕ) (cs : Text) → (c == b'"') ≡ true → split_key (c ∷ d ∷ cs) ≡ some ([], d ∷ cs)
unfolding split_key
split_key_quote c d cs e = rw e refl

split_key_escape :
    (c d : ℕ) (cs : Text)
    → (c == b'"') ≡ false
    → (c == backslash) ≡ true
    → split_key (c ∷ d ∷ cs) ≡ add_bytes (c ∷ d ∷ []) (split_key cs)
unfolding split_key
split_key_escape c d cs e f = rw (e, f) refl

split_key_single :
    (c d : ℕ) (cs : Text)
    → (c == b'"') ≡ false
    → (c == backslash) ≡ false
    → split_key (c ∷ d ∷ cs) ≡ add_bytes (c ∷ []) (split_key (d ∷ cs))
unfolding split_key
split_key_single c d cs e f = rw (e, f) refl

-- One step, with what the calls for the rest have given.
split_key_step :
    (c d : ℕ) (cs : Text) (n : ℕ)
    → length (c ∷ d ∷ cs) ≤ n
    → IsShort n (split_key cs)
    → IsShort n (split_key (d ∷ cs))
    → IsShort n (split_key (c ∷ d ∷ cs))
split_key_step c d cs n h skipped single = elim (Bool-cases (c == b'"')) [
  | inl e ↦ rw (split_key_quote c d cs e) (omega (arith, h))
  | inr e ↦ elim (Bool-cases (c == backslash)) [
    | inl f ↦
        rw (split_key_escape c d cs e f) (add_bytes-IsShort n (c ∷ d ∷ []) (split_key cs) skipped)
    | inr f ↦
        rw (split_key_single c d cs e f) (add_bytes-IsShort n (c ∷ []) (split_key (d ∷ cs)) single)
  ]
]

split_key-IsShort : (s : Text) (n : ℕ) → length s ≤ n → IsShort n (split_key s)
split_key-IsShort [] n h = unfold split_key in tt
split_key-IsShort (c ∷ []) n h = elim (Bool-cases (c == b'"')) [
  | inl e ↦ unfold split_key in rw e (omega arith)
  | inr e ↦ unfold split_key in rw e tt
]
split_key-IsShort (c ∷ d ∷ cs) n h =
    let skipped = split_key-IsShort cs n (omega (arith, h)) in
    let single = split_key-IsShort (d ∷ cs) n (omega (arith, h)) in
    split_key_step c d cs n h skipped single

-- Two loops that agree on the texts of no more than `n` bytes.
abbrev Agree : ℕ → (Text → Option Text) → (Text → Option Text) → Type 0
Agree n go go' = (t : Text) → length t ≤ n → go t ≡ go' t

behind_key-Agree :
    (n : ℕ) (go go' : Text → Option Text) (wanted key t : Text)
    → Agree n go go'
    → length t ≤ n
    → behind_key go wanted key t ≡ behind_key go' wanted key t
unfolding behind_key
behind_key-Agree n go go' wanted key [] agree h = refl
behind_key-Agree n go go' wanted key (c ∷ cs) agree h = elim (Bool-cases (c == b':')) [
  | inl e ↦ elim (Bool-cases (text_eq key wanted)) [
    | inl f ↦ rw (e, f) refl
    | inr f ↦ rw (e, f) (agree (trim_left cs) (omega (arith, length-trim_left cs, h)))
  ]
  | inr e ↦ rw e (agree cs (omega (arith, h)))
]

at_key-Agree :
    (n : ℕ) (go go' : Text → Option Text) (wanted : Text) (o : Option (Text × Text))
    → Agree n go go'
    → IsShort n o
    → at_key go wanted o ≡ at_key go' wanted o
unfolding at_key
at_key-Agree n go go' wanted none agree h = refl
at_key-Agree n go go' wanted (some (key, rest)) agree h =
    behind_key-Agree n go go' wanted key (trim_left rest) agree
      (omega (arith, length-trim_left rest, h))

find_value_step :
    (f g : ℕ) (wanted : Text) (c : ℕ) (cs : Text)
    → Agree (length cs) (find_value f wanted) (find_value g wanted)
    → find_value (suc f) wanted (c ∷ cs) ≡ find_value (suc g) wanted (c ∷ cs)
unfolding find_value
find_value_step f g wanted c cs agree = elim (Bool-cases (c == b'"')) [
  | inl e ↦ rw e (
      at_key-Agree (length cs) (find_value f wanted) (find_value g wanted) wanted (split_key cs)
        agree (split_key-IsShort cs (length cs) (omega arith)))
  | inr e ↦ rw e (agree cs (omega arith))
]

find_value_enough :
    (f g : ℕ) (wanted t : Text)
    → length t ≤ f
    → length t ≤ g
    → find_value f wanted t ≡ find_value g wanted t
find_value_enough zero zero wanted t h k = refl
find_value_enough zero (suc g) wanted [] h k = unfold find_value in refl
find_value_enough zero (suc g) wanted (c ∷ cs) h k = absurd (omega arith)
find_value_enough (suc f) zero wanted [] h k = unfold find_value in refl
find_value_enough (suc f) zero wanted (c ∷ cs) h k = absurd (omega arith)
find_value_enough (suc f) (suc g) wanted [] h k = unfold find_value in refl
find_value_enough (suc f) (suc g) wanted (c ∷ cs) h k =
    find_value_step f g wanted c cs
      (λ t n. find_value_enough f g wanted t (omega (arith, n, h)) (omega (arith, n, k)))

-- The value that is found does not depend on the fuel.
pub json_object_value_lem :
    (fuel : ℕ) (wanted t : Text)
    → length t ≤ fuel
    → find_value fuel wanted t ≡ json_object_value t wanted
unfolding json_object_value
json_object_value_lem fuel wanted t h = find_value_enough fuel (length t) wanted t h (omega arith)
