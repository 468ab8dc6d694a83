-- ===== src/Station/Locator.antt =====
-- `station_normalize_grid` writes the one canonical spelling of its input.
use airspyhf_wsprd.Common.{
  ℕ, ◌<◌, ◌≡◌, ◌⊎◌, refl, ap, ◌∙◌, Bool, true, false, ◌&&◌, Option, none, some, Text, [], ◌∷◌, leb,
  length, text_case_eq, length-text_case_eq, arith, ◌↔◌, inl, inr, if◌then◌else◌,
}
use airspyhf_wsprd.Station.{normalize_fields, normalize_grid}
use airspyhf_wsprd.Station.Grid.{
  is_locator, field_unique, digit_unique, subsquare_unique, fields4, fields6, Spells, sound4,
  sound6,
}

split4 :
    (p q r s : Bool) → (p && q && r && s) ≡ true → (p ≡ true) × (q ≡ true) × (r ≡ true) × (s ≡ true)
split4 p q r s h = ground arith

split_chain4 :
    (p q r s t : Bool)
    → (p && (q && (r && (s && t)))) ≡ true
    → (p ≡ true) × (q ≡ true) × (r ≡ true) × (s ≡ true) × (t ≡ true)
split_chain4 p q r s t h = ground arith

complete4 :
    (a b c d : ℕ) (t : Text)
    → is_locator t ≡ true
    → text_case_eq t (a ∷ b ∷ c ∷ d ∷ []) ≡ true
    → normalize_fields (a ∷ b ∷ c ∷ d ∷ []) ≡ some t
unfolding is_locator text_case_eq
complete4 a b c d (x ∷ y ∷ z ∷ w ∷ []) l e =
    let (lx, ly, lz, lw) = split4 _ _ _ _ l in
    let (ex, ey, ez, ew, _) = split_chain4 _ _ _ _ _ e in
    let (fa, xa) = field_unique x a lx ex in
    let (fb, yb) = field_unique y b ly ey in
    let (dc, zc) = digit_unique z c lz ez in
    let (dd, wd) = digit_unique w d lw ew in rw (fields4 a b c d, fa, fb, dc, dd, xa, yb, zc, wd)
complete4 a b c d t l e = absurd (omega (arith, length-text_case_eq t (a ∷ b ∷ c ∷ d ∷ []) e))

split6 :
    (p q r s t u : Bool)
    → (p && q && r && s && t && u) ≡ true
    → (p ≡ true) × (q ≡ true) × (r ≡ true) × (s ≡ true) × (t ≡ true) × (u ≡ true)
split6 p q r s t u h = ground arith

split_chain6 :
    (p q r s t u : Bool)
    → (p && (q && (r && (s && (t && (u && true)))))) ≡ true
    → (p ≡ true) × (q ≡ true) × (r ≡ true) × (s ≡ true) × (t ≡ true) × (u ≡ true)
split_chain6 p q r s t u h = ground arith

complete6 :
    (a b c d e f : ℕ) (t : Text)
    → is_locator t ≡ true
    → text_case_eq t (a ∷ b ∷ c ∷ d ∷ e ∷ f ∷ []) ≡ true
    → normalize_fields (a ∷ b ∷ c ∷ d ∷ e ∷ f ∷ []) ≡ some t
unfolding is_locator text_case_eq
complete6 a b c d e f (x ∷ y ∷ z ∷ w ∷ u ∷ v ∷ []) l h =
    let (lx, ly, lz, lw, lu, lv) = split6 _ _ _ _ _ _ l in
    let (hx, hy, hz, hw, hu, hv) = split_chain6 _ _ _ _ _ _ h in
    let (fa, xa) = field_unique x a lx hx in
    let (fb, yb) = field_unique y b ly hy in
    let (dc, zc) = digit_unique z c lz hz in
    let (dd, wd) = digit_unique w d lw hw in
    let (se, ue) = subsquare_unique u e lu hu in
    let (sf, vf) = subsquare_unique v f lv hv in
    rw (fields6 a b c d e f, fa, fb, dc, dd, se, sf, xa, yb, zc, wd, ue, vf)
complete6 a b c d e f t l h =
    absurd (omega (arith, length-text_case_eq t (a ∷ b ∷ c ∷ d ∷ e ∷ f ∷ []) h))

-- The lengths that a locator has.
four_or_six : (s : Text) → is_locator s ≡ true → (length s ≡ 4) ⊎ (length s ≡ 6)
unfolding is_locator
four_or_six (a ∷ b ∷ c ∷ d ∷ []) h = inl refl
four_or_six (a ∷ b ∷ c ∷ d ∷ e ∷ f ∷ []) h = inr refl
four_or_six _ h = absurd (cc)

guarded :
    (b : Bool) (o : Option Text) (t : Text)
    → (if b then none else o) ≡ some t
    → (b ≡ false) × (o ≡ some t)
guarded true o t h = absurd (cc)
guarded false o t h = (refl, h)

grid_sound :
    (size : ℕ) (s t : Text)
    → normalize_grid true size (some s) ≡ some t
    → Spells t s × (length s < size)
unfolding normalize_grid
grid_sound size (a ∷ b ∷ c ∷ d ∷ []) t h =
    let (room, run) = guarded (leb size 4) (normalize_fields (a ∷ b ∷ c ∷ d ∷ [])) t h in
    (sound4 a b c d t run, ground arith)
grid_sound size (a ∷ b ∷ c ∷ d ∷ e ∷ f ∷ []) t h =
    let (room, run) = guarded (leb size 6) (normalize_fields (a ∷ b ∷ c ∷ d ∷ e ∷ f ∷ [])) t h in
    (sound6 a b c d e f t run, ground arith)
grid_sound size _ t h = absurd (ground arith)

grid_complete :
    (size : ℕ) (s t : Text)
    → Spells t s
    → length s < size
    → normalize_grid true size (some s) ≡ some t
unfolding normalize_grid
grid_complete size (a ∷ b ∷ c ∷ d ∷ []) t h r =
    ap (λ x. if x then none else normalize_fields (a ∷ b ∷ c ∷ d ∷ [])) {y = false} (ground arith)
    ∙ complete4 a b c d t h.0 h.1
grid_complete size (a ∷ b ∷ c ∷ d ∷ e ∷ f ∷ []) t h r =
    ap (λ x. if x then none else normalize_fields (a ∷ b ∷ c ∷ d ∷ e ∷ f ∷ [])) {y = false}
      (ground arith)
    ∙ complete6 a b c d e f t h.0 h.1
grid_complete size s t h r = absurd (ground (arith, four_or_six t h.0, length-text_case_eq t s h.1))

-- With an output buffer, `station_normalize_grid` writes `t` exactly if `t` is the canonical
-- spelling of a locator, differs from the input in case alone, and fits the buffer with its NUL.
pub normalize_grid_iff :
    (size : ℕ) (s t : Text)
    → (normalize_grid true size (some s) ≡ some t)
      ↔ ((is_locator t ≡ true) × (text_case_eq t s ≡ true) × (length s < size))
normalize_grid_iff size s t = (
  λ h. let (spells, room) = grid_sound size s t h in (spells.0, spells.1, room),
  λ (l, e, r). grid_complete size s t (l, e) r,
)
