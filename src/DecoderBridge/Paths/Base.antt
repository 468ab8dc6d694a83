-- ===== src/DecoderBridge/Paths/Base.antt =====
-- The base name of a joined path.
use airspyhf_wsprd.Common.{
  ◌≤◌, ℕ, ◌-◌, ◌≡◌, ◌≢◌, refl, sym, ap, ◌∙◌, Bool, true, false, none, some, [], ◌∷◌, ◌++◌, All,
  arith, ◌==◌, length, get_or, Text, Bool-cases, inl, inr,
}
use mathlib.Core.List.{append-nil}
use airspyhf_wsprd.DecoderBridge.Paths.{
  path_max, separator, join_path, or_here, after_last_slash, or_whole, base_name,
}

-- A file name, with no directory.
abbrev pub HasNoSlash : Text → Type 0
HasNoSlash name = All (λ c. c ≢ b'/') name

after_last_slash-none : (name : Text) → HasNoSlash name → after_last_slash name ≡ none
unfolding after_last_slash or_here
after_last_slash-none [] h = refl
after_last_slash-none (c ∷ name) (h, hs) = rw (after_last_slash-none name hs) (ground (arith, h))

-- A text that ends in a slash, before a name.
after_last_slash-behind :
    (directory name : Text)
    → HasNoSlash name
    → after_last_slash ((directory ++ (b'/' ∷ [])) ++ name) ≡ some name
unfolding after_last_slash or_here
after_last_slash-behind [] name h = rw (after_last_slash-none name h) refl
after_last_slash-behind (c ∷ directory) name h = rw (after_last_slash-behind directory name h) refl

after_last_slash-within :
    (c : ℕ) (directory name : Text)
    → HasNoSlash name
    → get_or (c ∷ directory) (length directory) 0 ≡ b'/'
    → after_last_slash ((c ∷ directory) ++ name) ≡ some name
unfolding after_last_slash or_here
after_last_slash-within c [] name h last = rw (after_last_slash-none name h, last) refl
after_last_slash-within c (d ∷ directory) name h last =
    rw (after_last_slash-within d directory name h last) refl

last_of : (c : ℕ) (directory : Text) → length (c ∷ directory) - 1 ≡ length directory
last_of c directory = omega arith

separator-slash :
    (c : ℕ) (directory : Text)
    → get_or (c ∷ directory) (length directory) 0 == b'/' ≡ true
    → separator (c ∷ directory) ≡ []
unfolding separator
separator-slash c directory e = rw (last_of c directory, e) (ground arith)

separator-other :
    (c : ℕ) (directory : Text)
    → get_or (c ∷ directory) (length directory) 0 == b'/' ≡ false
    → separator (c ∷ directory) ≡ b'/' ∷ []
unfolding separator
separator-other c directory e = rw (last_of c directory, e) (ground arith)

after_last_slash-separator :
    (c : ℕ) (directory name : Text)
    → HasNoSlash name
    → after_last_slash ((c ∷ directory) ++ separator (c ∷ directory) ++ name) ≡ some name
after_last_slash-separator c directory name h =
    elim (Bool-cases (get_or (c ∷ directory) (length directory) 0 == b'/')) [
      | inl e ↦
          ap (λ t. after_last_slash ((c ∷ directory) ++ t ++ name)) (separator-slash c directory e)
          ∙ ap (λ t. after_last_slash (t ++ name)) (append-nil (c ∷ directory))
          ∙ after_last_slash-within c directory name h (ground (arith, e))
      | inr e ↦
          ap (λ t. after_last_slash ((c ∷ directory) ++ t ++ name)) (separator-other c directory e)
          ∙ after_last_slash-behind (c ∷ directory) name h
    ]

base_name-separator :
    (directory name : Text)
    → HasNoSlash name
    → base_name (directory ++ separator directory ++ name) ≡ name
unfolding base_name or_whole separator
base_name-separator [] name h = rw (after_last_slash-none name h) refl
base_name-separator (c ∷ directory) name h =
    ap (or_whole ((c ∷ directory) ++ separator (c ∷ directory) ++ name))
      (after_last_slash-separator c directory name h)

join_path-some :
    (directory name : Text) (allocated : Bool) {path : Text}
    → join_path directory name allocated ≡ some path
    → directory ++ separator directory ++ name ≡ path
unfolding join_path
join_path-some directory name allocated e = grind (arith, e)

-- The base name of a joined path is the name, if that has no slash: whatever the directory is.
base_name-join_path :
    (directory name : Text) (allocated : Bool) {path : Text}
    → HasNoSlash name
    → join_path directory name allocated ≡ some path
    → base_name path ≡ name
base_name-join_path directory name allocated {path} h e =
    ap base_name (sym (join_path-some directory name allocated e))
    ∙ base_name-separator directory name h

pub join_path-short :
    (directory name : Text) (allocated : Bool)
    → length directory ≤ path_max
    → length name ≤ path_max
    → allocated ≡ true
    → join_path directory name allocated ≡ some (directory ++ separator directory ++ name)
unfolding join_path
join_path-short directory name allocated short_directory short_name e =
    ground (arith, short_directory, short_name, e)
