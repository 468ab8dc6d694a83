-- ===== src/BandAdvisor/Json/Nested.antt =====
-- The search for a closing bracket skips whatever is nested, and brackets in strings.
use airspyhf_wsprd.Common.{
  ℕ, suc, ◌+◌, ◌≤◌, ◌≡◌, ◌≢◌, refl, ap, ap₂, ◌∙◌, Bool, true, false, Option, none, some, List, [],
  ◌∷◌, ◌++◌, All, arith, length, length-append, Text,
}
use mathlib.Core.Option
use mathlib.Core.List.{append_assoc}
use airspyhf_wsprd.BandAdvisor.Json.{
  backslash, next_string, next_escaped, next_depth, closes, bracket_end, json_array_end,
  json_object_end,
}

-- What stands in a string: a byte, or one behind a backslash.
pub data StringPart : Type 0 where
  single : ℕ → StringPart
  escape : ℕ → StringPart

-- What stands between two brackets: bytes, strings and what is in brackets itself.
pub data Items : Type 0 where
  empty : Items
  byte : ℕ → Items → Items
  quoted : List StringPart → Items → Items
  group : Items → Items → Items

abbrev pub print_parts : List StringPart → Text
print_parts [] = []
print_parts (single c ∷ parts) = c ∷ print_parts parts
print_parts (escape c ∷ parts) = backslash ∷ c ∷ print_parts parts

abbrev pub IsPart : StringPart → Type 0
IsPart (single c) = (c ≢ b'"') × (c ≢ backslash)
IsPart (escape c) = Unit

-- Two brackets, neither of which is a quote.
module _ (opening closing : ℕ) where
  abbrev pub print : Items → Text
  print empty = []
  print (byte c items) = c ∷ print items
  print (quoted parts items) = b'"' ∷ (print_parts parts ++ (b'"' ∷ print items))
  print (group inner items) = opening ∷ (print inner ++ (closing ∷ print items))

  -- The single bytes are neither brackets nor quotes.
  abbrev pub AreItems : Items → Type 0
  AreItems empty = Unit
  AreItems (byte c items) = (c ≢ b'"') × (c ≢ opening) × (c ≢ closing) × AreItems items
  AreItems (quoted parts items) = All IsPart parts × AreItems items
  AreItems (group inner items) = AreItems inner × AreItems items

  abbrev skip : ℕ → Option ℕ → Option ℕ
  skip n found = Option.map (λ k. n + k) found

  -- One byte that does not close.
  bracket_step :
      (depth : ℕ) (in_string escaped : Bool) (c : ℕ) (cs : Text)
      → closes opening closing depth in_string c ≡ false
      → bracket_end opening closing depth in_string escaped (c ∷ cs)
        ≡ Option.map suc (
            bracket_end opening closing
              (next_depth opening closing depth in_string c)
              (next_string in_string escaped c)
              (next_escaped in_string escaped c)
              cs)
  unfolding bracket_end
  bracket_step depth in_string escaped c cs e = rw e refl

  skip-suc : (n : ℕ) (o : Option ℕ) → Option.map suc (skip n o) ≡ skip (suc n) o
  skip-suc n none = refl
  skip-suc n (some k) = ap some (omega arith)

  skip_zero : (o : Option ℕ) → o ≡ skip 0 o
  skip_zero none = refl
  skip_zero (some k) = ap some (omega arith)

  skip-skip : (m n : ℕ) (o : Option ℕ) → skip m (skip n o) ≡ skip (m + n) o
  skip-skip m n none = refl
  skip-skip m n (some k) = ap some (omega arith)

  in_string_step :
      (depth : ℕ) (c : ℕ) (rest : Text)
      → c ≢ b'"'
      → c ≢ backslash
      → bracket_end opening closing depth true false (c ∷ rest)
        ≡ Option.map suc (bracket_end opening closing depth true false rest)
  in_string_step depth c rest h k =
      bracket_step depth true false c rest refl
      ∙ ap₂ (λ s e. Option.map suc (bracket_end opening closing depth s e rest)) (ground (arith, h))
          (ground (arith, k))

  bracket_end-parts :
      (depth : ℕ) (parts : List StringPart) (rest : Text)
      → All IsPart parts
      → bracket_end opening closing depth true false (print_parts parts ++ rest)
        ≡ skip (length (print_parts parts)) (bracket_end opening closing depth true false rest)
  bracket_end-parts depth [] rest h = skip_zero _
  bracket_end-parts depth (single c ∷ parts) rest (h, hs) =
      in_string_step depth c (print_parts parts ++ rest) h.0 h.1
      ∙ ap (Option.map suc) (bracket_end-parts depth parts rest hs)
      ∙ skip-suc _ _
  bracket_end-parts depth (escape c ∷ parts) rest (h, hs) =
      bracket_step depth true false backslash (c ∷ (print_parts parts ++ rest)) refl
      ∙ ap (Option.map suc) (
          bracket_step depth true true c (print_parts parts ++ rest) refl
          ∙ ap (Option.map suc) (bracket_end-parts depth parts rest hs)
          ∙ skip-suc _ _)
      ∙ skip-suc _ _

  outside_step :
      (depth depth' c : ℕ) (in_string : Bool) (rest : Text)
      → closes opening closing depth false c ≡ false
      → next_depth opening closing depth false c ≡ depth'
      → next_string false false c ≡ in_string
      → bracket_end opening closing depth false false (c ∷ rest)
        ≡ Option.map suc (bracket_end opening closing depth' in_string false rest)
  outside_step depth depth' c in_string rest e deeper inside =
      bracket_step depth false false c rest e
      ∙ ap₂ (λ d s. Option.map suc (bracket_end opening closing d s false rest)) deeper inside

  -- From inside a string to behind its closing quote.
  string_end :
      (depth : ℕ) (rest : Text)
      → bracket_end opening closing depth true false (b'"' ∷ rest)
        ≡ Option.map suc (bracket_end opening closing depth false false rest)
  string_end depth rest = bracket_step depth true false b'"' rest refl

  module _ (opening-ne : opening ≢ b'"') (closing-ne : closing ≢ b'"')
      (distinct : opening ≢ closing) where
    bracket_end-print :
        (items : Items) (depth : ℕ) (rest : Text)
        → AreItems items
        → 1 ≤ depth
        → bracket_end opening closing depth false false (print items ++ rest)
          ≡ skip (length (print items)) (bracket_end opening closing depth false false rest)
    bracket_end-print empty depth rest h deep = skip_zero _
    bracket_end-print (byte c items) depth rest (q, o, k, h) deep =
        outside_step depth depth c false (print items ++ rest) (ground (arith, k))
          (ground (arith, q, o, k)) (ground (arith, q))
        ∙ ap (Option.map suc) (bracket_end-print items depth rest h deep)
        ∙ skip-suc _ _
    bracket_end-print (quoted parts items) depth rest (p, h) deep =
        outside_step depth depth b'"' true _ (ground arith) refl refl
        ∙ ap (Option.map suc) (
            ap (bracket_end opening closing depth true false)
              (append_assoc (print_parts parts) (b'"' ∷ print items) rest)
            ∙ bracket_end-parts depth parts (b'"' ∷ (print items ++ rest)) p
            ∙ ap (skip (length (print_parts parts))) (
                string_end depth (print items ++ rest)
                ∙ ap (Option.map suc) (bracket_end-print items depth rest h deep)
                ∙ skip-suc _ _)
            ∙ skip-skip _ _ _)
        ∙ skip-suc _ _
        ∙ ap (λ n. skip n (bracket_end opening closing depth false false rest))
            (omega (arith, length-append (print_parts parts) (b'"' ∷ print items)))
    bracket_end-print (group inner items) depth rest (hi, h) deep =
        outside_step depth (depth + 1) opening false _ (ground arith) (ground (arith, opening-ne))
          (ground (arith, opening-ne))
        ∙ ap (Option.map suc) (
            ap (bracket_end opening closing (depth + 1) false false)
              (append_assoc (print inner) (closing ∷ print items) rest)
            ∙ bracket_end-print inner (depth + 1) (closing ∷ (print items ++ rest)) hi (omega arith)
            ∙ ap (skip (length (print inner))) (
                outside_step (depth + 1) depth closing false (print items ++ rest)
                  (ground (arith, deep)) (ground (arith, closing-ne, distinct))
                  (ground (arith, closing-ne))
                ∙ ap (Option.map suc) (bracket_end-print items depth rest h deep)
                ∙ skip-suc _ _)
            ∙ skip-skip _ _ _)
        ∙ skip-suc _ _
        ∙ ap (λ n. skip n (bracket_end opening closing depth false false rest))
            (omega (arith, length-append (print inner) (closing ∷ print items)))

    bracket_end-closing :
        (rest : Text) → bracket_end opening closing 1 false false (closing ∷ rest) ≡ some 0
    unfolding bracket_end
    bracket_end-closing rest = ground (arith, closing-ne, distinct)

    bracket_end_found :
        (items : Items) (rest : Text)
        → AreItems items
        → bracket_end opening closing 1 false false (print items ++ (closing ∷ rest))
          ≡ some (length (print items))
    bracket_end_found items rest h =
        bracket_end-print items 1 (closing ∷ rest) h (omega arith)
        ∙ ap (skip (length (print items))) (bracket_end-closing rest)
        ∙ ap some (omega arith)

-- The end of an array and that of an object are found behind any items that stand in them: strings with
-- escapes and brackets of all kinds, and nested arrays or objects.
pub json_ends-print :
    (array object : Items) (rest : Text)
    → AreItems b'[' b']' array
    → AreItems b'{' b'}' object
    → (json_array_end (print b'[' b']' array ++ (b']' ∷ rest))
        ≡ some (length (print b'[' b']' array)))
      × (json_object_end (print b'{' b'}' object ++ (b'}' ∷ rest))
          ≡ some (length (print b'{' b'}' object)))
unfolding json_array_end json_object_end
json_ends-print array object rest a o = (
  bracket_end_found b'[' b']' (λ e. omega (arith, e)) (λ e. omega (arith, e))
      (λ e. omega (arith, e)) array rest a,
  bracket_end_found b'{' b'}' (λ e. omega (arith, e)) (λ e. omega (arith, e))
      (λ e. omega (arith, e)) object rest o,
)
