-- ===== src/BandAdvisor/Json/Examples.antt =====
-- Nested JSON values.
use airspyhf_wsprd.Common.{◌≡◌, some, [], ◌∷◌, ◌++◌, arith, codes}
use airspyhf_wsprd.BandAdvisor.Json.{json_array_end, json_object_end}
use airspyhf_wsprd.BandAdvisor.Json.Nested.{
  single, escape, Items, empty, byte, quoted, group, print, json_ends-print,
}

-- `[]"]"` and `{"\""}`
abbrev array : Items
array = group empty (quoted (single b']' ∷ []) empty)

abbrev object : Items
object = group (quoted (escape b'"' ∷ []) empty) (byte b'[' empty)

json_ends-print_example :
    (json_array_end (print b'[' b']' array ++ (b']' ∷ codes ", 1")) ≡ some 5)
    × (json_object_end (print b'{' b'}' object ++ (b'}' ∷ codes ", 1")) ≡ some 7)
json_ends-print_example =
    json_ends-print array object (codes ", 1") (tt, (((omega arith, omega arith), tt), tt))
      (((tt, tt), tt), (omega arith, omega arith, omega arith, tt))
