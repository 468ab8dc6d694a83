-- ===== src/HopPlan/RoundTrip.antt =====
-- The list of a plan's names is parsed to the plan.
use airspyhf_wsprd.Common.{
  suc, ◌+◌, ◌≤◌, ◌<◌, ◌≡◌, ◌≢◌, refl, ap, sym, ◌∙◌, Bool, true, false, none, some, List, [], ◌∷◌,
  ◌++◌, arith, length, length-append, All, Text, text_eq_comm, Option-cases, inl, inr,
}
use mathlib.Core.List.{append_assoc, append-nil}
use airspyhf_wsprd.Bands.{BandFrequency, find_in}
use airspyhf_wsprd.HopPlan.{
  HopBand, HopPlan, max_hop_bands, hop_band, has_name, ends_in_comma, add_band, parse_fields,
  finish, parse_list, hop_plan_parse,
}
use airspyhf_wsprd.HopPlan.Table.{IsListed}
use airspyhf_wsprd.HopPlan.Valid.{Distinct, IsPlan, mode_table, has_name-snoc}
use airspyhf_wsprd.HopPlan.Print.{
  join, IsName, split_fields-join, trim-plain, ends_in_comma-names, length-join-le, length-join-pos,
}

abbrev pub names : HopPlan → List Text
names [] = []
names (band ∷ plan) = band.name ∷ names plan

names-IsName :
    (table : List BandFrequency) (plan : HopPlan)
    → All (IsListed table) plan
    → All IsName (names plan)
names-IsName table [] a = tt
names-IsName table (band ∷ plan) a = (
  record { plain = a.0.plain; short = a.0.short; named = a.0.named },
  names-IsName table plan a.1,
)

length-names : (plan : HopPlan) → length (names plan) ≡ length plan
length-names [] = refl
length-names (band ∷ plan) = ap suc (length-names plan)

-- None of the bands to come is there already.
abbrev AllNew : HopPlan → HopPlan → Type 0
AllNew acc plan = All (λ band. has_name band.name acc ≡ false) plan

listed_entry :
    (table : List BandFrequency) (band : HopBand)
    → IsListed table band
    → (e : BandFrequency) × (find_in table band.name ≡ some e) × (hop_band e ≡ band)
listed_entry table band l = elim (Option-cases (find_in table band.name)) [
  | inl e ↦ absurd (ground (arith, l.found))
  | inr (e, h) ↦ (e, h, ground (arith, l.found))
]

add_listed :
    (table : List BandFrequency) (acc : HopPlan) (band : HopBand) (fields : List Text)
    → IsListed table band
    → length acc < max_hop_bands
    → has_name band.name acc ≡ false
    → ends_in_comma fields ≡ false
    → add_band acc (find_in table band.name) fields ≡ some (acc ++ (band ∷ []))
unfolding add_band
add_listed table acc band fields l room fresh tail =
    let (e, h, same) = listed_entry table band l in
    ap (λ o. add_band acc o fields) h
    ∙ ground (arith, l.short, ap (λ b. b.name) same, ap (λ (b : HopBand). acc ++ (b ∷ [])) same)

AllNew-snoc :
    (acc : HopPlan) (band : HopBand) (plan : HopPlan)
    → has_name band.name plan ≡ false
    → AllNew acc plan
    → AllNew (acc ++ (band ∷ [])) plan
unfolding has_name
AllNew-snoc acc band [] h a = tt
AllNew-snoc acc band (next ∷ plan) h a = (
  ground (arith, has_name-snoc next.name acc band, text_eq_comm band.name next.name, a.0),
  AllNew-snoc acc band plan (ground arith) a.1,
)

AllNew-empty : (plan : HopPlan) → AllNew [] plan
unfolding has_name
AllNew-empty [] = tt
AllNew-empty (band ∷ plan) = (refl, AllNew-empty plan)

parse_fields-names :
    (table : List BandFrequency) (acc plan : HopPlan)
    → All (IsListed table) plan
    → Distinct plan
    → AllNew acc plan
    → length acc + length plan ≤ max_hop_bands
    → parse_fields table acc (names plan) ≡ some (acc ++ plan)
unfolding parse_fields
parse_fields-names table acc [] a d n few = ap some (sym (append-nil acc))
parse_fields-names table acc (band ∷ plan) a d n few =
    ap
      (λ f. elim (add_band acc (find_in table f) (names plan)) [
        | none ↦ none
        | some plan' ↦ parse_fields table plan' (names plan)
      ])
      (trim-plain band.name a.0.plain)
    ∙ ap (λ o. elim o [ none ↦ none | some plan' ↦ parse_fields table plan' (names plan) ])
        (add_listed table acc band (names plan) a.0 (omega arith) n.0
          (ends_in_comma-names (names plan) (names-IsName table plan a.1)))
    ∙ parse_fields-names table (acc ++ (band ∷ [])) plan a.1 d.1 (AllNew-snoc acc band plan d.0 n.1)
        (omega (arith, length-append acc (band ∷ [])))
    ∙ ap some (append_assoc acc (band ∷ []) plan)

parse_list-names :
    (table : List BandFrequency) (old plan : HopPlan)
    → IsPlan table plan
    → 2 ≤ length plan
    → parse_list table old (join (names plan)) ≡ (true, plan)
unfolding parse_list finish
parse_list-names table old plan v two =
    let ok = names-IsName table plan v.listed in
    let some_name : names plan ≢ [] = λ q. absurd (omega (arith, ap length q, length-names plan)) in
    let parsed =
      ap (parse_fields table []) (split_fields-join (names plan) some_name ok)
      ∙ parse_fields-names table [] plan v.listed v.distinct (AllNew-empty plan)
          (omega (arith, v.few)) in
    ground (
      arith,
      parsed,
      length-join-pos (names plan) some_name ok,
      length-join-le (names plan) ok,
      length-names plan,
      v.few,
    )

-- Print and parse: the names of a plan of at least two bands, joined by commas, are parsed to that
-- plan, whatever plan there was before.
pub hop_plan_parse-join :
    (ft8 : Bool) (old plan : HopPlan)
    → IsPlan (mode_table ft8) plan
    → 2 ≤ length plan
    → hop_plan_parse ft8 (some old) (some (join (names plan))) ≡ (true, some plan)
unfolding hop_plan_parse mode_table
hop_plan_parse-join ft8 old plan v two =
    ap (λ p. (p.0, some p.1)) (parse_list-names (mode_table ft8) old plan v two)
