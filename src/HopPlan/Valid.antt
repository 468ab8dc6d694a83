-- ===== src/HopPlan/Valid.antt =====
-- What a plan that was parsed is: two to sixteen bands of the mode's table, none named twice.
use airspyhf_wsprd.Common.{
  ◌≤◌, ◌<◌, ◌≡◌, ◌⊎◌, inl, inr, refl, sym, subst, Bool, true, false, ◌||◌, some, List, [], ◌∷◌,
  ◌++◌, arith, leb, if◌then◌else◌, length, length-append, All, All-append, Text, text_eq,
  text_eq_comm, Option-cases,
}
use airspyhf_wsprd.Bands.{BandFrequency, band_frequencies, ft8_band_frequencies, find_in}
use airspyhf_wsprd.HopPlan.{
  HopBand, HopPlan, max_hop_bands, hop_band, split_fields, trim, has_name, add_band, parse_fields,
  finish, parse_list, hop_plan_parse,
}
use airspyhf_wsprd.HopPlan.Table.{
  IsListed, IsTable, find_in-IsListed, band_frequencies-IsTable, ft8_band_frequencies-IsTable,
}

-- No name stands twice.
abbrev pub Distinct : HopPlan → Type 0
Distinct [] = Unit {0}
Distinct (band ∷ plan) = (has_name band.name plan ≡ false) × Distinct plan

pub record IsPlan (table : List BandFrequency) (plan : HopPlan) : Type 0 where
  pub few : length plan ≤ max_hop_bands
  pub distinct : Distinct plan
  pub listed : All (IsListed table) plan

pub has_name-snoc :
    (name : Text) (plan : HopPlan) (band : HopBand)
    → has_name name (plan ++ (band ∷ [])) ≡ (has_name name plan || text_eq band.name name)
unfolding has_name
has_name-snoc name [] band = ground arith
has_name-snoc name (b ∷ plan) band = ground (arith, has_name-snoc name plan band)

Distinct-snoc :
    (plan : HopPlan) (band : HopBand)
    → has_name band.name plan ≡ false
    → Distinct plan
    → Distinct (plan ++ (band ∷ []))
unfolding has_name
Distinct-snoc [] band h d = (refl, tt)
Distinct-snoc (b ∷ plan) band h d = (
  unfold has_name in
      ground (arith, has_name-snoc b.name plan band, text_eq_comm b.name band.name, d.0),
  Distinct-snoc plan band (ground arith) d.1,
)

-- What the tests of `add_band` have shown of a band that is added.
add_band_tests :
    (plan : HopPlan) (band : BandFrequency) (fields : List Text) {plan' : HopPlan}
    → add_band plan (some band) fields ≡ some plan'
    → (length plan < max_hop_bands)
      × (has_name band.canonical_name plan ≡ false)
      × (plan' ≡ plan ++ (hop_band band ∷ []))
unfolding add_band
add_band_tests plan band fields h = ground arith

add_band-IsPlan :
    (table : List BandFrequency) (plan : HopPlan) (name : Text) (fields : List Text)
    {plan' : HopPlan}
    → IsTable table
    → IsPlan table plan
    → add_band plan (find_in table name) fields ≡ some plan'
    → IsPlan table plan'
add_band-IsPlan table plan name fields {plan'} good v h = elim (Option-cases (find_in table name)) [
  | inl e ↦ absurd (unfold add_band in ground arith)
  | inr (band, e) ↦
      let (room, fresh, same) = add_band_tests plan band fields {plan' = plan'} (rw (← e) h) in
      subst (IsPlan table) (sym same) (record {
        few = omega (arith, length-append plan (hop_band band ∷ []));
        distinct = Distinct-snoc plan (hop_band band) fresh v.distinct;
        listed = All-append _ plan _ v.listed (find_in-IsListed table name good e, tt);
      })
]

parse_fields-IsPlan :
    (table : List BandFrequency) (plan : HopPlan) (fields : List Text) {plan' : HopPlan}
    → IsTable table
    → IsPlan table plan
    → parse_fields table plan fields ≡ some plan'
    → IsPlan table plan'
unfolding parse_fields
parse_fields-IsPlan table plan [] good v h = subst (IsPlan table) (ground arith) v
parse_fields-IsPlan table plan (field ∷ fields) good v h =
    elim (Option-cases (add_band plan (find_in table (trim field)) fields)) [
      | inl e ↦ absurd (ground arith)
      | inr (next, e) ↦
          parse_fields-IsPlan table next fields good
            (add_band-IsPlan table plan (trim field) fields good v e) (ground arith)
    ]

unfoldable pub mode_table : Bool → List BandFrequency
mode_table ft8 = if ft8 then ft8_band_frequencies else band_frequencies

mode_table-IsTable : (ft8 : Bool) → IsTable (mode_table ft8)
unfolding mode_table
mode_table-IsTable true = ft8_band_frequencies-IsTable
mode_table-IsTable false = band_frequencies-IsTable

empty-IsPlan : (table : List BandFrequency) → IsPlan table []
empty-IsPlan table = record { few = omega arith; distinct = tt; listed = tt }

parse_list-IsPlan :
    (table : List BandFrequency) (old : HopPlan) (list : Text) {plan : HopPlan}
    → IsTable table
    → parse_list table old list ≡ (true, plan)
    → IsPlan table plan × (2 ≤ length plan)
unfolding parse_list finish
parse_list-IsPlan table old list {plan} good h =
    elim (Option-cases (parse_fields table [] (split_fields list))) [
      | inl e ↦ absurd (ground arith)
      | inr (last, e) ↦
          let same : plan ≡ last = ground arith in
          let two : leb 2 (length last) ≡ true = ground arith in
          rw same (
            parse_fields-IsPlan table [] (split_fields list) good (empty-IsPlan table) e,
            ground arith,
          )
    ]

-- A list that is accepted makes a plan of two to sixteen bands of the mode's table, and no two have
-- the same name.
pub hop_plan_parse-IsPlan :
    (ft8 : Bool) (old : HopPlan) (list : Text) {plan : HopPlan}
    → hop_plan_parse ft8 (some old) (some list) ≡ (true, some plan)
    → IsPlan (mode_table ft8) plan × (2 ≤ length plan)
unfolding hop_plan_parse mode_table
hop_plan_parse-IsPlan ft8 old list {plan} h =
    parse_list-IsPlan (mode_table ft8) old list (mode_table-IsTable ft8) (ground arith)

-- A list that is refused leaves the old plan, or a plan of at most one band.
hop_plan_parse_refused :
    (ft8 : Bool) (old : HopPlan) (list : Text) {plan : HopPlan}
    → hop_plan_parse ft8 (some old) (some list) ≡ (false, some plan)
    → (plan ≡ old) ⊎ (length plan ≤ 1)
unfolding hop_plan_parse parse_list finish
hop_plan_parse_refused ft8 old list {plan} h =
    elim (Option-cases (
      parse_fields (if ft8 then ft8_band_frequencies else band_frequencies) []
        (split_fields list))) [ inl e ↦ ground arith | inr (last, e) ↦ ground arith ]
