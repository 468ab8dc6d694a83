-- ===== src/BandAdvisor/Monitor/Plan.antt =====
-- The plan of `ft8_monitor_parse_response` is the ranking of what it has counted.
use airspyhf_wsprd.Common.{
  true≢false, ℕ, zero, suc, ◌+◌, ◌-◌, ◌≤◌, ◌≡◌, refl, sym, subst, ap, ◌∙◌, Bool, true, false, ◌||◌,
  Option, none, some, List, [], ◌∷◌, ◌++◌, inl, inr, All, All-append, arith, ltb, ◌==◌, length,
  length-append, length-replicate, take, drop, replicate, get_elem?, Text, codes, Bool-cases, set,
}
use airspyhf_wsprd.HopPlan.{HopBand, HopPlan, max_hop_bands, split_fields}
use airspyhf_wsprd.BandAdvisor.Json.{backslash, json_object_end, json_object_value}
use airspyhf_wsprd.BandAdvisor.Rows.{result_bands}
use airspyhf_wsprd.BandAdvisor.Rows.Advice.{IsIn, IsAdvice}
use airspyhf_wsprd.BandAdvisor.Monitor.{
  count_first, without_last_empty, count_fields, count_monitor_bands, count_monitor_frequency,
  before_byte, has_byte, count_list, count_quoted, count_number, count_frequency,
  count_bands_or_frequency, count_object, and_then, at_object, count_objects, rank, one_band,
  band_at, bands_at, ranked_plan, behind_word, expect, at_array, count_array,
  ft8_monitor_parse_response,
}
use airspyhf_wsprd.BandAdvisor.Monitor.Rank.{IsRanking, rank_lem}

count_first_later :
    (fits : HopBand → Bool) (band : HopBand) (candidates : HopPlan) (n : ℕ) (counts : List ℕ)
    → fits band ≡ false
    → length (count_first fits candidates counts) ≡ length counts
    → length (count_first fits (band ∷ candidates) (n ∷ counts)) ≡ suc (length counts)
unfolding count_first
count_first_later fits band candidates n counts e h = rw e (ap suc h)

length-count_first :
    (fits : HopBand → Bool) (candidates : HopPlan) (counts : List ℕ)
    → length (count_first fits candidates counts) ≡ length counts
length-count_first fits [] counts = unfold count_first in refl
length-count_first fits (band ∷ candidates) [] = unfold count_first in refl
length-count_first fits (band ∷ candidates) (n ∷ counts) = elim (Bool-cases (fits band)) [
  | inl e ↦ unfold count_first in rw e refl
  | inr e ↦
      count_first_later fits band candidates n counts e (length-count_first fits candidates counts)
]

length-count_fields :
    (candidates : HopPlan) (fields : List Text) (counts : List ℕ)
    → length (count_fields candidates fields counts) ≡ length counts
unfolding count_fields
length-count_fields candidates [] counts = refl
length-count_fields candidates (field ∷ fields) counts =
    length-count_fields candidates fields _ ∙ length-count_first _ candidates counts

-- There is a count for each candidate, if there are counts at all.
abbrev Keeps : ℕ → Option (List ℕ) → Type 0
Keeps n none = Unit
Keeps n (some counts) = length counts ≡ n

module _ (strtoul : Text → Option (ℕ × ℕ)) (candidates : HopPlan) (n : ℕ) where
  count_list-Keeps :
      (value : Option Text) (counts : List ℕ)
      → length counts ≡ n
      → Keeps n (count_list candidates value counts)
  count_list-Keeps none counts h = unfold count_list in tt
  count_list-Keeps (some value) counts h = elim (Bool-cases (has_byte backslash value)) [
    | inl e ↦ unfold count_list in rw e tt
    | inr e ↦
        unfold count_list count_monitor_bands in
        rw e (length-count_fields candidates (without_last_empty (split_fields value)) counts ∙ h)
  ]

  count_quoted-Keeps :
      (bands : Text) (counts : List ℕ)
      → length counts ≡ n
      → Keeps n (count_quoted candidates bands counts)
  count_quoted-Keeps [] counts h = unfold count_quoted in tt
  count_quoted-Keeps (c ∷ bands) counts h = elim (Bool-cases (c == b'"')) [
    | inl e ↦ unfold count_quoted in rw e (count_list-Keeps (before_byte b'"' bands) counts h)
    | inr e ↦ unfold count_quoted in rw e tt
  ]

  count_number-Keeps :
      (size : ℕ) (o : Option (ℕ × ℕ)) (counts : List ℕ)
      → length counts ≡ n
      → Keeps n (count_number candidates size o counts)
  count_number-Keeps size none counts h = unfold count_number in tt
  count_number-Keeps size (some (frequency, taken)) counts h =
      elim (Bool-cases (taken == 0 || ltb size taken)) [
        | inl e ↦ unfold count_number in rw e tt
        | inr e ↦
            unfold count_number count_monitor_frequency in
            rw e (length-count_first _ candidates counts ∙ h)
      ]

  count_frequency-Keeps :
      (value : Option Text) (behind : Text) (counts : List ℕ)
      → length counts ≡ n
      → Keeps n (count_frequency strtoul candidates value behind counts)
  unfolding count_frequency
  count_frequency-Keeps none behind counts h = h
  count_frequency-Keeps (some value) behind counts h =
      count_number-Keeps (length value) (strtoul (value ++ behind)) counts h

  count_either-Keeps :
      (object behind : Text) (bands : Option Text) (counts : List ℕ)
      → length counts ≡ n
      → Keeps n (count_bands_or_frequency strtoul candidates object behind bands counts)
  unfolding count_bands_or_frequency
  count_either-Keeps object behind none counts h =
      count_frequency-Keeps (json_object_value object (codes "frequency")) behind counts h
  count_either-Keeps object behind (some bands) counts h = count_quoted-Keeps bands counts h

  and_then-Keeps :
      (o : Option (List ℕ)) (next : List ℕ → Option (List ℕ))
      → Keeps n o
      → ((counts : List ℕ) → length counts ≡ n → Keeps n (next counts))
      → Keeps n (and_then o next)
  unfolding and_then
  and_then-Keeps none next h rest = tt
  and_then-Keeps (some counts) next h rest = rest counts h

  at_object-Keeps :
      (loop : Text → List ℕ → Option (List ℕ)) (text behind : Text) (counts : List ℕ) (o : Option ℕ)
      → length counts ≡ n
      → ((t : Text) (c : List ℕ) → length c ≡ n → Keeps n (loop t c))
      → Keeps n (at_object strtoul loop candidates text behind counts o)
  unfolding at_object count_object
  at_object-Keeps loop text behind counts none h rest = tt
  at_object-Keeps loop text behind counts (some size) h rest =
      and_then-Keeps _ (loop (drop (size + 1) text))
        (count_either-Keeps (take size text) (drop size text ++ behind)
          (json_object_value (take size text) (codes "bands")) counts h)
        (rest (drop (size + 1) text))

  -- One round, with what an object and what the loop without it gives.
  count_round :
      (fuel : ℕ) (behind : Text) (c : ℕ) (text : Text) (counts : List ℕ)
      → Keeps n (
          at_object strtoul
            (count_objects strtoul fuel candidates behind)
            candidates
            text
            behind
            counts
            (json_object_end text))
      → Keeps n (count_objects strtoul fuel candidates behind text counts)
      → Keeps n (count_objects strtoul (suc fuel) candidates behind (c ∷ text) counts)
  unfolding count_objects
  count_round fuel behind c text counts found later = elim (Bool-cases (c == b'{')) [
    | inl e ↦ rw e found
    | inr e ↦ rw e later
  ]

  count_objects-Keeps :
      (fuel : ℕ) (behind text : Text) (counts : List ℕ)
      → length counts ≡ n
      → Keeps n (count_objects strtoul fuel candidates behind text counts)
  count_objects-Keeps zero behind text counts h = unfold count_objects in h
  count_objects-Keeps (suc fuel) behind [] counts h = unfold count_objects in h
  count_objects-Keeps (suc fuel) behind (c ∷ text) counts h =
      count_round fuel behind c text counts
        (at_object-Keeps (count_objects strtoul fuel candidates behind) text behind counts
          (json_object_end text) h (count_objects-Keeps fuel behind))
        (count_objects-Keeps fuel behind text counts h)

-- What it takes for the response to give a plan.
pub record IsMonitored (strtoul : Text → Option (ℕ × ℕ)) (candidates : HopPlan) (response : Text)
    (plan : HopPlan) : Type 0 where
  pub counts : List ℕ
  pub indices : List ℕ
  pub counted :
      count_array strtoul candidates
        (at_array (expect b'[' (expect b':' (behind_word (codes "\"activeReceiver\"") response))))
      ≡ some counts
  pub one_each : length counts ≡ length candidates
  pub ranking : IsRanking result_bands counts indices
  pub bands : plan ≡ bands_at candidates indices
  pub two : 2 ≤ length plan

count_array-Keeps :
    (strtoul : Text → Option (ℕ × ℕ)) (candidates : HopPlan) (o : Option (Text × Text))
    → Keeps (length candidates) (count_array strtoul candidates o)
unfolding count_array
count_array-Keeps strtoul candidates none = tt
count_array-Keeps strtoul candidates (some (text, behind)) =
    count_objects-Keeps strtoul candidates (length candidates) (length text) behind text
      (replicate (length candidates) 0) (length-replicate (length candidates) 0)

ranked_plan-some :
    (candidates : HopPlan) (counts : List ℕ) {plan : HopPlan}
    → ranked_plan candidates (some counts) ≡ (true, plan)
    → (plan ≡ bands_at candidates (rank result_bands (replicate (length candidates) false) counts))
      × (2 ≤ length plan)
unfolding ranked_plan
ranked_plan-some candidates counts h = ground (arith, h)

module _ (strtoul : Text → Option (ℕ × ℕ)) (candidates : HopPlan) (response : Text) where
  monitored :
      (o : Option (List ℕ)) {plan : HopPlan}
      → count_array strtoul candidates
          (at_array (expect b'[' (expect b':' (behind_word (codes "\"activeReceiver\"") response))))
        ≡ o
      → Keeps (length candidates) o
      → ranked_plan candidates o ≡ (true, plan)
      → IsMonitored strtoul candidates response plan
  monitored none e keeps h = absurd (unfold ranked_plan in cc)
  monitored (some counts) e keeps h =
      let (bands, two) = ranked_plan-some candidates counts h in
      record {
        counts = counts;
        indices = rank result_bands (replicate (length candidates) false) counts;
        counted = e;
        one_each = keeps;
        ranking = rank_lem result_bands (length candidates) counts keeps;
        bands = bands;
        two = two;
      }

  refused_early :
      (old : HopPlan) {plan : HopPlan}
      → ltb max_hop_bands (length candidates) ≡ true
      → ¬ (ft8_monitor_parse_response strtoul (some candidates) (some response) old ≡ (true, plan))
  unfolding ft8_monitor_parse_response
  refused_early old e h = true≢false (sym (ap (λ p. p.0) (rw e at h)))

  monitored_plan :
      (old : HopPlan) {plan : HopPlan}
      → ft8_monitor_parse_response strtoul (some candidates) (some response) old ≡ (true, plan)
      → ranked_plan candidates (
          count_array strtoul candidates (
            at_array
              (expect b'[' (expect b':' (behind_word (codes "\"activeReceiver\"") response)))))
        ≡ (true, plan)
  unfolding ft8_monitor_parse_response
  monitored_plan old h = elim (Bool-cases (ltb max_hop_bands (length candidates))) [
    | inl e ↦ absurd (refused_early old e h)
    | inr e ↦ rw e at h
  ]

  -- A response that is accepted has been counted, with one count for each candidate, and the plan has two
  -- to four candidates: those with the largest counts, in falling order, the first of equal ones first, and
  -- none without a count.
  pub ft8_monitor_parse_response-IsMonitored :
      (old : HopPlan) {plan : HopPlan}
      → ft8_monitor_parse_response strtoul (some candidates) (some response) old ≡ (true, plan)
      → IsMonitored strtoul candidates response plan
  ft8_monitor_parse_response-IsMonitored old h =
      monitored _ refl (count_array-Keeps strtoul candidates _) (monitored_plan old h)

later_band :
    (band : HopBand) (candidates plan : HopPlan)
    → All (λ b. IsIn b candidates) plan × (length plan ≤ 1)
    → All (λ b. IsIn b (band ∷ candidates)) plan × (length plan ≤ 1)
later_band band candidates [] h = h
later_band band candidates (b ∷ plan) ((first, known), size) =
    ((inr first, (later_band band candidates plan (known, omega (arith, size))).0), size)

one_band-IsIn :
    (candidates : HopPlan) (index : ℕ)
    → All (λ band. IsIn band candidates) (one_band (get_elem? candidates index))
      × (length (one_band (get_elem? candidates index)) ≤ 1)
unfolding one_band
one_band-IsIn [] index = (tt, omega arith)
one_band-IsIn (band ∷ candidates) zero = ((inl refl, tt), omega arith)
one_band-IsIn (band ∷ candidates) (suc index) =
    later_band band candidates _ (one_band-IsIn candidates index)

bands_at-IsIn :
    (candidates : HopPlan) (indices : List ℕ)
    → All (λ band. IsIn band candidates) (bands_at candidates indices)
      × (length (bands_at candidates indices) ≤ length indices)
unfolding bands_at band_at
bands_at-IsIn candidates [] = (tt, omega arith)
bands_at-IsIn candidates (index ∷ indices) =
    let here = one_band-IsIn candidates index in
    let later = bands_at-IsIn candidates indices in
    let first = one_band (get_elem? candidates index) in
    (
      All-append (λ band. IsIn band candidates) first (bands_at candidates indices) here.0 later.0,
      omega (arith, here.1, later.1, length-append first (bands_at candidates indices)),
    )

IsRanking-length :
    (left : ℕ) (counts indices : List ℕ) → IsRanking left counts indices → length indices ≤ left
IsRanking-length left counts [] h = omega arith
IsRanking-length left counts (i ∷ indices) (more, some_count, all, before, rest) =
    omega (arith, more, IsRanking-length (left - 1) (set counts i 0) indices rest)

pub IsMonitored-IsAdvice :
    (strtoul : Text → Option (ℕ × ℕ)) (candidates : HopPlan) (response : Text) (plan : HopPlan)
    → IsMonitored strtoul candidates response plan
    → IsAdvice candidates plan
IsMonitored-IsAdvice strtoul candidates response plan m =
    let bands = bands_at-IsIn candidates m.indices in
    record {
      one = omega (arith, m.two);
      four = omega (
        arith,
        ap length m.bands,
        bands.1,
        IsRanking-length result_bands m.counts m.indices m.ranking,
      );
      known = subst (All (λ band. IsIn band candidates)) (sym m.bands) bands.0;
    }

pub ft8_monitor_parse_response-missing :
    (strtoul : Text → Option (ℕ × ℕ)) (candidates old : HopPlan)
    → ft8_monitor_parse_response strtoul (some candidates) none old ≡ (false, old)
unfolding ft8_monitor_parse_response
ft8_monitor_parse_response-missing strtoul candidates old = refl
