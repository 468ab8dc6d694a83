-- ===== src/PskReporter/Queue/Growth.antt =====
-- What a call of `psk_reporter_enqueue` adds to the queue.
use airspyhf_wsprd.Common.{
  ℕ, ◌≡◌, refl, sym, subst, ◌∙◌, Bool, true, false, not, ◌&&◌, ◌||◌, Option, none, some, List, [],
  ◌∷◌, ◌++◌, All, All-append, arith, length, Text, text_eq, Bool-cases, inl, inr, if◌then◌else◌,
  leb,
}
use mathlib.Core.List.{append-nil}
use mathlib.Core.Option.{some-injective}
use airspyhf_wsprd.PskReporter.Packet.{PskReport, valid_report}
use airspyhf_wsprd.PskReporter.Queue.{
  PskReporter, queue_capacity, is_recent, replace_weaker, append_report, enqueue_report,
  enqueue_checked,
}
use airspyhf_wsprd.PskReporter.Queue.Distinct.{
  calls, IsQueue, replace_weaker-same, replace_weaker-later, replace_weaker-calls, calls-append,
  enqueue_report-IsQueue,
}

-- Only reports that `psk_reporter_enqueue` admits.
abbrev pub AreValid : List PskReport → Type 0
AreValid reports = All (λ r. valid_report r ≡ true) reports

-- A report of that sender waits.
pub is_queued : Text → List PskReport → Bool
is_queued call [] = false
is_queued call (q ∷ queue) = text_eq q.sender_call call || is_queued call queue

abbrev is_some : Option (List PskReport) → Bool
is_some none = false
is_some (some queue) = true

replace_weaker-is_some :
    (queue : List PskReport) (report : PskReport)
    → is_some (replace_weaker queue report) ≡ is_queued report.sender_call queue
unfolding replace_weaker is_queued
replace_weaker-is_some [] report = refl
replace_weaker-is_some (q ∷ queue) report = ground (arith, replace_weaker-is_some queue report)

replace_weaker-AreValid :
    (queue : List PskReport) (report : PskReport) {queue' : List PskReport}
    → AreValid queue
    → valid_report report ≡ true
    → replace_weaker queue report ≡ some queue'
    → AreValid queue'
replace_weaker-AreValid [] report v h e = absurd (unfold replace_weaker in cc)
replace_weaker-AreValid (q ∷ queue) report {queue'} v h e =
    elim (Bool-cases (text_eq q.sender_call report.sender_call)) [
      | inl same ↦
          subst AreValid
            (some-injective _ queue' (sym (replace_weaker-same q queue report same) ∙ e))
            (ground (arith, v.0, h), v.1)
      | inr differs ↦
          let (rest, r, is_rest) = replace_weaker-later q queue report differs e in
          subst AreValid (sym is_rest) (v.0, replace_weaker-AreValid queue report v.1 h r)
    ]

-- The sender that the queue gains: the report was taken, its sender was not sent of late, and none of
-- its reports waited.
pub gained : PskReporter → PskReport → ℕ → List Text
gained r report now =
    if (enqueue_checked r report now).0
      && not (is_recent r.recent report.sender_call now || is_queued report.sender_call r.queue)
    then report.sender_call ∷ []
    else []

-- What the callers may change, and what they leave.
pub record Grows (r r' : PskReporter) (added : List Text) : Type 0 where
  pub valid : AreValid r'.queue
  pub growth : calls r'.queue ≡ calls r.queue ++ added
  pub rest : r' ≡ record r { queue = r'.queue }

unchanged : (r : PskReporter) → AreValid r.queue → Grows r r []
unchanged r v = record { valid = v; growth = sym (append-nil (calls r.queue)); rest = refl }

append_report-Grows :
    (r : PskReporter) (report : PskReport) (o : Option (List PskReport))
    → replace_weaker r.queue report ≡ o
    → AreValid r.queue
    → valid_report report ≡ true
    → let (b, r') = append_report r report o in
      Grows r r' (if b && not (is_some o) then report.sender_call ∷ [] else [])
unfolding append_report
append_report-Grows r report (some queue) e v h = record {
  valid = replace_weaker-AreValid r.queue report v h e;
  growth = replace_weaker-calls r.queue report e ∙ sym (append-nil (calls r.queue));
  rest = refl;
}
append_report-Grows r report none e v h =
    elim (Bool-cases (leb queue_capacity (length r.queue) || r.stopping)) [
      | inl full ↦ rw full (unchanged r v)
      | inr room ↦ rw room (record {
        valid = All-append (λ q. valid_report q ≡ true) r.queue (report ∷ []) v (h, tt);
        growth = calls-append r.queue report;
        rest = refl;
      })
    ]

-- Every call keeps the queue valid, and adds the sender that it gains at its end.
pub enqueue_checked-Grows :
    (r : PskReporter) (report : PskReport) (now : ℕ)
    → AreValid r.queue
    → Grows r (enqueue_checked r report now).1 (gained r report now)
unfolding enqueue_checked enqueue_report gained
enqueue_checked-Grows r report now v =
    elim (Bool-cases (not r.started || not (valid_report report))) [
      | inl refused ↦ rw refused (unchanged r v)
      | inr taken ↦ elim (Bool-cases (is_recent r.recent report.sender_call now)) [
        | inl late ↦ rw (taken, late) (unchanged r v)
        | inr fresh ↦
            rw (taken, fresh, sym (replace_weaker-is_some r.queue report))
              (append_report-Grows r report (replace_weaker r.queue report) refl v (ground arith))
      ]
    ]

pub enqueue_checked-IsQueue :
    (r : PskReporter) (report : PskReport) (now : ℕ)
    → IsQueue r
    → IsQueue (enqueue_checked r report now).1
unfolding enqueue_checked
enqueue_checked-IsQueue r report now v =
    elim (Bool-cases (not r.started || not (valid_report report))) [
      | inl refused ↦ rw refused v
      | inr taken ↦ rw taken (enqueue_report-IsQueue r report now v)
    ]
