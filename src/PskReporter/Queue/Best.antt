-- ===== src/PskReporter/Queue/Best.antt =====
-- Of the reports of one sender the queue keeps the strongest.
use airspyhf_wsprd.Common.{
  ℕ, ◌≡◌, refl, sym, ap, ◌∙◌, true, false, Option, none, some, List, [], ◌∷◌, ◌++◌, arith, length,
  Text, text_eq, text_eq_refl, Bool-cases, inl, inr, if◌then◌else◌, leb, ◌||◌,
}
use mathlib.Core.Option.{some-injective}
use airspyhf_wsprd.Common.Int.{ltb_ℤ}
use airspyhf_wsprd.PskReporter.Packet.{PskReport}
use airspyhf_wsprd.PskReporter.Queue.{
  PskReporter, queue_capacity, is_recent, replace_weaker, append_report, enqueue_report,
}
use airspyhf_wsprd.PskReporter.Queue.Distinct.{
  calls, Lacks, stronger_call, replace_weaker-none, replace_weaker-same, replace_weaker-later,
}

-- The report that the queue holds of a sender.
unfoldable pub held : List PskReport → Text → Option PskReport
held [] call = none
held (q ∷ queue) call = if text_eq q.sender_call call then some q else held queue call

-- The stronger of two reports, the first where they are equal.
abbrev pub stronger : Option PskReport → PskReport → PskReport
stronger none report = report
stronger (some q) report = if ltb_ℤ q.snr report.snr then report else q

held_self :
    (q : PskReport) (queue : List PskReport) (call : Text)
    → text_eq q.sender_call call ≡ true
    → held (q ∷ queue) call ≡ some q
unfolding held
held_self q queue call e = rw e refl

held_other :
    (q : PskReport) (queue : List PskReport) (call : Text)
    → text_eq q.sender_call call ≡ false
    → held (q ∷ queue) call ≡ held queue call
unfolding held
held_other q queue call e = rw e refl

held-append_lacking :
    (queue : List PskReport) (report : PskReport) (call : Text)
    → Lacks call (calls queue)
    → (held queue call ≡ none) × (held (queue ++ (report ∷ [])) call ≡ held (report ∷ []) call)
unfolding held
held-append_lacking [] report call l = (refl, refl)
held-append_lacking (q ∷ queue) report call l = rw l.0 (held-append_lacking queue report call l.1)

-- What replacing does to the report held of any sender.
replace_weaker-held :
    (queue : List PskReport) (report : PskReport) {queue' : List PskReport}
    → replace_weaker queue report ≡ some queue'
    → held queue' report.sender_call ≡ some (stronger (held queue report.sender_call) report)
replace_weaker-held [] report h = absurd (unfold replace_weaker in cc)
replace_weaker-held (q ∷ queue) report {queue'} h =
    let call = report.sender_call in
    elim (Bool-cases (text_eq q.sender_call call)) [
      | inl e ↦
          let same = some-injective _ queue' (sym (replace_weaker-same q queue report e) ∙ h) in
          ap (λ l. held l call) (sym same)
          ∙ held_self (stronger (some q) report) queue call
              (ap (λ c. text_eq c call) (stronger_call q report e) ∙ e)
          ∙ ap (λ o. some (stronger o report)) (sym (held_self q queue call e))
      | inr e ↦
          let (rest, r, same) = replace_weaker-later q queue report e h in
          ap (λ l. held l call) same
          ∙ held_other q rest call e
          ∙ replace_weaker-held queue report r
          ∙ ap (λ o. some (stronger o report)) (sym (held_other q queue call e))
    ]

abbrev queue_after : PskReporter → PskReport → Option (List PskReport) → List PskReport
queue_after r report (some queue) = queue
queue_after r report none = r.queue ++ (report ∷ [])

append_report-true :
    (r : PskReporter) (report : PskReport) (o : Option (List PskReport)) {r' : PskReporter}
    → append_report r report o ≡ (true, r')
    → r'.queue ≡ queue_after r report o
unfolding append_report
append_report-true r report (some queue) h = ap (λ p. p.1.queue) (sym h)
append_report-true r report none {r'} h =
    elim (Bool-cases (leb queue_capacity (length r.queue) || r.stopping)) [
      | inl full ↦ absurd (ground arith)
      | inr room ↦ ap (λ p. p.1.queue) (sym h) ∙ rw room refl
    ]

queue_after-held :
    (r : PskReporter) (report : PskReport) (o : Option (List PskReport))
    → replace_weaker r.queue report ≡ o
    → held (queue_after r report o) report.sender_call
      ≡ some (stronger (held r.queue report.sender_call) report)
queue_after-held r report (some queue) e = replace_weaker-held r.queue report e
queue_after-held r report none e =
    let (lacking, appended) =
      held-append_lacking r.queue report report.sender_call
        (replace_weaker-none r.queue report e) in
    appended
    ∙ held_self report [] report.sender_call (text_eq_refl report.sender_call)
    ∙ ap (λ o. some (stronger o report)) (sym lacking)

enqueue_report-fresh :
    (r : PskReporter) (report : PskReport) (now : ℕ)
    → is_recent r.recent report.sender_call now ≡ false
    → enqueue_report r report now ≡ append_report r report (replace_weaker r.queue report)
unfolding enqueue_report
enqueue_report-fresh r report now fresh = rw fresh refl

-- A report that is accepted, of a sender that was not sent of late, leaves in the queue the stronger
-- of itself and the report held before, which wins where they are equal.
pub enqueue_keeps_stronger :
    (r : PskReporter) (report : PskReport) (now : ℕ) {r' : PskReporter}
    → is_recent r.recent report.sender_call now ≡ false
    → enqueue_report r report now ≡ (true, r')
    → held r'.queue report.sender_call ≡ some (stronger (held r.queue report.sender_call) report)
enqueue_keeps_stronger r report now fresh h =
    ap (λ l. held l report.sender_call)
      (append_report-true r report (replace_weaker r.queue report)
        (sym (enqueue_report-fresh r report now fresh) ∙ h))
    ∙ queue_after-held r report (replace_weaker r.queue report) refl
