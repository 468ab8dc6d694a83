-- ===== src/PskReporter/Queue/Distinct.antt =====
-- The queue holds one report for each sender.
use airspyhf_wsprd.Common.{
  ℕ, suc, ◌≤◌, ◌≡◌, refl, sym, ap, subst, ◌∙◌, true, false, Option, none, some, List, [], ◌∷◌, ◌++◌,
  All, All-append, arith, length, length-append, Text, text_eq, text_eq→≡, text_eq_comm, Bool-cases,
  Option-cases, inl, inr, if◌then◌else◌, leb, ◌||◌,
}
use mathlib.Core.Option.{some-injective}
use airspyhf_wsprd.Common.Int.{ltb_ℤ}
use airspyhf_wsprd.PskReporter.Packet.{PskReport}
use airspyhf_wsprd.PskReporter.Queue.{
  PskReporter, queue_capacity, is_recent, replace_weaker, append_report, enqueue_report,
}

abbrev pub calls : List PskReport → List Text
calls [] = []
calls (q ∷ queue) = q.sender_call ∷ calls queue

-- The callsign is none of these.
abbrev pub Lacks : Text → List Text → Type 0
Lacks call others = All (λ c. text_eq c call ≡ false) others

abbrev pub IsDistinct : List Text → Type 0
IsDistinct [] = Unit
IsDistinct (call ∷ others) = Lacks call others × IsDistinct others

pub stronger_call :
    (q report : PskReport)
    → text_eq q.sender_call report.sender_call ≡ true
    → (if ltb_ℤ q.snr report.snr then report else q).sender_call ≡ q.sender_call
stronger_call q report same = elim (Bool-cases (ltb_ℤ q.snr report.snr)) [
  | inl e ↦ rw e (sym (text_eq→≡ q.sender_call report.sender_call same))
  | inr e ↦ rw e refl
]

pub replace_weaker-none :
    (queue : List PskReport) (report : PskReport)
    → replace_weaker queue report ≡ none
    → Lacks report.sender_call (calls queue)
unfolding replace_weaker
replace_weaker-none [] report h = tt
replace_weaker-none (q ∷ queue) report h =
    elim (Bool-cases (text_eq q.sender_call report.sender_call)) [
      | inl e ↦ absurd (ground arith)
      | inr e ↦ (e, replace_weaker-none queue report (ground arith))
    ]

pub replace_weaker-same :
    (q : PskReport) (queue : List PskReport) (report : PskReport)
    → text_eq q.sender_call report.sender_call ≡ true
    → replace_weaker (q ∷ queue) report
      ≡ some ((if ltb_ℤ q.snr report.snr then report else q) ∷ queue)
unfolding replace_weaker
replace_weaker-same q queue report e = rw e refl

-- A report of the sender that the queue goes through for, further on.
pub replace_weaker-later :
    (q : PskReport) (queue : List PskReport) (report : PskReport) {queue' : List PskReport}
    → text_eq q.sender_call report.sender_call ≡ false
    → replace_weaker (q ∷ queue) report ≡ some queue'
    → (rest : List PskReport) × (replace_weaker queue report ≡ some rest) × (queue' ≡ q ∷ rest)
unfolding replace_weaker
replace_weaker-later q queue report {queue'} e h =
    elim (Option-cases (replace_weaker queue report)) [
      | inl n ↦ absurd (ground arith)
      | inr (rest, r) ↦
          let h' : some (q ∷ rest) ≡ some queue' = ground arith in
          (rest, r, sym (some-injective (q ∷ rest) queue' h'))
    ]

-- A replaced list has the senders of the old one.
pub replace_weaker-calls :
    (queue : List PskReport) (report : PskReport) {queue' : List PskReport}
    → replace_weaker queue report ≡ some queue'
    → calls queue' ≡ calls queue
replace_weaker-calls [] report h = absurd (unfold replace_weaker in cc)
replace_weaker-calls (q ∷ queue) report {queue'} h =
    elim (Bool-cases (text_eq q.sender_call report.sender_call)) [
      | inl e ↦
          let same = some-injective _ queue' (sym (replace_weaker-same q queue report e) ∙ h) in
          ap calls (sym same) ∙ ap (λ c. c ∷ calls queue) (stronger_call q report e)
      | inr e ↦
          let (rest, r, same) = replace_weaker-later q queue report e h in
          ap calls same ∙ ap (λ t. q.sender_call ∷ t) (replace_weaker-calls queue report r)
    ]

pub calls-append :
    (queue : List PskReport) (r : PskReport)
    → calls (queue ++ (r ∷ [])) ≡ calls queue ++ (r.sender_call ∷ [])
calls-append [] r = refl
calls-append (q ∷ queue) r = ap (λ t. q.sender_call ∷ t) (calls-append queue r)

append-IsDistinct :
    (others : List Text) (call : Text)
    → IsDistinct others
    → Lacks call others
    → IsDistinct (others ++ (call ∷ []))
append-IsDistinct [] call d l = (tt, tt)
append-IsDistinct (c ∷ others) call d l = (
  All-append (λ o. text_eq o c ≡ false) others (call ∷ []) d.0 (text_eq_comm call c ∙ l.0, tt),
  append-IsDistinct others call d.1 l.1,
)

pub length-calls : (queue : List PskReport) → length (calls queue) ≡ length queue
length-calls [] = refl
length-calls (q ∷ queue) = ap suc (length-calls queue)

-- One report for each sender, and no more of them than the array holds.
pub record IsQueue (r : PskReporter) : Type 0 where
  pub distinct : IsDistinct (calls r.queue)
  pub count_in : length r.queue ≤ queue_capacity

pub append_report-IsQueue :
    (r : PskReporter) (report : PskReport) (o : Option (List PskReport))
    → replace_weaker r.queue report ≡ o
    → IsQueue r
    → IsQueue (append_report r report o).1
unfolding append_report
append_report-IsQueue r report (some queue) e v =
    let same = replace_weaker-calls r.queue report e in
    record {
      distinct = subst IsDistinct (sym same) v.distinct;
      count_in =
          omega (arith, length-calls queue, length-calls r.queue, ap length same, v.count_in);
    }
append_report-IsQueue r report none e v =
    elim (Bool-cases (leb queue_capacity (length r.queue) || r.stopping)) [
      | inl full ↦ rw full v
      | inr room ↦ rw room (record {
        distinct = subst IsDistinct (sym (calls-append r.queue report)) (
            append-IsDistinct (calls r.queue) report.sender_call v.distinct
              (replace_weaker-none r.queue report e));
        count_in = ground (arith, length-append r.queue (report ∷ []));
      })
    ]

-- Whatever is enqueued, the queue has one report for each sender and no more than 512.
pub enqueue_report-IsQueue :
    (r : PskReporter) (report : PskReport) (now : ℕ)
    → IsQueue r
    → IsQueue (enqueue_report r report now).1
unfolding enqueue_report
enqueue_report-IsQueue r report now v =
    elim (Bool-cases (is_recent r.recent report.sender_call now)) [
      | inl e ↦ rw e v
      | inr e ↦ rw e (append_report-IsQueue r report (replace_weaker r.queue report) refl v)
    ]
