-- ===== src/Reporter/Uploader/Retry.antt =====
-- A failed upload is put off and tried again; uploads that succeed empty the queue.
use airspyhf_wsprd.Common.{
  ℕ, zero, suc, ◌+◌, ◌%◌, ◌^◌, ◌≤◌, ◌≡◌, ◌≢◌, refl, sym, subst, ap, ◌∙◌, false, Option, List, [],
  ◌∷◌, ◌++◌, arith, get_or, get_or-set_self, ltb, if◌then◌else◌,
}
use mathlib.Core.List.{append-nil}
use airspyhf_wsprd.Common.Ring.{window}
use airspyhf_wsprd.Reporter.{retry_delay}
use airspyhf_wsprd.Reporter.Queue.{Item, Reporter, zero_item, remove_head}
use airspyhf_wsprd.Reporter.Queue.Order.{IsRing, url_at, urls, remove_head_fields}
use airspyhf_wsprd.Reporter.Uploader.{
  ok, retry, upload_url, waiting, sending, head_item, look, retain, apply_result, settle, Event,
  looked, answered, Service, answer, begin, step,
}
use airspyhf_wsprd.Reporter.Uploader.Delivery.{
  IsSound, accepted, run, all_accepted, all_closed, spots_delivered,
}

-- The head as a failed upload leaves it.
abbrev pub retained_item : Option ℕ → Item → ℕ → Item
retained_item configured item later =
    let attempts = (item.attempts + 1) % 2 ^ 32 in
    record item { attempts = attempts; retry_at = later + retry_delay configured attempts }

module _ (configured : Option ℕ) (r : Reporter) (later : ℕ) (v : IsRing r) where
  head_of_retain :
      head_item (retain configured r later) ≡ retained_item configured (head_item r) later
  unfolding retain
  head_of_retain =
      get_or-set_self r.queue r.head _ zero_item (omega (arith, v.queue_len, v.head_in))

  retained_fields :
      ((retain configured r later).stopping ≡ r.stopping)
      × ((retain configured r later).count ≡ r.count)
  unfolding retain
  retained_fields = (refl, refl)

look_item :
    (r : Reporter) (now : ℕ) (item : Item)
    → r.stopping ≡ false
    → r.count ≢ 0
    → head_item r ≡ item
    → look r now ≡ (if ltb now item.retry_at then waiting else sending item)
unfolding look
look_item r now item running used e = rw (sym e) (ground arith)

settle_retry :
    (configured : Option ℕ) (r : Reporter) (status : Option ℕ) (later : ℕ)
    → r.count ≢ 0
    → upload_url status ≡ retry
    → settle configured r (head_item r) (upload_url status) later ≡ retain configured r later
unfolding settle apply_result
settle_retry configured r status later used failed = rw failed (ground arith)

-- An upload that fails for now keeps its spot at the head: the thread's next look begins to send the
-- same URL, with one more attempt counted, exactly if the delay for that many attempts has passed.
pub failed_upload_waits :
    (configured : Option ℕ) (r : Reporter) (item : Item) (status : Option ℕ) (later now : ℕ)
    → IsSound (record { reporter = r; phase = sending item })
    → r.stopping ≡ false
    → upload_url status ≡ retry
    → (run configured
        (record { reporter = r; phase = sending item })
        (answered status later ∷ looked now ∷ [])).phase
      ≡ (if ltb now (later + retry_delay configured ((item.attempts + 1) % 2 ^ 32))
          then waiting
          else sending (retained_item configured item later))
unfolding run step begin answer
failed_upload_waits configured r item status later now v running failed =
    let (used, e) = v.still in
    let (still_running, same_count) = retained_fields configured r later v.ring in
    rw (sym e) (
      rw (settle_retry configured r status later used failed) (
        look_item (retain configured r later) now (retained_item configured (head_item r) later)
          (still_running ∙ running) (λ q. used (sym same_count ∙ q))
          (head_of_retain configured r later v.ring)))

settle_ok :
    (configured : Option ℕ) (r : Reporter) (status : Option ℕ) (later : ℕ)
    → r.count ≢ 0
    → upload_url status ≡ ok
    → settle configured r (head_item r) (upload_url status) later ≡ remove_head r
unfolding settle apply_result
settle_ok configured r status later used taken = rw taken (ground arith)

-- Each time the thread looks and its upload is answered.
unfoldable pub rounds : ℕ → Option ℕ → ℕ → List Event
rounds zero status now = []
rounds (suc n) status now = looked now ∷ answered status now ∷ rounds n status now

-- No time of a retry lies ahead.
abbrev pub IsDue : Reporter → ℕ → Type 0
IsDue r now = (i : ℕ) → (get_or r.queue i zero_item).retry_at ≤ now

abbrev pub idle : Reporter → Service
idle r = record { reporter = r; phase = waiting }

round_lem :
    (configured : Option ℕ) (r : Reporter) (status : Option ℕ) (now : ℕ)
    → r.stopping ≡ false
    → r.count ≢ 0
    → IsDue r now
    → upload_url status ≡ ok
    → step configured (step configured (idle r) (looked now)) (answered status now)
      ≡ idle (remove_head r)
unfolding step begin answer
round_lem configured r status now running used due taken =
    let sent : look r now ≡ sending (head_item r) =
      look_item r now (head_item r) running used refl ∙ not_early in
    rw sent (ap idle (settle_ok configured r status now used taken))
  where
    not_early :
        (if ltb now (head_item r).retry_at then waiting else sending (head_item r))
        ≡ sending (head_item r)
    not_early = ground (arith, due r.head)

drain :
    (configured : Option ℕ) (n : ℕ) (r : Reporter) (status : Option ℕ) (now : ℕ)
    → r.count ≡ n
    → r.stopping ≡ false
    → IsDue r now
    → upload_url status ≡ ok
    → (run configured (idle r) (rounds n status now)).reporter.count ≡ 0
unfolding run rounds
drain configured zero r status now e running due taken = e
drain configured (suc n) r status now e running due taken =
    let (same_queue, same_stopping, less) = remove_head_fields r in
    ap (λ s. (run configured s (rounds n status now)).reporter.count)
      (round_lem configured r status now running (omega arith) due taken)
    ∙ drain configured n (remove_head r) status now (less ∙ omega arith) (same_stopping ∙ running)
        (subst (λ q. (i : ℕ) → (get_or q i zero_item).retry_at ≤ now) (sym same_queue) due) taken

nothing_accepted :
    (configured : Option ℕ) (n : ℕ) (s : Service) (status : Option ℕ) (now : ℕ)
    → all_accepted configured s (rounds n status now) ≡ []
unfolding all_accepted accepted rounds
nothing_accepted configured zero s status now = refl
nothing_accepted configured (suc n) s status now =
    nothing_accepted configured n
      (step configured (step configured s (looked now)) (answered status now)) status now

urls_of_empty : (r : Reporter) → r.count ≡ 0 → urls r ≡ []
urls_of_empty r e = ap (λ k. window r.capacity (url_at r.queue) r.head k) e

-- While the server takes every upload and no retry lies ahead, as many rounds of the thread as spots
-- wait empty the queue, and deliver exactly these spots in order.
pub queue_drains :
    (configured : Option ℕ) (r : Reporter) (status : Option ℕ) (now : ℕ)
    → IsRing r
    → r.stopping ≡ false
    → IsDue r now
    → upload_url status ≡ ok
    → ((run configured (idle r) (rounds r.count status now)).reporter.count ≡ 0)
      × (all_closed configured (idle r) (rounds r.count status now) ≡ urls r)
queue_drains configured r status now v running due taken =
    let es = rounds r.count status now in
    let empty = drain configured r.count r status now refl running due taken in
    let order = spots_delivered configured (idle r) es (record { ring = v; still = tt }) in
    (
      empty,
      sym (
          sym (append-nil (urls r))
          ∙ ap (λ l. urls r ++ l) (sym (nothing_accepted configured r.count (idle r) status now))
          ∙ order
          ∙ ap (λ l. all_closed configured (idle r) es ++ l)
              (urls_of_empty (run configured (idle r) es).reporter empty)
          ∙ append-nil (all_closed configured (idle r) es)),
    )
