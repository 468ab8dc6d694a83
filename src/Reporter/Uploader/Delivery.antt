-- ===== src/Reporter/Uploader/Delivery.antt =====
-- In every run of the thread and its callers each accepted spot is delivered or waits, in order.
use airspyhf_wsprd.Common.{
  ℕ, ledger_step, zero, suc, ◌+◌, ◌%◌, ◌≡◌, ◌≢◌, refl, sym, ap, ap₂, ◌∙◌, true, Option, List, [],
  ◌∷◌, ◌++◌, arith, set, length-set, get_or-set_self, get_or-set_ne, inl, inr, Text, if◌then◌else◌,
}
use mathlib.Core.List.{append-nil}
use native.Mathlib.Decide.{ℕ_discrete}
use airspyhf_wsprd.Common.Ring.{window}
use airspyhf_wsprd.Reporter.Queue.{Item, Reporter, zero_item, append_item, enqueue_locked}
use airspyhf_wsprd.Reporter.Queue.Order.{
  IsRing, url_at, urls, enqueue_locked_cases, append_item-IsRing, urls-append_item,
  count_of_append_item, head_of_append_item, remove_head-IsRing, urls-remove_head,
}
use airspyhf_wsprd.Reporter.Uploader.{
  UploadResult, ok, retry, rejected, upload_url, Phase, waiting, sending, finished, head_item, look,
  retain, apply_result, settle, Event, offered, stopped, looked, answered, Service, answer, begin,
  step,
}

-- An item that is being sent is still the one at the head.
abbrev pub StillHead : Reporter → Phase → Type 0
StillHead r (sending item) = (r.count ≢ 0) × (head_item r ≡ item)
StillHead r _ = Unit

pub record IsSound (s : Service) : Type 0 where
  pub ring : IsRing s.reporter
  pub still : StillHead s.reporter s.phase

-- The URLs that `enqueue` takes.
unfoldable pub accepted : Service → Event → List Text
accepted s (offered url) = if (enqueue_locked s.reporter url).0 then url ∷ [] else []
accepted s _ = []

-- The URLs that the server has taken, or has refused for good.
abbrev closed_by : UploadResult → Text → List Text
closed_by ok url = url ∷ []
closed_by rejected url = url ∷ []
closed_by retry url = []

abbrev closed_in : Phase → Option ℕ → List Text
closed_in (sending item) status = closed_by (upload_url status) item.url
closed_in _ status = []

unfoldable pub closed : Service → Event → List Text
closed s (answered status now) = closed_in s.phase status
closed s _ = []

module _ (r : Reporter) (v : IsRing r) (kept : Item) (same : kept.url ≡ (head_item r).url) where
  abbrev kept_head : Reporter
  kept_head = record r { queue = set r.queue r.head kept }

  kept_head-IsRing : IsRing kept_head
  kept_head-IsRing = record {
    queue_len = length-set r.queue r.head kept ∙ v.queue_len;
    head_in = v.head_in;
    count_in = v.count_in;
  }

  url_at-kept : (j : ℕ) → url_at kept_head.queue j ≡ url_at r.queue j
  url_at-kept j = elim (ℕ_discrete r.head j) [
    | no ne ↦ ap (λ i. i.url) (get_or-set_ne r.queue r.head j kept zero_item ne)
    | yes e ↦ rw (sym e) (
        ap (λ i. i.url)
          (get_or-set_self r.queue r.head kept zero_item (omega (arith, v.queue_len, v.head_in)))
        ∙ same)
  ]

  window-kept :
      (h n : ℕ)
      → window r.capacity (url_at kept_head.queue) h n ≡ window r.capacity (url_at r.queue) h n
  window-kept h zero = refl
  window-kept h (suc n) = ap₂ ◌∷◌ (url_at-kept h) (window-kept ((h + 1) % r.capacity) n)

-- What one answer does to the ring.
Settled : Option ℕ → Reporter → UploadResult → ℕ → Type 0
Settled configured r result now =
    let r' = apply_result configured r result now in
    IsRing r' × (urls r ≡ closed_by result (head_item r).url ++ urls r')

apply_result_lem :
    (configured : Option ℕ) (r : Reporter) (result : UploadResult) (now : ℕ)
    → IsRing r
    → r.count ≢ 0
    → Settled configured r result now
unfolding Settled apply_result retain
apply_result_lem configured r ok now v used = (remove_head-IsRing r v, urls-remove_head r used)
apply_result_lem configured r rejected now v used =
    (remove_head-IsRing r v, urls-remove_head r used)
apply_result_lem configured r retry now v used =
    (kept_head-IsRing r v _ refl, sym (window-kept r v _ refl r.head r.count))

settle_lem :
    (configured : Option ℕ) (r : Reporter) (result : UploadResult) (now : ℕ)
    → r.count ≢ 0
    → settle configured r (head_item r) result now ≡ apply_result configured r result now
unfolding settle
settle_lem configured r result now used = ground arith

answer_lem :
    (configured : Option ℕ) (r : Reporter) (phase : Phase) (status : Option ℕ) (now : ℕ)
    → IsRing r
    → StillHead r phase
    → IsSound (answer configured r phase status now)
      × (urls r ≡ closed_in phase status ++ urls (answer configured r phase status now).reporter)
unfolding answer Settled
answer_lem configured r waiting status now v still = (record { ring = v; still = still }, refl)
answer_lem configured r finished status now v still = (record { ring = v; still = still }, refl)
answer_lem configured r (sending item) status now v (used, e) = rw (sym e) (
    rw (settle_lem configured r (upload_url status) now used) (
      let (ring, order) = apply_result_lem configured r (upload_url status) now v used in
      (record { ring = ring; still = tt }, order)))

look-StillHead : (r : Reporter) (now : ℕ) → StillHead r (look r now)
unfolding look
look-StillHead r now = ground arith

begin-StillHead :
    (r : Reporter) (phase : Phase) (now : ℕ) → StillHead r phase → StillHead r (begin r phase now)
unfolding begin
begin-StillHead r waiting now still = look-StillHead r now
begin-StillHead r (sending item) now still = still
begin-StillHead r finished now still = still

append_item-StillHead :
    (r : Reporter) (url : Text) (phase : Phase)
    → IsRing r
    → r.count ≢ r.capacity
    → StillHead r phase
    → StillHead (append_item r url) phase
append_item-StillHead r url waiting v room still = still
append_item-StillHead r url finished v room still = still
append_item-StillHead r url (sending item) v room (used, e) =
    (omega (arith, count_of_append_item r url), head_of_append_item r url v used room ∙ e)

offered_lem :
    (r : Reporter) (url : Text) (phase : Phase)
    → IsRing r
    → StillHead r phase
    → let r' = (enqueue_locked r url).1 in
      IsSound (record { reporter = r'; phase = phase })
      × (urls r ++ (if (enqueue_locked r url).0 then url ∷ [] else []) ≡ urls r')
offered_lem r url phase v still = elim (enqueue_locked_cases r url) [
  | inl e ↦ rw e (record { ring = v; still = still }, append-nil (urls r))
  | inr (room, e) ↦ rw e (
    record {
      ring = append_item-IsRing r url v room;
      still = append_item-StillHead r url phase v room still;
    },
    sym (urls-append_item r url v room),
  )
]

stopped-StillHead :
    (r : Reporter) (phase : Phase)
    → StillHead r phase
    → StillHead (record r { stopping = true }) phase
stopped-StillHead r waiting still = still
stopped-StillHead r (sending item) still = still
stopped-StillHead r finished still = still

pub step_lem :
    (configured : Option ℕ) (s : Service) (e : Event)
    → IsSound s
    → IsSound (step configured s e)
      × (urls s.reporter ++ accepted s e ≡ closed s e ++ urls (step configured s e).reporter)
unfolding step accepted closed
step_lem configured s (offered url) v = offered_lem s.reporter url s.phase v.ring v.still
step_lem configured s stopped v = (
  record {
    ring = record {
      queue_len = v.ring.queue_len;
      head_in = v.ring.head_in;
      count_in = v.ring.count_in;
    };
    still = stopped-StillHead s.reporter s.phase v.still;
  },
  append-nil (urls s.reporter),
)
step_lem configured s (looked now) v = (
  record { ring = v.ring; still = begin-StillHead s.reporter s.phase now v.still },
  append-nil (urls s.reporter),
)
step_lem configured s (answered status now) v =
    let (sound, order) = answer_lem configured s.reporter s.phase status now v.ring v.still in
    (sound, append-nil (urls s.reporter) ∙ order)

-- The thread and its callers take turns at the mutex.
unfoldable pub run : Option ℕ → Service → List Event → Service
run configured s [] = s
run configured s (e ∷ es) = run configured (step configured s e) es

unfoldable pub all_accepted : Option ℕ → Service → List Event → List Text
all_accepted configured s [] = []
all_accepted configured s (e ∷ es) =
    accepted s e ++ all_accepted configured (step configured s e) es

unfoldable pub all_closed : Option ℕ → Service → List Event → List Text
all_closed configured s [] = []
all_closed configured s (e ∷ es) = closed s e ++ all_closed configured (step configured s e) es

-- From a sound state, whatever happens next, the ring stays in range and the item that is being
-- sent stays at its head.
run-IsSound :
    (configured : Option ℕ) (s : Service) (es : List Event)
    → IsSound s
    → IsSound (run configured s es)
unfolding run
run-IsSound configured s [] v = v
run-IsSound configured s (e ∷ es) v =
    run-IsSound configured (step configured s e) es (step_lem configured s e v).0

-- From a sound state, whatever happens next: the spots that waited, and those that `enqueue` took
-- since, are in this order those that the server took or refused for good, and those that still
-- wait. No spot is lost, sent for good twice, or overtaken.
pub spots_delivered :
    (configured : Option ℕ) (s : Service) (es : List Event)
    → IsSound s
    → urls s.reporter ++ all_accepted configured s es
      ≡ all_closed configured s es ++ urls (run configured s es).reporter
unfolding run all_accepted all_closed
spots_delivered configured s [] v = append-nil (urls s.reporter)
spots_delivered configured s (e ∷ es) v =
    let s' = step configured s e in
    let (sound, order) = step_lem configured s e v in
    ledger_step (urls s.reporter) (accepted s e) (closed s e) (urls s'.reporter)
      (all_accepted configured s' es) (all_closed configured s' es)
      (urls (run configured s' es).reporter) order (spots_delivered configured s' es sound)
