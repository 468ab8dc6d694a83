-- ===== src/Reporter/Queue/Order.antt =====
-- The ring of waiting spots as the list of their URLs, oldest first.
use airspyhf_wsprd.Common.{
  ℕ, suc, ◌+◌, ◌-◌, ◌%◌, ◌≤◌, ◌<◌, ◌≡◌, ◌≢◌, refl, ap, ◌∙◌, true, false, List, [], ◌∷◌, ◌++◌, arith,
  length, get_or, length-set, length-replicate, replicate, get_or-set_self, get_or-set_ne, ◌⊎◌,
  Text,
}
use airspyhf_wsprd.Common.Ring.{window, window_of_pos, window_push, step_elsewhere}
use airspyhf_wsprd.Reporter.Queue.{
  Item, Reporter, zero_item, queue_capacity, zeroed, System, chosen_endpoint, too_long, start,
  fresh_item, append_item, enqueue_locked, remove_head,
}

-- The indices stay in range.
pub record IsRing (r : Reporter) : Type 0 where
  pub queue_len : length r.queue ≡ r.capacity
  pub head_in : r.head < r.capacity
  pub count_in : r.count ≤ r.capacity

abbrev pub url_at : List Item → ℕ → Text
url_at queue i = (get_or queue i zero_item).url

abbrev pub urls : Reporter → List Text
urls r = window r.capacity (url_at r.queue) r.head r.count

pub enqueue_locked_cases :
    (r : Reporter) (url : Text)
    → (enqueue_locked r url ≡ (false, r))
      ⊎ ((r.count ≢ r.capacity) × (enqueue_locked r url ≡ (true, append_item r url)))
unfolding enqueue_locked
enqueue_locked_cases r url = ground arith

pub append_item-IsRing :
    (r : Reporter) (url : Text) → IsRing r → r.count ≢ r.capacity → IsRing (append_item r url)
unfolding append_item
append_item-IsRing r url v room = record {
  queue_len = length-set r.queue ((r.head + r.count) % r.capacity) (fresh_item r url) ∙ v.queue_len;
  head_in = v.head_in;
  count_in = omega (arith, v.count_in);
}

pub urls-append_item :
    (r : Reporter) (url : Text)
    → IsRing r
    → r.count ≢ r.capacity
    → urls (append_item r url) ≡ urls r ++ (url ∷ [])
unfolding append_item
urls-append_item r url v room =
    let tail = (r.head + r.count) % r.capacity in
    ap (λ k. window r.capacity (url_at (append_item r url).queue) r.head k) {y = suc r.count}
      (omega arith)
    ∙ window_push r.capacity (url_at r.queue) (url_at (append_item r url).queue) r.head r.count tail
        url v.head_in (omega (arith, v.count_in)) refl
        (ap (λ i. i.url)
          (get_or-set_self r.queue tail (fresh_item r url) zero_item
            (omega (arith, v.queue_len, v.head_in))))
        (λ j h ne. ap (λ i. i.url) (get_or-set_ne r.queue tail j (fresh_item r url) zero_item ne))

-- The item at the head stays where it is when another one is put in behind it.
pub head_of_append_item :
    (r : Reporter) (url : Text)
    → IsRing r
    → r.count ≢ 0
    → r.count ≢ r.capacity
    → get_or (append_item r url).queue (append_item r url).head zero_item
      ≡ get_or r.queue r.head zero_item
unfolding append_item
head_of_append_item r url v used room =
    get_or-set_ne r.queue ((r.head + r.count) % r.capacity) r.head (fresh_item r url) zero_item
      (step_elsewhere r.capacity r.head r.count v.head_in (omega arith) (omega (arith, v.count_in)))

pub count_of_append_item : (r : Reporter) (url : Text) → (append_item r url).count ≡ r.count + 1
unfolding append_item
count_of_append_item r url = refl

pub remove_head-IsRing : (r : Reporter) → IsRing r → IsRing (remove_head r)
unfolding remove_head
remove_head-IsRing r v = record {
  queue_len = v.queue_len;
  head_in = omega (arith, v.head_in);
  count_in = omega (arith, v.count_in);
}

pub urls-remove_head :
    (r : Reporter) → r.count ≢ 0 → urls r ≡ url_at r.queue r.head ∷ urls (remove_head r)
unfolding remove_head
urls-remove_head r used = window_of_pos r.capacity (url_at r.queue) r.head r.count used

pub remove_head_fields :
    (r : Reporter)
    → ((remove_head r).queue ≡ r.queue)
      × ((remove_head r).stopping ≡ r.stopping)
      × ((remove_head r).count ≡ r.count - 1)
unfolding remove_head
remove_head_fields r = (refl, refl, refl)

abbrev pub started_reporter : Text → Text → Reporter
started_reporter endpoint version = record zeroed {
  queue = replicate queue_capacity zero_item;
  capacity = queue_capacity;
  endpoint = endpoint;
  version = version;
  started = true;
}

start_cases :
    (sys : System) (version : Text) {r : Reporter}
    → start sys version ≡ (true, r)
    → (too_long (chosen_endpoint sys.endpoint_set) version ≡ false)
      × (r ≡ started_reporter (chosen_endpoint sys.endpoint_set) version)
unfolding start
start_cases sys version h = ground arith

started-IsRing : (endpoint version : Text) → IsRing (started_reporter endpoint version)
started-IsRing endpoint version = record {
  queue_len = length-replicate queue_capacity zero_item;
  head_in = omega arith;
  count_in = omega arith;
}

-- A reporter that starts has an empty ring of the full capacity, and both texts fit their arrays
-- with the NUL.
start-IsRing :
    (sys : System) (version : Text) {r : Reporter}
    → start sys version ≡ (true, r)
    → IsRing r
      × (r.count ≡ 0)
      × (r.capacity ≡ queue_capacity)
      × (r.stopping ≡ false)
      × (length r.endpoint < 256)
      × (length r.version < 32)
unfolding too_long
start-IsRing sys version h =
    let (fits, e) = start_cases sys version h in
    rw e (
      started-IsRing (chosen_endpoint sys.endpoint_set) version,
      refl,
      refl,
      refl,
      ground arith,
      ground arith,
    )
