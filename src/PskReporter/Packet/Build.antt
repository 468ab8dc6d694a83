-- ===== src/PskReporter/Packet/Build.antt =====
-- The packet that is built is the described datagram.
use airspyhf_wsprd.Common.{
  ℕ, ◌+◌, ◌-◌, ◌*◌, ◌^◌, ◌≤◌, ◌<◌, ◌≡◌, refl, sym, ap, ap₂, ◌∙◌, List, [], ◌∷◌, ◌++◌, All, arith,
  length, length-append, replicate, drop, write_at, true, Bool, false, if◌then◌else◌, Option, some,
  none, ltb, Bool-cases, inl, inr, ◌||◌,
}
use mathlib.Core.List.{append_assoc}
use airspyhf_wsprd.PskReporter.Packet.{
  receiver_template, sender_template, Request, Cursor, u16, u32, to_u32, put_bytes, put_header,
  put_templates, put_receiver, put_sender, valid_report, valid_request, total_size_of, write_packet,
  build_sized, build_packet,
}
use airspyhf_wsprd.PskReporter.Packet.Layout.{
  report_records, padding, receiver_records, templates_of, sets, message,
}
use airspyhf_wsprd.PskReporter.Packet.Sizes.{
  align_four_lem, short_calls, ShortTexts, short_texts, receiver_size_lem, set_size, length-sets,
  length-message, length-report_records, length-receiver_records, sum_reports_lem,
}
use airspyhf_wsprd.PskReporter.Packet.Puts.{
  ShortCalls, open_set, put_header_lem, put_templates_lem, put_receiver_lem, put_sender_lem,
  put_bytes-put_bytes,
}
use airspyhf_wsprd.PskReporter.Packet.Blocks.{two_blocks}

-- What is written before the zeros of the first set, and before those of the second.
abbrev first_block : Request → List ℕ
first_block request =
    (0 ∷ 10 ∷ [])
    ++ u16 (16 + length (sets request))
    ++ u32 (to_u32 request.export_time)
    ++ u32 request.sequence
    ++ u32 request.observation_id
    ++ templates_of request.include_templates
    ++ open_set (153 ∷ 146 ∷ []) (set_size (receiver_records request)) (receiver_records request)

abbrev second_block : Request → List ℕ
second_block request =
    open_set (153 ∷ 147 ∷ []) (set_size (report_records request.reports))
      (report_records request.reports)

length-first_block :
    (request : Request)
    → length (first_block request)
      ≡ 20 + length (templates_of request.include_templates) + length (receiver_records request)
unfolding u16 u32
length-first_block request = simp length-append (omega arith)

length-second_block :
    (request : Request)
    → length (second_block request) ≡ 4 + length (report_records request.reports)
unfolding u16
length-second_block request = omega arith

pieces :
    (h t r k s p d : List ℕ)
    → (h ++ t ++ r) ++ (k ++ (s ++ (p ++ d))) ≡ (h ++ (t ++ (r ++ k) ++ (s ++ p))) ++ d
pieces h t r k s p d = simp append_assoc refl

module _ (packet : List ℕ) (request : Request) (texts : ShortTexts request)
    (calls : ShortCalls request.reports) (small : 16 + length (sets request) ≤ 65535)
    (room : 16 + length (sets request) ≤ length packet) where
  abbrev total : ℕ
  total = 16 + length (sets request)

  abbrev cleared : Cursor
  cleared = record { packet = write_at packet 0 (replicate total 0); position = 0 }

  put_first_block :
      put_receiver
        (put_templates
          (put_header cleared total request.export_time request.sequence request.observation_id)
          request.include_templates)
        (set_size (receiver_records request))
        request.receiver_call
        request.receiver_grid
        request.software
      ≡ put_bytes cleared (first_block request)
  put_first_block =
      put_receiver_lem _ (set_size (receiver_records request)) request
        (omega (arith, length-sets request)) (omega (arith, texts.call)) (omega (arith, texts.grid))
        (omega (arith, texts.software))
      ∙ ap
          (λ c. put_bytes c (
            open_set (153 ∷ 146 ∷ []) (set_size (receiver_records request))
              (receiver_records request)))
          (ap (λ c. put_templates c request.include_templates)
              (put_header_lem cleared total request.export_time request.sequence
                request.observation_id small)
            ∙ put_templates_lem cleared _ request.include_templates)
      ∙ put_bytes-put_bytes cleared _ _

  sum_lem :
      total
      ≡ length (first_block request)
        + padding (4 + length (receiver_records request))
        + length (second_block request)
        + padding (4 + length (report_records request.reports))
  sum_lem =
      omega (arith, length-sets request, length-first_block request, length-second_block request)

  start_lem :
      total - set_size (report_records request.reports)
      ≡ length (first_block request) + padding (4 + length (receiver_records request))
  start_lem = omega (arith, sum_lem, length-second_block request)

  put_blocks :
      write_packet packet request
        (set_size (receiver_records request))
        (set_size (report_records request.reports))
        total
      ≡ write_at
          (write_at (write_at packet 0 (replicate total 0)) 0 (first_block request))
          (total - set_size (report_records request.reports))
          (second_block request)
  unfolding write_packet put_bytes
  put_blocks =
      let size = set_size (report_records request.reports) in
      let at = total - size in
      ap (λ c. (put_sender (record c { position = at }) size request.reports).packet)
        put_first_block
      ∙ ap (λ c. c.packet)
          (put_sender_lem (record (put_bytes cleared (first_block request)) { position = at }) size
            request.reports (omega (arith, length-sets request)) calls)

  write_packet_lem :
      write_packet packet request
        (set_size (receiver_records request))
        (set_size (report_records request.reports))
        total
      ≡ message request ++ drop total packet
  write_packet_lem =
      let a = first_block request in
      let s = second_block request in
      let k = padding (4 + length (receiver_records request)) in
      let p = padding (4 + length (report_records request.reports)) in
      put_blocks
      ∙ ap₂ (λ n q. write_at (write_at (write_at packet 0 (replicate n 0)) 0 a) q s) sum_lem
          start_lem
      ∙ two_blocks packet a s k p (omega (arith, sum_lem))
      ∙ ap (λ n. a ++ (replicate k 0 ++ (s ++ (replicate p 0 ++ drop n packet)))) (sym sum_lem)
      ∙ pieces
          ((0 ∷ 10 ∷ [])
            ++ u16 total
            ++ u32 (to_u32 request.export_time)
            ++ u32 request.sequence
            ++ u32 request.observation_id)
          (templates_of request.include_templates)
          (open_set (153 ∷ 146 ∷ []) (set_size (receiver_records request))
            (receiver_records request))
          (replicate k 0) s (replicate p 0) (drop total packet)

pub length-templates_of :
    (b : Bool)
    → ((if b then length receiver_template + length sender_template else 0)
        ≡ length (templates_of b))
      × (length (templates_of b) ≤ 88)
length-templates_of true = (refl, omega arith)
length-templates_of false = (refl, omega arith)

total_size_lem :
    (request : Request)
    → 2 ^ 20 + 27 * length request.reports < 2 ^ 64
    → ShortTexts request
    → length (report_records request.reports) ≤ 27 * length request.reports
    → total_size_of
        (set_size (receiver_records request))
        (set_size (report_records request.reports))
        request.include_templates
      ≡ 16 + length (sets request)
unfolding total_size_of
total_size_lem request h short bound =
    let (same, few) = length-templates_of request.include_templates in
    omega (
      arith,
      same,
      few,
      length-sets request,
      length-receiver_records request,
      short.call,
      short.grid,
      short.software,
    )

if_fits :
    (capacity n : ℕ) (x y : List ℕ × ℕ)
    → (n ≤ capacity → n ≤ 65535 → x ≡ y)
    → (if ltb capacity n || ltb 65535 n then none else some x)
      ≡ (if ltb capacity n || ltb 65535 n then none else some y)
if_fits capacity n x y same = elim (Bool-cases (ltb capacity n || ltb 65535 n)) [
  | inl e ↦ rw e refl
  | inr e ↦ rw e (ap some (same (ground arith) (ground arith)))
]

-- What a datagram is when it fits the buffer and its own 16-bit size.
abbrev pub fitting : List ℕ → ℕ → List ℕ → Option (List ℕ × ℕ)
fitting packet capacity bytes =
    if ltb capacity (length bytes) || ltb 65535 (length bytes)
    then none
    else some (bytes ++ drop (length bytes) packet, length bytes)

-- For a valid request, into a buffer as large as it says: the datagram of the format is written at
-- the start of the buffer and the rest of the buffer is left alone, exactly if the datagram fits the
-- buffer and a 16-bit size.
pub build_packet_lem :
    (packet : List ℕ) (capacity : ℕ) (request : Request)
    → capacity ≤ length packet
    → 2 ^ 20 + 27 * length request.reports < 2 ^ 64
    → valid_request request ≡ true
    → All (λ r. valid_report r ≡ true) request.reports
    → build_packet true (some packet) capacity (some request)
      ≡ fitting packet capacity (message request)
unfolding build_packet build_sized
build_packet_lem packet capacity request room few valid reports =
    let short = short_texts request valid in
    let bound = length-report_records request.reports reports in
    let sum = 4 + length (report_records request.reports) in
    let size = 16 + length (sets request) in
    rw (valid, sum_reports_lem 4 request.reports (omega arith) reports)
      (rw (receiver_size_lem request short, align_four_lem sum (omega arith))
        (rw (total_size_lem request few short bound, length-message request)
          (if_fits capacity size _ _ (λ fits small.
            ap (λ b. (b, size))
              (write_packet_lem packet request short (short_calls request.reports reports) small
                  (omega arith)
                ∙ ap (λ n. message request ++ drop n packet) (sym (length-message request)))))))
