-- ===== src/PskReporter/Flush/Retry.antt =====
-- What follows a datagram that the transport did not take.
use airspyhf_wsprd.Common.{
  ℕ, ◌+◌, ◌≤◌, ◌≡◌, ◌≢◌, refl, ap, ◌∙◌, Bool, true, false, List, [], ◌∷◌, arith, length, ltb, ◌&&◌,
  if◌then◌else◌,
}
use airspyhf_wsprd.PskReporter.Queue.{PskReporter}
use airspyhf_wsprd.PskReporter.Flush.{
  Phase, Datagram, waiting, sending, retry_seconds, immediate_count, templates_due,
  packet_report_count, begin_sending, flush, settle, looked, answered, look, answer, step,
}
use airspyhf_wsprd.PskReporter.Flush.Count.{HasStation, datagram_of, batch, packet_report_count_lem}
use airspyhf_wsprd.PskReporter.Flush.Turns.{IsSound}
use airspyhf_wsprd.PskReporter.Flush.Delivery.{run}

flush_phase :
    (r : PskReporter) (packet : List ℕ) (now : ℕ)
    → r.stopping ≡ false
    → length r.queue ≢ 0
    → flush r packet now ≡ (
        if ltb (length r.queue) immediate_count && ltb now r.next_flush
        then (r, waiting)
        else begin_sending r (packet_report_count r (templates_due r now) packet now))
unfolding flush
flush_phase r packet now running used = ground arith

same_client :
    (b : Bool) (r : PskReporter) (p q : Phase)
    → ◌≡◌ {A = PskReporter × Phase} (if b then (r, p) else (r, q)) (r, if b then p else q)
same_client true r p q = refl
same_client false r p q = refl

-- The client after a failed send.
abbrev pub put_off : PskReporter → ℕ → PskReporter
put_off r later = record r {
  packet_count = 0;
  templates_last_sent = 0;
  next_flush = later + retry_seconds;
}

templates_due-put_off :
    (r : PskReporter) (later now : ℕ) → templates_due (put_off r later) now ≡ true
unfolding templates_due
templates_due-put_off r later now = refl

-- For a sound client that runs and has reports: a datagram that was not taken changes nothing in it but the
-- time of its next flush and the counts that make the templates due, so every report stays in the queue. At
-- its next look the thread waits if fewer than 40 reports are there and 60 seconds have not passed; if not,
-- it sends the first reports again, 40 or all, with the templates.
pub failed_send_retried :
    (r : PskReporter) (datagram : Datagram) (packet : List ℕ) (later now : ℕ)
    → IsSound (record { reporter = r; phase = sending datagram })
    → r.stopping ≡ false
    → length r.queue ≢ 0
    → 1400 ≤ length packet
    → run
        (record { reporter = r; phase = sending datagram })
        (answered false later ∷ looked packet now ∷ [])
      ≡ record {
        reporter = record r {
          packet_count = 0;
          templates_last_sent = 0;
          next_flush = later + retry_seconds;
        };
        phase =
            if ltb (length r.queue) immediate_count && ltb now (later + retry_seconds)
            then waiting
            else sending (datagram_of (put_off r later) true packet now (batch (put_off r later)));
      }
unfolding run step look answer settle begin_sending
failed_send_retried r datagram packet later now v running used room =
    let station : HasStation (put_off r later) = record {
      call = v.station.call;
      grid = v.station.grid;
      software = v.station.software;
    } in
    let (found, pos_count, fits) =
      packet_report_count_lem (put_off r later) true packet now station v.valid used room in
    let phases =
      flush_phase (put_off r later) packet now running used
      ∙ ap
          (λ o.
            if ltb (length r.queue) immediate_count && ltb now (later + retry_seconds)
            then (put_off r later, waiting)
            else begin_sending (put_off r later) o)
          (ap (λ t. packet_report_count (put_off r later) t packet now)
              (templates_due-put_off r later now)
            ∙ found) in
    ap (λ (p : PskReporter × Phase). record { reporter = p.0; phase = p.1 })
      (phases ∙ same_client _ _ _ _)
