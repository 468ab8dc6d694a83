-- ===== src/PskReporter/Flush/Turns.antt =====
-- What the turns of the thread keep.
use airspyhf_wsprd.Common.{
  ◌⊎◌, ℕ, zero, suc, ◌+◌, ◌%◌, ◌^◌, ◌≤◌, ◌<◌, ◌≡◌, ◌≢◌, refl, ap, Bool, true, false, List, [], ◌∷◌,
  ◌++◌, arith, length, length-drop, length-take, take, take-append, drop, Text, inl, inr,
}
use airspyhf_wsprd.PskReporter.Packet.{PskReport, Request}
use airspyhf_wsprd.PskReporter.Packet.Layout.{message}
use airspyhf_wsprd.PskReporter.Queue.{PskReporter}
use airspyhf_wsprd.PskReporter.Queue.Distinct.{calls, IsQueue, IsDistinct, length-calls}
use airspyhf_wsprd.PskReporter.Queue.Growth.{AreValid}
use airspyhf_wsprd.PskReporter.Flush.{
  Datagram, Phase, waiting, sending, finished, templates_due, packet_report_count, begin_sending,
  flush, settle, Service, look, answer, flush_after, request_of,
}
use airspyhf_wsprd.PskReporter.Flush.Count.{HasStation, datagram_of, batch, packet_report_count_lem}

-- The bytes that the transport gets are a datagram of the station, with the sequence number that the client
-- has, and with reports of these senders.
pub record Carries (r : PskReporter) (datagram : Datagram) (senders : List Text) : Type 0 where
  pub request : Request
  pub bytes : take datagram.packet_size datagram.packet ≡ message request
  pub reports : calls request.reports ≡ senders
  pub sequence : request.sequence ≡ r.sequence
  pub call : request.receiver_call ≡ r.receiver_call

-- The senders in a datagram on its way are those of the reports at the start of the queue.
abbrev pub StillThere : PskReporter → Phase → Type 0
StillThere r (sending datagram) =
    (datagram.report_count ≤ length r.queue)
    × Carries r datagram (take datagram.report_count (calls r.queue))
StillThere r _ = Unit

pub record IsSound (s : Service) : Type 0 where
  pub queue : IsQueue s.reporter
  pub valid : AreValid s.reporter.queue
  pub station : HasStation s.reporter
  pub still : StillThere s.reporter s.phase
  pub small : s.reporter.sequence < 2 ^ 32

-- The senders of the reports at the start of the queue whose datagram the transport has taken.
abbrev pub sent_in : PskReporter → Phase → Bool → List Text
sent_in r (sending datagram) true = take datagram.report_count (calls r.queue)
sent_in r _ _ = []

calls-take : (n : ℕ) (reports : List PskReport) → calls (take n reports) ≡ take n (calls reports)
calls-take zero reports = refl
calls-take (suc n) [] = refl
calls-take (suc n) (r ∷ reports) = ap (λ t. r.sender_call ∷ t) (calls-take n reports)

pub datagram_of-Carries :
    (r : PskReporter) (templates : Bool) (packet : List ℕ) (now count : ℕ)
    → Carries r (datagram_of r templates packet now count) (take count (calls r.queue))
datagram_of-Carries r templates packet now count =
    let bytes = message (request_of r count templates now) in
    record {
      request = request_of r count templates now;
      bytes = take-append bytes (drop (length bytes) packet);
      reports = calls-take count r.queue;
      sequence = refl;
      call = refl;
    }

drop-AreValid : (n : ℕ) (reports : List PskReport) → AreValid reports → AreValid (drop n reports)
drop-AreValid zero reports v = v
drop-AreValid (suc n) [] v = tt
drop-AreValid (suc n) (r ∷ reports) v = drop-AreValid n reports v.1

drop-IsDistinct :
    (n : ℕ) (reports : List PskReport)
    → IsDistinct (calls reports)
    → IsDistinct (calls (drop n reports))
drop-IsDistinct zero reports d = d
drop-IsDistinct (suc n) [] d = tt
drop-IsDistinct (suc n) (r ∷ reports) d = drop-IsDistinct n reports d.1

split_calls :
    (n : ℕ) (reports : List PskReport)
    → calls reports ≡ take n (calls reports) ++ calls (drop n reports)
split_calls zero reports = refl
split_calls (suc n) [] = refl
split_calls (suc n) (r ∷ reports) = ap (λ t. r.sender_call ∷ t) (split_calls n reports)

flush_cases :
    (r : PskReporter) (packet : List ℕ) (now : ℕ)
    → (flush r packet now ≡ (r, finished))
      ⊎ (flush r packet now ≡ (r, waiting))
      ⊎ (flush r packet now ≡ (record r { next_flush = flush_after r now }, waiting))
      ⊎ ((length r.queue ≢ 0)
          × (flush r packet now
              ≡ begin_sending r (packet_report_count r (templates_due r now) packet now)))
unfolding flush
flush_cases r packet now = ground arith

-- What a turn of the thread keeps.
abbrev pub Keeps : PskReporter → Service → List Text → Type 0
Keeps r s' sent =
    IsSound s'
    × (calls r.queue ≡ sent ++ calls s'.reporter.queue)
    × (s'.reporter.sequence ≡ (r.sequence + length sent) % 2 ^ 32)

module _ (r : PskReporter) (queue : IsQueue r) (valid : AreValid r.queue) (station : HasStation r)
    (small : r.sequence < 2 ^ 32) where
  as_it_is :
      (phase : Phase) → StillThere r phase → Keeps r (record { reporter = r; phase = phase }) []
  as_it_is phase still = (
    record { queue = queue; valid = valid; station = station; still = still; small = small },
    refl,
    omega arith,
  )

  later :
      (next_flush : ℕ)
      → Keeps r (record { reporter = record r { next_flush = next_flush }; phase = waiting }) []
  later next_flush = (
    record {
      queue = record { distinct = queue.distinct; count_in = queue.count_in };
      valid = valid;
      station = record { call = station.call; grid = station.grid; software = station.software };
      still = tt;
      small = small;
    },
    refl,
    omega arith,
  )

  flush-Keeps :
      (packet : List ℕ) (now : ℕ)
      → 1400 ≤ length packet
      → let (r', phase) = flush r packet now in Keeps r (record { reporter = r'; phase = phase }) []
  unfolding begin_sending
  flush-Keeps packet now room = elim (flush_cases r packet now) [
    | inl e ↦ rw e (as_it_is finished tt)
    | inr (inl e) ↦ rw e (as_it_is waiting tt)
    | inr (inr (inl e)) ↦ rw e (later (flush_after r now))
    | inr (inr (inr (used, e))) ↦
        let (found, pos_count, fits) =
          packet_report_count_lem r (templates_due r now) packet now station valid used room in
        rw e (
          rw found (
            as_it_is (sending (datagram_of r (templates_due r now) packet now (batch r)))
              (omega arith, datagram_of-Carries r (templates_due r now) packet now (batch r))))
  ]

  settle-Keeps :
      (datagram : Datagram) (sent : Bool) (now : ℕ)
      → datagram.report_count ≤ length r.queue
      → Keeps r
          (record { reporter = settle r datagram sent now; phase = waiting })
          (sent_in r (sending datagram) sent)
  unfolding settle
  settle-Keeps datagram false now fits = (
    record {
      queue = record { distinct = queue.distinct; count_in = queue.count_in };
      valid = valid;
      station = record { call = station.call; grid = station.grid; software = station.software };
      still = tt;
      small = small;
    },
    refl,
    omega arith,
  )
  settle-Keeps datagram true now fits = (
    record {
      queue = record {
        distinct = drop-IsDistinct datagram.report_count r.queue queue.distinct;
        count_in = omega (arith, queue.count_in, length-drop datagram.report_count r.queue);
      };
      valid = drop-AreValid datagram.report_count r.queue valid;
      station = record { call = station.call; grid = station.grid; software = station.software };
      still = tt;
      small = omega arith;
    },
    split_calls datagram.report_count r.queue,
    omega (arith, length-take datagram.report_count (calls r.queue), length-calls r.queue),
  )

pub look-Keeps :
    (r : PskReporter) (phase : Phase) (packet : List ℕ) (now : ℕ)
    → IsSound (record { reporter = r; phase = phase })
    → 1400 ≤ length packet
    → Keeps r (look r phase packet now) []
unfolding look
look-Keeps r waiting packet now v room =
    flush-Keeps r v.queue v.valid v.station v.small packet now room
look-Keeps r (sending datagram) packet now v room =
    as_it_is r v.queue v.valid v.station v.small (sending datagram) v.still
look-Keeps r finished packet now v room = as_it_is r v.queue v.valid v.station v.small finished tt

pub answer-Keeps :
    (r : PskReporter) (phase : Phase) (sent : Bool) (now : ℕ)
    → IsSound (record { reporter = r; phase = phase })
    → Keeps r (answer r phase sent now) (sent_in r phase sent)
unfolding answer
answer-Keeps r waiting sent now v = as_it_is r v.queue v.valid v.station v.small waiting tt
answer-Keeps r (sending datagram) sent now v =
    settle-Keeps r v.queue v.valid v.station v.small datagram sent now v.still.0
answer-Keeps r finished sent now v = as_it_is r v.queue v.valid v.station v.small finished tt
