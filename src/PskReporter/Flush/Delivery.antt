-- ===== src/PskReporter/Flush/Delivery.antt =====
-- In every run of the thread and its callers each sender that the queue takes is sent or waits.
use airspyhf_wsprd.Common.{
  ledger_step, ℕ, ◌+◌, ◌%◌, ◌^◌, ◌≤◌, ◌≡◌, sym, ap, subst, ◌∙◌, refl, zero, suc, take, Bool, true,
  false, List, [], ◌∷◌, ◌++◌, All, arith, length, length-append, Text,
}
use mathlib.Core.List.{append-nil}
use airspyhf_wsprd.PskReporter.Packet.{PskReport}
use airspyhf_wsprd.PskReporter.Queue.{PskReporter, enqueue_checked}
use airspyhf_wsprd.PskReporter.Queue.Distinct.{calls, length-calls}
use airspyhf_wsprd.PskReporter.Queue.Growth.{gained, enqueue_checked-Grows, enqueue_checked-IsQueue}
use airspyhf_wsprd.PskReporter.Flush.{
  Phase, waiting, sending, finished, Event, offered, stopped, looked, answered, Service, step,
}
use airspyhf_wsprd.PskReporter.Flush.Count.{HasStation}
use airspyhf_wsprd.PskReporter.Flush.Turns.{
  StillThere, Carries, IsSound, sent_in, Keeps, look-Keeps, answer-Keeps,
}

-- The thread looks with its own buffer.
abbrev pub HasBuffer : Event → Type 0
HasBuffer (looked packet now) = 1400 ≤ length packet
HasBuffer _ = Unit

-- The senders that the queue gains.
unfoldable pub gained_by : Service → Event → List Text
gained_by s (offered report now) = gained s.reporter report now
gained_by s _ = []

unfoldable pub sent_by : Service → Event → List Text
sent_by s (answered sent now) = sent_in s.reporter s.phase sent
sent_by s _ = []

take_within : (n : ℕ) (xs ys : List Text) → n ≤ length xs → take n (xs ++ ys) ≡ take n xs
take_within zero xs ys h = refl
take_within (suc n) [] ys h = absurd (omega (arith, h))
take_within (suc n) (x ∷ xs) ys h = ap (λ t. x ∷ t) (take_within n xs ys (omega (arith, h)))

grown-StillThere :
    (r r' : PskReporter) (phase : Phase)
    → r'.sequence ≡ r.sequence
    → r'.receiver_call ≡ r.receiver_call
    → (added : List Text) → calls r'.queue ≡ calls r.queue ++ added
    → StillThere r phase
    → StillThere r' phase
grown-StillThere r r' waiting sequence call added growth still = tt
grown-StillThere r r' (sending datagram) sequence call added growth (there, carries) =
    let sizes = length-append (calls r.queue) added in
    (
      omega (arith, there, ap length growth, sizes, length-calls r.queue, length-calls r'.queue),
      record {
        request = carries.request;
        bytes = carries.bytes;
        reports =
            carries.reports
            ∙ sym (
                ap (take datagram.report_count) growth
                ∙ take_within datagram.report_count (calls r.queue) added
                    (omega (arith, there, length-calls r.queue)));
        sequence = carries.sequence ∙ sym sequence;
        call = carries.call ∙ sym call;
      },
    )
grown-StillThere r r' finished sequence call added growth still = tt

grown-HasStation :
    (r : PskReporter) (queue : List PskReport)
    → HasStation r
    → HasStation (record r { queue = queue })
grown-HasStation r queue v = record { call = v.call; grid = v.grid; software = v.software }

stopped-IsSound :
    (r : PskReporter) (phase : Phase)
    → IsSound (record { reporter = r; phase = phase })
    → IsSound (record { reporter = record r { stopping = true }; phase = phase })
stopped-IsSound r phase v = record {
  queue = record { distinct = v.queue.distinct; count_in = v.queue.count_in };
  valid = v.valid;
  station = record { call = v.station.call; grid = v.station.grid; software = v.station.software };
  still =
      grown-StillThere r (record r { stopping = true }) phase refl refl []
        (sym (append-nil (calls r.queue))) v.still;
  small = v.small;
}

-- What any event does to the senders that wait, and to the sequence number.
abbrev pub Balanced : Service → Event → Service → Type 0
Balanced s e s' =
    IsSound s'
    × (calls s.reporter.queue ++ gained_by s e ≡ sent_by s e ++ calls s'.reporter.queue)
    × (s'.reporter.sequence ≡ (s.reporter.sequence + length (sent_by s e)) % 2 ^ 32)

offered-Balanced :
    (s : Service) (report : PskReport) (now : ℕ)
    → IsSound s
    → Balanced s (offered report now) (step s (offered report now))
unfolding step gained_by sent_by
offered-Balanced s report now v =
    let r' = (enqueue_checked s.reporter report now).1 in
    let grows = enqueue_checked-Grows s.reporter report now v.valid in
    let same_sequence = ap (λ r. r.sequence) grows.rest in
    (
      record {
        queue = enqueue_checked-IsQueue s.reporter report now v.queue;
        valid = grows.valid;
        station =
            subst HasStation (sym grows.rest) (grown-HasStation s.reporter r'.queue v.station);
        still =
            grown-StillThere s.reporter r' s.phase same_sequence
              (ap (λ r. r.receiver_call) grows.rest) _ grows.growth v.still;
        small = omega (arith, same_sequence, v.small);
      },
      sym grows.growth,
      omega (arith, same_sequence, v.small),
    )

stopped-Balanced : (s : Service) → IsSound s → Balanced s stopped (step s stopped)
unfolding step gained_by sent_by
stopped-Balanced s v = (
  stopped-IsSound s.reporter s.phase v,
  append-nil (calls s.reporter.queue),
  omega (arith, v.small),
)

turn-Balanced :
    (s s' : Service) (sent : List Text)
    → Keeps s.reporter s' sent
    → IsSound s'
      × (calls s.reporter.queue ++ [] ≡ sent ++ calls s'.reporter.queue)
      × (s'.reporter.sequence ≡ (s.reporter.sequence + length sent) % 2 ^ 32)
turn-Balanced s s' sent (sound, order, sequence) =
    (sound, append-nil (calls s.reporter.queue) ∙ order, sequence)

-- Every event keeps the service sound, and its books.
pub step-Balanced : (s : Service) (e : Event) → HasBuffer e → IsSound s → Balanced s e (step s e)
unfolding step gained_by sent_by
step-Balanced s (offered report now) b v = offered-Balanced s report now v
step-Balanced s stopped b v = stopped-Balanced s v
step-Balanced s (looked packet now) b v =
    turn-Balanced s _ [] (look-Keeps s.reporter s.phase packet now v b)
step-Balanced s (answered sent now) b v =
    turn-Balanced s _ _ (answer-Keeps s.reporter s.phase sent now v)

unfoldable pub run : Service → List Event → Service
run s [] = s
run s (e ∷ es) = run (step s e) es

unfoldable pub all_gained : Service → List Event → List Text
all_gained s [] = []
all_gained s (e ∷ es) = gained_by s e ++ all_gained (step s e) es

all_sent : Service → List Event → List Text
all_sent s [] = []
all_sent s (e ∷ es) = sent_by s e ++ all_sent (step s e) es

run-Balanced :
    (s : Service) (es : List Event)
    → IsSound s
    → All HasBuffer es
    → IsSound (run s es)
      × (calls s.reporter.queue ++ all_gained s es
          ≡ all_sent s es ++ calls (run s es).reporter.queue)
      × ((run s es).reporter.sequence ≡ (s.reporter.sequence + length (all_sent s es)) % 2 ^ 32)
unfolding run all_gained all_sent
run-Balanced s [] v b = (v, append-nil (calls s.reporter.queue), omega (arith, v.small))
run-Balanced s (e ∷ es) v b =
    let s' = step s e in
    let (sound, order, sequence) = step-Balanced s e b.0 v in
    let (sound', order', sequence') = run-Balanced s' es sound b.1 in
    (
      sound',
      ledger_step (calls s.reporter.queue) (gained_by s e) (sent_by s e) (calls s'.reporter.queue)
          (all_gained s' es) (all_sent s' es) (calls (run s' es).reporter.queue) order order',
      omega (arith, sequence, sequence', length-append (sent_by s e) (all_sent s' es)),
    )

-- The senders in the bytes that the transport has taken, if it has taken any.
abbrev pub IsTaken : PskReporter → Phase → Bool → List Text → Type 0
IsTaken r (sending datagram) true senders = Carries r datagram senders
IsTaken r _ _ senders = senders ≡ []

abbrev pub IsTakenBy : Service → Event → List Text → Type 0
IsTakenBy s (answered sent now) senders = IsTaken s.reporter s.phase sent senders
IsTakenBy s _ senders = senders ≡ []

-- The same for all events, in their order.
abbrev pub AreTaken : Service → List Event → List Text → Type 0
AreTaken s [] senders = senders ≡ []
AreTaken s (e ∷ es) senders =
    (now : List Text) × (later : List Text) × IsTakenBy s e now
    × AreTaken (step s e) es later
    × (senders ≡ now ++ later)

sent_in-IsTaken :
    (r : PskReporter) (phase : Phase) (sent : Bool)
    → StillThere r phase
    → IsTaken r phase sent (sent_in r phase sent)
sent_in-IsTaken r waiting sent still = refl
sent_in-IsTaken r (sending datagram) true still = still.1
sent_in-IsTaken r (sending datagram) false still = refl
sent_in-IsTaken r finished sent still = refl

sent_by-IsTakenBy : (s : Service) (e : Event) → IsSound s → IsTakenBy s e (sent_by s e)
unfolding sent_by
sent_by-IsTakenBy s (offered report now) v = refl
sent_by-IsTakenBy s stopped v = refl
sent_by-IsTakenBy s (looked packet now) v = refl
sent_by-IsTakenBy s (answered sent now) v = sent_in-IsTaken s.reporter s.phase sent v.still

all_sent-AreTaken :
    (s : Service) (es : List Event) → IsSound s → All HasBuffer es → AreTaken s es (all_sent s es)
unfolding all_sent
all_sent-AreTaken s [] v b = refl
all_sent-AreTaken s (e ∷ es) v b =
    let (sound, order, sequence) = step-Balanced s e b.0 v in
    (
      sent_by s e,
      all_sent (step s e) es,
      sent_by-IsTakenBy s e v,
      all_sent-AreTaken (step s e) es sound b.1,
      refl,
    )

-- From a sound state, whatever happens next: the queue keeps one valid report for each sender and no
-- more than 512; the senders that waited and those that the queue gained are, in this order, those in
-- the bytes of the datagrams that the transport took and those that still wait; each of these datagrams
-- has the sequence number that the client has then; and that number has grown by the number of reports
-- that were sent, modulo 2 ^ 32.
pub senders_delivered :
    (s : Service) (es : List Event)
    → IsSound s
    → All HasBuffer es
    → (senders : List Text) × AreTaken s es senders
      × IsSound (run s es)
      × (calls s.reporter.queue ++ all_gained s es ≡ senders ++ calls (run s es).reporter.queue)
      × ((run s es).reporter.sequence ≡ (s.reporter.sequence + length senders) % 2 ^ 32)
senders_delivered s es v b =
    let (sound, order, sequence) = run-Balanced s es v b in
    (all_sent s es, all_sent-AreTaken s es v b, sound, order, sequence)
