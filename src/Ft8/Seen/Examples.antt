-- ===== src/Ft8/Seen/Examples.antt =====
-- Two messages with the same home slot.
use airspyhf_wsprd.Common.{◌≡◌, none, some, [], ◌∷◌, arith}
use airspyhf_wsprd.Ft8.Seen.{Message, Decoded, already_decoded, retain_message}
use airspyhf_wsprd.Ft8.Seen.Set.{
  contains, IsMessageSet, empty-IsMessageSet, retain_message-IsMessageSet,
}

abbrev first_message : Message
first_message = record { payload = 1 ∷ 2 ∷ []; hash = 103 }

abbrev second_message : Message
second_message = record { payload = 1 ∷ 3 ∷ []; hash = 53 }

abbrev no_messages : Decoded
no_messages = λ i. none

one_message :
    (next : Decoded) × (retain_message no_messages first_message ≡ some next)
    × IsMessageSet (first_message ∷ []) next
one_message =
    let (same, next, kept, set) =
      retain_message-IsMessageSet [] no_messages first_message empty-IsMessageSet (omega arith) in
    (next, kept, set)

retain_message-IsMessageSet_example :
    ((other : Message) → already_decoded one_message.0 other ≡ contains (first_message ∷ []) other)
    × (next : Decoded) × (retain_message one_message.0 second_message ≡ some next)
    × IsMessageSet (second_message ∷ first_message ∷ []) next
retain_message-IsMessageSet_example =
    retain_message-IsMessageSet (first_message ∷ []) one_message.0 second_message one_message.2
      (omega arith)
