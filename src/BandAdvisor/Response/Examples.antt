-- ===== src/BandAdvisor/Response/Examples.antt =====
-- Two pieces of a response.
use airspyhf_wsprd.Common.{◌≤◌, ◌<◌, ◌≡◌, ◌⊎◌, refl, some, [], ◌∷◌, ◌++◌, arith, length, codes}
use airspyhf_wsprd.BandAdvisor.Response.{ResponseBuffer, receive_response}
use airspyhf_wsprd.BandAdvisor.Response.Holds.{Holds, receive_response-Holds}

abbrev one_piece : ResponseBuffer
one_piece = record { bytes = some (codes "80m" ++ (0 ∷ 0 ∷ 0 ∷ [])); length = 3; capacity = 6 }

one_piece-Holds : Holds (codes "80m") one_piece
one_piece-Holds = record {
  rest = 0 ∷ 0 ∷ [];
  bytes = refl;
  received_length = refl;
  capacity = refl;
}

receive_response-Holds_example :
    ((length (codes "80m" ++ codes ",4") < 6)
      × ((receive_response (codes ",4") 1 2 one_piece).0 ≡ 2)
      × Holds (codes "80m" ++ codes ",4") (receive_response (codes ",4") 1 2 one_piece).1)
    ⊎ ((6 ≤ length (codes "80m" ++ codes ",4"))
        × (receive_response (codes ",4") 1 2 one_piece ≡ (0, one_piece)))
receive_response-Holds_example =
    receive_response-Holds (codes "80m") (codes ",4") 1 2 one_piece one_piece-Holds refl
      (omega arith)
