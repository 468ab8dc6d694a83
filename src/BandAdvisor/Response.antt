-- ===== src/BandAdvisor/Response.antt =====
-- `receive_response`: curl hands over a response in pieces.
pub mod Holds
mod Examples
use airspyhf_wsprd.Common.{
  ℕ, ◌+◌, ◌-◌, ◌*◌, ◌/◌, ◌^◌, Bool, true, false, not, ◌&&◌, ◌||◌, Option, none, some, List, [], ◌∷◌,
  ltb, leb, ◌==◌, if◌then◌else◌, set, write_at,
}
use airspyhf_wsprd.DecoderBridge.Paths.{size_max}

-- `struct response_buffer`; the bytes of the array, if there is one.
pub record ResponseBuffer : Type 0 where
  pub bytes : Option (List ℕ)
  pub length : ℕ
  pub capacity : ℕ

-- What is stored in an array, behind what is there, and a NUL.
abbrev pub store_bytes : ResponseBuffer → List ℕ → List ℕ → ℕ → ResponseBuffer
store_bytes response bytes contents size = record response {
  bytes = some (set (write_at bytes response.length contents) (response.length + size) 0);
  length = response.length + size;
}

-- The number of bytes that are taken, and the buffer.
pub receive_bytes : ResponseBuffer → Option (List ℕ) → List ℕ → ℕ → ℕ × ResponseBuffer
receive_bytes response none contents size = (0, response)
receive_bytes response (some bytes) contents size =
    if response.capacity == 0
      || leb response.capacity response.length
      || ltb (response.capacity - response.length - 1) size
    then (0, response)
    else (size, store_bytes response bytes contents size)

pub receive_response : List ℕ → ℕ → ℕ → ResponseBuffer → ℕ × ResponseBuffer
receive_response contents size count response =
    if not (size == 0) && ltb (size_max / size) count
    then (0, response)
    else receive_bytes response response.bytes contents (size * count)
