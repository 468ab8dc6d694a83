-- ===== src/PskReporter/Packet.antt =====
-- `psk_reporter_build_packet` and the functions that it writes with.
-- A pointer into the packet is a position in the list of its bytes.
pub mod Puts
pub mod Layout
pub mod Sizes
pub mod Blocks
pub mod Build
pub mod Small
mod Examples
use airspyhf_wsprd.Common.{
  ℕ, ◌+◌, ◌-◌, ◌*◌, ◌/◌, ◌%◌, ◌^◌, Bool, true, false, not, ◌&&◌, ◌||◌, Option, none, some, List, [],
  ◌∷◌, ltb, leb, ◌==◌, if◌then◌else◌, length, replicate, write_at, Text, codes,
}
use airspyhf_wsprd.Common.Int.{ℤ, pos, negsuc}

-- `struct psk_report`
pub record PskReport : Type 0 where
  pub sender_call : Text
  pub frequency_hz : ℕ
  pub snr : ℤ
  pub flow_start : ℤ

abbrev pub receiver_template : List ℕ
receiver_template =
    0 ∷ 3 ∷ 0 ∷ 36 ∷ 153 ∷ 146 ∷ 0 ∷ 3 ∷ 0 ∷ 1 ∷ 128 ∷ 2 ∷ 255 ∷ 255 ∷ 0 ∷ 0 ∷ 118 ∷ 143 ∷ 128 ∷ 4
    ∷ 255 ∷ 255 ∷ 0 ∷ 0 ∷ 118 ∷ 143 ∷ 128 ∷ 8 ∷ 255 ∷ 255 ∷ 0 ∷ 0 ∷ 118 ∷ 143 ∷ 0 ∷ 0 ∷ []

abbrev pub sender_template : List ℕ
sender_template =
    0 ∷ 2 ∷ 0 ∷ 52 ∷ 153 ∷ 147 ∷ 0 ∷ 6 ∷ 128 ∷ 1 ∷ 255 ∷ 255 ∷ 0 ∷ 0 ∷ 118 ∷ 143 ∷ 128 ∷ 5 ∷ 0 ∷ 4
    ∷ 0 ∷ 0 ∷ 118 ∷ 143 ∷ 128 ∷ 6 ∷ 0 ∷ 1 ∷ 0 ∷ 0 ∷ 118 ∷ 143 ∷ 128 ∷ 10 ∷ 255 ∷ 255 ∷ 0 ∷ 0 ∷ 118
    ∷ 143 ∷ 128 ∷ 11 ∷ 0 ∷ 1 ∷ 0 ∷ 0 ∷ 118 ∷ 143 ∷ 0 ∷ 150 ∷ 0 ∷ 4 ∷ []

-- The two low bits of a `size_t` are cleared.
pub align_four : ℕ → ℕ
align_four value = (value + 3) % 2 ^ 64 / 4 * 4

-- The bytes that `put_u16` and `put_u32` write.
pub u16 : ℕ → List ℕ
u16 value = value / 2 ^ 8 % 2 ^ 8 ∷ value % 2 ^ 8 ∷ []

pub u32 : ℕ → List ℕ
u32 value =
    value / 2 ^ 24 % 2 ^ 8 ∷ value / 2 ^ 16 % 2 ^ 8 ∷ value / 2 ^ 8 % 2 ^ 8 ∷ value % 2 ^ 8 ∷ []

-- The casts of a signed number to `uint8_t` and to `uint32_t`.
pub to_u8 : ℤ → ℕ
to_u8 (pos n) = n % 2 ^ 8
to_u8 (negsuc n) = 2 ^ 8 - 1 - n % 2 ^ 8

pub to_u32 : ℤ → ℕ
to_u32 (pos n) = n % 2 ^ 32
to_u32 (negsuc n) = 2 ^ 32 - 1 - n % 2 ^ 32

abbrev pub is_negative : ℤ → Bool
is_negative (pos n) = false
is_negative (negsuc n) = true

unfoldable pub valid_text_length : Option Text → ℕ → Bool
valid_text_length none limit = false
valid_text_length (some text) limit = not (length text == 0) && leb (length text) limit

-- The packet, and the pointer behind what is written so far.
pub record Cursor : Type 0 where
  pub packet : List ℕ
  pub position : ℕ

pub put_bytes : Cursor → List ℕ → Cursor
put_bytes at bytes = record {
  packet = write_at at.packet at.position bytes;
  position = at.position + length bytes;
}

pub put_string : Cursor → Text → Cursor
put_string at text = put_bytes (put_bytes at (length text % 2 ^ 8 ∷ [])) text

-- One round of the loop over the reports.
pub put_report : Cursor → PskReport → Cursor
put_report at report =
    let call = put_string at report.sender_call in
    let frequency = put_bytes call (u32 report.frequency_hz) in
    let snr = put_bytes frequency (to_u8 report.snr ∷ []) in
    let mode = put_string snr (codes "FT8") in
    let source = put_bytes mode (1 ∷ []) in put_bytes source (u32 (to_u32 report.flow_start))

pub put_reports : Cursor → List PskReport → Cursor
put_reports at [] = at
put_reports at (report ∷ reports) = put_reports (put_report at report) reports

pub put_header : Cursor → ℕ → ℤ → ℕ → ℕ → Cursor
put_header at total_size export_time sequence observation_id =
    let version = put_bytes at (0 ∷ 10 ∷ []) in
    let size = put_bytes version (u16 (total_size % 2 ^ 16)) in
    let time = put_bytes size (u32 (to_u32 export_time)) in
    put_bytes (put_bytes time (u32 sequence)) (u32 observation_id)

pub put_templates : Cursor → Bool → Cursor
put_templates at include_templates =
    if include_templates then put_bytes (put_bytes at receiver_template) sender_template else at

pub put_receiver : Cursor → ℕ → Text → Text → Text → Cursor
put_receiver at receiver_size receiver_call receiver_grid software =
    let size = put_bytes (put_bytes at (153 ∷ 146 ∷ [])) (u16 (receiver_size % 2 ^ 16)) in
    put_string (put_string (put_string size receiver_call) receiver_grid) software

pub put_sender : Cursor → ℕ → List PskReport → Cursor
put_sender at sender_size reports =
    put_reports (put_bytes (put_bytes at (153 ∷ 147 ∷ [])) (u16 (sender_size % 2 ^ 16))) reports

-- The three texts are checked before, so this sum is small.
pub receiver_size_of : Text → Text → Text → ℕ
receiver_size_of receiver_call receiver_grid software =
    align_four (4 + 1 + length receiver_call + 1 + length receiver_grid + 1 + length software)

unfoldable pub valid_report : PskReport → Bool
valid_report report =
    valid_text_length (some report.sender_call) 12
    && not (report.frequency_hz == 0)
    && not (is_negative report.flow_start)

-- The loop that checks the reports and adds up their sizes.
pub sum_reports : ℕ → List PskReport → Option ℕ
sum_reports sender_size [] = some sender_size
sum_reports sender_size (report ∷ reports) =
    let size = 1 + length report.sender_call + 4 + 1 + 1 + 3 + 1 + 4 in
    let rest = sum_reports ((sender_size + size) % 2 ^ 64) reports in
    if valid_report report then rest else none

pub total_size_of : ℕ → ℕ → Bool → ℕ
total_size_of receiver_size sender_size include_templates =
    (16
      + receiver_size
      + sender_size
      + (if include_templates then length receiver_template + length sender_template else 0))
    % 2 ^ 64

-- The arguments of a packet, once none of their pointers is NULL.
pub record Request : Type 0 where
  pub receiver_call : Text
  pub receiver_grid : Text
  pub software : Text
  pub reports : List PskReport
  pub sequence : ℕ
  pub observation_id : ℕ
  pub export_time : ℤ
  pub include_templates : Bool

-- The writes: the whole packet is cleared, and the last set is written at the end.
pub write_packet : List ℕ → Request → ℕ → ℕ → ℕ → List ℕ
write_packet packet request receiver_size sender_size total_size =
    let cleared : Cursor = record {
      packet = write_at packet 0 (replicate total_size 0);
      position = 0;
    } in
    let header =
      put_header cleared total_size request.export_time request.sequence request.observation_id in
    let templates = put_templates header request.include_templates in
    let receiver =
      put_receiver templates receiver_size request.receiver_call request.receiver_grid
        request.software in
    (put_sender (record receiver { position = total_size - sender_size }) sender_size
      request.reports).packet

-- The checks of the sizes, and the packet with its size.
pub build_sized : List ℕ → ℕ → Request → Option ℕ → Option (List ℕ × ℕ)
build_sized packet capacity request none = none
build_sized packet capacity request (some sum) =
    let receiver_size =
      receiver_size_of request.receiver_call request.receiver_grid request.software in
    let sender_size = align_four sum in
    let total_size = total_size_of receiver_size sender_size request.include_templates in
    if ltb capacity total_size || ltb 65535 total_size
    then none
    else some (write_packet packet request receiver_size sender_size total_size, total_size)

unfoldable pub valid_request : Request → Bool
valid_request request =
    not (length request.reports == 0)
    && valid_text_length (some request.receiver_call) 12
    && valid_text_length (some request.receiver_grid) 6
    && valid_text_length (some request.software) 63
    && not (is_negative request.export_time)

-- What `*packet` and `*packet_size` hold afterwards; `none` is the result -1, which leaves both.
pub build_packet : Bool → Option (List ℕ) → ℕ → Option Request → Option (List ℕ × ℕ)
build_packet packet_size none capacity request = none
build_packet packet_size (some packet) capacity none = none
build_packet packet_size (some packet) capacity (some request) =
    if not packet_size || not (valid_request request)
    then none
    else build_sized packet capacity request (sum_reports 4 request.reports)
