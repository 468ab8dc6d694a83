-- ===== src/PskReporter/Packet/Layout.antt =====
-- The format of a datagram, described without positions: a message header, the templates if they are
-- due, and two sets, each filled up with zeros to a multiple of four bytes.
use airspyhf_wsprd.Common.{
  ℕ, ◌+◌, ◌-◌, ◌%◌, List, [], ◌∷◌, ◌++◌, length, replicate, Text, codes, Bool, if◌then◌else◌,
}
use airspyhf_wsprd.PskReporter.Packet.{
  PskReport, Request, u16, u32, to_u8, to_u32, receiver_template, sender_template,
}

-- A text of variable length.
abbrev pub text_field : Text → List ℕ
text_field text = length text ∷ text

abbrev pub report_record : PskReport → List ℕ
report_record report =
    text_field report.sender_call
    ++ u32 report.frequency_hz
    ++ (to_u8 report.snr ∷ [])
    ++ text_field (codes "FT8")
    ++ (1 ∷ [])
    ++ u32 (to_u32 report.flow_start)

abbrev pub report_records : List PskReport → List ℕ
report_records [] = []
report_records (report ∷ reports) = report_record report ++ report_records reports

-- The zeros that a set of `n` bytes lacks.
abbrev pub padding : ℕ → ℕ
padding n = (4 - n % 4) % 4

-- The identifier, the size of the set with its zeros, and the records.
abbrev pub data_set : List ℕ → List ℕ → List ℕ
data_set id records =
    let size = 4 + length records in
    id ++ u16 (size + padding size) ++ records ++ replicate (padding size) 0

abbrev pub receiver_records : Request → List ℕ
receiver_records request =
    text_field request.receiver_call
    ++ text_field request.receiver_grid
    ++ text_field request.software

abbrev pub templates_of : Bool → List ℕ
templates_of include_templates =
    if include_templates then receiver_template ++ sender_template else []

-- What follows the header.
abbrev pub sets : Request → List ℕ
sets request =
    templates_of request.include_templates
    ++ data_set (153 ∷ 146 ∷ []) (receiver_records request)
    ++ data_set (153 ∷ 147 ∷ []) (report_records request.reports)

abbrev pub message : Request → List ℕ
message request =
    (0 ∷ 10 ∷ [])
    ++ u16 (16 + length (sets request))
    ++ u32 (to_u32 request.export_time)
    ++ u32 request.sequence
    ++ u32 request.observation_id
    ++ sets request
