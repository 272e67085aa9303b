-- ===== src/Doip.antt =====
-- virtual_ecu/virtecu/doip.py: the generic header, frames, and the constants of ISO 13400-2.
pub mod Codec
pub mod Header
use doip_playground.Base.{
  ltb, leb, ◌==◌, if◌then◌else◌, contains, length, take, drop, Bytes, pack_u16, pack_u32,
  unpack_u16, unpack_u32, ℕ, bit_xor, Bool, false, not, ◌&&◌, Option, none, some, List, [], ◌∷◌,
  ◌++◌,
}

abbrev pub ver : ℕ
ver = 0x02

abbrev pub accepted_versions : List ℕ
accepted_versions = 0x02 ∷ 0x03 ∷ []

-- Payload types.
abbrev pub pt_header_nack : ℕ
pt_header_nack = 0x0000

abbrev pub pt_vehicle_id_request : ℕ
pt_vehicle_id_request = 0x0001

abbrev pub pt_vehicle_id_request_with_eid : ℕ
pt_vehicle_id_request_with_eid = 0x0002

abbrev pub pt_vehicle_id_request_with_vin : ℕ
pt_vehicle_id_request_with_vin = 0x0003

abbrev pub pt_vehicle_id_response : ℕ
pt_vehicle_id_response = 0x0004

abbrev pub pt_routing_act_request : ℕ
pt_routing_act_request = 0x0005

abbrev pub pt_routing_act_response : ℕ
pt_routing_act_response = 0x0006

abbrev pub pt_alive_check_request : ℕ
pt_alive_check_request = 0x0007

abbrev pub pt_alive_check_response : ℕ
pt_alive_check_response = 0x0008

abbrev pub pt_entity_status_request : ℕ
pt_entity_status_request = 0x4001

abbrev pub pt_entity_status_response : ℕ
pt_entity_status_response = 0x4002

abbrev pub pt_power_mode_request : ℕ
pt_power_mode_request = 0x4003

abbrev pub pt_power_mode_response : ℕ
pt_power_mode_response = 0x4004

abbrev pub pt_diagnostic_message : ℕ
pt_diagnostic_message = 0x8001

abbrev pub pt_diagnostic_positive_ack : ℕ
pt_diagnostic_positive_ack = 0x8002

abbrev pub pt_diagnostic_negative_ack : ℕ
pt_diagnostic_negative_ack = 0x8003

-- Diagnostic Message negative acknowledge codes (Table 26).
abbrev pub nack_invalid_source_address : ℕ
nack_invalid_source_address = 0x02

abbrev pub nack_unknown_target_address : ℕ
nack_unknown_target_address = 0x03

abbrev pub nack_message_too_large : ℕ
nack_message_too_large = 0x04

-- Generic header negative acknowledge codes (Table 14).
abbrev pub nack_generic_incorrect_pattern : ℕ
nack_generic_incorrect_pattern = 0x00

abbrev pub nack_generic_unknown_payload_type : ℕ
nack_generic_unknown_payload_type = 0x01

abbrev pub nack_generic_message_too_large : ℕ
nack_generic_message_too_large = 0x02

abbrev pub nack_generic_invalid_payload_length : ℕ
nack_generic_invalid_payload_length = 0x04

abbrev pub routing_act_request_min_len : ℕ
routing_act_request_min_len = 7

-- The arguments of `build_frame`, which the session layer sends.
pub record Frame : Type 0 where
  pub payload_type : ℕ
  pub body : Bytes
  pub version : ℕ

-- `build_frame`. `none` is the `struct.error` of a field that does not fit its width.
unfoldable pub build_frame : ℕ → Bytes → ℕ → Option Bytes
build_frame payload_type body version =
    if ltb version 256
      && ltb (bit_xor 0xff version) 256
      && ltb payload_type 65536
      && ltb (length body) 4294967296
    then some (
        version
        ∷ bit_xor 0xff version
        ∷ (pack_u16 payload_type ++ (pack_u32 (length body) ++ body)))
    else none

-- What `read_frame` returns or raises, with the bytes left in the stream.
pub data ReadResult : Type 0 where
  frame : Bytes → Bytes → ReadResult
  frame_too_large : ℕ → ℕ → ReadResult
  incomplete_read : ReadResult

-- `StreamReader.readexactly(n)` on the bytes that the peer sends before it closes.
unfoldable pub read_exactly : ℕ → Bytes → Option (Bytes × Bytes)
read_exactly n stream = if leb n (length stream) then some (take n stream, drop n stream) else none

-- The length field, `hdr[4:8]`.
unfoldable pub declared_len : Bytes → ℕ
declared_len (v ∷ i ∷ hi ∷ lo ∷ a ∷ b ∷ c ∷ d ∷ rest) = unpack_u32 a b c d
declared_len _ = 0

abbrev pub exceeds : ℕ → Option ℕ → Bool
exceeds plen none = false
exceeds plen (some max_len) = ltb max_len plen

-- The payload, after the header `hdr`.
pub read_payload : Bytes → ℕ → Bytes → ReadResult
read_payload hdr plen stream =
    if plen == 0 then frame hdr stream else elim (read_exactly plen stream) [
      | none ↦ incomplete_read
      | some (payload, rest) ↦ frame (hdr ++ payload) rest
    ]

abbrev pub limit_of : Option ℕ → ℕ
limit_of none = 0
limit_of (some max_len) = max_len

-- `read_frame` from the header on.
pub after_header : Option ℕ → Bytes → Bytes → ReadResult
unfolding read_payload declared_len
after_header max_len hdr rest =
    if exceeds (declared_len hdr) max_len
    then frame_too_large (declared_len hdr) (limit_of max_len)
    else read_payload hdr (declared_len hdr) rest

unfoldable pub read_frame : Option ℕ → Bytes → ReadResult
unfolding read_exactly after_header
read_frame max_len stream = elim (read_exactly 8 stream) [
  | none ↦ incomplete_read
  | some (hdr, rest) ↦ after_header max_len hdr rest
]

-- `known_types is not None and pt not in known_types`
abbrev pub is_unknown : ℕ → Option (List ℕ) → Bool
is_unknown pt none = false
is_unknown pt (some known) = not (contains pt known)

check_fields : ℕ → ℕ → ℕ → Option (List ℕ) → List ℕ → Option ℕ
check_fields v inv pt known_types wildcard_types =
    if not (inv == bit_xor 0xff v)
    then some nack_generic_incorrect_pattern
    else if not (contains v accepted_versions) && not (v == 0xff && contains pt wildcard_types)
    then some nack_generic_incorrect_pattern
    else if is_unknown pt known_types
    then some nack_generic_unknown_payload_type
    else none

-- `validate_header`: outer `none` is the exception on fewer than 4 bytes; the inner value is the
-- NACK code, or `none` for an acceptable header.
unfoldable pub validate_header : Bytes → Option (List ℕ) → List ℕ → Option (Option ℕ)
unfolding check_fields
validate_header (v ∷ inv ∷ hi ∷ lo ∷ rest) known_types wildcard_types =
    some (check_fields v inv (unpack_u16 hi lo) known_types wildcard_types)
validate_header _ known_types wildcard_types = none

-- `ptype`, defined from 4 bytes on
unfoldable pub ptype : Bytes → Option ℕ
ptype (v ∷ i ∷ hi ∷ lo ∷ rest) = some (unpack_u16 hi lo)
ptype _ = none

abbrev pub payload_of : Bytes → Bytes
payload_of raw = drop 8 raw
