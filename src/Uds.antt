-- ===== src/Uds.antt =====
-- virtual_ecu/virtecu/uds.py: service identifiers, response codes and the parsed request.
pub mod Request
use doip_playground.Base.{
  ◌==◌, if◌then◌else◌, contains, drop, Bytes, unpack_u16, ℕ, ◌%◌, bit_and, bit_or, Bool, false, not,
  ◌&&◌, Option, none, some, List, [], ◌∷◌,
}

abbrev pub sid_diagnostic_session_control : ℕ
sid_diagnostic_session_control = 0x10

abbrev pub sid_ecu_reset : ℕ
sid_ecu_reset = 0x11

abbrev pub sid_read_data_by_identifier : ℕ
sid_read_data_by_identifier = 0x22

abbrev pub sid_security_access : ℕ
sid_security_access = 0x27

abbrev pub sid_write_data_by_identifier : ℕ
sid_write_data_by_identifier = 0x2e

abbrev pub sid_routine_control : ℕ
sid_routine_control = 0x31

abbrev pub sid_tester_present : ℕ
sid_tester_present = 0x3e

abbrev pub sid_negative_response : ℕ
sid_negative_response = 0x7f

abbrev pub nrc_general_reject : ℕ
nrc_general_reject = 0x10

abbrev pub nrc_service_not_supported : ℕ
nrc_service_not_supported = 0x11

abbrev pub nrc_sub_function_not_supported : ℕ
nrc_sub_function_not_supported = 0x12

abbrev pub nrc_incorrect_message_length : ℕ
nrc_incorrect_message_length = 0x13

abbrev pub nrc_response_too_long : ℕ
nrc_response_too_long = 0x14

abbrev pub nrc_busy_repeat_request : ℕ
nrc_busy_repeat_request = 0x21

abbrev pub nrc_conditions_not_correct : ℕ
nrc_conditions_not_correct = 0x22

abbrev pub nrc_request_sequence_error : ℕ
nrc_request_sequence_error = 0x24

abbrev pub nrc_request_out_of_range : ℕ
nrc_request_out_of_range = 0x31

abbrev pub nrc_security_access_denied : ℕ
nrc_security_access_denied = 0x33

abbrev pub nrc_invalid_key : ℕ
nrc_invalid_key = 0x35

abbrev pub nrc_exceeded_number_of_attempts : ℕ
nrc_exceeded_number_of_attempts = 0x36

abbrev pub nrc_response_pending : ℕ
nrc_response_pending = 0x78

abbrev pub nrc_service_not_supported_in_session : ℕ
nrc_service_not_supported_in_session = 0x7f

-- Services whose byte 1 is a sub-function parameter.
abbrev pub sub_function_services : List ℕ
sub_function_services =
    0x10 ∷ 0x11 ∷ 0x19 ∷ 0x27 ∷ 0x28 ∷ 0x2c ∷ 0x31 ∷ 0x3e ∷ 0x83 ∷ 0x85 ∷ 0x86 ∷ 0x87 ∷ []

-- NRCs that are not sent in reply to a functionally addressed request.
abbrev pub functional_suppressed_nrcs : List ℕ
functional_suppressed_nrcs =
    nrc_service_not_supported ∷ nrc_sub_function_not_supported ∷ nrc_request_out_of_range
    ∷ nrc_service_not_supported_in_session ∷ []

abbrev pub did_active_diagnostic_session : ℕ
did_active_diagnostic_session = 0xf186

-- A Python SID: `none` is -1, that of an empty request.
abbrev pub Sid : Type 0
Sid = Option ℕ

-- `sid & 0xFF`
abbrev pub sid_byte : Sid → ℕ
sid_byte none = 0xff
sid_byte (some s) = s % 256

pub record UdsRequest : Type 0 where
  pub raw : Bytes
  pub source_addr : ℕ
  pub target_addr : ℕ
  pub functional : Bool

abbrev pub first_byte : Bytes → Sid
first_byte [] = none
first_byte (b ∷ bs) = some b

abbrev pub sid : UdsRequest → Sid
sid r = first_byte r.raw

abbrev pub uds_data : UdsRequest → Bytes
uds_data r = drop 1 r.raw

-- `self.sid in SUB_FUNCTION_SERVICES`
abbrev pub sid_in : Sid → List ℕ → Bool
sid_in none sids = false
sid_in (some s) sids = contains s sids

unfoldable pub has_sub_function : UdsRequest → Bool
has_sub_function r = sid_in (sid r) sub_function_services

abbrev pub second_byte : Bytes → Option ℕ
second_byte (a ∷ b ∷ bs) = some b
second_byte _ = none

-- `raw[1] & 0x7F`, for services that have a sub-function
unfoldable pub sub_function : UdsRequest → Option ℕ
unfolding has_sub_function contains
sub_function r =
    if not (has_sub_function r)
    then none
    else elim (second_byte r.raw) [ none ↦ none | some b ↦ some (bit_and b 0x7f) ]

-- `bool(... and self.raw[1] & 0x80)`
unfoldable pub suppress_pos_rsp : UdsRequest → Bool
unfolding has_sub_function contains
suppress_pos_rsp r =
    has_sub_function r
    && elim (second_byte r.raw) [ none ↦ false | some b ↦ not (bit_and b 0x80 == 0) ]

unfoldable pub dids_of : Bytes → List ℕ
dids_of (hi ∷ lo ∷ rest) = unpack_u16 hi lo ∷ dids_of rest
dids_of _ = []

abbrev pub dids : UdsRequest → List ℕ
dids r = dids_of (uds_data r)

-- `(sid | 0x40) & 0xFF`
abbrev pub positive_sid : Sid → ℕ
positive_sid none = 0xff
positive_sid (some s) = bit_or s 0x40 % 256

abbrev pub positive : UdsRequest → Bytes → Bytes
positive r payload = positive_sid (sid r) ∷ payload

abbrev pub negative : UdsRequest → ℕ → Bytes
negative r nrc = sid_negative_response ∷ sid_byte (sid r) ∷ nrc ∷ []
