-- ===== src/Gateway/Wire.antt =====
-- `_read_frame`, `_discard_payload` and the reading side of `_session_loop` in doip_edgenode/session.py.
-- A stream is what the peer sends before it closes; `prompt` says whether the body of a rejected frame
-- arrives within the discard's deadline.
pub mod Framing
pub mod Streams
use doip_playground.Base.{
  ltb, leb, ◌==◌, if◌then◌else◌, contains, lookup, Bytes, unpack_u16, unpack_u32, ℕ, zero, suc, ◌-◌,
  bit_xor, Bool, true, false, not, ◌||◌, Option, none, some, List, [], ◌∷◌, ◌++◌,
}
use doip_playground.Doip.{
  ver, pt_header_nack, pt_routing_act_request, pt_alive_check_request, pt_alive_check_response,
  pt_entity_status_request, pt_power_mode_request, pt_diagnostic_message,
  nack_generic_incorrect_pattern, nack_generic_unknown_payload_type, nack_generic_message_too_large,
  nack_generic_invalid_payload_length, read_exactly, ptype,
}
use doip_playground.Gateway.{GatewayConfig}
use Prim.Native.Nat.{min}

abbrev pub valid_versions : List ℕ
valid_versions = 0x02 ∷ 0x03 ∷ []

-- `_TCP_PAYLOAD_LENGTHS`; `none` stands for addresses and at least one byte of user data.
abbrev pub tcp_payload_lengths : List (ℕ × Option (List ℕ))
tcp_payload_lengths =
    (pt_header_nack, some (1 ∷ []))
    ∷ (pt_routing_act_request, some (7 ∷ 11 ∷ []))
    ∷ (pt_alive_check_request, some (0 ∷ []))
    ∷ (pt_alive_check_response, some (2 ∷ []))
    ∷ (pt_entity_status_request, some (0 ∷ []))
    ∷ (pt_power_mode_request, some (0 ∷ []))
    ∷ (pt_diagnostic_message, none)
    ∷ []

abbrev pub tcp_discard_chunk_bytes : ℕ
tcp_discard_chunk_bytes = 4096

-- The loop of `discard`, on fuel; `none` is the `IncompleteReadError`.
unfoldable pub discard : ℕ → ℕ → Bytes → Option Bytes
discard zero remaining stream = none
discard (suc fuel) remaining stream = elim (remaining == 0) [
  | true ↦ some stream
  | false ↦ elim (read_exactly (min remaining tcp_discard_chunk_bytes) stream) [
    | none ↦ none
    | some (chunk, rest) ↦ discard fuel (remaining - min remaining tcp_discard_chunk_bytes) rest
  ]
]

-- What `_read_frame` does: it returns a frame, it answers with a Header NACK and returns None, it
-- answers with one and closes, or the stream ends, behind a NACK or not.
pub data WireRead : Type 0 where
  received : Bytes → Bytes → WireRead
  skipped : ℕ → Bytes → WireRead
  violation : ℕ → WireRead
  disconnected : Option ℕ → WireRead

abbrev pub fits_lengths : Option (List ℕ) → ℕ → Bool
fits_lengths none n = leb 5 n
fits_lengths (some lengths) n = contains n lengths

-- A NACK, then `_discard_payload`.
unfoldable pub reject : Bool → ℕ → ℕ → Bytes → WireRead
reject prompt code n stream =
    if n == 0
    then skipped code stream
    else if prompt
    then elim (discard (suc n) n stream) [
      | none ↦ disconnected (some code)
      | some rest ↦ skipped code rest
    ]
    else violation code

unfoldable pub take_payload : Bytes → ℕ → Bytes → WireRead
take_payload header n stream = elim (read_exactly n stream) [
  | none ↦ disconnected none
  | some (payload, rest) ↦ received (header ++ payload) rest
]

module _ (config : GatewayConfig) (prompt : Bool) where
  unfoldable pub check_lengths : Option (List ℕ) → Bytes → ℕ → Bytes → WireRead
  check_lengths lengths header n stream =
      if ltb config.max_payload_bytes n
      then reject prompt nack_generic_message_too_large n stream
      else if fits_lengths lengths n
      then take_payload header n stream
      else violation nack_generic_invalid_payload_length

  unfoldable pub check_type : ℕ → Bytes → ℕ → Bytes → WireRead
  check_type ptype header n stream = elim (lookup ptype tcp_payload_lengths) [
    | none ↦ reject prompt nack_generic_unknown_payload_type n stream
    | some lengths ↦ check_lengths lengths header n stream
  ]

  unfoldable pub read_wire_frame : Bytes → WireRead
  read_wire_frame (ver ∷ inv ∷ hi ∷ lo ∷ a ∷ b ∷ c ∷ d ∷ rest) =
      if not (contains ver valid_versions) || not (inv == bit_xor 0xff ver)
      then violation nack_generic_incorrect_pattern
      else check_type (unpack_u16 hi lo) (ver ∷ inv ∷ hi ∷ lo ∷ a ∷ b ∷ c ∷ d ∷ [])
          (unpack_u32 a b c d) rest
  read_wire_frame _ = disconnected none

-- What a session's loop sees of a stream, in order.
pub data Seen : Type 0 where
  got : Bytes → Seen
  nacked : ℕ → Seen
  ended : Option ℕ → Seen

module _ (config : GatewayConfig) (prompt : Bool) where
  -- The reads of `_session_loop`, each within one unit of fuel.
  unfoldable pub read_frames : ℕ → Bytes → List Seen
  read_frames zero stream = []
  read_frames (suc fuel) stream = elim (read_wire_frame config prompt stream) [
    | received raw rest ↦ got raw ∷ read_frames fuel rest
    | skipped code rest ↦ nacked code ∷ read_frames fuel rest
    | violation code ↦ ended (some code) ∷ []
    | disconnected code ↦ ended code ∷ []
  ]
