-- ===== src/Gateway/Diagnostic.antt =====
-- What a session of doip_edgenode/session.py does with a frame: `_dispatch`, the status handlers, a
-- diagnostic message to the node itself, and the way of one to an ECU up to the exchange. A packet
-- that was dissected gives back its bytes, and its fields are read from them. The middleware chain's
-- result, the outcome of a connection attempt and the random bytes are arguments.
pub mod Addressing
pub mod Forwarding
use doip_playground.Base.{
  ltb, leb, ◌==◌, if◌then◌else◌, length, take, drop, replicate, lookup, Bytes, pack_u16, unpack_u32,
  ℕ, bit_or, Bool, false, not, ◌&&◌, Option, none, some, List, [], ◌∷◌, ◌++◌,
}
use doip_playground.Doip.{
  pt_header_nack, pt_routing_act_request, pt_alive_check_request, pt_alive_check_response,
  pt_entity_status_request, pt_entity_status_response, pt_power_mode_request,
  pt_power_mode_response, pt_diagnostic_message, pt_diagnostic_positive_ack,
  pt_diagnostic_negative_ack, nack_generic_invalid_payload_length, ptype,
}
use doip_playground.Gateway.{wire_frame, byte_at, word_at, GatewayConfig}

-- Whether the session goes on, or ends with a `DoIPProtocolError`.
pub data Ending : Type 0 where
  goes_on fails : Ending

-- What a handler of a message sends to the tester, and how it ends; or, for an exchange, the ECU's
-- address, its connection and the bytes for it.
pub data Handling : Type 0 where
  local : List Bytes → Ending → Handling
  forward : ℕ → ℕ → Bytes → Handling

-- `middleware_chain.run`, tester to ECU: `DoIPFaultInjectionError`, None, or the packet's bytes.
pub data Verdict : Type 0 where
  faulted : ℕ → Verdict
  dropped : Verdict
  passed : Bytes → Verdict

-- An attempt to connect to an ECU: the connection's identity, or an error.
pub data Attempt : Type 0 where
  opened : ℕ → Attempt
  refused : Attempt

abbrev pub header_nack_frame : ℕ → Bytes
header_nack_frame code = wire_frame pt_header_nack (code ∷ [])

-- `request[n:n+2]`
abbrev pub slice_two : ℕ → Bytes → Bytes
slice_two n request = take 2 (drop n request)

abbrev pub diag_nack_frame : ℕ → Bytes → Bytes
diag_nack_frame code request =
    wire_frame pt_diagnostic_negative_ack
      (slice_two 10 request ++ (slice_two 8 request ++ code ∷ []))

-- `_send_diag_nack`, and how the handler that calls it then ends
unfoldable pub send_diag_nack : ℕ → Bytes → Ending → Handling
send_diag_nack code request ending =
    if ltb (length request) 12
    then local (header_nack_frame nack_generic_invalid_payload_length ∷ []) fails
    else local (diag_nack_frame code request ∷ []) ending

-- `RoutingTable.lookup_by_ecu_addr`, on the table's addresses
unfoldable pub lookup_by_ecu_addr : ℕ → List ℕ → Option ℕ
lookup_by_ecu_addr addr [] = none
lookup_by_ecu_addr addr (entry ∷ entries) =
    let found = lookup_by_ecu_addr addr entries in if entry == addr then some entry else found

module _ (config : GatewayConfig) where
  -- `_handle_entity_status` with a registry, by the number of open sockets
  abbrev pub entity_status_frame : ℕ → Bytes
  entity_status_frame open_count =
      wire_frame pt_entity_status_response
        (config.node_type ∷ config.max_connections ∷ open_count ∷ [])

  -- `_handle_power_mode`
  abbrev pub power_mode_frame : Bytes
  power_mode_frame = wire_frame pt_power_mode_response (config.power_mode ∷ [])

  -- `_build_uds_response`; `random` are the four bytes of `os.urandom`.
  unfoldable pub build_uds_response : Bytes → Bytes → Bytes
  build_uds_response random [] = random
  build_uds_response random (sid ∷ rest) =
      if leb 3 (length (sid ∷ rest))
        && sid == 0x22
        && byte_at 0 rest == 0xF1
        && byte_at 1 rest == 0x90
      then 0x62 ∷ 0xF1 ∷ 0x90 ∷ take 17 (config.vin ++ replicate 17 0)
      else bit_or sid 0x40 ∷ (rest ++ random)

  -- `_handle_self_diagnostic`, for a message of at least twelve bytes
  unfoldable pub handle_self_diagnostic : Bytes → Bytes → Handling
  handle_self_diagnostic random raw =
      let src : ℕ = word_at 8 raw in
      let tgt : ℕ = word_at 10 raw in
      local
        (wire_frame pt_diagnostic_positive_ack (pack_u16 tgt ++ (pack_u16 src ++ 0x00 ∷ []))
          ∷ wire_frame pt_diagnostic_message
              (pack_u16 tgt ++ (pack_u16 src ++ build_uds_response random (drop 12 raw)))
          ∷ [])
        goes_on

  -- `_connect_to_ecu`, on the routing table and the outcome of the attempt
  unfoldable pub connect_to_ecu : List ℕ → Attempt → ℕ → Bytes → Bytes → Handling
  connect_to_ecu table attempt target processed raw = elim (lookup_by_ecu_addr target table) [
    | none ↦ send_diag_nack 0x03 raw goes_on
    | some entry ↦ elim attempt [
      | opened conn ↦ forward target conn processed
      | refused ↦ send_diag_nack 0x06 raw goes_on
    ]
  ]

  -- The connection that `_ecu_conns` has for a target, if it is still connected.
  abbrev pub cached : (ℕ → Bool) → Option ℕ → Option ℕ
  cached connected none = none
  cached connected (some conn) = if connected conn then some conn else none

  -- From the processed bytes on.
  unfoldable pub route : List ℕ → List (ℕ × ℕ) → (ℕ → Bool) → Attempt → Bytes → Bytes → Handling
  route table ecu_conns connected attempt processed raw =
      if ltb (length processed) 12
      then send_diag_nack 0x03 raw goes_on
      else elim (cached connected (lookup (word_at 10 processed) ecu_conns)) [
        | some conn ↦ forward (word_at 10 processed) conn processed
        | none ↦ connect_to_ecu table attempt (word_at 10 processed) processed raw
      ]

  abbrev pub by_verdict_of :
      List ℕ → List (ℕ × ℕ) → (ℕ → Bool) → Attempt → Verdict → Bytes → Handling
  by_verdict_of table ecu_conns connected attempt (faulted code) raw =
      send_diag_nack code raw goes_on
  by_verdict_of table ecu_conns connected attempt dropped raw = local [] goes_on
  by_verdict_of table ecu_conns connected attempt (passed processed) raw =
      route table ecu_conns connected attempt processed raw

  abbrev pub is_own_source : Option ℕ → Bytes → Bool
  is_own_source none raw = false
  is_own_source (some tester) raw = leb 10 (length raw) && word_at 8 raw == tester

  -- `_handle_diagnostic` up to the exchange
  unfoldable pub handle_diagnostic_message :
      Option ℕ → Bytes → List ℕ → List (ℕ × ℕ) → (ℕ → Bool) → Attempt → Verdict → Bytes → Handling
  handle_diagnostic_message tester random table ecu_conns connected attempt verdict raw =
      if not (is_own_source tester raw)
      then send_diag_nack 0x02 raw fails
      else if leb 12 (length raw) && word_at 10 raw == config.node_logical_addr
      then handle_self_diagnostic random raw
      else by_verdict_of table ecu_conns connected attempt verdict raw

-- What `_session_loop` and `_dispatch` do with a frame of a session that is not closing.
pub data Command : Type 0 where
  ignore answer_status answer_power unknown_type : Command
  activate : ℕ → ℕ → Command
  probe_reply : Bytes → Command
  refuse_early diagnose : Bytes → Command

unfoldable pub dispatch_frame : Bool → Bytes → Command
dispatch_frame activated raw =
    let ptype : ℕ = word_at 2 raw in
    if ptype == pt_header_nack
    then ignore
    else if ptype == pt_alive_check_request
    then ignore
    else if ptype == pt_alive_check_response
    then (if activated then probe_reply raw else ignore)
    else if ptype == pt_routing_act_request
    then activate (word_at 8 raw) (byte_at 10 raw)
    else if ptype == pt_entity_status_request
    then answer_status
    else if ptype == pt_power_mode_request
    then answer_power
    else if ptype == pt_diagnostic_message
    then (if activated then diagnose raw else refuse_early raw)
    else unknown_type

-- `_handle_alive_check_response`: whether the reply sets the event of a probe that waits.
unfoldable pub answers_probe : Bool → Option ℕ → Bool → Bytes → Bool
answers_probe activated tester probe_pending raw =
    activated
    && length raw == 10
    && unpack_u32 (byte_at 4 raw) (byte_at 5 raw) (byte_at 6 raw) (byte_at 7 raw) == 2
    && elim tester [ none ↦ false | some addr ↦ word_at 8 raw == addr ]
    && probe_pending
