-- ===== src/Pump.antt =====
-- virtual_ecu/virtecu/session.py, the frame pump of a connection: `_loop`, `_handle_diagnostic`,
-- `_handle_alive_check`, and the inactivity timers of `_supervise`.
pub mod Diagnostic
pub mod Answers
pub mod Frames
pub mod Timers
pub mod Waiting
use doip_playground.Base.{
  ltb, leb, ◌==◌, if◌then◌else◌, length, Bytes, pack_u16, unpack_u16, ℕ, ◌+◌, Bool, true, false,
  not, ◌&&◌, ◌||◌, Option, none, some, [], ◌∷◌, ◌++◌,
}
use doip_playground.Config.{EcuConfig}
use doip_playground.Doip.{
  ver, pt_header_nack, pt_routing_act_request, pt_alive_check_request, pt_alive_check_response,
  pt_diagnostic_message, pt_diagnostic_positive_ack, pt_diagnostic_negative_ack,
  nack_invalid_source_address, nack_unknown_target_address, nack_message_too_large,
  nack_generic_unknown_payload_type, nack_generic_message_too_large,
  nack_generic_invalid_payload_length, read_frame, validate_header, payload_of, frame,
  frame_too_large, incomplete_read,
}
use doip_playground.Uds.{nrc_busy_repeat_request, negative, UdsRequest}
use doip_playground.Session.{
  frame_len_slack, uds_queue_maxsize, as_activation, set_connection, bump_general, send,
  send_response, is_tester, handle_routing_activation, Connection, System, Flow, stay, close,
  Activation, done,
}

-- What `resolve_diagnostic_ack` returns: nothing, `WITHHOLD_ACK`, or a NACK code.
pub data AckOverride : Type 0 where
  no_override withhold_ack : AckOverride
  nack_with : ℕ → AckOverride

module _ (config : EcuConfig) where
  -- `struct.pack("!HHB", self._ecu_addr, src, code)`
  abbrev pub ack_body : ℕ → ℕ → Bytes
  ack_body src code = pack_u16 config.doip.ecu_logical_addr ++ (pack_u16 src ++ code ∷ [])

  -- A UDS message to the tester.
  abbrev pub response_body : ℕ → Bytes → Bytes
  response_body src response = pack_u16 config.doip.ecu_logical_addr ++ (pack_u16 src ++ response)

  abbrev pub diagnostic_nack : ℕ → ℕ → ℕ → System → System
  diagnostic_nack i src code s =
      send_response config i pt_diagnostic_negative_ack (ack_body src code) s

  -- `put_nowait`, or NRC 0x21 on a full queue
  unfoldable pub enqueue : ℕ → UdsRequest → System → System
  enqueue i r s =
      let c = s.connections i in
      if ltb (length c.queue) uds_queue_maxsize
      then set_connection i (record c { queue = c.queue ++ (r, c.req_version) ∷ [] }) s
      else send_response config i pt_diagnostic_message
          (response_body r.source_addr (negative r nrc_busy_repeat_request)) s

  -- The Positive ACK and the queue, behind all checks.
  unfoldable pub accept_message : ℕ → UdsRequest → AckOverride → System → Flow × System
  accept_message i r no_override s = (
    stay,
    enqueue i r (send_response config i pt_diagnostic_positive_ack (ack_body r.source_addr 0x00) s),
  )
  accept_message i r withhold_ack s = (stay, s)
  accept_message i r (nack_with code) s =
      if ltb code 256 then (stay, diagnostic_nack i r.source_addr code s) else (close, s)

  -- `self.activated and src == self.tester_addr`
  abbrev pub owns : Connection → ℕ → Bool
  owns c src = c.activated && is_tester config src c.tester

  -- The checks of `_handle_diagnostic`.
  unfoldable pub check_message : ℕ → UdsRequest → AckOverride → System → Flow × System
  check_message i r ack s =
      if not (owns (s.connections i) r.source_addr)
      then (close, diagnostic_nack i r.source_addr nack_invalid_source_address s)
      else if not (r.target_addr == config.doip.ecu_logical_addr) && not r.functional
      then (stay, diagnostic_nack i r.source_addr nack_unknown_target_address s)
      else if ltb config.doip.max_payload_bytes (length r.raw)
      then (stay, diagnostic_nack i r.source_addr nack_message_too_large s)
      else accept_message i r ack s

  -- The request of a diagnostic message's payload, with at least one UDS byte.
  abbrev pub request_of : ℕ → ℕ → Bytes → UdsRequest
  request_of src tgt uds = record {
    raw = uds;
    source_addr = src;
    target_addr = tgt;
    functional = tgt == config.uds.functional_addr;
  }

  -- `_handle_diagnostic`; a payload of fewer than 5 bytes is refused.
  unfoldable pub handle_diagnostic : ℕ → Bytes → AckOverride → System → Flow × System
  handle_diagnostic i (a ∷ b ∷ c ∷ d ∷ e ∷ uds) ack s =
      check_message i (request_of (unpack_u16 a b) (unpack_u16 c d) (e ∷ uds)) ack s
  handle_diagnostic i _ ack s =
      (stay, send_response config i pt_header_nack (nack_generic_invalid_payload_length ∷ []) s)

  unfoldable pub handle_alive_check : ℕ → System → System
  handle_alive_check i s =
      send_response config i pt_alive_check_response (pack_u16 config.doip.ecu_logical_addr) s

  -- What the hooks decide about one frame.
  pub record Overrides : Type 0 where
    pub activation : Option ℕ
    pub ack : AckOverride

  -- The Alive Check Response only wakes the connection that probes; nothing else changes.
  unfoldable pub handle_type : ℕ → ℕ → Bytes → Overrides → System → Activation
  handle_type i pt body o s =
      if pt == pt_routing_act_request
      then handle_routing_activation config i body o.activation s
      else if pt == pt_diagnostic_message
      then as_activation (handle_diagnostic i body o.ack s)
      else if pt == pt_alive_check_request
      then done stay (handle_alive_check i s)
      else if pt == pt_alive_check_response
      then done stay s
      else done stay
          (send_response config i pt_header_nack (nack_generic_unknown_payload_type ∷ []) s)

  -- A frame that ends the connection, in the entity's own version.
  abbrev pub refuse : ℕ → ℕ → System → Activation
  refuse i code s =
      done close (
        send config i (record { payload_type = pt_header_nack; body = code ∷ []; version = ver }) s)

  abbrev pub with_version : ℕ → ℕ → System → System
  with_version i v s = set_connection i (record (s.connections i) { req_version = v }) s

  -- The body of `_loop` on the frame read.
  unfoldable pub handle_frame : ℕ → Bytes → Overrides → System → Activation
  handle_frame i (v ∷ inv ∷ hi ∷ lo ∷ rest) o s =
      let s' = bump_general config i s in
      elim (validate_header (v ∷ inv ∷ hi ∷ lo ∷ rest) none []) [
        | none ↦ done close s'
        | some verdict ↦ elim verdict [
          | some code ↦ refuse i code s'
          | none ↦
              handle_type i (unpack_u16 hi lo) (payload_of (v ∷ inv ∷ hi ∷ lo ∷ rest)) o
                (with_version i v s')
        ]
      ]
  handle_frame i _ o s = done close s

  abbrev pub read_limit : ℕ
  read_limit = config.doip.max_payload_bytes + 4 + frame_len_slack

  -- One turn of `_loop` on the bytes that are to come, with the bytes left.
  unfoldable pub pump : ℕ → Bytes → Overrides → System → Activation × Bytes
  pump i stream o s = elim (read_frame (some read_limit) stream) [
    | incomplete_read ↦ (done close s, [])
    | frame_too_large n limit ↦ (refuse i nack_generic_message_too_large s, [])
    | frame raw rest ↦ (handle_frame i raw o s, rest)
  ]

  abbrev pub due : Option ℕ → ℕ → Bool
  due none now = false
  due (some deadline) now = leb deadline now

  -- `_finalize`
  abbrev pub finalize : Connection → Connection
  finalize c = if c.finalized then c else record c { finalized = true; is_open = false }

  -- `_supervise` when it wakes: the deadlines that have passed.
  unfoldable pub supervise : ℕ → System → System
  supervise i s =
      let c = s.connections i in
      if c.finalized
      then s
      else if due c.initial_deadline s.world.now || due c.general_deadline s.world.now
      then set_connection i (finalize c) s
      else s

  -- The start of `run`
  unfoldable pub connected : ℕ → Connection
  connected now = record {
    activated = false;
    tester = none;
    state = none;
    queue = [];
    req_version = ver;
    initial_deadline =
        if ltb 0 config.doip.initial_inactivity_ms
        then some (now + config.doip.initial_inactivity_ms)
        else none;
    general_deadline = none;
    finalized = false;
    is_open = true;
  }
