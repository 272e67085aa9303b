-- ===== src/Session.antt =====
-- virtual_ecu/virtecu/session.py: the registry of testers, and the connections with their pump and
-- worker. A connection is an identity; `Connection` is what its `EcuSession` holds. Between two
-- waits a handler is one step, and the wait for an Alive Check Response splits routing activation
-- in two. The results of the DoIP hooks are arguments, and those hooks change nothing else.
pub mod Registry
pub mod Admission
pub mod Takeover
use doip_playground.Base.{
  ltb, leb, ◌==◌, if◌then◌else◌, contains, length, replicate, lookup, insert, erase, Bytes,
  pack_u16, unpack_u16, ℕ, ◌+◌, Bool, true, false, not, ◌&&◌, Option, none, some, List, [], ◌∷◌,
  ◌++◌,
}
use doip_playground.Config.{EcuConfig}
use doip_playground.Doip.{
  ver, pt_header_nack, pt_routing_act_response, pt_alive_check_request,
  nack_generic_invalid_payload_length, Frame,
}
use doip_playground.Uds.{UdsRequest}
use doip_playground.Effect.{update, World}
use doip_playground.Core.{session_for, maybe_drop_session_state}

pub record Connection : Type 0 where
  pub activated : Bool
  pub tester : Option ℕ
  pub state : Option ℕ
  pub queue : List (UdsRequest × ℕ)
  pub req_version : ℕ
  pub initial_deadline : Option ℕ
  pub general_deadline : Option ℕ
  pub finalized : Bool
  pub is_open : Bool

-- `registry` is `SessionRegistry._sessions`; `out` are the frames sent, each with its connection.
pub record System : Type 0 where
  pub world : World
  pub connections : ℕ → Connection
  pub registry : List (ℕ × ℕ)
  pub out : List (ℕ × Frame)

abbrev pub frame_len_slack : ℕ
frame_len_slack = 65536

abbrev pub uds_queue_maxsize : ℕ
uds_queue_maxsize = 8

-- How a handler ends: the pump goes on, or the socket is torn down (`_CloseConnection`, an error).
pub data Flow : Type 0 where
  stay close : Flow

-- Where routing activation has to wait for the Alive Check of another connection.
pub data Activation : Type 0 where
  done : Flow → System → Activation
  probe : ℕ → System → Activation

abbrev pub as_activation : Flow × System → Activation
as_activation (f, s) = done f s

abbrev pub put : (ℕ → Connection) → ℕ → Connection → ℕ → Connection
put f i c j = if j == i then c else f j

abbrev pub set_connection : ℕ → Connection → System → System
set_connection i c s = record s { connections = put s.connections i c }

-- `SessionRegistry.unregister`, identity-checked
unfoldable pub unregister : Option ℕ → ℕ → List (ℕ × ℕ) → List (ℕ × ℕ)
unregister none i registry = registry
unregister (some sa) i registry = elim (lookup sa registry) [
  | none ↦ registry
  | some j ↦ if j == i then erase sa registry else registry
]

-- Source address and activation type; a payload of fewer than 7 bytes is malformed.
unfoldable pub activation_fields : Bytes → Option (ℕ × ℕ)
activation_fields (hi ∷ lo ∷ t ∷ a ∷ b ∷ c ∷ d ∷ rest) = some (unpack_u16 hi lo, t)
activation_fields _ = none

module _ (config : EcuConfig) where
  -- `_bump_general`
  unfoldable pub bump_general : ℕ → System → System
  bump_general i s =
      let c = s.connections i in
      if c.activated && not c.finalized && ltb 0 config.doip.general_inactivity_ms
      then set_connection i
          (record c { general_deadline = some (s.world.now + config.doip.general_inactivity_ms) }) s
      else s

  -- `_send`
  unfoldable pub send : ℕ → Frame → System → System
  unfolding bump_general
  send i f s = let s' = bump_general i s in record s' { out = s'.out ++ (i, f) ∷ [] }

  -- `_send_response`: a frame in the version of the request that is being handled
  abbrev pub response_frame : ℕ → ℕ → Bytes → System → Frame
  response_frame i pt body s = record {
    payload_type = pt;
    body = body;
    version = (s.connections i).req_version;
  }

  unfoldable pub send_response : ℕ → ℕ → Bytes → System → System
  unfolding send
  send_response i pt body s = send i (response_frame i pt body s) s

  -- `_arm_general`
  abbrev pub armed : ℕ → Connection → Connection
  armed now c = record c {
    initial_deadline = none;
    general_deadline =
        if ltb 0 config.doip.general_inactivity_ms
        then some (now + config.doip.general_inactivity_ms)
        else c.general_deadline;
  }

  -- `_activation_response`
  abbrev pub activation_response : ℕ → ℕ → Bytes
  activation_response src code =
      pack_u16 src ++ (pack_u16 config.doip.ecu_logical_addr ++ code ∷ replicate 8 0)

  -- A denial: the response, and the end of the socket.
  unfoldable pub deny : ℕ → ℕ → ℕ → System → Flow × System
  deny i src code s =
      (close, send_response i pt_routing_act_response (activation_response src code) s)

  abbrev pub confirm : ℕ → ℕ → System → System
  confirm i src s = send_response i pt_routing_act_response (activation_response src 0x10) s

  abbrev pub activate_object : ℕ → World → World
  activate_object k w = record w {
    objects = update w.objects k (record (w.objects k) { activated = true });
  }

  -- The connection is bound to the tester's state.
  abbrev pub bound : ℕ → ℕ → Connection → Connection
  bound src k c = record c { activated = true; tester = some src; state = some k }

  -- A successful activation: the changes, and the response.
  unfoldable pub register_tester : ℕ → ℕ → System → System
  register_tester i src s =
      let (k, w) = session_for config src s.world in
      record s {
        world = activate_object k w;
        connections = put s.connections i (armed s.world.now (bound src k (s.connections i)));
        registry = insert src i s.registry;
      }

  unfoldable pub accept : ℕ → ℕ → System → System
  unfolding register_tester
  accept i src s = confirm i src (register_tester i src s)

  -- From the capacity check on.
  unfoldable pub admit : ℕ → ℕ → System → Flow × System
  admit i src s =
      if leb config.doip.max_concurrent_sessions (length s.registry)
      then deny i src 0x01 s
      else (stay, accept i src s)

  abbrev pub drop_tidy : Connection → World → World
  drop_tidy c w = elim c.state [
    | none ↦ w
    | some k ↦ maybe_drop_session_state config c.tester (some k) w
  ]

  -- `evict`; the end of `run` makes the same changes.
  unfoldable pub evict : ℕ → System → System
  evict i s =
      let c = s.connections i in
      record s {
        world = drop_tidy c s.world;
        connections = put s.connections i (record c { finalized = true; is_open = false });
        registry = unregister c.tester i s.registry;
      }

  -- `existing is not None and existing is not self`
  abbrev pub competitor : ℕ → Option ℕ → Option ℕ
  competitor i none = none
  competitor i (some j) = if j == i then none else some j

  -- The Alive Check Request to the other connection, always in the entity's own version.
  abbrev pub probe_frame : Frame
  probe_frame = record { payload_type = pt_alive_check_request; body = []; version = ver }

  abbrev pub send_probe : ℕ → System → System
  send_probe j s = send j probe_frame s

  -- From the registry lookup on.
  unfoldable pub resolve_conflict : ℕ → ℕ → System → Activation
  resolve_conflict i src s = elim (competitor i (lookup src s.registry)) [
    | none ↦ as_activation (admit i src s)
    | some j ↦ probe j (send_probe j s)
  ]

  abbrev pub is_tester : ℕ → Option ℕ → Bool
  is_tester src none = false
  is_tester src (some sa) = src == sa

  -- The checks of `_handle_routing_activation` behind the hooks.
  unfoldable pub check_activation : ℕ → ℕ → ℕ → System → Activation
  check_activation i src activation_type s =
      let c = s.connections i in
      if not (leb config.doip.tester_addr_low src && leb src config.doip.tester_addr_high)
      then as_activation (deny i src 0x00 s)
      else if not (contains activation_type (0x00 ∷ 0x01 ∷ []))
      then as_activation (deny i src 0x06 s)
      else if c.activated && not (is_tester src c.tester)
      then as_activation (deny i src 0x02 s)
      else if c.activated && is_tester src c.tester
      then done stay (confirm i src s)
      else resolve_conflict i src s

  -- A code of a hook that denies; above 255 the response cannot be built, and the error ends the
  -- connection.
  unfoldable pub deny_by_hook : ℕ → ℕ → ℕ → System → Activation
  deny_by_hook i src code s =
      if ltb code 256 then as_activation (deny i src code s) else done close s

  abbrev pub by_override : ℕ → ℕ → ℕ → Option ℕ → System → Activation
  by_override i src activation_type none s = check_activation i src activation_type s
  by_override i src activation_type (some code) s =
      if code == 0x10 then check_activation i src activation_type s else deny_by_hook i src code s

  -- `_handle_routing_activation` up to its wait.
  unfoldable pub handle_routing_activation : ℕ → Bytes → Option ℕ → System → Activation
  unfolding activation_fields
  handle_routing_activation i payload override s = elim (activation_fields payload) [
    | none ↦ done stay (send_response i pt_header_nack (nack_generic_invalid_payload_length ∷ []) s)
    | some (src, activation_type) ↦ by_override i src activation_type override s
  ]

  -- And behind it, by whether the probed connection `j` answered in time.
  unfoldable pub after_probe : ℕ → ℕ → ℕ → Bool → System → Flow × System
  after_probe i src j true s = deny i src 0x03 s
  after_probe i src j false s = admit i src (evict j s)
