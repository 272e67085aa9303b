-- ===== src/Echo.antt =====
-- echo_ecu/echo_ecu.py: a small ECU behind the edge node, which answers every UDS request. Its payload
-- types are those of Doip. A number names a connection; a packet that is sent reaches the writer.
-- Whether a probed connection answers in time, and the random trailer of a response, are arguments.
pub mod Ownership
pub mod Takeover
pub mod Answers
use doip_playground.Base.{
  ltb, ◌==◌, if◌then◌else◌, length, take, drop, replicate, lookup, insert, erase, Bytes, pack_u16,
  pack_u32, ℕ, bit_or, bit_xor, ◌≡◌, Bool, true, false, not, ◌&&◌, ◌||◌, Option, none, some, List,
  [], ◌∷◌, ◌++◌,
}
use doip_playground.Doip.{
  ver, pt_header_nack, pt_vehicle_id_request, pt_vehicle_id_response, pt_routing_act_request,
  pt_routing_act_response, pt_alive_check_request, pt_alive_check_response,
  pt_entity_status_request, pt_entity_status_response, pt_power_mode_request,
  pt_power_mode_response, pt_diagnostic_message, pt_diagnostic_positive_ack, read_exactly,
  declared_len, payload_of,
}
use doip_playground.Gateway.{byte_at, word_at}

-- What is read of the `doip` section of its configuration, as numbers and bytes.
pub record EchoConfig : Type 0 where
  pub vin : Bytes
  pub eid : Bytes
  pub gid : Bytes
  pub ecu_addr : ℕ
  pub node_type : ℕ
  pub power_mode : ℕ
  pub max_data : ℕ

-- `_build` in its default version, for a payload of fewer than 2 ^ 32 bytes
abbrev pub echo_frame : ℕ → Bytes → Bytes
echo_frame payload_type payload =
    ver ∷ bit_xor 0xff ver ∷ (pack_u16 payload_type ++ (pack_u32 (length payload) ++ payload))

-- `_read_frame`: the frame and the stream behind it; `none` is the `IncompleteReadError`.
unfoldable pub echo_read_frame : Bytes → Option (Bytes × Bytes)
echo_read_frame stream = elim (read_exactly 8 stream) [
  | none ↦ none
  | some (hdr, rest) ↦
      if declared_len hdr == 0
      then some (hdr, rest)
      else elim (read_exactly (declared_len hdr) rest) [
        | none ↦ none
        | some (payload, behind) ↦ some (hdr ++ payload, behind)
      ]
]

-- The attributes of an `ECUSession` that change.
pub record EchoSession : Type 0 where
  pub activated : Bool
  pub tester_addr : Option ℕ

-- All connections, the registry of them by tester address, those whose writer is closed, the handlers
-- that wait in `probe_alive`, with the source address that they serve and the connection they probe,
-- and what was sent: connection, payload type and payload, the newest first.
pub record EchoEcu : Type 0 where
  pub sessions : ℕ → EchoSession
  pub registry : List (ℕ × ℕ)
  pub closed : List ℕ
  pub probing : List (ℕ × (ℕ × ℕ))
  pub sent : List (ℕ × (ℕ × Bytes))

abbrev pub put_echo : ℕ → EchoSession → EchoEcu → EchoEcu
put_echo i new s = record s { sessions = λ k. if k == i then new else s.sessions k }

-- `_send`
abbrev pub echo_send : ℕ → ℕ → Bytes → EchoEcu → EchoEcu
echo_send i pt body s = record s { sent = (i, (pt, body)) ∷ s.sent }

-- `ECUSessionRegistry.unregister`, with the guard of its callers
abbrev pub unregister_echo : Option ℕ → EchoEcu → EchoEcu
unregister_echo none s = s
unregister_echo (some sa) s = record s { registry = erase sa s.registry }

-- `evict` of the connection `i`; the `finally` of its `run` does the same to the state.
unfoldable pub evict_echo : ℕ → EchoEcu → EchoEcu
evict_echo i s = unregister_echo (s.sessions i).tester_addr (record s { closed = i ∷ s.closed })

-- Where a connection's task is behind a step: it reads on, or it has left its loop.
pub data EchoTurn : Type 0 where
  reads_on : EchoEcu → EchoTurn
  leaves : EchoEcu → EchoTurn

-- `bytes([uds[0] | 0x40]) + uds[1:] + os.urandom(4)`
abbrev pub echo_uds : Bytes → Bytes → Bytes
echo_uds [] trailer = trailer
echo_uds (sid ∷ rest) trailer = bit_or sid 0x40 ∷ (rest ++ trailer)

abbrev pub reads_vin : Bytes → Bool
reads_vin (a ∷ b ∷ c ∷ rest) = a == 0x22 && b == 0xf1 && c == 0x90
reads_vin _ = false

module _ (config : EchoConfig) where
  -- `vin.encode("ascii")[:17].ljust(17, b"\x00")`
  abbrev pub echo_vin : Bytes
  echo_vin = take 17 (config.vin ++ replicate 17 0)

  -- `_build_announcement_payload`
  abbrev pub echo_announcement : Bytes
  echo_announcement =
      echo_vin ++ (pack_u16 config.ecu_addr ++ (config.eid ++ (config.gid ++ 0x00 ∷ 0x00 ∷ [])))

  -- `_UDPProtocol.datagram_received`: the datagram that goes back
  unfoldable pub echo_datagram_received : Bytes → Option Bytes
  echo_datagram_received data_ =
      if ltb (length data_) 8
      then none
      else if not (word_at 2 data_ == pt_vehicle_id_request)
      then none
      else some (echo_frame pt_vehicle_id_response echo_announcement)

  -- `_build_uds_response`
  unfoldable pub echo_uds_response : Bytes → Bytes → Bytes
  echo_uds_response uds trailer =
      if reads_vin uds then 0x62 ∷ 0xf1 ∷ 0x90 ∷ echo_vin else echo_uds uds trailer

  -- `_handle_diagnostic`
  unfoldable pub handle_echo_diagnostic : ℕ → Bytes → Bytes → EchoEcu → EchoEcu
  handle_echo_diagnostic i payload trailer s =
      if not (s.sessions i).activated
      then s
      else if ltb (length payload) 4
      then s
      else echo_send i pt_diagnostic_message
          (pack_u16 (word_at 2 payload)
            ++ (pack_u16 (word_at 0 payload) ++ echo_uds_response (drop 4 payload) trailer))
          (echo_send i pt_diagnostic_positive_ack
            (pack_u16 (word_at 0 payload) ++ (pack_u16 (word_at 2 payload) ++ 0x00 ∷ [])) s)

  -- The payload of a Routing Activation Response
  abbrev pub echo_activation_response : ℕ → ℕ → Bytes
  echo_activation_response src code =
      pack_u16 src ++ (pack_u16 config.ecu_addr ++ code ∷ replicate 8 0x00)

  -- `_handle_routing_activation` from the conflict check on
  unfoldable pub accept_activation : ℕ → ℕ → EchoEcu → EchoEcu
  accept_activation i src s =
      let active = put_echo i (record { activated = true; tester_addr = some src }) s in
      echo_send i pt_routing_act_response (echo_activation_response src 0x10)
        (record active { registry = insert src i s.registry })

  -- Its conflict check, with what the registry has for the address: the handler waits behind a probe.
  abbrev pub check_conflict : ℕ → ℕ → Option ℕ → EchoEcu → EchoEcu
  check_conflict i src none s = accept_activation i src s
  check_conflict i src (some j) s =
      if j == i
      then accept_activation i src s
      else echo_send j pt_alive_check_request []
          (record s { probing = insert i (src, j) s.probing })

  -- `_handle_routing_activation` up to the probe
  unfoldable pub handle_echo_activation : ℕ → Bytes → EchoEcu → EchoEcu
  handle_echo_activation i payload s =
      if ltb (length payload) 7
      then echo_send i pt_header_nack (0x04 ∷ []) s
      else check_conflict i (word_at 0 payload) (lookup (word_at 0 payload) s.registry) s

  -- `_handle_routing_activation` behind the probe of `j`
  unfoldable pub after_echo_probe : ℕ → ℕ → ℕ → Bool → EchoEcu → EchoEcu
  after_echo_probe i src j alive s =
      let here = record s { probing = erase i s.probing } in
      if alive
      then echo_send i pt_routing_act_response (echo_activation_response src 0x03) here
      else accept_activation i src (evict_echo j here)

  -- `_loop` on a frame, behind the header check. That an Alive Check Response came is what the
  -- argument `alive` of `after_echo_probe` says.
  unfoldable pub dispatch_echo : ℕ → ℕ → Bytes → Bytes → EchoEcu → EchoEcu
  dispatch_echo i pt payload trailer s =
      if pt == pt_routing_act_request
      then handle_echo_activation i payload s
      else if pt == pt_diagnostic_message
      then handle_echo_diagnostic i payload trailer s
      else if pt == pt_alive_check_request
      then echo_send i pt_alive_check_response (pack_u16 config.ecu_addr) s
      else if pt == pt_alive_check_response
      then s
      else if pt == pt_entity_status_request
      then echo_send i pt_entity_status_response
          (config.node_type ∷ 1 ∷ 1 ∷ pack_u32 config.max_data) s
      else if pt == pt_power_mode_request
      then echo_send i pt_power_mode_response (config.power_mode ∷ []) s
      else echo_send i pt_header_nack (0x01 ∷ []) s

  -- `_loop` on a frame that was read
  unfoldable pub serve_echo : ℕ → Bytes → Bytes → EchoEcu → EchoTurn
  serve_echo i raw trailer s =
      if (byte_at 0 raw == 0x02 || byte_at 0 raw == 0x03)
        && byte_at 1 raw == bit_xor 0xff (byte_at 0 raw)
      then reads_on (dispatch_echo i (word_at 2 raw) (payload_of raw) trailer s)
      else leaves (evict_echo i (echo_send i pt_header_nack (0x00 ∷ []) s))

  abbrev pub echo_state : EchoTurn → EchoEcu
  echo_state (reads_on s) = s
  echo_state (leaves s) = s

  -- The tasks of the connections: one that does not wait takes a frame, one that waits goes on behind
  -- its probe, and one that does not wait ends.
  pub data EchoStep : EchoEcu → EchoEcu → Type 0 where
    echo_serves :
        (i : ℕ) (raw trailer : Bytes) (s : EchoEcu)
        → lookup i s.probing ≡ none
        → EchoStep s (echo_state (serve_echo i raw trailer s))
    echo_probed :
        (i src j : ℕ) (alive : Bool) (s : EchoEcu)
        → lookup i s.probing ≡ some (src, j)
        → EchoStep s (after_echo_probe i src j alive s)
    echo_ends : (i : ℕ) (s : EchoEcu) → lookup i s.probing ≡ none → EchoStep s (evict_echo i s)

  abbrev pub idle_echo : EchoEcu
  idle_echo = record {
    sessions = λ k. record { activated = false; tester_addr = none };
    registry = [];
    closed = [];
    probing = [];
    sent = [];
  }

  -- The states that its connections come to, in any order of their steps.
  pub data EchoReach : EchoEcu → Type 0 where
    echo_starts : EchoReach idle_echo
    echo_goes : (s s' : EchoEcu) → EchoReach s → EchoStep s s' → EchoReach s'
