-- ===== src/Gateway/Announcer.antt =====
-- doip_edgenode/udp_announcer.py: the discovery socket of the edge node. An IPv4 address is its number,
-- and `none` is an address of another kind. A datagram that is sent goes to the sender of the one that
-- it answers; whom is left out. A datagram that is sent arrives whole.
pub mod Quiet
use doip_playground.Base.{
  ltb, leb, ◌==◌, if◌then◌else◌, contains, length, take, drop, lookup, insert, erase, Bytes,
  pack_u16, bytes_eq, ℕ, ◌+◌, bit_xor, Bool, true, false, not, ◌&&◌, ◌||◌, Option, none, some, List,
  [], ◌∷◌, ◌++◌,
}
use doip_playground.Doip.{
  pt_header_nack, pt_vehicle_id_request, pt_vehicle_id_request_with_eid,
  pt_vehicle_id_request_with_vin, pt_vehicle_id_response, pt_entity_status_request,
  pt_entity_status_response, pt_power_mode_request, pt_power_mode_response, declared_len,
}
use doip_playground.Gateway.{byte_at, word_at, GatewayConfig}

-- `_UDP_PAYLOAD_LENGTHS`
abbrev pub udp_payload_lengths : List (ℕ × List ℕ)
udp_payload_lengths =
    (pt_header_nack, 1 ∷ [])
    ∷ (pt_vehicle_id_request, 0 ∷ [])
    ∷ (pt_vehicle_id_request_with_eid, 6 ∷ [])
    ∷ (pt_vehicle_id_request_with_vin, 17 ∷ [])
    ∷ (pt_vehicle_id_response, 32 ∷ 33 ∷ [])
    ∷ (pt_entity_status_request, 0 ∷ [])
    ∷ (pt_power_mode_request, 0 ∷ [])
    ∷ []

abbrev pub discovery_requests : List ℕ
discovery_requests =
    pt_vehicle_id_request ∷ pt_vehicle_id_request_with_eid ∷ pt_vehicle_id_request_with_vin ∷ []

abbrev pub max_pending_responses : ℕ
max_pending_responses = 256

-- `_source_allowed`
abbrev pub source_allowed : Option ℕ → Bool
source_allowed none = false
source_allowed (some source) =
    not (source == 0 || (leb 0xe0000000 source && ltb source 0xf0000000) || source == 0xffffffff)

-- What becomes of a datagram: nothing, a datagram at once, or an identification to be scheduled.
pub data Notice : Type 0 where
  ignored : Notice
  replies : ℕ → Bytes → Notice
  identifies : Notice

-- `_UDPProtocol`: whether it has a transport, the timers that are pending, by their handles, with the
-- source that each serves, and the payload types and payloads that were sent, the newest first.
pub record Announcer : Type 0 where
  pub has_transport : Bool
  pub pending : List (ℕ × ℕ)
  pub notices : List (ℕ × Bytes)

-- `_reject`
abbrev pub rejects : ℕ → Notice
rejects code = replies pt_header_nack (code ∷ [])

-- `version not in (0x02, 0x03) and not default_discovery`
abbrev pub odd_version : ℕ → ℕ → Bool
odd_version version pt =
    not (version == 0x02 || version == 0x03)
    && not (version == 0xff && contains pt discovery_requests)

module _ (config : GatewayConfig) (eid gid : Bytes) where
  -- `_announcement_payload`
  abbrev pub node_announcement : Bytes
  node_announcement =
      config.vin ++ (pack_u16 config.node_logical_addr ++ (eid ++ (gid ++ 0x00 ∷ 0x00 ∷ [])))

  -- `SessionRegistry.status_payload`
  abbrev pub node_status : ℕ → Bytes
  node_status open_count = config.node_type ∷ config.max_connections ∷ open_count ∷ []

  -- `datagram_received` behind its checks
  unfoldable pub serve_notice : ℕ → ℕ → Bytes → Notice
  serve_notice open_count pt raw =
      if pt == pt_header_nack || pt == pt_vehicle_id_response
      then ignored
      else if pt == pt_vehicle_id_request_with_eid
          && not (bytes_eq (drop 8 raw) (take 6 (drop 19 node_announcement)))
      then ignored
      else if pt == pt_vehicle_id_request_with_vin
          && not (bytes_eq (drop 8 raw) (take 17 node_announcement))
      then ignored
      else if pt == pt_entity_status_request
      then replies pt_entity_status_response (node_status open_count)
      else if pt == pt_power_mode_request
      then replies pt_power_mode_response (config.power_mode ∷ [])
      else identifies

  -- Its check of the length, by the entry of the table
  abbrev pub by_lengths : ℕ → ℕ → Bytes → Option (List ℕ) → Notice
  by_lengths open_count pt raw none = rejects 0x01
  by_lengths open_count pt raw (some lengths) =
      if ltb config.max_payload_bytes (declared_len raw)
      then rejects 0x02
      else if not (contains (declared_len raw) lengths) || not (length raw == 8 + declared_len raw)
      then rejects 0x04
      else serve_notice open_count pt raw

  -- `datagram_received`, up to the schedule of an identification
  unfoldable pub judge_datagram : ℕ → Option ℕ → Bytes → Notice
  judge_datagram open_count source raw =
      if not (source_allowed source) || ltb (length raw) 8
      then ignored
      else if not (byte_at 1 raw == bit_xor (byte_at 0 raw) 0xff)
          || odd_version (byte_at 0 raw) (word_at 2 raw)
      then rejects 0x00
      else by_lengths open_count (word_at 2 raw) raw (lookup (word_at 2 raw) udp_payload_lengths)

  -- `_send`
  unfoldable pub send_notice : ℕ → Bytes → Announcer → Announcer
  send_notice pt body s =
      if s.has_transport then record s { notices = (pt, body) ∷ s.notices } else s

  -- `_schedule_discovery`, with the handle of the new timer
  unfoldable pub schedule_discovery : ℕ → ℕ → Announcer → Announcer
  schedule_discovery handle source s =
      if not s.has_transport || leb max_pending_responses (length s.pending)
      then s
      else record s { pending = insert handle source s.pending }

  abbrev pub take_notice : ℕ → ℕ → Notice → Announcer → Announcer
  take_notice handle source ignored s = s
  take_notice handle source (replies pt body) s = send_notice pt body s
  take_notice handle source identifies s = schedule_discovery handle source s

  -- `reply`, the timer's callback, by what the pending timers have for its handle. The transport is
  -- that of the schedule, since the protocol gets one only.
  abbrev pub reply_by : ℕ → Announcer → Option ℕ → Announcer
  reply_by handle s none = s
  reply_by handle s (some source) =
      send_notice pt_vehicle_id_response node_announcement
        (record s { pending = erase handle s.pending })

  unfoldable pub timer_fires : ℕ → Announcer → Announcer
  timer_fires handle s = reply_by handle s (lookup handle s.pending)

  -- `connection_lost`, and the effect of `UDPAnnouncer.stop`
  abbrev pub lose_transport : Announcer → Announcer
  lose_transport s = record s { has_transport = false; pending = [] }

  pub data AnnouncerStep (s : Announcer) : Announcer → Type 0 where
    hears :
        (open_count handle source : ℕ) (raw : Bytes)
        → AnnouncerStep s
            (take_notice handle source (judge_datagram open_count (some source) raw) s)
    fires : (handle : ℕ) → AnnouncerStep s (timer_fires handle s)
    announces : AnnouncerStep s (send_notice pt_vehicle_id_response node_announcement s)
    loses : AnnouncerStep s (lose_transport s)

  -- The states that the socket comes to, from its transport on.
  pub data AnnouncerReach : Announcer → Type 0 where
    listens : AnnouncerReach (record { has_transport = true; pending = []; notices = [] })
    then_hears : {s s' : Announcer} → AnnouncerReach s → AnnouncerStep s s' → AnnouncerReach s'
