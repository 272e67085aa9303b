-- ===== src/Discovery.antt =====
-- virtual_ecu/virtecu/udp.py: what the UDP discovery socket does with a datagram, and what it sends.
-- The host's own addresses are a field of the configuration; a datagram that is sent arrives whole.
pub mod Storm
pub mod Identification
use doip_playground.Base.{
  ltb, leb, ◌==◌, if◌then◌else◌, contains, length, take, drop, replicate, Bytes, pack_u16, pack_u32,
  bytes_eq, ℕ, ◌+◌, ◌*◌, ◌%◌, Bool, true, false, ◌&&◌, Option, none, some, List, [], ◌∷◌, ◌++◌,
}
use doip_playground.Doip.{
  pt_header_nack, pt_vehicle_id_request, pt_vehicle_id_request_with_eid,
  pt_vehicle_id_request_with_vin, pt_vehicle_id_response, pt_entity_status_request,
  pt_entity_status_response, pt_power_mode_request, pt_power_mode_response, validate_header, ptype,
}
use Prim.Native.Nat.{min}

-- What `_UDPProtocol` keeps of the configuration.
pub record DiscoveryConfig : Type 0 where
  pub vin : Bytes
  pub eid : Bytes
  pub gid : Bytes
  pub logical_addr : ℕ
  pub node_type : ℕ
  pub power_mode : ℕ
  pub max_data : ℕ
  pub max_sockets : ℕ
  pub announce_wait_ms : ℕ
  pub port : ℕ
  pub local_ips : List ℕ

-- The sender of a datagram: its address without a zone, its port, and the bytes and numbers of the
-- whole address tuple.
pub record Peer : Type 0 where
  pub ip : ℕ
  pub source_port : ℕ
  pub parts : List ℕ

abbrev pub udp_known_types : List ℕ
udp_known_types =
    pt_entity_status_request ∷ pt_power_mode_request ∷ pt_vehicle_id_request
    ∷ pt_vehicle_id_request_with_eid ∷ pt_vehicle_id_request_with_vin ∷ []

abbrev pub version_wildcard_types : List ℕ
version_wildcard_types =
    pt_vehicle_id_request ∷ pt_vehicle_id_request_with_eid ∷ pt_vehicle_id_request_with_vin ∷ []

abbrev pub udp_never_nack_types : List ℕ
udp_never_nack_types =
    pt_header_nack ∷ pt_vehicle_id_response ∷ pt_entity_status_response ∷ pt_power_mode_response
    ∷ []

-- The hash of `_stagger_delay_ms`, 32 bits wide.
unfoldable pub stagger_seed : ℕ → List ℕ → ℕ
stagger_seed seed [] = seed
stagger_seed seed (part ∷ parts) = stagger_seed ((seed * 31 + part) % 4294967296) parts

unfoldable pub stagger_delay_ms : List ℕ → ℕ → ℕ
unfolding stagger_seed
stagger_delay_ms parts max_ms = if max_ms == 0 then 0 else stagger_seed 0 parts % (max_ms + 1)

-- What becomes of a datagram: nothing, an answer at once, or an identification after a delay.
pub data Reaction : Type 0 where
  silence : Reaction
  answer_now : ℕ → Bytes → Reaction
  identify_after : ℕ → ℕ → Bytes → Reaction

module _ (config : DiscoveryConfig) where
  abbrev pub padded_vin : Bytes
  padded_vin = take 17 (config.vin ++ replicate 17 0)

  -- `build_announcement_payload`
  unfoldable pub announcement_payload : Bytes
  announcement_payload =
      padded_vin
      ++ (pack_u16 config.logical_addr ++ (config.eid ++ (config.gid ++ 0x00 ∷ 0x00 ∷ [])))

  -- `_is_self_origin`
  unfoldable pub is_self_origin : Peer → Bool
  is_self_origin peer = peer.source_port == config.port && contains peer.ip config.local_ips

  -- `_matches`
  unfoldable pub matches_entity : Bytes → ℕ → Bool
  matches_entity req pt =
      if pt == pt_vehicle_id_request
      then true
      else if pt == pt_vehicle_id_request_with_eid
      then leb 6 (length req) && bytes_eq (take 6 req) config.eid
      else if pt == pt_vehicle_id_request_with_vin
      then leb 17 (length req) && bytes_eq (take 17 req) padded_vin
      else false

  -- `_entity_status_payload`, by the number of registered sessions
  abbrev pub entity_status_payload : ℕ → Bytes
  entity_status_payload registered =
      config.node_type
      ∷ min config.max_sockets 0xff
      ∷ min registered 0xff
      ∷ pack_u32 config.max_data

  -- `datagram_received` behind the header check, on the payload type and what follows the header
  unfoldable pub serve_datagram : ℕ → Peer → ℕ → Bytes → Reaction
  serve_datagram registered peer pt req =
      if pt == pt_entity_status_request
      then answer_now pt_entity_status_response (entity_status_payload registered)
      else if pt == pt_power_mode_request
      then answer_now pt_power_mode_response (config.power_mode ∷ [])
      else if contains pt version_wildcard_types
      then (if matches_entity req pt
          then identify_after (stagger_delay_ms peer.parts config.announce_wait_ms) pt req
          else silence)
      else silence

  -- By what the header check says; its exception, on fewer than four bytes, does not occur.
  abbrev pub by_header : ℕ → Peer → ℕ → Bytes → Option (Option ℕ) → Reaction
  by_header registered peer pt raw none = silence
  by_header registered peer pt raw (some (some nack)) = answer_now pt_header_nack (nack ∷ [])
  by_header registered peer pt raw (some none) = serve_datagram registered peer pt (drop 8 raw)

  -- `datagram_received`
  unfoldable pub datagram_received : ℕ → Peer → Bytes → Reaction
  datagram_received registered peer raw =
      if ltb (length raw) 8
      then silence
      else if is_self_origin peer
      then silence
      else elim (ptype raw) [
        | none ↦ silence
        | some pt ↦
            if contains pt udp_never_nack_types
            then silence
            else by_header registered peer pt raw
                (validate_header raw (some udp_known_types) version_wildcard_types)
      ]

  -- `_send_identification_after`, by the hook's result: `none` is that of no hook, and empty bytes
  -- withhold the response.
  unfoldable pub identification_response : Option Bytes → List (ℕ × Bytes)
  identification_response none = (pt_vehicle_id_response, announcement_payload) ∷ []
  identification_response (some []) = []
  identification_response (some (b ∷ bs)) = (pt_vehicle_id_response, b ∷ bs) ∷ []

  -- What a reaction sends, always to the sender of the datagram: payload types with their payloads.
  abbrev pub sends : Option Bytes → Reaction → List (ℕ × Bytes)
  sends override silence = []
  sends override (answer_now pt body) = (pt, body) ∷ []
  sends override (identify_after delay pt req) = identification_response override

  -- `send_announcement`
  abbrev pub announcement : ℕ × Bytes
  announcement = (pt_vehicle_id_response, announcement_payload)
