-- ===== src/Discovery/Identification.antt =====
-- Which identification requests virtual_ecu/virtecu/udp.py answers, and when.
use doip_playground.Base.{
  length, take, Bytes, pack_u16, pack_u32, ℕ, ◌≤◌, bit_xor, ◌≡◌, ◌⊎◌, ◌∷◌, ◌++◌,
}
use doip_playground.Doip.{
  pt_vehicle_id_request, pt_vehicle_id_request_with_eid, pt_vehicle_id_request_with_vin,
}
use doip_playground.Discovery.{
  padded_vin, datagram_received, DiscoveryConfig, Peer, silence, identify_after,
}

module _ (config : DiscoveryConfig) where
  -- A request that is for this entity: for any, for its EID, or for its VIN, with anything behind.
  abbrev pub IsForEntity : ℕ → Bytes → Type 0
  IsForEntity pt req =
      (pt ≡ pt_vehicle_id_request)
      ⊎ (((pt ≡ pt_vehicle_id_request_with_eid) × (6 ≤ length req) × (take 6 req ≡ config.eid))
          ⊎ ((pt ≡ pt_vehicle_id_request_with_vin)
              × (17 ≤ length req)
              × (take 17 req ≡ padded_vin config)))

  -- A request as it stands in a datagram, whatever length its header declares.
  abbrev pub request_datagram : ℕ → ℕ → ℕ → Bytes → Bytes
  request_datagram v pt declared req =
      v ∷ bit_xor 0xff v ∷ (pack_u16 pt ++ (pack_u32 declared ++ req))

  -- What an identification request comes to: an identification within the configured wait, if it is
  -- for this entity, and silence if it is not.
  abbrev pub Identifies : ℕ → Peer → ℕ → ℕ → ℕ → Bytes → Type 0
  Identifies registered peer v pt declared req =
      (delay : ℕ) × (delay ≤ config.announce_wait_ms)
      × (IsForEntity pt req
          → datagram_received config registered peer (request_datagram v pt declared req)
            ≡ identify_after delay pt req)
      × ((IsForEntity pt req → ⊥)
          → datagram_received config registered peer (request_datagram v pt declared req) ≡ silence)
