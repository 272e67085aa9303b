-- ===== src/Gateway/Announcer/Quiet.antt =====
-- What doip_edgenode/udp_announcer.py holds and sends, in any order of datagrams and timers.
use doip_playground.Base.{
  ltb, leb, ◌==◌, contains, if-rule, length, take, drop, lookup, erase, length-insert,
  length-erase-le, Bytes, bytes_eq, ℕ, ◌+◌, ◌≤◌, bit_xor, ◌≡◌, refl, true, false, not, ◌&&◌, ◌||◌,
  Option, none, some, List, [], arith,
}
use doip_playground.Doip.{
  pt_header_nack, pt_vehicle_id_request_with_eid, pt_vehicle_id_request_with_vin,
  pt_vehicle_id_response, pt_entity_status_request, pt_power_mode_request, declared_len,
}
use doip_playground.Discovery.{udp_never_nack_types, DiscoveryConfig, Peer}
use doip_playground.Discovery.Storm.{AllQuiet, Unanswered, AllQuiet-Unanswered}
use doip_playground.Gateway.{byte_at, word_at, GatewayConfig}
use doip_playground.Gateway.Announcer.{
  udp_payload_lengths, max_pending_responses, source_allowed, odd_version, node_announcement,
  serve_notice, by_lengths, judge_datagram, send_notice, schedule_discovery, take_notice, reply_by,
  timer_fires, Announcer, Notice, ignored, replies, identifies, AnnouncerStep, hears, fires,
  announces, loses, AnnouncerReach, listens, then_hears,
}

-- A notice of a type that entities never answer.
abbrev pub QuietNotice : Notice → Type 0
QuietNotice ignored = Unit {0}
QuietNotice (replies pt body) = contains pt udp_never_nack_types ≡ true
QuietNotice identifies = Unit {0}

pub record AnnouncerSound (s : Announcer) : Type 0 where
  pub bounded : length s.pending ≤ max_pending_responses
  pub released : s.has_transport ≡ false → s.pending ≡ []
  pub quiet : AllQuiet s.notices

module _ (config : GatewayConfig) (eid gid : Bytes) where
  serve-Quiet :
      (open_count pt : ℕ) (raw : Bytes)
      → QuietNotice (serve_notice config eid gid open_count pt raw)
  unfolding serve_notice contains
  serve-Quiet open_count pt raw =
      if-rule QuietNotice (pt == pt_header_nack || pt == pt_vehicle_id_response) (λ _. tt)
        (λ _.
          if-rule QuietNotice
            (pt == pt_vehicle_id_request_with_eid
              && not (bytes_eq (drop 8 raw) (take 6 (drop 19 (node_announcement config eid gid)))))
            (λ _. tt)
            (λ _.
              if-rule QuietNotice
                (pt == pt_vehicle_id_request_with_vin
                  && not (bytes_eq (drop 8 raw) (take 17 (node_announcement config eid gid))))
                (λ _. tt)
                (λ _.
                  if-rule QuietNotice (pt == pt_entity_status_request) (λ _. refl)
                    (λ _.
                      if-rule QuietNotice (pt == pt_power_mode_request) (λ _. refl) (λ _. tt)))))

  lengths-Quiet :
      (open_count pt : ℕ) (raw : Bytes) (lengths : Option (List ℕ))
      → QuietNotice (by_lengths config eid gid open_count pt raw lengths)
  unfolding contains
  lengths-Quiet open_count pt raw none = refl
  lengths-Quiet open_count pt raw (some lengths) =
      if-rule QuietNotice (ltb config.max_payload_bytes (declared_len raw)) (λ _. refl)
        (λ _.
          if-rule QuietNotice
            (not (contains (declared_len raw) lengths) || not (length raw == 8 + declared_len raw))
            (λ _. refl) (λ _. serve-Quiet open_count pt raw))

  judge-Quiet :
      (open_count : ℕ) (source : Option ℕ) (raw : Bytes)
      → QuietNotice (judge_datagram config eid gid open_count source raw)
  unfolding judge_datagram contains
  judge-Quiet open_count source raw =
      if-rule QuietNotice (not (source_allowed source) || ltb (length raw) 8) (λ _. tt)
        (λ _.
          if-rule QuietNotice
            (not (byte_at 1 raw == bit_xor (byte_at 0 raw) 0xff)
              || odd_version (byte_at 0 raw) (word_at 2 raw))
            (λ _. refl)
            (λ _.
              lengths-Quiet open_count (word_at 2 raw) raw
                (lookup (word_at 2 raw) udp_payload_lengths)))

  send-Sound :
      (pt : ℕ) (body : Bytes) (s : Announcer)
      → contains pt udp_never_nack_types ≡ true
      → AnnouncerSound s
      → AnnouncerSound (send_notice config eid gid pt body s)
  unfolding send_notice
  send-Sound pt body s quiet sound =
      if-rule AnnouncerSound s.has_transport
        (λ _. record {
          bounded = sound.bounded;
          released = sound.released;
          quiet = (quiet, sound.quiet);
        })
        (λ _. sound)

  schedule-Sound :
      (handle source : ℕ) (s : Announcer)
      → AnnouncerSound s
      → AnnouncerSound (schedule_discovery config eid gid handle source s)
  unfolding schedule_discovery
  schedule-Sound handle source s sound =
      if-rule AnnouncerSound (not s.has_transport || leb max_pending_responses (length s.pending))
        (λ _. sound)
        (λ room. record {
          bounded = ground (arith, room, length-insert handle source s.pending);
          released = λ shut. ground (arith, room, shut);
          quiet = sound.quiet;
        })

  take-Sound :
      (handle source : ℕ) (n : Notice) (s : Announcer)
      → QuietNotice n
      → AnnouncerSound s
      → AnnouncerSound (take_notice config eid gid handle source n s)
  take-Sound handle source ignored s quiet sound = sound
  take-Sound handle source (replies pt body) s quiet sound = send-Sound pt body s quiet sound
  take-Sound handle source identifies s quiet sound = schedule-Sound handle source s sound

  reply-Sound :
      (handle : ℕ) (s : Announcer) (found : Option ℕ)
      → AnnouncerSound s
      → AnnouncerSound (reply_by config eid gid handle s found)
  unfolding contains
  reply-Sound handle s none sound = sound
  reply-Sound handle s (some source) sound =
      send-Sound pt_vehicle_id_response (node_announcement config eid gid)
        (record s { pending = erase handle s.pending }) refl
        (record {
          bounded = ground (arith, sound.bounded, length-erase-le handle s.pending);
          released = λ shut. rw (sound.released shut) (unfold erase in refl);
          quiet = sound.quiet;
        })

  step-Quiet :
      (s s' : Announcer) → AnnouncerStep config eid gid s s' → AnnouncerSound s → AnnouncerSound s'
  unfolding contains
  step-Quiet s _ (hears open_count handle source raw) sound =
      take-Sound handle source (judge_datagram config eid gid open_count (some source) raw) s
        (judge-Quiet open_count (some source) raw) sound
  step-Quiet s _ (fires handle) sound =
      unfold timer_fires in reply-Sound handle s (lookup handle s.pending) sound
  step-Quiet s _ announces sound =
      send-Sound pt_vehicle_id_response (node_announcement config eid gid) s refl sound
  step-Quiet s _ loses sound = record {
    bounded = ground arith;
    released = λ _. refl;
    quiet = sound.quiet;
  }

  reach-Sound : (s : Announcer) → AnnouncerReach config eid gid s → AnnouncerSound s
  reach-Sound _ listens = record { bounded = ground arith; released = λ _. refl; quiet = tt }
  reach-Sound _ (then_hears {s} {s'} reached step) = step-Quiet s s' step (reach-Sound s reached)

  -- In any order of datagrams, timers, announcements and the loss of the transport, at most 256
  -- identifications of the edge node are pending, none is without a transport, and of all that it has
  -- sent a virtual ECU answers nothing, whoever it takes for the sender.
  pub AnnouncerReach-Unanswered :
      (other : DiscoveryConfig) (registered : ℕ) (peer : Peer) (s : Announcer)
      → AnnouncerReach config eid gid s
      → (length s.pending ≤ 256)
        × (s.has_transport ≡ false → s.pending ≡ [])
        × Unanswered other registered peer s.notices
  AnnouncerReach-Unanswered other registered peer s reached =
      let sound = reach-Sound s reached in
      (
        sound.bounded,
        sound.released,
        AllQuiet-Unanswered other registered peer s.notices sound.quiet,
      )
