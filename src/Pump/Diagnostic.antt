-- ===== src/Pump/Diagnostic.antt =====
-- `_handle_diagnostic` of virtual_ecu/virtecu/session.py: which messages are queued.
use doip_playground.Base.{
  ltb, ◌==◌, if◌then◌else◌, Bool-cases, length, Bytes, ℕ, ◌≤◌, ◌<◌, ◌≡◌, refl, ◌∙◌, ◌≢◌, ◌⊎◌, inl,
  inr, Bool, true, false, not, ◌&&◌, some, List, [], ◌∷◌, ◌++◌, arith,
}
use doip_playground.Config.{EcuConfig}
use doip_playground.Doip.{
  pt_diagnostic_positive_ack, pt_diagnostic_negative_ack, nack_invalid_source_address,
  nack_unknown_target_address, nack_message_too_large,
}
use doip_playground.Uds.{UdsRequest}
use doip_playground.Session.{
  uds_queue_maxsize, bump_general, send, send_response, Connection, System, stay,
}
use doip_playground.Pump.{
  ack_body, diagnostic_nack, enqueue, accept_message, owns, check_message, AckOverride, no_override,
  withhold_ack, nack_with,
}

abbrev pub is_no_override : AckOverride → Bool
is_no_override no_override = true
is_no_override _ = false

module _ (config : EcuConfig) where
  -- What a message has to meet, besides the queue's room.
  pub record Acceptable (c : Connection) (r : UdsRequest) : Type 0 where
    pub active : c.activated ≡ true
    pub own_source : c.tester ≡ some r.source_addr
    pub addressed : (r.target_addr ≡ config.doip.ecu_logical_addr) ⊎ (r.functional ≡ true)
    pub fits : length r.raw ≤ config.doip.max_payload_bytes

  owns-active :
      (c : Connection) (src : ℕ)
      → owns config c src ≡ true
      → (c.activated ≡ true) × (c.tester ≡ some src)
  owns-active c src e = ground arith

  active-owns :
      (c : Connection) (src : ℕ)
      → c.activated ≡ true
      → c.tester ≡ some src
      → owns config c src ≡ true
  active-owns c src a t = ground arith

  enqueue-queue :
      (i : ℕ) (r : UdsRequest) (s : System)
      → ((enqueue config i r s).connections i).queue ≡ (
          if ltb (length (s.connections i).queue) uds_queue_maxsize
          then (s.connections i).queue ++ (r, (s.connections i).req_version) ∷ []
          else (s.connections i).queue)
  unfolding enqueue send_response send bump_general
  enqueue-queue i r s = ground arith

  send_response-fields :
      (i pt : ℕ) (body : Bytes) (s : System)
      → (((send_response config i pt body s).connections i).queue ≡ (s.connections i).queue)
        × (((send_response config i pt body s).connections i).req_version
            ≡ (s.connections i).req_version)
  unfolding send_response send bump_general
  send_response-fields i pt body s = (ground arith, ground arith)

  -- What is behind the queue of the connection after a message.
  abbrev pub queued : System → ℕ → List (UdsRequest × ℕ)
  queued s i = (s.connections i).queue

  accept_message-queue :
      (i : ℕ) (r : UdsRequest) (s : System)
      → queued (accept_message config i r no_override s).1 i ≡ (
          if ltb (length (queued s i)) uds_queue_maxsize
          then queued s i ++ (r, (s.connections i).req_version) ∷ []
          else queued s i)
  unfolding accept_message
  accept_message-queue i r s = ground (
    arith,
    enqueue-queue i r
        (send_response config i pt_diagnostic_positive_ack (ack_body config r.source_addr 0x00) s),
    send_response-fields i pt_diagnostic_positive_ack (ack_body config r.source_addr 0x00) s,
  )

  -- A message that is acceptable, that no hook overrides and that finds room goes to the end of the
  -- queue, in the version that it came in, and the connection stays.
  pub check_message-queues :
      (i : ℕ) (r : UdsRequest) (s : System)
      → Acceptable (s.connections i) r
      → length (queued s i) < uds_queue_maxsize
      → ((check_message config i r no_override s).0 ≡ stay)
        × (queued (check_message config i r no_override s).1 i
            ≡ queued s i ++ (r, (s.connections i).req_version) ∷ [])
  unfolding check_message
  check_message-queues i r s a room =
      let o = active-owns (s.connections i) r.source_addr a.active a.own_source in
      let addressed = a.addressed in
      let fits = a.fits in
      let q = accept_message-queue i r s in (unfold accept_message in ground arith, ground arith)

  nack-queue :
      (i src code : ℕ) (s : System) → queued (diagnostic_nack config i src code s) i ≡ queued s i
  nack-queue i src code s =
      (send_response-fields i pt_diagnostic_negative_ack (ack_body config src code) s).0

  accept_message-changes :
      (i : ℕ) (r : UdsRequest) (ack : AckOverride) (s : System)
      → queued (accept_message config i r ack s).1 i ≢ queued s i
      → (is_no_override ack ≡ true) × (length (queued s i) < uds_queue_maxsize)
  accept_message-changes i r no_override s changed =
      elim (Bool-cases (ltb (length (queued s i)) uds_queue_maxsize)) [
        | inl room ↦ (refl, ground arith)
        | inr full ↦ absurd (changed (accept_message-queue i r s ∙ rw full))
      ]
  accept_message-changes i r withhold_ack s changed =
      absurd (changed (unfold accept_message in refl))
  accept_message-changes i r (nack_with code) s changed =
      absurd (changed (unfold accept_message in ground (arith, nack-queue i r.source_addr code s)))

  -- A message behind which the queue of its connection has changed was acceptable, no hook overrode
  -- it, and there was room.
  pub check_message-Acceptable :
      (i : ℕ) (r : UdsRequest) (ack : AckOverride) (s : System)
      → queued (check_message config i r ack s).1 i ≢ queued s i
      → Acceptable (s.connections i) r
        × (is_no_override ack ≡ true)
        × (length (queued s i) < uds_queue_maxsize)
  unfolding check_message
  check_message-Acceptable i r ack s changed =
      elim (Bool-cases (owns config (s.connections i) r.source_addr)) [
        | inr foreign ↦
            absurd
              (changed (ground (arith, nack-queue i r.source_addr nack_invalid_source_address s)))
        | inl own ↦
            elim (Bool-cases
              (not (r.target_addr == config.doip.ecu_logical_addr) && not r.functional)) [
                | inl elsewhere ↦ absurd (
                    changed
                      (ground (arith, nack-queue i r.source_addr nack_unknown_target_address s)))
                | inr here ↦ elim (Bool-cases (ltb config.doip.max_payload_bytes (length r.raw))) [
                  | inl large ↦ absurd (
                      changed (ground (arith, nack-queue i r.source_addr nack_message_too_large s)))
                  | inr fits ↦
                      let rest =
                        accept_message-changes i r ack s
                          (λ e. changed (rw (own, here, fits, check_message) e)) in
                      let (act, src) = owns-active (s.connections i) r.source_addr own in
                      (
                        record {
                          active = act;
                          own_source = src;
                          addressed = ground arith;
                          fits = ground arith;
                        },
                        rest.0,
                        rest.1,
                      )
                ]
              ]
      ]
