-- ===== src/Pump/Answers.antt =====
-- `_handle_diagnostic` of virtual_ecu/virtecu/session.py: what the sender of a message hears.
use doip_playground.Base.{
  ltb, ◌==◌, Bool-cases, if-rule, length, Bytes, ℕ, ◌≡◌, refl, sym, ap, ◌∙◌, ◌⊎◌, inl, inr, Bool,
  true, false, not, ◌&&◌, List, [], ◌∷◌, ◌++◌, append_assoc, append-nil, arith,
}
use doip_playground.Config.{EcuConfig}
use doip_playground.Doip.{
  pt_diagnostic_message, pt_diagnostic_positive_ack, pt_diagnostic_negative_ack,
  nack_invalid_source_address, nack_unknown_target_address, nack_message_too_large, Frame,
}
use doip_playground.Uds.{nrc_busy_repeat_request, negative, UdsRequest}
use doip_playground.Session.{
  uds_queue_maxsize, bump_general, send, response_frame, send_response, System, Flow,
}
use doip_playground.Pump.{
  ack_body, response_body, diagnostic_nack, enqueue, accept_message, owns, check_message,
  AckOverride, no_override, withhold_ack, nack_with,
}
use doip_playground.Pump.Diagnostic.{queued}

module _ (config : EcuConfig) where
  -- What a hook lets be said: something, unless it withholds the ACK or gives a code that is no
  -- byte.
  abbrev pub speaks : AckOverride → Bool
  speaks no_override = true
  speaks withhold_ack = false
  speaks (nack_with code) = ltb code 256

  -- The step has sent a frame to the connection, an ACK or a NACK before anything else, in the
  -- version of the message.
  pub record Acknowledged (i : ℕ) (s s' : System) : Type 0 where
    pub first : Frame
    pub rest : List (ℕ × Frame)
    pub sent : s'.out ≡ s.out ++ (i, first) ∷ rest
    pub is_ack :
        (first.payload_type ≡ pt_diagnostic_positive_ack)
        ⊎ (first.payload_type ≡ pt_diagnostic_negative_ack)
    pub version : first.version ≡ (s.connections i).req_version

  send_response-out :
      (i pt : ℕ) (body : Bytes) (s : System)
      → (send_response config i pt body s).out
        ≡ s.out ++ (i, response_frame config i pt body s) ∷ []
  unfolding send_response send bump_general
  send_response-out i pt body s = ground arith

  nack-Acknowledged :
      (i src code : ℕ) (s : System) → Acknowledged i s (diagnostic_nack config i src code s)
  nack-Acknowledged i src code s = record {
    first = response_frame config i pt_diagnostic_negative_ack (ack_body config src code) s;
    rest = [];
    sent = send_response-out i pt_diagnostic_negative_ack (ack_body config src code) s;
    is_ack = inr refl;
    version = refl;
  }

  enqueue-out :
      (i : ℕ) (r : UdsRequest) (s : System)
      → (more : List (ℕ × Frame)) × ((enqueue config i r s).out ≡ s.out ++ more)
  unfolding enqueue
  enqueue-out i r s = elim (Bool-cases (ltb (length (queued config s i)) uds_queue_maxsize)) [
    | inl room ↦ ([], rw (room, enqueue) (sym (append-nil s.out)))
    | inr full ↦ (
      (
        i,
        response_frame config i pt_diagnostic_message
            (response_body config r.source_addr (negative r nrc_busy_repeat_request)) s,
      )
          ∷ [],
      rw (full, enqueue)
          (send_response-out i pt_diagnostic_message
            (response_body config r.source_addr (negative r nrc_busy_repeat_request)) s),
    )
  ]

  accept_message-Acknowledged :
      (i : ℕ) (r : UdsRequest) (ack : AckOverride) (s : System)
      → speaks ack ≡ true
      → Acknowledged i s (accept_message config i r ack s).1
  unfolding accept_message
  accept_message-Acknowledged i r no_override s e =
      let body = ack_body config r.source_addr 0x00 in
      let s' = send_response config i pt_diagnostic_positive_ack body s in
      let (more, q) = enqueue-out i r s' in
      record {
        first = response_frame config i pt_diagnostic_positive_ack body s;
        rest = more;
        sent =
            q
            ∙ ap (λ o. o ++ more) (send_response-out i pt_diagnostic_positive_ack body s)
            ∙ append_assoc s.out
                ((i, response_frame config i pt_diagnostic_positive_ack body s) ∷ []) more;
        is_ack = inl refl;
        version = refl;
      }
  accept_message-Acknowledged i r withhold_ack s e = absurd (ground arith)
  accept_message-Acknowledged i r (nack_with code) s e =
      rw (e, accept_message) (nack-Acknowledged i r.source_addr code s)

  -- No message is dropped in silence: unless a hook withholds the ACK or gives a code that is no
  -- byte, the first frame that a diagnostic message causes is a positive or negative ACK, to the
  -- connection that it came from and in its version.
  pub check_message-Acknowledged :
      (i : ℕ) (r : UdsRequest) (ack : AckOverride) (s : System)
      → speaks ack ≡ true
      → Acknowledged i s (check_message config i r ack s).1
  unfolding check_message
  check_message-Acknowledged i r ack s e =
      if-rule (λ (p : Flow × System). Acknowledged i s p.1)
        (not (owns config (s.connections i) r.source_addr))
        (λ _. nack-Acknowledged i r.source_addr nack_invalid_source_address s)
        (λ _.
          if-rule (λ (p : Flow × System). Acknowledged i s p.1)
            (not (r.target_addr == config.doip.ecu_logical_addr) && not r.functional)
            (λ _. nack-Acknowledged i r.source_addr nack_unknown_target_address s)
            (λ _.
              if-rule (λ (p : Flow × System). Acknowledged i s p.1)
                (ltb config.doip.max_payload_bytes (length r.raw))
                (λ _. nack-Acknowledged i r.source_addr nack_message_too_large s)
                (λ _. accept_message-Acknowledged i r ack s e)))
