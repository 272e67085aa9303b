-- ===== src/Pump/Frames.antt =====
-- The pump of virtual_ecu/virtecu/session.py over the registry of testers: what a frame may change.
use doip_playground.Base.{
  ltb, leb, ◌==◌, Option-cases, contains, if-rule, length, lookup, Bytes, pack_u16, unpack_u16, ℕ,
  ◌≡◌, refl, ap, ◌∙◌, ◌≢◌, inl, inr, not, ◌&&◌, Option, none, some, [], ◌∷◌, arith,
}
use doip_playground.Config.{EcuConfig}
use doip_playground.Doip.{
  pt_header_nack, pt_routing_act_request, pt_routing_act_response, pt_alive_check_request,
  pt_alive_check_response, pt_diagnostic_message, pt_diagnostic_positive_ack,
  pt_diagnostic_negative_ack, nack_invalid_source_address, nack_unknown_target_address,
  nack_message_too_large, nack_generic_unknown_payload_type, nack_generic_invalid_payload_length,
}
use doip_playground.Uds.{nrc_busy_repeat_request, negative, UdsRequest}
use doip_playground.Session.{
  uds_queue_maxsize, activation_fields, send_response, activation_response, deny, admit, competitor,
  probe_frame, resolve_conflict, is_tester, check_activation, deny_by_hook, by_override,
  handle_routing_activation, System, Flow, Activation,
}
use doip_playground.Session.Registry.{SameBinding, send-SameBinding, send_response-SameBinding}
use doip_playground.Session.Takeover.{accept-other}
use doip_playground.Session.Admission.{
  system_of, SameBinding-Consistent, handle_routing_activation-Consistent, Consistent,
}
use doip_playground.Pump.{
  ack_body, response_body, diagnostic_nack, enqueue, accept_message, owns, check_message,
  request_of, handle_diagnostic, handle_alive_check, handle_type, Overrides, AckOverride,
  no_override, withhold_ack, nack_with,
}

-- What a step of connection `i` keeps: the consistency of the registry, and whether any other
-- connection is activated.
pub record Local (config : EcuConfig) (i : ℕ) (s s' : System) : Type 0 where
  pub consistent : Consistent config s → Consistent config s'
  pub others : (k : ℕ) → k ≢ i → (s'.connections k).activated ≡ (s.connections k).activated

module _ (config : EcuConfig) where
  pub SameBinding-Local : (i : ℕ) (s s' : System) → SameBinding s s' → Local config i s s'
  SameBinding-Local i s s' b = record {
    consistent = SameBinding-Consistent config s s' b;
    others = λ k _. (b.1 k).0;
  }

  pub SameBinding-trans :
      (s s' s'' : System) → SameBinding s s' → SameBinding s' s'' → SameBinding s s''
  SameBinding-trans s s' s'' (r, b) (q, c) = (q ∙ r, λ j. ((c j).0 ∙ (b j).0, (c j).1 ∙ (b j).1))

  pub Local-after :
      (i : ℕ) (s s' s'' : System) → SameBinding s s' → Local config i s' s'' → Local config i s s''
  Local-after i s s' s'' b l = record {
    consistent = λ c. l.consistent (SameBinding-Consistent config s s' b c);
    others = λ k ne. l.others k ne ∙ (b.1 k).0;
  }

  enqueue-SameBinding : (i : ℕ) (r : UdsRequest) (s : System) → SameBinding s (enqueue config i r s)
  unfolding enqueue
  enqueue-SameBinding i r s =
      if-rule (λ u. SameBinding s u) (ltb (length (s.connections i).queue) uds_queue_maxsize)
        (λ _. (refl, λ j. ground arith))
        (λ _.
          send_response-SameBinding config i pt_diagnostic_message
            (response_body config r.source_addr (negative r nrc_busy_repeat_request)) s)

  nack-SameBinding :
      (i src code : ℕ) (s : System) → SameBinding s (diagnostic_nack config i src code s)
  nack-SameBinding i src code s =
      send_response-SameBinding config i pt_diagnostic_negative_ack (ack_body config src code) s

  accept_message-SameBinding :
      (i : ℕ) (r : UdsRequest) (ack : AckOverride) (s : System)
      → SameBinding s (accept_message config i r ack s).1
  unfolding accept_message
  accept_message-SameBinding i r no_override s =
      let s' =
        send_response config i pt_diagnostic_positive_ack (ack_body config r.source_addr 0x00) s in
      SameBinding-trans s s' (enqueue config i r s')
        (send_response-SameBinding config i pt_diagnostic_positive_ack
          (ack_body config r.source_addr 0x00) s)
        (enqueue-SameBinding i r s')
  accept_message-SameBinding i r withhold_ack s = (refl, λ j. (refl, refl))
  accept_message-SameBinding i r (nack_with code) s =
      if-rule (λ (p : Flow × System). SameBinding s p.1) (ltb code 256)
        (λ _. nack-SameBinding i r.source_addr code s) (λ _. (refl, λ j. (refl, refl)))

  check_message-SameBinding :
      (i : ℕ) (r : UdsRequest) (ack : AckOverride) (s : System)
      → SameBinding s (check_message config i r ack s).1
  unfolding check_message
  check_message-SameBinding i r ack s =
      if-rule (λ (p : Flow × System). SameBinding s p.1)
        (not (owns config (s.connections i) r.source_addr))
        (λ _. nack-SameBinding i r.source_addr nack_invalid_source_address s)
        (λ _.
          if-rule (λ (p : Flow × System). SameBinding s p.1)
            (not (r.target_addr == config.doip.ecu_logical_addr) && not r.functional)
            (λ _. nack-SameBinding i r.source_addr nack_unknown_target_address s)
            (λ _.
              if-rule (λ (p : Flow × System). SameBinding s p.1)
                (ltb config.doip.max_payload_bytes (length r.raw))
                (λ _. nack-SameBinding i r.source_addr nack_message_too_large s)
                (λ _. accept_message-SameBinding i r ack s)))

  handle_diagnostic-SameBinding :
      (i : ℕ) (body : Bytes) (ack : AckOverride) (s : System)
      → SameBinding s (handle_diagnostic config i body ack s).1
  unfolding handle_diagnostic
  handle_diagnostic-SameBinding i (a ∷ b ∷ c ∷ d ∷ e ∷ uds) ack s =
      check_message-SameBinding i (request_of config (unpack_u16 a b) (unpack_u16 c d) (e ∷ uds))
        ack s
  handle_diagnostic-SameBinding i _ ack s =
      send_response-SameBinding config i pt_header_nack (nack_generic_invalid_payload_length ∷ []) s

  -- Routing activation, too, touches no other connection's activation.
  abbrev pub Others : ℕ → System → System → Type 0
  Others i s s' = (k : ℕ) → k ≢ i → (s'.connections k).activated ≡ (s.connections k).activated

  pub deny-Others : (i src code : ℕ) (s : System) → Others i s (deny config i src code s).1
  unfolding deny
  deny-Others i src code s k ne =
      ((send_response-SameBinding config i pt_routing_act_response
          (activation_response config src code) s).1
        k).0

  pub admit-Others : (i src : ℕ) (s : System) → Others i s (admit config i src s).1
  unfolding admit
  admit-Others i src s =
      if-rule (λ (p : Flow × System). Others i s p.1)
        (leb config.doip.max_concurrent_sessions (length s.registry))
        (λ _. deny-Others i src 0x01 s)
        (λ _ k ne. ap (λ c. c.activated) (accept-other config i src k s ne))

  resolve_conflict-Others :
      (i src : ℕ) (s : System) → Others i s (system_of (resolve_conflict config i src s))
  unfolding resolve_conflict
  resolve_conflict-Others i src s =
      elim (Option-cases (competitor config i (lookup src s.registry))) [
        | inl nobody ↦ rw (nobody, resolve_conflict) (admit-Others i src s)
        | inr (j, other) ↦
            rw (other, resolve_conflict)
              (λ k ne. ((send-SameBinding config j (probe_frame config) s).1 k).0)
      ]

  check_activation-Others :
      (i src activation_type : ℕ) (s : System)
      → Others i s (system_of (check_activation config i src activation_type s))
  unfolding check_activation
  check_activation-Others i src activation_type s =
      let c = s.connections i in
      if-rule (λ (a : Activation). Others i s (system_of a))
        (not (leb config.doip.tester_addr_low src && leb src config.doip.tester_addr_high))
        (λ _. deny-Others i src 0x00 s)
        (λ _.
          if-rule (λ (a : Activation). Others i s (system_of a))
            (not (contains activation_type (0x00 ∷ 0x01 ∷ []))) (λ _. deny-Others i src 0x06 s)
            (λ _.
              if-rule (λ (a : Activation). Others i s (system_of a))
                (c.activated && not (is_tester config src c.tester)) (λ _. deny-Others i src 0x02 s)
                (λ _.
                  if-rule (λ (a : Activation). Others i s (system_of a))
                    (c.activated && is_tester config src c.tester)
                    (λ _ k ne.
                      ((send_response-SameBinding config i pt_routing_act_response
                          (activation_response config src 0x10) s).1
                        k).0)
                    (λ _. resolve_conflict-Others i src s))))

  by_override-Others :
      (i src activation_type : ℕ) (override : Option ℕ) (s : System)
      → Others i s (system_of (by_override config i src activation_type override s))
  unfolding deny_by_hook
  by_override-Others i src activation_type none s = check_activation-Others i src activation_type s
  by_override-Others i src activation_type (some code) s =
      if-rule (λ (a : Activation). Others i s (system_of a)) (code == 0x10)
        (λ _. check_activation-Others i src activation_type s)
        (λ _.
          if-rule (λ (a : Activation). Others i s (system_of a)) (ltb code 256)
            (λ _. deny-Others i src code s) (λ _ k ne. refl))

  handle_routing_activation-Others :
      (i : ℕ) (payload : Bytes) (override : Option ℕ) (s : System)
      → Others i s (system_of (handle_routing_activation config i payload override s))
  unfolding handle_routing_activation
  handle_routing_activation-Others i payload override s =
      elim (Option-cases (activation_fields payload)) [
        | inl short ↦
            rw (short, handle_routing_activation)
              (λ k ne.
                ((send_response-SameBinding config i pt_header_nack
                    (nack_generic_invalid_payload_length ∷ []) s).1
                  k).0)
        | inr ((src, activation_type), fields) ↦
            rw (fields, handle_routing_activation)
              (by_override-Others i src activation_type override s)
      ]

  pub handle_type-Local :
      (i pt : ℕ) (body : Bytes) (o : Overrides config) (s : System)
      → Local config i s (system_of (handle_type config i pt body o s))
  unfolding handle_type handle_alive_check
  handle_type-Local i pt body o s =
      if-rule (λ (a : Activation). Local config i s (system_of a)) (pt == pt_routing_act_request)
        (λ _. record {
          consistent = handle_routing_activation-Consistent config i body o.activation s;
          others = handle_routing_activation-Others i body o.activation s;
        })
        (λ _.
          if-rule (λ (a : Activation). Local config i s (system_of a)) (pt == pt_diagnostic_message)
            (λ _.
              SameBinding-Local i s (handle_diagnostic config i body o.ack s).1
                (handle_diagnostic-SameBinding i body o.ack s))
            (λ _.
              if-rule (λ (a : Activation). Local config i s (system_of a))
                (pt == pt_alive_check_request)
                (λ _. SameBinding-Local i s (handle_alive_check config i s) (
                  send_response-SameBinding config i pt_alive_check_response
                    (pack_u16 config.doip.ecu_logical_addr) s))
                (λ _.
                  if-rule (λ (a : Activation). Local config i s (system_of a))
                    (pt == pt_alive_check_response)
                    (λ _. record { consistent = λ c. c; others = λ k ne. refl })
                    (λ _.
                      SameBinding-Local i s
                        (send_response config i pt_header_nack
                          (nack_generic_unknown_payload_type ∷ []) s)
                        (send_response-SameBinding config i pt_header_nack
                          (nack_generic_unknown_payload_type ∷ []) s)))))
