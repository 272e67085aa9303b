-- ===== src/Pump/Waiting.antt =====
-- When the pump of virtual_ecu/virtecu/session.py has to wait for an Alive Check Response: who waits
-- for whom, and that nothing else is changed by then.
use doip_playground.Base.{
  ltb, leb, ◌==◌, Option-cases, contains, if-rule, lookup, Bytes, unpack_u16, ℕ, ◌≡◌, refl, ◌∙◌,
  ◌≢◌, inl, inr, false, not, ◌&&◌, Option, none, some, [], ◌∷◌, arith,
}
use doip_playground.Config.{EcuConfig}
use doip_playground.Doip.{
  ver, pt_header_nack, pt_routing_act_request, pt_alive_check_request, pt_alive_check_response,
  pt_diagnostic_message, nack_generic_message_too_large, read_frame, validate_header, payload_of,
  Frame, ReadResult, frame, frame_too_large, incomplete_read,
}
use doip_playground.Session.{
  activation_fields, bump_general, send, competitor, probe_frame, resolve_conflict, is_tester,
  check_activation, deny_by_hook, by_override, handle_routing_activation, System, Flow, close,
  Activation, done, probe,
}
use doip_playground.Session.Registry.{SameBinding, bump_general-SameBinding, send-SameBinding}
use doip_playground.Session.Admission.{system_of}
use doip_playground.Pump.{
  handle_type, refuse, with_version, handle_frame, read_limit, pump, Overrides,
}
use doip_playground.Pump.Frames.{
  SameBinding-Local, SameBinding-trans, Local-after, handle_type-Local, Local,
}

-- A connection that waits does so for another one, and is not activated.
abbrev pub Waits : ℕ → Activation → Type 0
Waits i (done f s) = Unit {0}
Waits i (probe j s) = (j ≢ i) × ((s.connections i).activated ≡ false)

module _ (config : EcuConfig) where
  competitor-other : (i j : ℕ) (o : Option ℕ) → competitor config i o ≡ some j → j ≢ i
  competitor-other i j none e = absurd (ground arith)
  competitor-other i j (some k) e = λ same. ground arith

  resolve_conflict-Waits :
      (i src : ℕ) (s : System)
      → (s.connections i).activated ≡ false
      → Waits i (resolve_conflict config i src s)
  unfolding resolve_conflict
  resolve_conflict-Waits i src s fresh =
      elim (Option-cases (competitor config i (lookup src s.registry))) [
        | inl nobody ↦ rw (nobody, resolve_conflict) tt
        | inr (j, other) ↦
            rw (other, resolve_conflict)
              (
                competitor-other i j (lookup src s.registry) other,
                ((send-SameBinding config j (probe_frame config) s).1 i).0 ∙ fresh,
              )
      ]

  check_activation-Waits :
      (i src activation_type : ℕ) (s : System)
      → Waits i (check_activation config i src activation_type s)
  unfolding check_activation
  check_activation-Waits i src activation_type s =
      let c = s.connections i in
      if-rule (λ (a : Activation). Waits i a)
        (not (leb config.doip.tester_addr_low src && leb src config.doip.tester_addr_high))
        (λ _. tt)
        (λ _.
          if-rule (λ (a : Activation). Waits i a)
            (not (contains activation_type (0x00 ∷ 0x01 ∷ []))) (λ _. tt)
            (λ _.
              if-rule (λ (a : Activation). Waits i a)
                (c.activated && not (is_tester config src c.tester)) (λ _. tt)
                (λ own.
                  if-rule (λ (a : Activation). Waits i a)
                    (c.activated && is_tester config src c.tester) (λ _. tt)
                    (λ fresh. resolve_conflict-Waits i src s (ground arith)))))

  by_override-Waits :
      (i src activation_type : ℕ) (override : Option ℕ) (s : System)
      → Waits i (by_override config i src activation_type override s)
  unfolding deny_by_hook
  by_override-Waits i src activation_type none s = check_activation-Waits i src activation_type s
  by_override-Waits i src activation_type (some code) s =
      if-rule (λ (a : Activation). Waits i a) (code == 0x10)
        (λ _. check_activation-Waits i src activation_type s)
        (λ _. if-rule (λ (a : Activation). Waits i a) (ltb code 256) (λ _. tt) (λ _. tt))

  handle_routing_activation-Waits :
      (i : ℕ) (payload : Bytes) (override : Option ℕ) (s : System)
      → Waits i (handle_routing_activation config i payload override s)
  unfolding handle_routing_activation
  handle_routing_activation-Waits i payload override s =
      elim (Option-cases (activation_fields payload)) [
        | inl short ↦ rw (short, handle_routing_activation) tt
        | inr ((src, activation_type), fields) ↦
            rw (fields, handle_routing_activation)
              (by_override-Waits i src activation_type override s)
      ]

  handle_type-Waits :
      (i pt : ℕ) (body : Bytes) (o : Overrides config) (s : System)
      → Waits i (handle_type config i pt body o s)
  unfolding handle_type
  handle_type-Waits i pt body o s =
      if-rule (λ (a : Activation). Waits i a) (pt == pt_routing_act_request)
        (λ _. handle_routing_activation-Waits i body o.activation s)
        (λ _.
          if-rule (λ (a : Activation). Waits i a) (pt == pt_diagnostic_message) (λ _. tt)
            (λ _.
              if-rule (λ (a : Activation). Waits i a) (pt == pt_alive_check_request) (λ _. tt)
                (λ _.
                  if-rule (λ (a : Activation). Waits i a) (pt == pt_alive_check_response) (λ _. tt)
                    (λ _. tt))))

  -- What one turn of the pump has to do with the other connections.
  pub record Turn (i : ℕ) (s : System) (a : Activation) : Type 0 where
    pub local : Local config i s (system_of a)
    pub waits : Waits i a

  SameBinding-Turn : (i : ℕ) (f : Flow) (s s' : System) → SameBinding s s' → Turn i s (done f s')
  SameBinding-Turn i f s s' b = record { local = SameBinding-Local config i s s' b; waits = tt }

  abbrev refusal : ℕ → Frame
  refusal code = record { payload_type = pt_header_nack; body = code ∷ []; version = ver }

  with_version-SameBinding :
      (i v : ℕ) (s : System) → SameBinding s (with_version config i v (bump_general config i s))
  unfolding bump_general
  with_version-SameBinding i v s = (ground arith, λ j. ground arith)

  handle_frame-Turn :
      (i : ℕ) (raw : Bytes) (o : Overrides config) (s : System)
      → Turn i s (handle_frame config i raw o s)
  unfolding handle_frame
  handle_frame-Turn i (v ∷ inv ∷ hi ∷ lo ∷ rest) o s =
      elim (Option-cases (validate_header (v ∷ inv ∷ hi ∷ lo ∷ rest) none [])) [
        | inl e ↦
            rw (e, handle_frame)
              (SameBinding-Turn i close s (bump_general config i s)
                (bump_general-SameBinding config i s))
        | inr (some code, e) ↦
            rw (e, handle_frame)
              (SameBinding-Turn i close s (send config i (refusal code) (bump_general config i s)) (
                SameBinding-trans config s (bump_general config i s)
                  (send config i (refusal code) (bump_general config i s))
                  (bump_general-SameBinding config i s)
                  (send-SameBinding config i (refusal code) (bump_general config i s))))
        | inr (none, e) ↦
            let s' = with_version config i v (bump_general config i s) in
            let body = payload_of (v ∷ inv ∷ hi ∷ lo ∷ rest) in
            rw (e, handle_frame)
              (record {
                local =
                    Local-after config i s s'
                      (system_of (handle_type config i (unpack_u16 hi lo) body o s'))
                      (with_version-SameBinding i v s)
                      (handle_type-Local config i (unpack_u16 hi lo) body o s');
                waits = handle_type-Waits i (unpack_u16 hi lo) body o s';
              })
      ]
  handle_frame-Turn i _ o s = SameBinding-Turn i close s s (refl, λ j. (refl, refl))

  -- One turn of the pump on any bytes keeps the registry consistent and every other connection's
  -- activation; and if it has to wait for an Alive Check, it waits for another connection, and its
  -- own is not activated.
  pub pump-Turn :
      (i : ℕ) (stream : Bytes) (o : Overrides config) (s : System)
      → Turn i s (pump config i stream o s).0
  unfolding pump
  pump-Turn i stream o s = go (read_frame (some (read_limit config)) stream)
    where
      go :
          (r : ReadResult)
          → Turn i s
              (elim r as (λ _. Activation × Bytes) [
                | incomplete_read ↦ (done close s, [])
                | frame_too_large n limit ↦ (refuse config i nack_generic_message_too_large s, [])
                | frame raw rest ↦ (handle_frame config i raw o s, rest)
              ]).0
      go incomplete_read = SameBinding-Turn i close s s (refl, λ j. (refl, refl))
      go (frame_too_large n limit) =
          SameBinding-Turn i close s (send config i (refusal nack_generic_message_too_large) s)
            (send-SameBinding config i (refusal nack_generic_message_too_large) s)
      go (frame raw rest) = handle_frame-Turn i raw o s
