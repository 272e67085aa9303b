-- ===== src/Echo/Ownership.antt =====
-- Whom echo_ecu/echo_ecu.py keeps in its registry, and whom it answers.
use doip_playground.Base.{
  ltb, ◌==◌, Bool-cases, if-rule, length, drop, lookup, insert, erase, lookup-insert, lookup-erase,
  Bytes, pack_u16, pack_u32, ℕ, bit_xor, ◌≡◌, refl, inl, inr, Bool, true, false, ◌&&◌, ◌||◌, Option,
  none, some, List, [], ◌∷◌, ◌++◌, arith,
}
use doip_playground.Doip.{
  pt_header_nack, pt_routing_act_request, pt_routing_act_response, pt_alive_check_request,
  pt_alive_check_response, pt_entity_status_request, pt_entity_status_response,
  pt_power_mode_request, pt_power_mode_response, pt_diagnostic_message, pt_diagnostic_positive_ack,
  payload_of,
}
use doip_playground.Gateway.{byte_at, word_at}
use doip_playground.Echo.{
  put_echo, echo_send, unregister_echo, evict_echo, echo_uds_response, handle_echo_diagnostic,
  echo_activation_response, accept_activation, check_conflict, handle_echo_activation,
  after_echo_probe, dispatch_echo, serve_echo, echo_state, EchoConfig, EchoSession, EchoEcu,
  EchoStep, echo_serves, echo_probed, echo_ends, EchoReach, echo_starts, echo_goes,
}

-- A diagnostic message goes out only on an activated connection.
unfoldable pub Answered : (ℕ → EchoSession) → List (ℕ × (ℕ × Bytes)) → Type 0
Answered sessions [] = Unit
Answered sessions ((i, (pt, body)) ∷ rest) =
    ((pt ≡ pt_diagnostic_message) → (sessions i).activated ≡ true) × Answered sessions rest

pub record EchoSound (s : EchoEcu) : Type 0 where
  pub answered : Answered s.sessions s.sent
  pub owned : (sa j : ℕ) → lookup sa s.registry ≡ some j → (s.sessions j).activated ≡ true

-- More connections may be activated.
Answered-more :
    (f g : ℕ → EchoSession) (sent : List (ℕ × (ℕ × Bytes)))
    → ((k : ℕ) → (f k).activated ≡ true → (g k).activated ≡ true)
    → Answered f sent
    → Answered g sent
unfolding Answered
Answered-more f g [] more a = a
Answered-more f g ((i, (pt, body)) ∷ rest) more a =
    (λ e. more i (a.0 e), Answered-more f g rest more a.1)

Sound-send :
    (i pt : ℕ) (body : Bytes) (s : EchoEcu)
    → ((pt ≡ pt_diagnostic_message) → (s.sessions i).activated ≡ true)
    → EchoSound s
    → EchoSound (echo_send i pt body s)
unfolding Answered
Sound-send i pt body s may sound = record { answered = (may, sound.answered); owned = sound.owned }

Sound-unregister : (sa : Option ℕ) (s : EchoEcu) → EchoSound s → EchoSound (unregister_echo sa s)
Sound-unregister none s sound = sound
Sound-unregister (some sa) s sound = record {
  answered = sound.answered;
  owned = λ a j e. sound.owned a j (ground (arith, lookup-erase sa a s.registry));
}

Sound-evict : (i : ℕ) (s : EchoEcu) → EchoSound s → EchoSound (evict_echo i s)
unfolding evict_echo
Sound-evict i s sound =
    Sound-unregister (s.sessions i).tester_addr (record s { closed = i ∷ s.closed })
      (record { answered = sound.answered; owned = sound.owned })

module _ (config : EchoConfig) where
  put_echo-more :
      (i k src : ℕ) (s : EchoEcu)
      → (s.sessions k).activated ≡ true
      → ((put_echo i (record { activated = true; tester_addr = some src }) s).sessions k).activated
        ≡ true
  put_echo-more i k src s e = ground arith

  put_echo-active :
      (i src : ℕ) (s : EchoEcu)
      → ((put_echo i (record { activated = true; tester_addr = some src }) s).sessions i).activated
        ≡ true
  put_echo-active i src s = ground arith

  accept-Sound :
      (i src : ℕ) (s : EchoEcu) → EchoSound s → EchoSound (accept_activation config i src s)
  unfolding accept_activation
  accept-Sound i src s sound =
      let active : EchoEcu = put_echo i (record { activated = true; tester_addr = some src }) s in
      Sound-send i pt_routing_act_response (echo_activation_response config src 0x10)
        (record active { registry = insert src i s.registry }) (λ e. put_echo-active i src s)
        (record {
          answered =
              Answered-more s.sessions active.sessions s.sent (λ k e. put_echo-more i k src s e)
                sound.answered;
          owned = λ sa j e. elim (Bool-cases (src == sa)) [
            | inl same ↦
                let is_i : i ≡ j = ground (arith, lookup-insert src sa i s.registry) in
                rw (← is_i) (put_echo-active i src s)
            | inr other ↦
                put_echo-more i j src s
                  (sound.owned sa j (ground (arith, lookup-insert src sa i s.registry)))
          ];
        })

  diagnostic-Sound :
      (i : ℕ) (payload trailer : Bytes) (s : EchoEcu)
      → EchoSound s
      → EchoSound (handle_echo_diagnostic config i payload trailer s)
  unfolding handle_echo_diagnostic
  diagnostic-Sound i payload trailer s sound = elim (Bool-cases (s.sessions i).activated) [
    | inl active ↦ elim (Bool-cases (ltb (length payload) 4)) [
      | inl short ↦ rw (active, short) sound
      | inr whole ↦
          let ack : EchoEcu =
            echo_send i pt_diagnostic_positive_ack
              (pack_u16 (word_at 0 payload) ++ (pack_u16 (word_at 2 payload) ++ 0x00 ∷ [])) s in
          rw (active, whole)
            (Sound-send i pt_diagnostic_message
              (pack_u16 (word_at 2 payload)
                ++ (pack_u16 (word_at 0 payload)
                    ++ echo_uds_response config (drop 4 payload) trailer))
              ack (λ e. active)
              (Sound-send i pt_diagnostic_positive_ack
                (pack_u16 (word_at 0 payload) ++ (pack_u16 (word_at 2 payload) ++ 0x00 ∷ [])) s
                (λ e. active) sound))
    ]
    | inr idle ↦ rw idle sound
  ]

  conflict-Sound :
      (i src : ℕ) (owner : Option ℕ) (s : EchoEcu)
      → EchoSound s
      → EchoSound (check_conflict config i src owner s)
  conflict-Sound i src none s sound = accept-Sound i src s sound
  conflict-Sound i src (some j) s sound = elim (Bool-cases (j == i)) [
    | inl same ↦ rw same (accept-Sound i src s sound)
    | inr other ↦ rw other (
        Sound-send j pt_alive_check_request [] (record s { probing = insert i (src, j) s.probing })
          (λ e. ground (arith, e)) (record { answered = sound.answered; owned = sound.owned }))
  ]

  activation-Sound :
      (i : ℕ) (payload : Bytes) (s : EchoEcu)
      → EchoSound s
      → EchoSound (handle_echo_activation config i payload s)
  unfolding handle_echo_activation
  activation-Sound i payload s sound = elim (Bool-cases (ltb (length payload) 7)) [
    | inl short ↦
        rw short (Sound-send i pt_header_nack (0x04 ∷ []) s (λ e. ground (arith, e)) sound)
    | inr whole ↦
        rw whole
          (conflict-Sound i (word_at 0 payload) (lookup (word_at 0 payload) s.registry) s sound)
  ]

  probed-Sound :
      (i src j : ℕ) (alive : Bool) (s : EchoEcu)
      → EchoSound s
      → EchoSound (after_echo_probe config i src j alive s)
  unfolding after_echo_probe
  probed-Sound i src j true s sound =
      Sound-send i pt_routing_act_response (echo_activation_response config src 0x03)
        (record s { probing = erase i s.probing }) (λ e. ground (arith, e))
        (record { answered = sound.answered; owned = sound.owned })
  probed-Sound i src j false s sound =
      let here : EchoEcu = record s { probing = erase i s.probing } in
      accept-Sound i src (evict_echo j here)
        (Sound-evict j here (record { answered = sound.answered; owned = sound.owned }))

  -- A frame that is no diagnostic message may go out anywhere.
  plain-Sound :
      (i pt : ℕ) (body : Bytes) (s : EchoEcu)
      → (pt == pt_diagnostic_message) ≡ false
      → EchoSound s
      → EchoSound (echo_send i pt body s)
  plain-Sound i pt body s other sound = Sound-send i pt body s (λ e. ground (arith, e, other)) sound

  dispatch-Sound :
      (i pt : ℕ) (payload trailer : Bytes) (s : EchoEcu)
      → EchoSound s
      → EchoSound (dispatch_echo config i pt payload trailer s)
  unfolding dispatch_echo
  dispatch-Sound i pt payload trailer s sound =
      if-rule EchoSound (pt == pt_routing_act_request) (λ e. activation-Sound i payload s sound)
        (λ e.
          if-rule EchoSound (pt == pt_diagnostic_message)
            (λ e2. diagnostic-Sound i payload trailer s sound)
            (λ e2.
              if-rule EchoSound (pt == pt_alive_check_request)
                (λ e3.
                  plain-Sound i pt_alive_check_response (pack_u16 config.ecu_addr) s refl sound)
                (λ e3.
                  if-rule EchoSound (pt == pt_alive_check_response) (λ e4. sound)
                    (λ e4.
                      if-rule EchoSound (pt == pt_entity_status_request)
                        (λ e5.
                          plain-Sound i pt_entity_status_response
                            (config.node_type ∷ 1 ∷ 1 ∷ pack_u32 config.max_data) s refl sound)
                        (λ e5.
                          if-rule EchoSound (pt == pt_power_mode_request)
                            (λ e6.
                              plain-Sound i pt_power_mode_response (config.power_mode ∷ []) s refl
                                sound)
                            (λ e6. plain-Sound i pt_header_nack (0x01 ∷ []) s refl sound))))))

  serve-Sound :
      (i : ℕ) (raw trailer : Bytes) (s : EchoEcu)
      → EchoSound s
      → EchoSound (echo_state config (serve_echo config i raw trailer s))
  unfolding serve_echo
  serve-Sound i raw trailer s sound =
      if-rule (λ t. EchoSound (echo_state config t))
        ((byte_at 0 raw == 0x02 || byte_at 0 raw == 0x03)
          && byte_at 1 raw == bit_xor 0xff (byte_at 0 raw))
        (λ e. dispatch-Sound i (word_at 2 raw) (payload_of raw) trailer s sound)
        (λ e.
          Sound-evict i (echo_send i pt_header_nack (0x00 ∷ []) s)
            (plain-Sound i pt_header_nack (0x00 ∷ []) s refl sound))

  step-Sound : (s s' : EchoEcu) → EchoStep config s s' → EchoSound s → EchoSound s'
  step-Sound _ _ (echo_serves i raw trailer s idle) sound = serve-Sound i raw trailer s sound
  step-Sound _ _ (echo_probed i src j alive s waits) sound = probed-Sound i src j alive s sound
  step-Sound _ _ (echo_ends i s idle) sound = Sound-evict i s sound

  -- In any order of the connections' steps, the registry names only activated connections, and a
  -- diagnostic message has gone out only on an activated one.
  pub EchoReach-Sound : (s : EchoEcu) → EchoReach config s → EchoSound s
  unfolding Answered lookup
  EchoReach-Sound _ echo_starts = record {
    answered = record {};
    owned = λ sa j e. ground (arith, e);
  }
  EchoReach-Sound _ (echo_goes s s' reached step) = step-Sound s s' step (EchoReach-Sound s reached)
