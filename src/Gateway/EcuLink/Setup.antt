-- ===== src/Gateway/EcuLink/Setup.antt =====
-- When doip_edgenode/ecu_client.py takes a connection to an ECU for activated.
use doip_playground.Base.{
  ◌==◌, if◌then◌else◌, Bool-cases, Option-cases, Bytes, ℕ, zero, suc, ◌≡◌, ◌⊎◌, inl, inr, some,
  arith,
}
use doip_playground.Doip.{pt_header_nack, pt_routing_act_response, pt_alive_check_request}
use doip_playground.Gateway.{byte_at, word_at}
use doip_playground.Gateway.EcuLink.{
  read_ecu_frame, is_accepted, await_activation, do_routing_activation, linked, setup_failed,
}

-- The frames up to a response that grants the activation: at most `left` of them, with the replies to
-- the Alive Check Requests before it.
abbrev pub GrantedBy : ℕ → ℕ → ℕ → ℕ → ℕ → ℕ → Bytes → Bytes → Type 0
GrantedBy max_payload tester ecu_addr zero replies replies' stream rest = ⊥
GrantedBy max_payload tester ecu_addr (suc left) replies replies' stream rest =
    (raw : Bytes) × (later : Bytes) × (read_ecu_frame max_payload stream ≡ some (raw, later))
    × (((word_at 2 raw ≡ pt_routing_act_response)
          × (word_at 8 raw ≡ tester)
          × (word_at 10 raw ≡ ecu_addr)
          × (byte_at 12 raw ≡ 0x10)
          × (later ≡ rest)
          × (replies' ≡ replies))
        ⊎ (((word_at 2 raw ≡ pt_header_nack)
              × GrantedBy max_payload tester ecu_addr left replies replies' later rest)
            ⊎ ((word_at 2 raw ≡ pt_alive_check_request)
                × GrantedBy max_payload tester ecu_addr left (suc replies) replies' later rest)))

module _ (max_payload tester ecu_addr : ℕ) where
  granted :
      (replies replies' : ℕ) (raw later rest : Bytes)
      → (if word_at 2 raw == pt_routing_act_response
          then (if is_accepted max_payload tester ecu_addr raw
              then linked replies later
              else setup_failed)
          else setup_failed)
        ≡ linked replies' rest
      → (word_at 2 raw ≡ pt_routing_act_response)
        × (word_at 8 raw ≡ tester)
        × (word_at 10 raw ≡ ecu_addr)
        × (byte_at 12 raw ≡ 0x10)
        × (later ≡ rest)
        × (replies' ≡ replies)
  granted replies replies' raw later rest e =
      (ground arith, ground arith, ground arith, ground arith, ground arith, ground arith)

  await_activation-GrantedBy :
      (left replies replies' : ℕ) (stream rest : Bytes)
      → await_activation max_payload tester ecu_addr left replies stream ≡ linked replies' rest
      → GrantedBy max_payload tester ecu_addr left replies replies' stream rest
  unfolding await_activation
  await_activation-GrantedBy zero replies replies' stream rest e = absurd (ground arith)
  await_activation-GrantedBy (suc left) replies replies' stream rest e =
      elim (Option-cases (read_ecu_frame max_payload stream)) [
        | inl stuck ↦ absurd (cc (rw (stuck, await_activation) at e))
        | inr ((raw, later), read) ↦
            let e' = rw (read, await_activation) at e in
            elim (Bool-cases (word_at 2 raw == pt_header_nack)) [
              | inl nack ↦ (
                raw,
                later,
                read,
                inr (
                    inl (
                      ground arith,
                      await_activation-GrantedBy left replies replies' later rest (rw nack at e'),
                    )),
              )
              | inr no_nack ↦ elim (Bool-cases (word_at 2 raw == pt_alive_check_request)) [
                | inl alive ↦ (
                  raw,
                  later,
                  read,
                  inr (
                      inr (
                        ground arith,
                        await_activation-GrantedBy left (suc replies) replies' later rest
                            (rw (no_nack, alive) at e'),
                      )),
                )
                | inr other ↦
                    let e'' = rw (no_nack, other) at e' in
                    (raw, later, read, inl (granted replies replies' raw later rest e''))
              ]
            ]
      ]

  -- A connection is taken for activated only behind a Routing Activation Response with code 0x10 for
  -- the own and the ECU's address, among the first three frames, before which only Header NACKs and
  -- Alive Check Requests came; the latter are each answered, and what follows the response is left.
  pub do_routing_activation-GrantedBy :
      (replies : ℕ) (stream rest : Bytes)
      → do_routing_activation max_payload tester ecu_addr stream ≡ linked replies rest
      → GrantedBy max_payload tester ecu_addr 3 0 replies stream rest
  do_routing_activation-GrantedBy replies stream rest e =
      await_activation-GrantedBy 3 0 replies stream rest e
