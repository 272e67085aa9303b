-- ===== src/Gateway/Exchange/Requested.antt =====
-- Which message a local NACK of an exchange in doip_edgenode/session.py answers.
use mathlib.Core.Path.{subst}
use Prim.Native.Nat.{min}
use doip_playground.Base.{
  leb, ◌==◌, if-rule, Bytes, ℕ, zero, suc, ◌-◌, ◌≡◌, refl, inl, inr, Bool, false, not, Option, some,
  arith,
}
use doip_playground.Doip.{
  pt_diagnostic_message, pt_diagnostic_positive_ack, pt_diagnostic_negative_ack,
}
use doip_playground.Gateway.{GatewayConfig}
use doip_playground.Gateway.Exchange.{
  frame_type, is_response_pending, recv_ecu_frame, Round-cases, response_matches, pending_matches,
  relay, finish, give_up, accept_frame, on_message, on_ecu_frame, on_wait, exchange_round,
  exchange_loop, Progress, Outcome, Wait, arrived, failed, Round, more, stop, silent,
}

-- An outcome's local NACK is for this request.
abbrev pub NacksOnly : Bytes → Outcome → Type 0
NacksOnly request o = (n : ℕ × Bytes) → o.nack ≡ some n → n.1 ≡ request

module _ (config : GatewayConfig) (closing : ℕ → Bool) (deadline : ℕ) (request_sid : Option ℕ) where
  abbrev RoundFor : Bytes → Round → Type 0
  RoundFor request (more q) = q.request ≡ request
  RoundFor request (stop o) = NacksOnly request o

  finish-for :
      (completed : Bool) (p : Progress) (request : Bytes)
      → NacksOnly request (finish config closing deadline request_sid completed p)
  finish-for completed p request n e = absurd (ground arith)

  pub give_up-for :
      (p : Progress) → NacksOnly p.request (give_up config closing deadline request_sid p)
  unfolding give_up
  give_up-for p n e = ground arith

  on_ecu_frame-for :
      (raw : Bytes) (p : Progress)
      → RoundFor p.request (on_ecu_frame config closing deadline request_sid raw p)
  unfolding on_ecu_frame on_message
  on_ecu_frame-for raw p =
      if-rule (RoundFor p.request) (frame_type raw == pt_diagnostic_positive_ack)
        (λ _.
          if-rule (RoundFor p.request) p.accepted (λ _. finish-for false p p.request) (λ _. refl))
        (λ _.
          if-rule (RoundFor p.request) (frame_type raw == pt_diagnostic_message)
            (λ _.
              if-rule (RoundFor p.request)
                (not (response_matches config closing deadline request_sid raw))
                (λ _. finish-for false p p.request)
                (λ _.
                  if-rule (RoundFor p.request)
                    (pending_matches config closing deadline request_sid raw) (λ _. refl)
                    (λ _.
                      finish-for (not (is_response_pending raw))
                        (accept_frame config closing deadline request_sid raw p) p.request)))
            (λ _.
              finish-for (frame_type raw == pt_diagnostic_negative_ack)
                (relay config closing deadline request_sid raw p) p.request))

  on_wait-for :
      (p : Progress) (w : Wait)
      → RoundFor p.request (on_wait config closing deadline request_sid p w)
  unfolding on_wait
  on_wait-for p (arrived raw t later) =
      on_ecu_frame-for raw (record p { now = t; deliveries = later })
  on_wait-for p (silent t) =
      if-rule (RoundFor p.request) p.pending_seen (λ _. refl)
        (λ _. give_up-for (record p { now = t }))
  on_wait-for p (failed t) = give_up-for (record p { now = t })

  exchange_round-for :
      (p : Progress) → RoundFor p.request (exchange_round config closing deadline request_sid p)
  unfolding exchange_round
  exchange_round-for p =
      if-rule (RoundFor p.request) (closing p.now) (λ _. finish-for false p p.request)
        (λ _.
          if-rule (RoundFor p.request) (leb deadline p.now) (λ _. give_up-for p)
            (λ _. on_wait-for p (
              recv_ecu_frame (min config.ecu_response_timeout (deadline - p.now)) p.now
                p.deliveries)))

  pub exchange_loop-for :
      (fuel : ℕ) (p : Progress) (o : Outcome)
      → exchange_loop config closing deadline request_sid fuel p ≡ some o
      → NacksOnly p.request o
  unfolding exchange_loop
  exchange_loop-for zero p o e = absurd (ground arith)
  exchange_loop-for (suc fuel) p o e =
      let kept = exchange_round-for p in
      elim (Round-cases (exchange_round config closing deadline request_sid p)) [
        | inl (q, next) ↦
            let same : q.request ≡ p.request = rw next at kept in
            subst (λ b. NacksOnly b o) same
              (exchange_loop-for fuel q o (rw (next, exchange_loop) at e))
        | inr (last, ended) ↦
            let is : last ≡ o = ground arith in subst (NacksOnly p.request) is (rw ended at kept)
      ]
