-- ===== src/Gateway/Exchange/Whole.antt =====
-- `_exchange_with_ecu` of doip_edgenode/session.py as a whole, from the sending of the request on.
use doip_playground.Base.{
  Bool-cases, length, Bytes, ℕ, ◌+◌, ◌≤◌, ◌<◌, ◌≡◌, refl, inl, inr, Bool, true, false, Option, none,
  some, List, [], arith,
}
use doip_playground.Gateway.{GatewayConfig}
use doip_playground.Gateway.Exchange.{give_up, from_send, exchange, Outcome, Delivery}
use doip_playground.Gateway.Exchange.Bounded.{exchange_loop-ends}
use doip_playground.Gateway.Exchange.Relayed.{
  count_acks, give_up-Settled, exchange_loop-Settled, IsOrderly, Running, Settled,
}

-- When the request is written: within the budget, or not at all.
abbrev pub SentBy : ℕ → Option ℕ → ℕ → Type 0
SentBy deadline none failed_at = failed_at ≤ deadline
SentBy deadline (some t) failed_at = t ≤ deadline

module _ (config : GatewayConfig) (closing : ℕ → Bool) (sid : ℕ) (request : Bytes) where
  no_frames : IsOrderly sid []
  unfolding count_acks
  no_frames = record { answering = tt; one_ack = omega arith }

  from_send-Running :
      (t : ℕ) (deliveries : List Delivery)
      → Running sid (from_send config closing (some sid) request t deliveries)
  from_send-Running t deliveries = record { orderly = no_frames; unaccepted = λ _. refl }

  -- A result that `Settled` and the budget describe.
  abbrev pub EndsSettled : ℕ → Option Outcome → Type 0
  EndsSettled deadline result =
      (o : Outcome) × (result ≡ some o) × Settled closing sid o × (o.ended_at ≤ deadline)

  open-Settled :
      (fuel start : ℕ) (sent : Option ℕ) (failed_at : ℕ) (deliveries : List Delivery)
      → closing start ≡ false
      → config.strict_response_matching ≡ true
      → 0 < config.ecu_response_timeout
      → SentBy (start + config.ecu_pending_max_wait) sent failed_at
      → config.ecu_pending_max_wait + start + length deliveries < fuel
      → EndsSettled
          (start + config.ecu_pending_max_wait)
          (exchange config closing (some sid) request fuel start sent failed_at deliveries)
  unfolding exchange
  open-Settled fuel start none failed_at deliveries open_still strict some_time in_time enough =
      let p = from_send config closing (some sid) request failed_at deliveries in
      let deadline : ℕ = start + config.ecu_pending_max_wait in
      rw open_still (
        give_up config closing deadline (some sid) p,
        refl,
        give_up-Settled config closing deadline sid p (from_send-Running failed_at deliveries),
        unfold give_up in in_time,
      )
  open-Settled fuel start (some t) failed_at deliveries open_still strict some_time in_time enough =
      let p = from_send config closing (some sid) request t deliveries in
      let deadline : ℕ = start + config.ecu_pending_max_wait in
      let (o, ended, early) =
        exchange_loop-ends config closing deadline (some sid) fuel p some_time in_time
          (omega (arith, enough)) in
      rw open_still (
        o,
        ended,
        exchange_loop-Settled config closing deadline sid fuel p o strict
            (from_send-Running t deliveries) ended,
        early,
      )

  -- With strict matching, a response timeout above 0, and the request written within the budget or
  -- failing by then, an exchange ends by its deadline, on fuel above the budget in milliseconds and
  -- the number of deliveries. Then every diagnostic message relayed answers the request's service
  -- id, if it carries one; at most one ACK is relayed; a local NACK is 0x06 and only sent where
  -- nothing was relayed; and the ECU's connection is kept only where the last frame relayed is a
  -- final answer, or the session is closing.
  pub exchange-Settled :
      (fuel start : ℕ) (sent : Option ℕ) (failed_at : ℕ) (deliveries : List Delivery)
      → config.strict_response_matching ≡ true
      → 0 < config.ecu_response_timeout
      → SentBy (start + config.ecu_pending_max_wait) sent failed_at
      → config.ecu_pending_max_wait + start + length deliveries < fuel
      → EndsSettled
          (start + config.ecu_pending_max_wait)
          (exchange config closing (some sid) request fuel start sent failed_at deliveries)
  unfolding exchange
  exchange-Settled fuel start sent failed_at deliveries strict some_time in_time enough =
      elim (Bool-cases (closing start)) [
        | inl shut ↦ (
          record { frames = []; nack = none; ended_at = start; retired = false },
          rw (shut, exchange) refl,
          record {
            settled_orderly = no_frames;
            nacked_only = λ code e. absurd (ground arith);
            kept_final = λ _. inl shut;
          },
          omega arith,
        )
        | inr open_still ↦
            open-Settled fuel start sent failed_at deliveries open_still strict some_time in_time
              enough
      ]
