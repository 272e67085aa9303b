-- ===== src/Gateway/Exchange/Bounded.antt =====
-- The exchange of doip_edgenode/session.py ends: within its budget, and after finitely many waits.
use doip_playground.Base.{
  leb, if-rule, length, Bytes, ℕ, zero, suc, ◌+◌, ◌-◌, ◌≤◌, ◌<◌, ◌≡◌, refl, ap, inl, inr, Bool,
  Option, some, List, [], ◌∷◌, arith,
}
use doip_playground.Gateway.{GatewayConfig}
use doip_playground.Gateway.Exchange.{
  recv_ecu_frame, Round-cases, give_up, on_message, on_ecu_frame, on_wait, exchange_round,
  exchange_loop, Progress, Outcome, Delivery, frame_at, broken_at, arrived, failed, Round, more,
  stop, silent,
}
use Prim.Native.Nat.{min, max}

module _ (config : GatewayConfig) (closing : ℕ → Bool) (deadline : ℕ) (request_sid : Option ℕ) where
  on_ecu_frame-more :
      (raw : Bytes) (p q : Progress)
      → on_ecu_frame config closing deadline request_sid raw p ≡ more q
      → (q.now ≡ p.now) × (q.deliveries ≡ p.deliveries)
  unfolding on_ecu_frame on_message
  on_ecu_frame-more raw p q e = ground arith

  -- The time and the deliveries that are left.
  abbrev pub budget_left : Progress → ℕ
  budget_left p = (deadline - p.now) + length p.deliveries

  budget-frame :
      (p q : Progress) (raw : Bytes) (t : ℕ) (later : List Delivery)
      → on_wait config closing deadline request_sid p (arrived raw t later) ≡ more q
      → p.now ≤ t
      → length later < length p.deliveries
      → budget_left q < budget_left p
  unfolding on_wait
  budget-frame p q raw t later e le lt =
      let (same, kept) = on_ecu_frame-more raw (record p { now = t; deliveries = later }) q e in
      omega (arith, same, ap length kept)

  budget-silent :
      (p q : Progress) (t : ℕ)
      → on_wait config closing deadline request_sid p (silent t) ≡ more q
      → p.now < t
      → p.now < deadline
      → budget_left q < budget_left p
  unfolding on_wait
  budget-silent p q t e lt early = ground arith

  failed-ends :
      (p q : Progress) (t : ℕ)
      → on_wait config closing deadline request_sid p (failed t) ≡ more q
      → ⊥
  unfolding on_wait
  failed-ends p q t e = ground arith

  budget-wait :
      (p q : Progress) (timeout : ℕ) (d : List Delivery)
      → p.deliveries ≡ d
      → 0 < timeout
      → p.now < deadline
      → on_wait config closing deadline request_sid p (recv_ecu_frame timeout p.now d) ≡ more q
      → budget_left q < budget_left p
  unfolding recv_ecu_frame
  budget-wait p q timeout [] d some_time early e =
      budget-silent p q (p.now + timeout) e (omega arith) early
  budget-wait p q timeout (frame_at t raw ∷ later) d some_time early e =
      if-rule
        (λ w.
          on_wait config closing deadline request_sid p w ≡ more q → budget_left q < budget_left p)
        (leb t (p.now + timeout))
        (λ _ e.
          budget-frame p q raw (max p.now t) later e (omega arith) (omega (arith, ap length d)))
        (λ _ e. budget-silent p q (p.now + timeout) e (omega arith) early) e
  budget-wait p q timeout (broken_at t ∷ later) d some_time early e =
      if-rule
        (λ w.
          on_wait config closing deadline request_sid p w ≡ more q → budget_left q < budget_left p)
        (leb t (p.now + timeout)) (λ _ e. absurd (failed-ends p q (max p.now t) e))
        (λ _ e. budget-silent p q (p.now + timeout) e (omega arith) early) e

  -- No round goes past the deadline.
  abbrev InBudget : Round → Type 0
  InBudget (more q) = q.now ≤ deadline
  InBudget (stop o) = o.ended_at ≤ deadline

  on_ecu_frame-InBudget :
      (raw : Bytes) (p : Progress)
      → p.now ≤ deadline
      → InBudget (on_ecu_frame config closing deadline request_sid raw p)
  unfolding on_ecu_frame on_message
  on_ecu_frame-InBudget raw p h = ground arith

  on_wait-InBudget :
      (p : Progress) (timeout : ℕ) (d : List Delivery)
      → p.now + timeout ≤ deadline
      → InBudget (on_wait config closing deadline request_sid p (recv_ecu_frame timeout p.now d))
  unfolding on_wait recv_ecu_frame give_up
  on_wait-InBudget p timeout [] h = ground arith
  on_wait-InBudget p timeout (frame_at t raw ∷ later) h =
      if-rule (λ w. InBudget (on_wait config closing deadline request_sid p w))
        (leb t (p.now + timeout))
        (λ soon.
          on_ecu_frame-InBudget raw (record p { now = max p.now t; deliveries = later })
            (ground arith))
        (λ _. ground arith)
  on_wait-InBudget p timeout (broken_at t ∷ later) h = ground arith

  exchange_round-InBudget :
      (p : Progress)
      → p.now ≤ deadline
      → InBudget (exchange_round config closing deadline request_sid p)
  unfolding exchange_round give_up
  exchange_round-InBudget p h =
      if-rule InBudget (closing p.now) (λ _. h)
        (λ _.
          if-rule InBudget (leb deadline p.now) (λ _. h)
            (λ _.
              on_wait-InBudget p (min config.ecu_response_timeout (deadline - p.now)) p.deliveries
                (omega arith)))

  budget-round :
      (p q : Progress)
      → 0 < config.ecu_response_timeout
      → exchange_round config closing deadline request_sid p ≡ more q
      → budget_left q < budget_left p
  unfolding exchange_round
  budget-round p q some_time =
      if-rule (λ r. r ≡ more q → budget_left q < budget_left p) (closing p.now)
        (λ _ e. absurd (ground arith))
        (λ _.
          if-rule (λ r. r ≡ more q → budget_left q < budget_left p) (leb deadline p.now)
            (λ _ e. absurd (ground arith))
            (λ in_time e.
              budget-wait p q (min config.ecu_response_timeout (deadline - p.now)) p.deliveries refl
                (ground arith) (ground arith) e))

  -- Where the response timeout is above 0 and the deadline is not passed, the loop ends with an
  -- outcome, by the deadline, on any fuel above the budget that is left in milliseconds and the
  -- number of deliveries to come: no ECU, silent or chattering, holds it for longer.
  pub exchange_loop-ends :
      (fuel : ℕ) (p : Progress)
      → 0 < config.ecu_response_timeout
      → p.now ≤ deadline
      → budget_left p < fuel
      → (o : Outcome) × (exchange_loop config closing deadline request_sid fuel p ≡ some o)
        × (o.ended_at ≤ deadline)
  unfolding exchange_loop
  exchange_loop-ends zero p some_time early h = absurd (omega arith)
  exchange_loop-ends (suc fuel) p some_time early h =
      elim (Round-cases (exchange_round config closing deadline request_sid p)) [
        | inl (q, next) ↦
            rw (next, exchange_loop)
              (exchange_loop-ends fuel q some_time (rw next at (exchange_round-InBudget p early))
                (omega (arith, budget-round p q some_time next)))
        | inr (o, ended) ↦ (o, ground arith, rw ended at (exchange_round-InBudget p early))
      ]
