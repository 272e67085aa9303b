-- ===== src/Gateway/Serving/Back.antt =====
-- Whom the frames that a session of doip_edgenode/session.py makes itself go to, over a whole exchange.
use doip_playground.Base.{
  Bool-cases, length, Bytes, ℕ, ◌+◌, ◌≤◌, ◌<◌, ◌≡◌, refl, inl, inr, Bool, true, false, Option, none,
  some, List, [], ◌∷◌, arith,
}
use doip_playground.Doip.{pt_diagnostic_message, nack_invalid_source_address}
use doip_playground.Gateway.{word_at, GatewayConfig}
use doip_playground.Gateway.Diagnostic.{
  send_diag_nack, handle_diagnostic_message, dispatch_frame, Ending, goes_on, fails, Handling,
  local, forward, Verdict, Attempt,
}
use doip_playground.Gateway.Diagnostic.Addressing.{
  IsBack, AllBack, send_diag_nack-back, handle_diagnostic_message-back,
}
use doip_playground.Gateway.Exchange.{give_up, from_send, exchange, Outcome, Delivery}
use doip_playground.Gateway.Exchange.Bounded.{exchange_loop-ends}
use doip_playground.Gateway.Exchange.Whole.{SentBy}
use doip_playground.Gateway.Exchange.Requested.{NacksOnly, give_up-for, exchange_loop-for}
use doip_playground.Gateway.Serving.{
  request_sid_of, own_frames, local_nack, exchanged, serve_handling, by_command, serve_frame,
  EcuSide, FrameTurn, served,
}

-- The frames that a session makes itself go from a message's target to its source, at most two.
abbrev pub OwnBack : Bytes → List Bytes → Type 0
OwnBack raw [] = Unit {0}
OwnBack raw (f ∷ []) = IsBack raw f
OwnBack raw (f ∷ g ∷ []) = IsBack raw f × IsBack raw g
OwnBack raw (f ∷ g ∷ h ∷ rest) = ⊥

-- A message is served to its end, with the session's own frames to its source.
abbrev pub ServedBack : Bytes → FrameTurn → Type 0
ServedBack raw turn =
    (own : List Bytes) × (relayed : List Bytes) × (ending : Ending) × (turn
      ≡ served own relayed ending)
    × OwnBack raw own

AllBack-Own :
    (raw : Bytes) (frames : List Bytes) (ending : Ending)
    → AllBack raw (local frames ending)
    → OwnBack raw frames
AllBack-Own raw [] ending back = tt
AllBack-Own raw (f ∷ []) ending back = back
AllBack-Own raw (f ∷ g ∷ []) ending back = back
AllBack-Own raw (f ∷ g ∷ h ∷ rest) ending back = back

handling-Own : (raw : Bytes) (h : Handling) → AllBack raw h → OwnBack raw (own_frames h)
handling-Own raw (local frames ending) back = AllBack-Own raw frames ending back
handling-Own raw (forward target conn bytes) back = tt

local_nack-Own :
    (raw : Bytes) (nack : Option (ℕ × Bytes))
    → 12 ≤ length raw
    → ((n : ℕ × Bytes) → nack ≡ some n → n.1 ≡ raw)
    → OwnBack raw (local_nack nack)
local_nack-Own raw none long only = tt
local_nack-Own raw (some (code, request)) long only =
    let same : request ≡ raw = only (code, request) refl in
    rw same (
      handling-Own raw (send_diag_nack code raw goes_on)
        (send_diag_nack-back code raw goes_on long))

module _ (config : GatewayConfig) where
  -- The fuel is above the budget and the deliveries, and the request is written within the budget or
  -- fails by then.
  pub record InTime (fuel : ℕ) (ecu : EcuSide) : Type 0 where
    pub some_time : 0 < config.ecu_response_timeout
    pub written_by : SentBy (ecu.start + config.ecu_pending_max_wait) ecu.written ecu.failed_at
    pub enough : config.ecu_pending_max_wait + ecu.start + length ecu.arriving < fuel

  exchange-for :
      (closing : ℕ → Bool) (request_sid : Option ℕ) (raw : Bytes) (fuel start : ℕ)
      (written : Option ℕ) (failed_at : ℕ) (arriving : List Delivery)
      → 0 < config.ecu_response_timeout
      → SentBy (start + config.ecu_pending_max_wait) written failed_at
      → config.ecu_pending_max_wait + start + length arriving < fuel
      → closing start ≡ false
      → (o : Outcome) × (exchange config closing request_sid raw fuel start written failed_at
            arriving
          ≡ some o)
        × NacksOnly raw o
  unfolding exchange
  exchange-for closing request_sid raw fuel start none failed_at arriving some_time by enough
        open_still =
      let p = from_send config closing request_sid raw failed_at arriving in
      let deadline : ℕ = start + config.ecu_pending_max_wait in
      rw open_still (
        give_up config closing deadline request_sid p,
        refl,
        give_up-for config closing deadline request_sid p,
      )
  exchange-for closing request_sid raw fuel start (some t) failed_at arriving some_time by enough
        open_still =
      let p = from_send config closing request_sid raw t arriving in
      let deadline : ℕ = start + config.ecu_pending_max_wait in
      let (o, ended, early) =
        exchange_loop-ends config closing deadline request_sid fuel p some_time by
          (omega (arith, enough)) in
      rw open_still (o, ended, exchange_loop-for config closing deadline request_sid fuel p o ended)

  exchanged-Back :
      (raw : Bytes) (result : Option Outcome) (o : Outcome)
      → 12 ≤ length raw
      → result ≡ some o
      → NacksOnly raw o
      → ServedBack raw (exchanged config result)
  exchanged-Back raw result o long ended only =
      (local_nack o.nack, o.frames, goes_on, rw ended refl, local_nack-Own raw o.nack long only)

  handling-Back :
      (fuel : ℕ) (ecu : EcuSide) (raw : Bytes) (h : Handling)
      → 12 ≤ length raw
      → InTime fuel ecu
      → AllBack raw h
      → ServedBack raw (serve_handling config fuel ecu raw h)
  unfolding serve_handling exchange
  handling-Back fuel ecu raw (local frames ending) long in_time back =
      (frames, [], ending, refl, AllBack-Own raw frames ending back)
  handling-Back fuel ecu raw (forward target conn processed) long in_time back =
      elim (Bool-cases (ecu.closing ecu.start)) [
        | inl shut ↦
            exchanged-Back raw
              (exchange config ecu.closing (request_sid_of processed) raw fuel ecu.start ecu.written
                ecu.failed_at ecu.arriving)
              (record { frames = []; nack = none; ended_at = ecu.start; retired = false }) long
              (rw (shut, exchange) refl) (λ n e. absurd (ground arith))
        | inr open_still ↦
            let (o, ended, only) =
              exchange-for ecu.closing (request_sid_of processed) raw fuel ecu.start ecu.written
                ecu.failed_at ecu.arriving in_time.some_time in_time.written_by in_time.enough
                open_still in
            exchanged-Back raw
              (exchange config ecu.closing (request_sid_of processed) raw fuel ecu.start ecu.written
                ecu.failed_at ecu.arriving)
              o long ended only
      ]

  module _ (table : List ℕ) (ecu_conns : List (ℕ × ℕ)) (connected : ℕ → Bool) (attempt : Attempt)
      (open_count : ℕ) (random : Bytes) (verdict : Verdict) where
    -- A diagnostic message of a tester with both addresses, before its activation or behind it, is
    -- served to its end, where the response timeout is above 0, the ECU's side keeps to the budget in
    -- the writing of a request, and the fuel is above the budget in milliseconds and the number of
    -- deliveries. The frames that the session itself makes, at most two, are from the address that
    -- the message was for to the one it came from: the ACK and response of the node itself, and every
    -- local NACK, the exchange's own included, whatever bytes went to the ECU.
    pub serve_frame-Back :
        (fuel : ℕ) (ecu : EcuSide) (activated : Bool) (tester : Option ℕ) (raw : Bytes)
        → 12 ≤ length raw
        → word_at 2 raw ≡ pt_diagnostic_message
        → InTime fuel ecu
        → ServedBack raw (
            serve_frame config table ecu_conns connected attempt open_count random verdict fuel ecu
              activated tester raw)
    unfolding serve_frame by_command dispatch_frame
    serve_frame-Back fuel ecu true tester raw long type in_time = rw type (
        handling-Back fuel ecu raw
          (handle_diagnostic_message config tester random table ecu_conns connected attempt verdict
            raw)
          long in_time
          (handle_diagnostic_message-back config table ecu_conns connected attempt tester random
            verdict raw long))
    serve_frame-Back fuel ecu false tester raw long type in_time = rw type (
        handling-Back fuel ecu raw (send_diag_nack nack_invalid_source_address raw fails) long
          in_time (send_diag_nack-back nack_invalid_source_address raw fails long))
