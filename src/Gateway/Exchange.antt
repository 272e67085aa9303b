-- ===== src/Gateway/Exchange.antt =====
-- One diagnostic exchange with an ECU: `_exchange_with_ecu`, `_recv_ecu_frame`, `_response_matches` and
-- `_is_response_pending` of doip_edgenode/session.py. Time is in milliseconds. What the ECU's
-- connection delivers is a list in order, each with the time from which it can be read; a read that
-- is outstanding when a wait ends is kept, so nothing of the list is lost by waiting.
pub mod Bounded
pub mod Relayed
pub mod Delivered
pub mod Whole
pub mod Requested
use doip_playground.Base.{
  ltb, leb, ◌==◌, if◌then◌else◌, length, Bytes, ℕ, zero, suc, ◌+◌, ◌-◌, bit_or, ◌≡◌, refl, ◌⊎◌, inl,
  inr, Bool, true, false, not, ◌&&◌, ◌||◌, Option, none, some, List, [], ◌∷◌, ◌++◌,
}
use doip_playground.Doip.{
  pt_diagnostic_message, pt_diagnostic_positive_ack, pt_diagnostic_negative_ack,
}
use doip_playground.Gateway.{byte_at, word_at, GatewayConfig}
use Prim.Native.Nat.{min, max}

-- A frame, or the exception that `recv` raises from then on.
pub data Delivery : Type 0 where
  frame_at : ℕ → Bytes → Delivery
  broken_at : ℕ → Delivery

abbrev pub negative_response : ℕ
negative_response = 0x7F

abbrev pub response_pending : ℕ
response_pending = 0x78

abbrev pub frame_type : Bytes → ℕ
frame_type raw = word_at 2 raw

unfoldable pub is_response_pending : Bytes → Bool
is_response_pending raw =
    leb 15 (length raw)
    && frame_type raw == pt_diagnostic_message
    && byte_at 12 raw == negative_response
    && byte_at 14 raw == response_pending

-- How a wait ends: with a frame, by its timeout, or with the connection's exception.
pub data Wait : Type 0 where
  arrived : Bytes → ℕ → List Delivery → Wait
  silent : ℕ → Wait
  failed : ℕ → Wait

-- `_recv_ecu_frame`
unfoldable pub recv_ecu_frame : ℕ → ℕ → List Delivery → Wait
recv_ecu_frame timeout now [] = silent (now + timeout)
recv_ecu_frame timeout now (frame_at t raw ∷ later) =
    if leb t (now + timeout) then arrived raw (max now t) later else silent (now + timeout)
recv_ecu_frame timeout now (broken_at t ∷ later) =
    if leb t (now + timeout) then failed (max now t) else silent (now + timeout)

-- The loop's variables. `relayed` are the frames given to `_relay_ecu_frame`, oldest first; `request`
-- is the tester's message, which a local NACK answers.
pub record Progress : Type 0 where
  pub now : ℕ
  pub deliveries : List Delivery
  pub accepted : Bool
  pub pending_seen : Bool
  pub relayed : List Bytes
  pub request : Bytes

-- How an exchange ends: with the frames relayed, the code and the request of a local NACK
-- (`_send_diag_nack`), the time, and whether the ECU's connection is retired.
pub record Outcome : Type 0 where
  pub frames : List Bytes
  pub nack : Option (ℕ × Bytes)
  pub ended_at : ℕ
  pub retired : Bool

pub data Round : Type 0 where
  more : Progress → Round
  stop : Outcome → Round

pub Round-cases : (r : Round) → ((q : Progress) × (r ≡ more q)) ⊎ ((o : Outcome) × (r ≡ stop o))
Round-cases (more q) = inl (q, refl)
Round-cases (stop o) = inr (o, refl)

-- `closing` says when the session is closing; `request_sid` is that of the bytes that were sent.
module _ (config : GatewayConfig) (closing : ℕ → Bool) (deadline : ℕ) (request_sid : Option ℕ) where
  abbrev pub answers : Bytes → ℕ → Bool
  answers raw sid =
      if byte_at 12 raw == bit_or sid 0x40
      then true
      else if byte_at 12 raw == negative_response && leb 14 (length raw) && byte_at 13 raw == sid
      then true
      else not config.strict_response_matching

  -- `_response_matches`
  unfoldable pub response_matches : Bytes → Bool
  response_matches raw = elim request_sid [
    | none ↦ true
    | some sid ↦ if ltb (length raw) 13 then true else answers raw sid
  ]

  abbrev pub pending_matches : Bytes → Bool
  pending_matches raw = elim request_sid [
    | none ↦ false
    | some sid ↦ is_response_pending raw && byte_at 13 raw == sid
  ]

  -- `_relay_ecu_frame`: nothing leaves a session that is closing.
  abbrev pub relay : Bytes → Progress → Progress
  relay raw p = record p { relayed = if closing p.now then p.relayed else p.relayed ++ raw ∷ [] }

  -- The end of the `try`, by `completed`.
  abbrev pub finish : Bool → Progress → Outcome
  finish completed p = record {
    frames = p.relayed;
    nack = none;
    ended_at = p.now;
    retired = not completed;
  }

  -- An end without an answer: a local NACK, where nothing was accepted.
  unfoldable pub give_up : Progress → Outcome
  give_up p = record {
    frames = p.relayed;
    nack = if p.accepted || closing p.now then none else some (0x06, p.request);
    ended_at = p.now;
    retired = true;
  }

  abbrev pub accept_frame : Bytes → Progress → Progress
  accept_frame raw p = relay raw (record p { accepted = true })

  unfoldable pub on_message : Bytes → Progress → Round
  on_message raw p =
      if not (response_matches raw)
      then stop (finish false p)
      else if pending_matches raw
      then more (record (accept_frame raw p) { pending_seen = true })
      else stop (finish (not (is_response_pending raw)) (accept_frame raw p))

  -- The loop's body behind a frame.
  unfoldable pub on_ecu_frame : Bytes → Progress → Round
  on_ecu_frame raw p =
      if frame_type raw == pt_diagnostic_positive_ack
      then (if p.accepted then stop (finish false p) else more (accept_frame raw p))
      else if frame_type raw == pt_diagnostic_message
      then on_message raw p
      else stop (finish (frame_type raw == pt_diagnostic_negative_ack) (relay raw p))

  unfoldable pub on_wait : Progress → Wait → Round
  on_wait p (arrived raw t later) = on_ecu_frame raw (record p { now = t; deliveries = later })
  on_wait p (silent t) =
      if p.pending_seen then more (record p { now = t }) else stop (give_up (record p { now = t }))
  on_wait p (failed t) = stop (give_up (record p { now = t }))

  -- The loop's body.
  unfoldable pub exchange_round : Progress → Round
  exchange_round p =
      if closing p.now
      then stop (finish false p)
      else if leb deadline p.now
      then stop (give_up p)
      else on_wait p
          (recv_ecu_frame (min config.ecu_response_timeout (deadline - p.now)) p.now p.deliveries)

  -- The loop, on fuel.
  unfoldable pub exchange_loop : ℕ → Progress → Option Outcome
  exchange_loop zero p = none
  exchange_loop (suc fuel) p = elim (exchange_round p) [
    | more next ↦ exchange_loop fuel next
    | stop outcome ↦ some outcome
  ]

module _ (config : GatewayConfig) (closing : ℕ → Bool) (request_sid : Option ℕ)
    (request : Bytes) where
  abbrev pub from_send : ℕ → List Delivery → Progress
  from_send t deliveries = record {
    now = t;
    deliveries = deliveries;
    accepted = false;
    pending_seen = false;
    relayed = [];
    request = request;
  }

  abbrev pub exchange_deadline : ℕ → ℕ
  exchange_deadline start = start + config.ecu_pending_max_wait

  -- `_exchange_with_ecu`, begun at `start`: `sent` is when the request is written, or none where
  -- that fails or takes the whole budget, until `failed_at`.
  unfoldable pub exchange : ℕ → ℕ → Option ℕ → ℕ → List Delivery → Option Outcome
  exchange fuel start sent failed_at deliveries =
      if closing start
      then some (record { frames = []; nack = none; ended_at = start; retired = false })
      else elim sent [
        | none ↦ some (
            give_up config closing (exchange_deadline start) request_sid
              (from_send failed_at deliveries))
        | some t ↦
            exchange_loop config closing (exchange_deadline start) request_sid fuel
              (from_send t deliveries)
      ]
