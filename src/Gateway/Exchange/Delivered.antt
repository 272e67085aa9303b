-- ===== src/Gateway/Exchange/Delivered.antt =====
-- A slow ECU's answer reaches the tester: exchanges of doip_edgenode/session.py over ResponsePending.
use doip_playground.Base.{
  leb, Bool-cases, length, Bytes, ℕ, zero, suc, ◌+◌, ◌-◌, ◌≤◌, ◌<◌, ◌≡◌, refl, ap, ◌⊎◌, inl, inr,
  Bool, true, false, Option, none, some, List, [], ◌∷◌, ◌++◌, append_assoc, arith,
}
use doip_playground.Doip.{pt_diagnostic_message}
use doip_playground.Gateway.{GatewayConfig}
use doip_playground.Gateway.Exchange.{
  frame_type, is_response_pending, recv_ecu_frame, response_matches, pending_matches, on_message,
  on_ecu_frame, on_wait, exchange_round, exchange_loop, Progress, Outcome, Delivery, frame_at, more,
  stop,
}
use doip_playground.Gateway.Exchange.Bounded.{budget_left}
use Prim.Native.Nat.{min, max}

-- Frames with the times from which they can be read, in front of later deliveries.
abbrev pub frames_at : List (ℕ × Bytes) → List Delivery → List Delivery
frames_at [] later = later
frames_at ((t, raw) ∷ rest) later = frame_at t raw ∷ frames_at rest later

abbrev pub raws_of : List (ℕ × Bytes) → List Bytes
raws_of [] = []
raws_of ((t, raw) ∷ rest) = raw ∷ raws_of rest

-- When the first of the frames, or the last one, can be read.
abbrev pub first_time : List (ℕ × Bytes) → ℕ → ℕ
first_time [] t = t
first_time ((s, raw) ∷ rest) t = s

module _ (config : GatewayConfig) (closing : ℕ → Bool) (deadline sid : ℕ) where
  -- Each is the ResponsePending of the request, and can be read before the deadline.
  abbrev pub AllPending : List (ℕ × Bytes) → Type 0
  AllPending [] = Unit {0}
  AllPending ((t, raw) ∷ rest) =
      ((t < deadline) × (pending_matches config closing deadline (some sid) raw ≡ true))
      × AllPending rest

  -- A response to the request that is not ResponsePending.
  abbrev pub IsLastAnswer : Bytes → Type 0
  IsLastAnswer raw =
      (frame_type raw ≡ pt_diagnostic_message)
      × (response_matches config closing deadline (some sid) raw ≡ true)
      × (is_response_pending raw ≡ false)

  -- The window of a wait.
  abbrev window : Progress → ℕ
  window p = min config.ecu_response_timeout (deadline - p.now)

  round-frame :
      (p : Progress) (t : ℕ) (raw : Bytes) (later : List Delivery)
      → closing p.now ≡ false
      → p.now < deadline
      → p.deliveries ≡ frame_at t raw ∷ later
      → t ≤ p.now + window p
      → exchange_round config closing deadline (some sid) p
        ≡ on_ecu_frame config closing deadline
            (some sid)
            raw
            (record p { now = max p.now t; deliveries = later })
  unfolding exchange_round recv_ecu_frame on_wait
  round-frame p t raw later open_still early e soon = ground arith

  round-silent :
      (p : Progress) (t : ℕ) (raw : Bytes) (later : List Delivery)
      → closing p.now ≡ false
      → p.now < deadline
      → p.deliveries ≡ frame_at t raw ∷ later
      → p.now + window p < t
      → p.pending_seen ≡ true
      → exchange_round config closing deadline (some sid) p
        ≡ more (record p { now = p.now + window p })
  unfolding exchange_round recv_ecu_frame on_wait
  round-silent p t raw later open_still early e late seen = ground arith

  on_ecu_frame-pending :
      (raw : Bytes) (p : Progress)
      → closing p.now ≡ false
      → pending_matches config closing deadline (some sid) raw ≡ true
      → on_ecu_frame config closing deadline (some sid) raw p
        ≡ more (record p { accepted = true; pending_seen = true; relayed = p.relayed ++ raw ∷ [] })
  unfolding on_ecu_frame on_message is_response_pending response_matches
  on_ecu_frame-pending raw p open_still e = ground arith

  on_ecu_frame-last :
      (raw : Bytes) (p : Progress)
      → closing p.now ≡ false
      → IsLastAnswer raw
      → on_ecu_frame config closing deadline (some sid) raw p
        ≡ stop (record {
          frames = p.relayed ++ raw ∷ [];
          nack = none;
          ended_at = p.now;
          retired = false;
        })
  unfolding on_ecu_frame on_message
  on_ecu_frame-last raw p open_still (dm, fits, last) = ground arith

  -- What the exchange comes to.
  abbrev pub DeliversTo : Option Outcome → List Bytes → Type 0
  DeliversTo result frames =
      (t : ℕ) × (t < deadline)
      × (result ≡ some (record { frames = frames; nack = none; ended_at = t; retired = false }))

  abbrev IsFollowed : Progress → List (ℕ × Bytes) → ℕ → Type 0
  IsFollowed p pendings t =
      (p.pending_seen ≡ true) ⊎ (first_time pendings t ≤ p.now + config.ecu_response_timeout)

  pub exchange_loop-delivers :
      (fuel : ℕ) (p : Progress) (pendings : List (ℕ × Bytes)) (t : ℕ) (last : Bytes)
      (later : List Delivery)
      → ((s : ℕ) → closing s ≡ false)
      → 0 < config.ecu_response_timeout
      → p.now < deadline
      → t < deadline
      → AllPending pendings
      → IsLastAnswer last
      → p.deliveries ≡ frames_at pendings (frame_at t last ∷ later)
      → IsFollowed p pendings t
      → budget_left config closing deadline (some sid) p < fuel
      → DeliversTo
          (exchange_loop config closing deadline (some sid) fuel p)
          (p.relayed ++ (raws_of pendings ++ last ∷ []))
  unfolding exchange_loop
  exchange_loop-delivers zero p pendings t last later open_still some_time early t_early all final e
        followed enough =
      absurd (omega arith)
  exchange_loop-delivers (suc fuel) p [] t last later open_still some_time early t_early all final e
        followed enough =
      elim (Bool-cases (leb t (p.now + window p))) [
        | inl soon ↦
            rw (round-frame p t last later (open_still p.now) early e (ground arith), exchange_loop)
              (rw
                (on_ecu_frame-last last (record p { now = max p.now t; deliveries = later })
                  (open_still (max p.now t)) final)
                (max p.now t, omega arith, refl))
        | inr late ↦
            rw
              (
                round-silent p t last later (open_still p.now) early e (ground arith)
                    (ground arith),
                exchange_loop,
              )
              (exchange_loop-delivers fuel (record p { now = p.now + window p }) [] t last later
                open_still some_time (ground arith) t_early all final e (inl (ground arith))
                (omega arith))
      ]
  exchange_loop-delivers (suc fuel) p ((s, raw) ∷ pendings) t last later open_still some_time early
        t_early ((s_early, pending), all) final e followed enough =
      elim (Bool-cases (leb s (p.now + window p))) [
        | inl soon ↦
            let q : Progress = record p {
              now = max p.now s;
              deliveries = frames_at pendings (frame_at t last ∷ later);
            } in
            rw
              (
                round-frame p s raw (frames_at pendings (frame_at t last ∷ later))
                    (open_still p.now) early e (ground arith),
                exchange_loop,
              )
              (rw
                (
                  on_ecu_frame-pending raw q (open_still (max p.now s)) pending,
                  ← append_assoc p.relayed (raw ∷ []) (raws_of pendings ++ last ∷ []),
                )
                (exchange_loop-delivers fuel
                  (record q {
                    accepted = true;
                    pending_seen = true;
                    relayed = p.relayed ++ raw ∷ [];
                  })
                  pendings t last later open_still some_time (omega arith) t_early all final refl
                  (inl refl) (omega (arith, ap length e))))
        | inr late ↦
            rw
              (
                round-silent p s raw (frames_at pendings (frame_at t last ∷ later))
                    (open_still p.now) early e (ground arith) (ground arith),
                exchange_loop,
              )
              (exchange_loop-delivers fuel (record p { now = p.now + window p })
                ((s, raw) ∷ pendings) t last later open_still some_time (ground arith) t_early
                ((s_early, pending), all) final e (inl (ground arith)) (omega arith))
      ]

module _ (config : GatewayConfig) (closing : ℕ → Bool) (sid : ℕ) (request : Bytes) where
  abbrev end_of : ℕ → ℕ
  end_of start = start + config.ecu_pending_max_wait
