-- ===== src/Gateway/Exchange/Relayed.antt =====
-- What an exchange of doip_edgenode/session.py lets through to the tester.
use doip_playground.Base.{
  leb, ◌==◌, if◌then◌else◌, Bool-cases, if-rule, length, Bytes, ℕ, zero, suc, ◌+◌, ◌-◌, ◌≤◌, bit_or,
  ◌≡◌, refl, ◌⊎◌, inl, inr, Bool, true, false, not, some, List, [], ◌∷◌, ◌++◌, arith,
}
use doip_playground.Doip.{
  pt_diagnostic_message, pt_diagnostic_positive_ack, pt_diagnostic_negative_ack,
}
use doip_playground.Gateway.{byte_at, GatewayConfig}
use Prim.Native.Nat.{min}
use doip_playground.Gateway.Exchange.{
  negative_response, frame_type, is_response_pending, recv_ecu_frame, Round-cases, response_matches,
  pending_matches, relay, finish, give_up, on_message, on_ecu_frame, on_wait, exchange_round,
  exchange_loop, Progress, Outcome, Wait, arrived, failed, Round, more, stop, silent,
}

-- A diagnostic message that carries a service id answers the request's: positively, or with the
-- negative response for it.
abbrev pub IsAnswer : ℕ → Bytes → Type 0
IsAnswer sid raw =
    frame_type raw ≡ pt_diagnostic_message
    → 13 ≤ length raw
    → (byte_at 12 raw ≡ bit_or sid 0x40)
      ⊎ ((byte_at 12 raw ≡ negative_response) × (14 ≤ length raw) × (byte_at 13 raw ≡ sid))

abbrev pub AllAnswer : ℕ → List Bytes → Type 0
AllAnswer sid [] = Unit {0}
AllAnswer sid (raw ∷ frames) = IsAnswer sid raw × AllAnswer sid frames

unfoldable pub count_acks : List Bytes → ℕ
count_acks [] = 0
count_acks (raw ∷ frames) =
    (if frame_type raw == pt_diagnostic_positive_ack then 1 else 0) + count_acks frames

-- An answer that ends the request: a response that is not ResponsePending, or the ECU's NACK.
abbrev pub IsFinal : Bytes → Type 0
IsFinal raw =
    (frame_type raw ≡ pt_diagnostic_negative_ack)
    ⊎ ((frame_type raw ≡ pt_diagnostic_message) × (is_response_pending raw ≡ false))

AllAnswer-snoc :
    (sid : ℕ) (frames : List Bytes) (raw : Bytes)
    → AllAnswer sid frames
    → IsAnswer sid raw
    → AllAnswer sid (frames ++ raw ∷ [])
AllAnswer-snoc sid [] raw _ a = (a, tt)
AllAnswer-snoc sid (f ∷ frames) raw (b, all) a = (b, AllAnswer-snoc sid frames raw all a)

count_acks-snoc :
    (frames : List Bytes) (raw : Bytes)
    → count_acks (frames ++ raw ∷ [])
      ≡ count_acks frames + (if frame_type raw == pt_diagnostic_positive_ack then 1 else 0)
unfolding count_acks
count_acks-snoc [] raw = omega arith
count_acks-snoc (f ∷ frames) raw = omega (arith, count_acks-snoc frames raw)

-- What holds of the frames relayed, at any time.
pub record IsOrderly (sid : ℕ) (frames : List Bytes) : Type 0 where
  pub answering : AllAnswer sid frames
  pub one_ack : count_acks frames ≤ 1

-- The loop's invariant: nothing is relayed before it is accepted.
pub record Running (sid : ℕ) (p : Progress) : Type 0 where
  pub orderly : IsOrderly sid p.relayed
  pub unaccepted : p.accepted ≡ false → p.relayed ≡ []

-- How an exchange may end.
pub record Settled (closing : ℕ → Bool) (sid : ℕ) (o : Outcome) : Type 0 where
  pub settled_orderly : IsOrderly sid o.frames
  pub nacked_only : (n : ℕ × Bytes) → o.nack ≡ some n → (n.0 ≡ 0x06) × (o.frames ≡ [])
  pub kept_final :
      o.retired ≡ false
      → (closing o.ended_at ≡ true)
        ⊎ ((before : List Bytes) × (last : Bytes) × (o.frames ≡ before ++ last ∷ []) × IsFinal last)

module _ (config : GatewayConfig) (closing : ℕ → Bool) (deadline sid : ℕ) where
  abbrev Kept : Round → Type 0
  Kept (more q) = Running sid q
  Kept (stop o) = Settled closing sid o

  matches-IsAnswer :
      (raw : Bytes)
      → config.strict_response_matching ≡ true
      → response_matches config closing deadline (some sid) raw ≡ true
      → IsAnswer sid raw
  unfolding response_matches
  matches-IsAnswer raw strict e _ long = ground arith

  relay-IsOrderly :
      (raw : Bytes) (p : Progress)
      → IsOrderly sid p.relayed
      → IsAnswer sid raw
      → (frame_type raw ≡ pt_diagnostic_positive_ack → p.relayed ≡ [])
      → IsOrderly sid (relay config closing deadline (some sid) raw p).relayed
  unfolding count_acks
  relay-IsOrderly raw p fine a first =
      if-rule (λ frames. IsOrderly sid frames) (closing p.now) (λ _. fine)
        (λ _. record {
          answering = AllAnswer-snoc sid p.relayed raw fine.answering a;
          one_ack = elim (Bool-cases (frame_type raw == pt_diagnostic_positive_ack)) [
            | inl ack ↦ rw (first (ground arith)) (ground arith)
            | inr other ↦ rw (count_acks-snoc p.relayed raw, other) (omega (arith, fine.one_ack))
          ];
        })

  pub give_up-Settled :
      (p : Progress)
      → Running sid p
      → Settled closing sid (give_up config closing deadline (some sid) p)
  unfolding give_up
  give_up-Settled p r = record {
    settled_orderly = r.orderly;
    nacked_only = λ code e. (ground arith, r.unaccepted (ground arith));
    kept_final = λ e. absurd (ground arith);
  }

  quit-Settled :
      (p : Progress)
      → Running sid p
      → Settled closing sid (finish config closing deadline (some sid) false p)
  quit-Settled p r = record {
    settled_orderly = r.orderly;
    nacked_only = λ code e. absurd (ground arith);
    kept_final = λ e. absurd (ground arith);
  }

  -- The last frame is relayed, or the session is closing.
  finish-Settled :
      (completed : Bool) (raw : Bytes) (p : Progress)
      → IsOrderly sid p.relayed
      → IsAnswer sid raw
      → (frame_type raw ≡ pt_diagnostic_positive_ack → p.relayed ≡ [])
      → (completed ≡ true → IsFinal raw)
      → Settled closing sid (
          finish config closing deadline
            (some sid)
            completed
            (relay config closing deadline (some sid) raw p))
  finish-Settled completed raw p fine a first final = record {
    settled_orderly = relay-IsOrderly raw p fine a first;
    nacked_only = λ code e. absurd (ground arith);
    kept_final = λ e. elim (Bool-cases (closing p.now)) [
      | inl shut ↦ inl shut
      | inr open_still ↦ inr (p.relayed, raw, rw open_still refl, final (ground arith))
    ];
  }

  on_message-Kept :
      (raw : Bytes) (p : Progress)
      → config.strict_response_matching ≡ true
      → frame_type raw ≡ pt_diagnostic_message
      → Running sid p
      → Kept (on_message config closing deadline (some sid) raw p)
  unfolding on_message
  on_message-Kept raw p strict dm r =
      if-rule Kept (not (response_matches config closing deadline (some sid) raw))
        (λ _. quit-Settled p r)
        (λ fits.
          let a : IsAnswer sid raw = matches-IsAnswer raw strict (ground arith) in
          if-rule Kept (pending_matches config closing deadline (some sid) raw)
            (λ _. record {
              orderly = relay-IsOrderly raw p r.orderly a (λ e. absurd (ground arith));
              unaccepted = λ e. absurd (ground arith);
            })
            (λ _.
              finish-Settled (not (is_response_pending raw)) raw (record p { accepted = true })
                r.orderly a (λ e. absurd (ground arith)) (λ e. inr (dm, ground arith))))

  other_type-IsAnswer :
      (raw : Bytes) → (frame_type raw == pt_diagnostic_message) ≡ false → IsAnswer sid raw
  other_type-IsAnswer raw ne e long = absurd (ground arith)

  on_ecu_frame-Kept :
      (raw : Bytes) (p : Progress)
      → config.strict_response_matching ≡ true
      → Running sid p
      → Kept (on_ecu_frame config closing deadline (some sid) raw p)
  unfolding on_ecu_frame
  on_ecu_frame-Kept raw p strict r =
      if-rule Kept (frame_type raw == pt_diagnostic_positive_ack)
        (λ ack.
          if-rule Kept p.accepted (λ _. quit-Settled p r)
            (λ fresh. record {
              orderly =
                  relay-IsOrderly raw p r.orderly (other_type-IsAnswer raw (ground arith))
                    (λ _. r.unaccepted fresh);
              unaccepted = λ e. absurd (ground arith);
            }))
        (λ no_ack.
          if-rule Kept (frame_type raw == pt_diagnostic_message)
            (λ dm. on_message-Kept raw p strict (ground arith) r)
            (λ other.
              finish-Settled (frame_type raw == pt_diagnostic_negative_ack) raw p r.orderly
                (other_type-IsAnswer raw other) (λ e. absurd (ground arith))
                (λ e. inl (ground arith))))

  on_wait-Kept :
      (p : Progress) (w : Wait)
      → config.strict_response_matching ≡ true
      → Running sid p
      → Kept (on_wait config closing deadline (some sid) p w)
  unfolding on_wait
  on_wait-Kept p (arrived raw t later) strict r =
      on_ecu_frame-Kept raw (record p { now = t; deliveries = later }) strict
        (record { orderly = r.orderly; unaccepted = r.unaccepted })
  on_wait-Kept p (silent t) strict r =
      let r' : Running sid (record p { now = t }) = record {
        orderly = r.orderly;
        unaccepted = r.unaccepted;
      } in
      if-rule Kept p.pending_seen (λ _. r') (λ _. give_up-Settled (record p { now = t }) r')
  on_wait-Kept p (failed t) strict r =
      give_up-Settled (record p { now = t })
        (record { orderly = r.orderly; unaccepted = r.unaccepted })

  exchange_round-Kept :
      (p : Progress)
      → config.strict_response_matching ≡ true
      → Running sid p
      → Kept (exchange_round config closing deadline (some sid) p)
  unfolding exchange_round
  exchange_round-Kept p strict r =
      if-rule Kept (closing p.now) (λ _. quit-Settled p r)
        (λ _.
          if-rule Kept (leb deadline p.now) (λ _. give_up-Settled p r)
            (λ _.
              on_wait-Kept p
                (recv_ecu_frame (min config.ecu_response_timeout (deadline - p.now)) p.now
                  p.deliveries)
                strict r))

  pub exchange_loop-Settled :
      (fuel : ℕ) (p : Progress) (o : Outcome)
      → config.strict_response_matching ≡ true
      → Running sid p
      → exchange_loop config closing deadline (some sid) fuel p ≡ some o
      → Settled closing sid o
  unfolding exchange_loop
  exchange_loop-Settled zero p o strict r e = absurd (ground arith)
  exchange_loop-Settled (suc fuel) p o strict r e =
      elim (Round-cases (exchange_round config closing deadline (some sid) p)) [
        | inl (q, next) ↦
            exchange_loop-Settled fuel q o strict (rw next at (exchange_round-Kept p strict r))
              (rw (next, exchange_loop) at e)
        | inr (o', ended) ↦
            let same : o' ≡ o = ground arith in
            rw (← same) (rw ended at (exchange_round-Kept p strict r))
      ]
