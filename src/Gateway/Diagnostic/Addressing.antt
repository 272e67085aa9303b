-- ===== src/Gateway/Diagnostic/Addressing.antt =====
-- Whom the replies of a session in doip_edgenode/session.py are addressed to.
use doip_playground.Base.{
  ltb, leb, ◌==◌, Option-cases, if-rule, length, lookup, Bytes, ℕ, zero, suc, ◌+◌, ◌≤◌, ◌≡◌, refl,
  inl, inr, Bool, not, ◌&&◌, Option, List, [], ◌∷◌, arith,
}
use doip_playground.Gateway.{byte_at, word_at, GatewayConfig}
use doip_playground.Gateway.Diagnostic.{
  slice_two, diag_nack_frame, send_diag_nack, lookup_by_ecu_addr, handle_self_diagnostic,
  connect_to_ecu, cached, route, by_verdict_of, is_own_source, handle_diagnostic_message, Ending,
  goes_on, fails, Handling, local, forward, Verdict, faulted, dropped, passed, Attempt, opened,
  refused,
}

-- A frame from the address that the message was for, to the one it came from.
abbrev pub IsBack : Bytes → Bytes → Type 0
IsBack raw f = (word_at 8 f ≡ word_at 10 raw) × (word_at 10 f ≡ word_at 8 raw)

abbrev pub AllBack : Bytes → Handling → Type 0
AllBack raw (local [] ending) = Unit {0}
AllBack raw (local (f ∷ []) ending) = IsBack raw f
AllBack raw (local (f ∷ g ∷ []) ending) = IsBack raw f × IsBack raw g
AllBack raw (local (f ∷ g ∷ h ∷ rest) ending) = ⊥
AllBack raw (forward target conn processed) = Unit {0}

slice_two-lem :
    (n : ℕ) (request : Bytes)
    → n + 2 ≤ length request
    → slice_two n request ≡ byte_at n request ∷ byte_at (suc n) request ∷ []
unfolding byte_at
slice_two-lem zero [] h = absurd (omega arith)
slice_two-lem zero (a ∷ []) h = absurd (omega arith)
slice_two-lem zero (a ∷ b ∷ rest) h = refl
slice_two-lem (suc n) [] h = absurd (omega arith)
slice_two-lem (suc n) (a ∷ rest) h = slice_two-lem n rest (omega (arith, h))

diag_nack_frame-IsBack :
    (code : ℕ) (raw : Bytes) → 12 ≤ length raw → IsBack raw (diag_nack_frame code raw)
unfolding byte_at
diag_nack_frame-IsBack code raw long =
    rw (slice_two-lem 10 raw (omega (arith, long)), slice_two-lem 8 raw (omega (arith, long)))
      (refl, refl)

pub send_diag_nack-back :
    (code : ℕ) (raw : Bytes) (ending : Ending)
    → 12 ≤ length raw
    → AllBack raw (send_diag_nack code raw ending)
unfolding send_diag_nack
send_diag_nack-back code raw ending long =
    if-rule (λ r. AllBack raw r) (ltb (length raw) 12) (λ short. absurd (ground arith))
      (λ _. diag_nack_frame-IsBack code raw long)

module _ (config : GatewayConfig) where
  handle_self_diagnostic-back :
      (random raw : Bytes) → AllBack raw (handle_self_diagnostic config random raw)
  unfolding handle_self_diagnostic byte_at
  handle_self_diagnostic-back random raw = ((omega arith, omega arith), (omega arith, omega arith))

  module _ (table : List ℕ) (ecu_conns : List (ℕ × ℕ)) (connected : ℕ → Bool)
      (attempt : Attempt) where
    connect_to_ecu-back :
        (target : ℕ) (processed raw : Bytes)
        → 12 ≤ length raw
        → AllBack raw (connect_to_ecu config table attempt target processed raw)
    unfolding connect_to_ecu
    connect_to_ecu-back target processed raw long =
        elim (Option-cases (lookup_by_ecu_addr target table)) [
          | inl unknown ↦ rw (unknown, connect_to_ecu) (send_diag_nack-back 0x03 raw goes_on long)
          | inr (entry, known) ↦ rw (known, connect_to_ecu) (go attempt)
        ]
      where
        go :
            (a : Attempt)
            → AllBack raw (elim a [
              | opened conn ↦ forward target conn processed
              | refused ↦ send_diag_nack 0x06 raw goes_on
            ])
        go (opened conn) = tt
        go refused = send_diag_nack-back 0x06 raw goes_on long

    route-back :
        (processed raw : Bytes)
        → 12 ≤ length raw
        → AllBack raw (route config table ecu_conns connected attempt processed raw)
    unfolding route
    route-back processed raw long =
        if-rule (λ r. AllBack raw r) (ltb (length processed) 12)
          (λ _. send_diag_nack-back 0x03 raw goes_on long)
          (λ _.
            elim (Option-cases
              (cached config connected (lookup (word_at 10 processed) ecu_conns))) [
                | inl none_there ↦
                    rw (none_there, route)
                      (connect_to_ecu-back (word_at 10 processed) processed raw long)
                | inr (conn, there) ↦ rw (there, route) tt
              ])

    by_verdict-back :
        (verdict : Verdict) (raw : Bytes)
        → 12 ≤ length raw
        → AllBack raw (by_verdict_of config table ecu_conns connected attempt verdict raw)
    by_verdict-back (faulted code) raw long = send_diag_nack-back code raw goes_on long
    by_verdict-back dropped raw long = tt
    by_verdict-back (passed processed) raw long = route-back processed raw long

    -- Whatever a session itself sends in answer to a diagnostic message that has both addresses, it is
    -- from the address that the message was for, and to the one it came from: the ACK and response of
    -- the node itself, and every local NACK, for a foreign source, an injected fault, an unknown target
    -- or one that cannot be reached. At most two frames are sent, before an exchange none.
    pub handle_diagnostic_message-back :
        (tester : Option ℕ) (random : Bytes) (verdict : Verdict) (raw : Bytes)
        → 12 ≤ length raw
        → AllBack raw (
            handle_diagnostic_message config tester random table ecu_conns connected attempt verdict
              raw)
    unfolding handle_diagnostic_message
    handle_diagnostic_message-back tester random verdict raw long =
        if-rule (λ r. AllBack raw r) (not (is_own_source config tester raw))
          (λ _. send_diag_nack-back 0x02 raw fails long)
          (λ _.
            if-rule (λ r. AllBack raw r)
              (leb 12 (length raw) && word_at 10 raw == config.node_logical_addr)
              (λ _. handle_self_diagnostic-back random raw) (λ _. by_verdict-back verdict raw long))
