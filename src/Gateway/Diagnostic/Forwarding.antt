-- ===== src/Gateway/Diagnostic/Forwarding.antt =====
-- Which diagnostic messages of a session in doip_edgenode/session.py reach an ECU, and which one.
use doip_playground.Base.{
  ltb, leb, ◌==◌, Bool-cases, Option-cases, length, lookup, Bytes, ℕ, ◌≤◌, ◌≡◌, sym, ap, ◌≢◌, ◌⊎◌,
  inl, inr, Bool, true, ◌&&◌, Option, none, some, List, [], ◌∷◌, arith,
}
use doip_playground.Gateway.{word_at, GatewayConfig}
use doip_playground.Gateway.Diagnostic.{
  send_diag_nack, lookup_by_ecu_addr, handle_self_diagnostic, connect_to_ecu, cached, route,
  by_verdict_of, is_own_source, handle_diagnostic_message, Ending, goes_on, fails, forward, Verdict,
  faulted, dropped, passed, Attempt, opened,
}

-- An address that the routing table has is found as itself.
lookup_by_ecu_addr_self :
    (addr entry : ℕ) (table : List ℕ) → lookup_by_ecu_addr addr table ≡ some entry → entry ≡ addr
unfolding lookup_by_ecu_addr
lookup_by_ecu_addr_self addr entry [] e = absurd (ground arith)
lookup_by_ecu_addr_self addr entry (x ∷ table) e =
    ground (arith, lookup_by_ecu_addr_self addr entry table)

module _ (config : GatewayConfig) (table : List ℕ) (ecu_conns : List (ℕ × ℕ)) (connected : ℕ → Bool)
    (attempt : Attempt) where
  -- The connection's origin: kept for the target and still connected, or opened for an entry of the
  -- routing table.
  abbrev pub HasLeg : ℕ → ℕ → Type 0
  HasLeg target conn =
      ((lookup target ecu_conns ≡ some conn) × (connected conn ≡ true))
      ⊎ ((lookup_by_ecu_addr target table ≡ some target) × (attempt ≡ opened conn))

  send_diag_nack-local :
      (code target conn : ℕ) (raw bytes : Bytes) (ending : Ending)
      → send_diag_nack code raw ending ≡ forward target conn bytes
      → ⊥
  unfolding send_diag_nack
  send_diag_nack-local code target conn raw bytes ending e = ground arith

  connect_to_ecu-forwards :
      (t target conn : ℕ) (processed raw bytes : Bytes)
      → connect_to_ecu config table attempt t processed raw ≡ forward target conn bytes
      → (target ≡ t)
        × (bytes ≡ processed)
        × (lookup_by_ecu_addr target table ≡ some target)
        × (attempt ≡ opened conn)
  unfolding connect_to_ecu send_diag_nack
  connect_to_ecu-forwards t target conn processed raw bytes e =
      elim (Option-cases (lookup_by_ecu_addr t table)) [
        | inl unknown ↦ absurd (ground arith)
        | inr (entry, known) ↦
            let same = lookup_by_ecu_addr_self t entry table known in
            (ground arith, ground arith, ground arith, ground arith)
      ]

  -- What reaches an ECU's connection.
  abbrev pub Forwards : Option ℕ → Verdict → Bytes → ℕ → ℕ → Bytes → Type 0
  Forwards tester verdict raw target conn bytes =
      (tester ≡ some (word_at 8 raw))
      × (word_at 10 raw ≢ config.node_logical_addr)
      × (verdict ≡ passed bytes)
      × (target ≡ word_at 10 bytes)
      × HasLeg target conn

  cached-still :
      (o : Option ℕ) (conn : ℕ)
      → cached config connected o ≡ some conn
      → (o ≡ some conn) × (connected conn ≡ true)
  cached-still none conn e = absurd (ground arith)
  cached-still (some c) conn e = ground arith

  route-forwards :
      (target conn : ℕ) (processed raw bytes : Bytes)
      → route config table ecu_conns connected attempt processed raw ≡ forward target conn bytes
      → (bytes ≡ processed) × (target ≡ word_at 10 processed) × HasLeg target conn
  unfolding route
  route-forwards target conn processed raw bytes e = elim (Bool-cases (ltb (length processed) 12)) [
    | inl short ↦ absurd (send_diag_nack-local 0x03 target conn raw bytes goes_on (rw short at e))
    | inr long ↦
        elim (Option-cases (cached config connected (lookup (word_at 10 processed) ecu_conns))) [
          | inl none_there ↦
              let (t, b, known, fresh) =
                connect_to_ecu-forwards (word_at 10 processed) target conn processed raw bytes
                  (rw (long, none_there, route) at e) in
              (b, t, inr (known, fresh))
          | inr (there, kept) ↦
              let (entry, live) =
                cached-still (lookup (word_at 10 processed) ecu_conns) there kept in
              let same : forward (word_at 10 processed) there processed
                  ≡ forward target conn bytes =
                rw (long, kept, route) at e in
              (ground arith, ground arith, inl (ground arith, ground arith))
        ]
  ]

  by_verdict-forwards :
      (verdict : Verdict) (raw bytes : Bytes) (target conn : ℕ)
      → by_verdict_of config table ecu_conns connected attempt verdict raw
        ≡ forward target conn bytes
      → (verdict ≡ passed bytes) × (target ≡ word_at 10 bytes) × HasLeg target conn
  by_verdict-forwards (faulted code) raw bytes target conn e =
      absurd (send_diag_nack-local code target conn raw bytes goes_on e)
  by_verdict-forwards dropped raw bytes target conn e = absurd (ground arith)
  by_verdict-forwards (passed processed) raw bytes target conn e =
      let (b, t, leg) = route-forwards target conn processed raw bytes e in
      (ap passed (sym b), rw b t, leg)

  self-local :
      (random raw bytes : Bytes) (target conn : ℕ)
      → handle_self_diagnostic config random raw ≡ forward target conn bytes
      → ⊥
  unfolding handle_self_diagnostic
  self-local random raw bytes target conn e = ground arith

  own_source :
      (tester : Option ℕ) (raw : Bytes)
      → is_own_source config tester raw ≡ true
      → tester ≡ some (word_at 8 raw)
  own_source none raw e = absurd (ground arith)
  own_source (some t) raw e = ap some (ground arith)

  -- Bytes reach an ECU only from the tester the session is activated for, for another address than
  -- the node's own, as the middleware passed them on, and to the target that stands in those bytes,
  -- over a connection that is kept for it and still connected, or one just opened for it by an entry
  -- of the routing table.
  pub handle_diagnostic_message-Forwards :
      (tester : Option ℕ) (random : Bytes) (verdict : Verdict) (raw bytes : Bytes) (target conn : ℕ)
      → 12 ≤ length raw
      → handle_diagnostic_message config tester random table ecu_conns connected attempt verdict raw
        ≡ forward target conn bytes
      → Forwards tester verdict raw target conn bytes
  unfolding handle_diagnostic_message
  handle_diagnostic_message-Forwards tester random verdict raw bytes target conn long e =
      elim (Bool-cases (is_own_source config tester raw)) [
        | inr foreign ↦
            absurd (send_diag_nack-local 0x02 target conn raw bytes fails (rw foreign at e))
        | inl own ↦
            elim (Bool-cases (leb 12 (length raw) && word_at 10 raw == config.node_logical_addr)) [
              | inl here ↦ absurd (self-local random raw bytes target conn (rw (own, here) at e))
              | inr away ↦
                  let (pass, t, leg) =
                    by_verdict-forwards verdict raw bytes target conn (rw (own, away) at e) in
                  (own_source tester raw own, ground arith, pass, t, leg)
            ]
      ]
