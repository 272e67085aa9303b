-- ===== src/Services/Security.antt =====
-- SecurityAccess of virtual_ecu/virtecu/services/security.py: what unlocks a level, and what a wrong
-- key costs.
use doip_playground.Base.{
  leb, ◌==◌, Bool-cases, length, drop, bytes_eq, bytes_eq_iff, ℕ, suc, ◌%◌, ◌<◌, ◌≡◌, refl, sym, ap,
  ◌∙◌, ◌≢◌, inl, inr, true, some, arith,
}
use doip_playground.Config.{EcuConfig}
use doip_playground.Uds.{nrc_request_sequence_error, sid}
use doip_playground.Effect.{final, World, negative_response, raised}
use doip_playground.Hooks.{Context}
use doip_playground.Services.{
  session_of, sub_of, level_of, expected_key, request_seed, is_pending, send_key, security_access,
}

-- The security level in the session of a request.
abbrev pub level_in : Context → World → ℕ
level_in ctx w = (session_of ctx w).security_level

-- What a request has to be, to change the level.
pub record Unlocks (config : EcuConfig) (ctx : Context) (w : World) : Type 0 where
  pub enabled : config.uds.security.enabled ≡ true
  pub even : sub_of ctx % 2 ≡ 0
  pub pending : is_pending config (session_of ctx w).seed_pending (sub_of ctx) ≡ true
  pub key : drop 2 ctx.request.raw ≡ expected_key config
  pub level : level_in ctx (final (security_access config ctx w)) ≡ level_of config (sub_of ctx)

module _ (config : EcuConfig) where
  request_seed-level :
      (ctx : Context) (sub : ℕ) (w : World)
      → level_in ctx (final (request_seed config ctx sub w)) ≡ level_in ctx w
  unfolding request_seed
  request_seed-level ctx sub w = ground arith

  send_key-level :
      (ctx : Context) (sub : ℕ) (w : World)
      → level_in ctx (final (send_key config ctx sub w)) ≢ level_in ctx w
      → (is_pending config (session_of ctx w).seed_pending sub ≡ true)
        × (bytes_eq (drop 2 ctx.request.raw) (expected_key config) ≡ true)
        × (level_in ctx (final (send_key config ctx sub w)) ≡ level_of config sub)
  unfolding send_key
  send_key-level ctx sub w ne = ground arith

  -- SecurityAccess changes the security level only when it is enabled, for an even sub-function
  -- whose seed is pending and with the expected key; and then to the level of the sub-function.
  pub security_access-Unlocks :
      (ctx : Context) (w : World)
      → level_in ctx (final (security_access config ctx w)) ≢ level_in ctx w
      → Unlocks config ctx w
  unfolding security_access
  security_access-Unlocks ctx w ne = elim (Bool-cases config.uds.security.enabled) [
    | inr off ↦ absurd (ne (rw (off, security_access) refl))
    | inl on ↦ elim (Bool-cases (leb 2 (length ctx.request.raw))) [
      | inr short ↦ absurd (ne (rw (on, short, security_access) refl))
      | inl long ↦ elim (Bool-cases (sub_of ctx == 0)) [
        | inl nothing ↦ absurd (ne (rw (on, long, nothing, security_access) refl))
        | inr sub ↦ elim (Bool-cases (sub_of ctx % 2 == 1)) [
          | inl odd ↦ absurd (
              ne (rw (on, long, sub, odd, security_access) (request_seed-level ctx (sub_of ctx) w)))
          | inr even ↦
              let same : security_access config ctx w ≡ send_key config ctx (sub_of ctx) w =
                rw (on, long, sub, even, security_access) refl in
              let u = send_key-level ctx (sub_of ctx) w (λ h. ne (rw same h)) in
              record {
                enabled = on;
                even = ground arith;
                pending = u.0;
                key = (bytes_eq_iff (drop 2 ctx.request.raw) (expected_key config)).0 u.1;
                level = rw same u.2;
              }
        ]
      ]
    ]
  ]

  -- A seed serves for one key: behind a key that was compared, whatever it was, another key in the
  -- same session is refused as out of sequence.
  pub send_key-once :
      (ctx again : Context) (sub next : ℕ) (w : World)
      → again.session ≡ ctx.session
      → is_pending config (session_of ctx w).seed_pending sub ≡ true
      → length (drop 2 ctx.request.raw) ≡ length config.uds.security.seed
      → send_key config again next (final (send_key config ctx sub w))
        ≡ raised
            (negative_response nrc_request_sequence_error (some (sid again.request)))
            (final (send_key config ctx sub w))
  unfolding send_key
  send_key-once ctx again sub next w same p l = ground arith

  send_key-right :
      (key : Context) (sub : ℕ) (w : World)
      → (session_of key w).seed_pending ≡ some sub
      → length (drop 2 key.request.raw) ≡ length config.uds.security.seed
      → drop 2 key.request.raw ≡ expected_key config
      → (level_in key (final (send_key config key (suc sub) w)) ≡ level_of config (suc sub))
        × ((session_of key (final (send_key config key (suc sub) w))).security_attempts ≡ 0)
  unfolding send_key
  send_key-right key sub w p l k =
      let e = (bytes_eq_iff (drop 2 key.request.raw) (expected_key config)).1 k in ground arith

  request_seed-pending :
      (ctx : Context) (sub : ℕ) (w : World)
      → length ctx.request.raw ≡ 2
      → level_in ctx w < level_of config sub
      → (session_of ctx (final (request_seed config ctx sub w))).seed_pending ≡ some sub
  unfolding request_seed
  request_seed-pending ctx sub w two below = ground arith

  -- A seed that was asked for below its level, then, in the same session and under the next
  -- sub-function, the expected key of the seed's length: the level is granted and the attempts are
  -- forgotten.
  pub seed-then-key :
      (ctx key : Context) (sub : ℕ) (w : World)
      → key.session ≡ ctx.session
      → length ctx.request.raw ≡ 2
      → level_in ctx w < level_of config sub
      → drop 2 key.request.raw ≡ expected_key config
      → length (expected_key config) ≡ length config.uds.security.seed
      → (let w' = final (send_key config key (suc sub) (final (request_seed config ctx sub w))) in
          (level_in ctx w' ≡ level_of config (suc sub))
          × ((session_of ctx w').security_attempts ≡ 0))
  seed-then-key ctx key sub w same two below k l =
      let p = request_seed-pending ctx sub w two below in
      let r =
        send_key-right key sub (final (request_seed config ctx sub w)) (rw same p) (ap length k ∙ l)
          k in
      let end = final (send_key config key (suc sub) (final (request_seed config ctx sub w))) in
      (
        ap (λ n. (end.objects n).security_level) (sym same) ∙ r.0,
        ap (λ n. (end.objects n).security_attempts) (sym same) ∙ r.1,
      )
