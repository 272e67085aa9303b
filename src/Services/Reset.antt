-- ===== src/Services/Reset.antt =====
-- ECUReset of virtual_ecu/virtecu/services/reset.py.
use doip_playground.Base.{
  if◌then◌else◌, Bool-cases, contains, length, Bytes, ℕ, ◌≡◌, refl, inl, inr, true, none, [], ◌∷◌,
  arith,
}
use doip_playground.Config.{EcuConfig}
use doip_playground.Uds.{positive}
use doip_playground.Effect.{final, World, abort_connection, Run, returned, raised}
use doip_playground.Store.{store_read}
use doip_playground.Store.Laws.{default_of, Distinct, lookup-defaults}
use doip_playground.Core.{drop_session_state, reset_ecu}
use doip_playground.Hooks.{Context, Value, py_bytes}
use doip_playground.Services.{sub_of, reset_supported, ecu_reset}

-- A request that ECUReset takes.
pub record IsReset (config : EcuConfig) (ctx : Context) : Type 0 where
  pub two : length ctx.request.raw ≡ 2
  pub supported : contains (sub_of ctx) (reset_supported config) ≡ true

-- Whether a run sends this as its answer, by a return or by ending the connection.
abbrev pub Answers : Bytes → Run Value → Type 0
Answers b (returned (py_bytes a) w) = a ≡ b
Answers b (raised (abort_connection a) w) = a ≡ b
Answers b _ = ⊥

module _ (config : EcuConfig) where
  -- A reset that is taken forgets all routines, and puts each DID back to its default where the
  -- configuration, with distinct DIDs, says so, or else leaves it; and it is answered positively,
  -- by either ending.
  pub ecu_reset-restores :
      (ctx : Context) (did : ℕ) (w : World)
      → Distinct config.dids
      → IsReset config ctx
      → ((final (ecu_reset config ctx w)).routine_state ≡ none)
        × (store_read did (final (ecu_reset config ctx w)) ≡ (
            if config.uds.reset_clears_writes
            then default_of did config.dids
            else store_read did w))
        × Answers (positive ctx.request (sub_of ctx ∷ [])) (ecu_reset config ctx w)
  unfolding ecu_reset reset_ecu drop_session_state
  ecu_reset-restores ctx did w distinct reset =
      let d = lookup-defaults did config.dids distinct in
      let two = reset.two in
      let supported = reset.supported in
      elim (Bool-cases config.uds.reset_drops_connection) [
        | inl drops ↦
            rw (two, supported, drops, ecu_reset) (ground (arith, d), ground (arith, d), refl)
        | inr keep ↦ rw (two, supported, keep, ecu_reset) (refl, ground (arith, d), refl)
      ]
