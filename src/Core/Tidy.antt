-- ===== src/Core/Tidy.antt =====
-- When a session state of virtual_ecu/virtecu/core.py is forgotten, and what a tester that comes
-- back finds.
use doip_playground.Base.{
  Option-cases, lookup, lookup-insert, lookup-erase, ℕ, ◌≡◌, ◌≢◌, inl, inr, true, Option, none,
  some, arith,
}
use doip_playground.Config.{EcuConfig}
use doip_playground.Effect.{SessionState, World}
use doip_playground.Core.{is_tidy, session_for, maybe_drop_session_state, s3_expiry}

module _ (config : EcuConfig) where
  -- The state that `session_for` hands to this tester.
  abbrev pub found : ℕ → World → SessionState
  found sa w = let (i, v) = session_for config sa w in v.objects i

  -- Asking twice gives the same object, and the second time nothing changes.
  pub session_for-again :
      (sa : ℕ) (w : World)
      → session_for config sa (session_for config sa w).1 ≡ session_for config sa w
  unfolding session_for
  session_for-again sa w = elim (Option-cases (lookup sa w.session_states)) [
    | inl e ↦ ground (arith, lookup-insert sa sa w.next_object w.session_states)
    | inr (i, e) ↦ ground arith
  ]

  -- The tidying behind the close of a connection never changes what its tester, if it has a state,
  -- finds when it reconnects, as far as the session, the security level and the pending seed go.
  pub reconnect_finds :
      (sa i : ℕ) (state : Option ℕ) (w : World)
      → lookup sa w.session_states ≡ some i
      → let s = w.objects i in
        let s' = found sa (maybe_drop_session_state config (some sa) state w) in
        (s'.session_type ≡ s.session_type)
        × (s'.security_level ≡ s.security_level)
        × (s'.seed_pending ≡ s.seed_pending)
  unfolding session_for maybe_drop_session_state
  reconnect_finds sa i state w e = ground (arith, lookup-erase sa sa w.session_states)

  -- A tester in the default session, locked, with no seed pending, whose own connection closes,
  -- starts again from zero failed keys, however many there were.
  pub reconnect_forgets_attempts :
      (sa i : ℕ) (w : World)
      → lookup sa w.session_states ≡ some i
      → is_tidy config (w.objects i) ≡ true
      → (found sa (maybe_drop_session_state config (some sa) (some i) w)).security_attempts ≡ 0
  unfolding session_for maybe_drop_session_state
  reconnect_forgets_attempts sa i w e t = ground (arith, lookup-erase sa sa w.session_states)

  -- A caller whose state is no longer the registered one drops nothing.
  pub maybe_drop_stale :
      (sa i j : ℕ) (w : World)
      → lookup sa w.session_states ≡ some i
      → i ≢ j
      → maybe_drop_session_state config (some sa) (some j) w ≡ w
  unfolding maybe_drop_session_state
  maybe_drop_stale sa i j w e ne = ground arith

  -- When the S3 timer of a tester's registered state fires, the state is back in the default
  -- session and locked, and its entry is gone; the entries of all other testers stay.
  pub s3_expiry_forgets :
      (sa i : ℕ) (w : World)
      → lookup sa w.session_states ≡ some i
      → (w.objects i).tester_addr ≡ some sa
      → (lookup sa (s3_expiry config i w).session_states ≡ none)
        × (((s3_expiry config i w).objects i).session_type ≡ config.uds.default_session)
        × (((s3_expiry config i w).objects i).security_level ≡ 0)
        × ((other : ℕ)
            → other ≢ sa
            → lookup other (s3_expiry config i w).session_states ≡ lookup other w.session_states)
  unfolding s3_expiry is_tidy
  s3_expiry_forgets sa i w e o = (
    ground (arith, lookup-erase sa sa w.session_states),
    ground arith,
    ground arith,
    λ other ne. ground (arith, lookup-erase sa other w.session_states),
  )
