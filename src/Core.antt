-- ===== src/Core.antt =====
-- virtual_ecu/virtecu/core.py: `SessionState` objects and the table of them that `EcuCore` keeps
-- by tester address. Objects are identities into `World.objects`; Python's `is` compares them. An
-- event loop is running, so `refresh_s3` always arms; labels and logging are left out.
pub mod Sessions
pub mod Tidy
use doip_playground.Base.{
  ◌==◌, if◌then◌else◌, lookup, insert, erase, ℕ, suc, ◌+◌, Bool, true, false, not, ◌&&◌, Option,
  none, some,
}
use doip_playground.Config.{EcuConfig}
use doip_playground.Effect.{update, SessionState, World}
use doip_playground.Store.{defaults}

module _ (config : EcuConfig) where
  -- `SessionState.__init__`
  abbrev pub fresh_state : SessionState
  fresh_state = record {
    session_type = config.uds.default_session;
    security_level = 0;
    seed_pending = none;
    security_attempts = 0;
    tester_addr = none;
    activated = false;
    s3_task = none;
  }

  -- `refresh_s3`: cancel the timer, and arm it again in a non-default session.
  unfoldable pub refresh_s3 : ℕ → SessionState → SessionState
  refresh_s3 now s =
      if s.session_type == config.uds.default_session
      then record s { s3_task = none }
      else if config.uds.s3_server_ms == 0
      then record s { s3_task = none }
      else record s { s3_task = some (now + config.uds.s3_server_ms) }

  unfoldable pub enter_session : ℕ → ℕ → SessionState → SessionState
  unfolding refresh_s3
  enter_session now session_type s = refresh_s3 now (record s {
    session_type = session_type;
    security_level = 0;
    seed_pending = none;
    security_attempts = 0;
  })

  -- `SessionState.reset`
  unfoldable pub reset_session : SessionState → SessionState
  reset_session s = record s {
    session_type = config.uds.default_session;
    security_level = 0;
    seed_pending = none;
    security_attempts = 0;
    s3_task = none;
  }

  -- "nothing to remember"
  unfoldable pub is_tidy : SessionState → Bool
  is_tidy s =
      s.session_type == config.uds.default_session
      && s.security_level == 0
      && elim s.seed_pending [ none ↦ true | some _ ↦ false ]

  -- `SessionState.close`
  abbrev pub close_object : ℕ → World → World
  close_object i w = record w {
    objects = update w.objects i (record (w.objects i) { s3_task = none });
  }

  -- `session_for`: the object of this tester, created if there is none.
  unfoldable pub session_for : ℕ → World → ℕ × World
  session_for tester_addr w = elim (lookup tester_addr w.session_states) [
    | some i ↦ (i, w)
    | none ↦ (
      w.next_object,
      record w {
        objects =
            update w.objects w.next_object (record fresh_state { tester_addr = some tester_addr });
        next_object = suc w.next_object;
        session_states = insert tester_addr w.next_object w.session_states;
      },
    )
  ]

  -- `state is not None and current is not state`
  abbrev is_other : Option ℕ → ℕ → Bool
  is_other none current = false
  is_other (some i) current = not (current == i)

  drop_if_tidy : ℕ → Option ℕ → ℕ → World → World
  unfolding is_tidy
  drop_if_tidy tester_addr state current w =
      if is_other state current
      then w
      else if is_tidy (w.objects current)
      then record (close_object current w) { session_states = erase tester_addr w.session_states }
      else w

  unfoldable pub maybe_drop_session_state : Option ℕ → Option ℕ → World → World
  unfolding drop_if_tidy
  maybe_drop_session_state none state w = w
  maybe_drop_session_state (some tester_addr) state w = elim (lookup tester_addr w.session_states) [
    | none ↦ w
    | some current ↦ drop_if_tidy tester_addr state current w
  ]

  unfoldable pub drop_session_state : ℕ → World → World
  drop_session_state tester_addr w = elim (lookup tester_addr w.session_states) [
    | none ↦ w
    | some i ↦ record (close_object i w) { session_states = erase tester_addr w.session_states }
  ]

  -- `EcuCore.reset`
  unfoldable pub reset_ecu : Bool → World → World
  reset_ecu clear_writes w = record w {
    did_values = if clear_writes then defaults config.dids else w.did_values;
    routine_state = none;
  }

  -- `_s3_expiry` after its sleep, for the object `i`
  unfoldable pub s3_expiry : ℕ → World → World
  unfolding reset_session maybe_drop_session_state
  s3_expiry i w =
      maybe_drop_session_state (w.objects i).tester_addr (some i)
        (record w { objects = update w.objects i (reset_session (w.objects i)) })
