-- ===== src/Pump/Timers.antt =====
-- The inactivity timers of a connection in virtual_ecu/virtecu/session.py: `_arm_general`,
-- `_bump_general` and `_supervise`.
use doip_playground.Base.{ltb, leb, ℕ, ◌+◌, ◌<◌, ◌≡◌, true, false, ◌&&◌, none, arith}
use doip_playground.Config.{EcuConfig}
use doip_playground.Session.{set_connection, bump_general, System}
use doip_playground.Pump.{supervise, connected}

-- The same system at another time.
abbrev pub at_time : ℕ → System → System
at_time now s = record s { world = record (s.world) { now = now } }

module _ (config : EcuConfig) where
  -- Behind traffic on an activated connection that is still open and has no initial deadline left,
  -- and with a general inactivity time above 0, the supervisor ends it exactly when that time has
  -- passed since.
  pub supervise-bump_general :
      (i now : ℕ) (s : System)
      → (s.connections i).activated ≡ true
      → (s.connections i).finalized ≡ false
      → (s.connections i).initial_deadline ≡ none
      → 0 < config.doip.general_inactivity_ms
      → ((supervise config i (at_time now (bump_general config i s))).connections i).finalized
        ≡ leb (s.world.now + config.doip.general_inactivity_ms) now
  unfolding supervise bump_general
  supervise-bump_general i now s active running early pos = ground arith

  -- The supervisor ends a connection that has been opened, and nothing more, exactly when the
  -- initial inactivity time has passed; a time of 0 never ends it.
  pub supervise-connected :
      (i start now : ℕ) (s : System)
      → ((supervise config i
            (at_time now (set_connection i (connected config start) s))).connections
          i).finalized
        ≡ (ltb 0 config.doip.initial_inactivity_ms
            && leb (start + config.doip.initial_inactivity_ms) now)
  unfolding supervise connected
  supervise-connected i start now s = ground arith
