-- ===== src/Services/SessionControl.antt =====
-- DiagnosticSessionControl and TesterPresent of virtual_ecu/virtecu/services/session_control.py.
use doip_playground.Base.{◌==◌, if◌then◌else◌, contains, ℕ, ◌+◌, ◌≡◌, true, ◌||◌, none, some, arith}
use doip_playground.Config.{EcuConfig}
use doip_playground.Uds.{nrc_request_sequence_error, sid}
use doip_playground.Effect.{World, negative_response, returned, raised}
use doip_playground.Core.{refresh_s3, enter_session}
use doip_playground.Hooks.{Context, Value}
use doip_playground.Services.{
  session_of, sub_of, diagnostic_session_control, tester_present, send_key,
}

module _ (config : EcuConfig) where
  -- A session that was entered is locked: it has the type asked for, which the configuration lists,
  -- its level is 0, and in the same session a key for a seed of before is refused as out of
  -- sequence.
  pub diagnostic_session_control-relocks :
      (ctx key : Context) (sub : ℕ) (v : Value) (w w' : World)
      → key.session ≡ ctx.session
      → diagnostic_session_control config ctx w ≡ returned v w'
      → ((session_of ctx w').session_type ≡ sub_of ctx)
        × (contains (sub_of ctx) config.uds.sessions ≡ true)
        × ((session_of ctx w').security_level ≡ 0)
        × (send_key config key sub w'
            ≡ raised (negative_response nrc_request_sequence_error (some (sid key.request))) w')
  unfolding diagnostic_session_control enter_session refresh_s3 send_key
  diagnostic_session_control-relocks ctx key sub v w w' same e = ground arith

  -- The S3 timer behind TesterPresent: armed, from now, in a session that is not the default one
  -- and unless its time is 0; and the session's type and level are as they were.
  pub tester_present-keeps :
      (ctx : Context) (v : Value) (w w' : World)
      → tester_present config ctx w ≡ returned v w'
      → ((session_of ctx w').session_type ≡ (session_of ctx w).session_type)
        × ((session_of ctx w').security_level ≡ (session_of ctx w).security_level)
        × ((session_of ctx w').s3_task ≡ (
            if (session_of ctx w).session_type == config.uds.default_session
              || config.uds.s3_server_ms == 0
            then none
            else some (w.now + config.uds.s3_server_ms)))
  unfolding tester_present refresh_s3
  tester_present-keeps ctx v w w' e = ground arith
