-- ===== src/CoreServices.antt =====
-- virtual_ecu/virtecu/services/__init__.py: the table of built-in services, and the dispatcher over
-- it.
use doip_playground.Base.{◌==◌, if◌then◌else◌, ℕ, none, some}
use doip_playground.Config.{EcuConfig}
use doip_playground.Uds.{
  sid_diagnostic_session_control, sid_ecu_reset, sid_read_data_by_identifier, sid_security_access,
  sid_write_data_by_identifier, sid_routine_control, sid_tester_present, sid,
}
use doip_playground.Effect.{Action, return}
use doip_playground.Hooks.{Buckets, Context, Value, py_none}
use doip_playground.Dispatcher.{dispatch}
use doip_playground.Services.{
  diagnostic_session_control, tester_present, ecu_reset, security_access,
}
use doip_playground.Identifier.{read_data_by_identifier, write_data_by_identifier}
use doip_playground.Routine.{routine_control}

module _ (config : EcuConfig) (t : Buckets) where
  -- `self._table.get(sid)`, called
  handle_sid : ℕ → Context → Action Value
  handle_sid s ctx =
      if s == sid_diagnostic_session_control
      then diagnostic_session_control config ctx
      else if s == sid_tester_present
      then tester_present config ctx
      else if s == sid_ecu_reset
      then ecu_reset config ctx
      else if s == sid_security_access
      then security_access config ctx
      else if s == sid_read_data_by_identifier
      then read_data_by_identifier config t ctx
      else if s == sid_write_data_by_identifier
      then write_data_by_identifier config t ctx
      else if s == sid_routine_control
      then routine_control config t ctx
      else return py_none

  -- `CoreServices.handle`
  unfoldable pub handle : Context → Action Value
  unfolding handle_sid
  handle ctx = elim (sid ctx.request) [ none ↦ return py_none | some s ↦ handle_sid s ctx ]

  -- `ecu.dispatcher.dispatch`
  unfoldable pub dispatch_request : Context → Action Value
  dispatch_request = dispatch config.uds t handle
