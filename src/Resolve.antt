-- ===== src/Resolve.antt =====
-- virtual_ecu/virtecu/session.py, `resolve_uds` and `_dispatch_with_p2`: one UDS request from the
-- dispatcher to the bytes on the wire. How long the handlers run is a parameter; time counts in
-- tenths of a millisecond, in which the waiting windows are whole. The frames that the waiting
-- sends are put behind those that the handlers sent themselves.
pub mod Pending
pub mod Suppression
use doip_playground.Base.{
  ltb, leb, ◌==◌, if◌then◌else◌, contains, replicate, Bytes, ℕ, zero, suc, ◌+◌, ◌*◌, Bool, true,
  false, not, ◌&&◌, Option, none, some, List, [], ◌∷◌, ◌++◌,
}
use doip_playground.Config.{UdsConfig, EcuConfig}
use doip_playground.Uds.{
  sid_negative_response, nrc_general_reject, nrc_response_pending, functional_suppressed_nrcs, Sid,
  sid_byte, sid, suppress_pos_rsp, negative, UdsRequest,
}
use doip_playground.Effect.{
  Action, return, throw, World, negative_response, suppress_response, python_error, Run, returned,
  raised,
}
use doip_playground.Core.{refresh_s3}
use doip_playground.Hooks.{Buckets, Context, Value, no_response, py_bytes}
use doip_playground.Services.{session_of, set_session}
use doip_playground.CoreServices.{dispatch_request}

-- When the dispatcher's task ends, `none` for never, and what it has done to the process by the
-- time it is cancelled.
pub record Timing : Type 0 where
  pub done_at : Option ℕ
  pub cut_off : World → World

abbrev pub done_by : Option ℕ → ℕ → Bool
done_by none deadline = false
done_by (some d) deadline = leb d deadline

-- How the waiting ends, with the number of 0x78 frames sent.
pub data Waited : Type 0 where
  finished gave_up : ℕ → Waited
  still_waiting : Waited

-- `uds_cfg.max_response_pending and pending_sent >= uds_cfg.max_response_pending`
abbrev pub at_cap : ℕ → ℕ → Bool
at_cap cap pending_sent = not (cap == 0) && leb cap pending_sent

module _ (uds : UdsConfig) where
  -- The `while True` of `_dispatch_with_p2`, on fuel.
  unfoldable pub wait_loop : ℕ → Option ℕ → ℕ → ℕ → ℕ → Waited
  wait_loop zero done_at elapsed window pending_sent = still_waiting
  wait_loop (suc fuel) done_at elapsed window pending_sent =
      let rest =
        wait_loop fuel done_at (elapsed + window) (uds.p2_star_server_ms * 9) (suc pending_sent) in
      if done_by done_at (elapsed + window)
      then finished pending_sent
      else if at_cap uds.max_response_pending pending_sent
      then gave_up pending_sent
      else rest

  -- `return await task`, where 0x78 is switched off
  abbrev pub await_task : Option ℕ → Waited
  await_task none = still_waiting
  await_task (some d) = finished 0

  unfoldable pub wait : ℕ → Option ℕ → Waited
  unfolding wait_loop
  wait fuel done_at =
      if uds.auto_response_pending
      then wait_loop fuel done_at 0 (uds.p2_server_ms * 10) 0
      else await_task done_at

abbrev pub respond : List Bytes → World → World
respond frames w = record w { sent = w.sent ++ frames }

-- The same end of a run, in another world.
abbrev pub map_world : {A : Type 0} → (World → World) → Run A → Run A
map_world f (returned a w) = returned a (f w)
map_world f (raised e w) = raised e (f w)

abbrev pub pending_frame : UdsRequest → Bytes
pending_frame r = negative r nrc_response_pending

-- What `_dispatch_with_p2` returns; `none` while it waits.
unfoldable pub after_wait : Waited → Timing → UdsRequest → Action Value → World → Option (Run Value)
after_wait (finished n) timing r task w =
    some (map_world (respond (replicate n (pending_frame r))) (task w))
after_wait (gave_up n) timing r task w = some (
    returned no_response (
      respond (replicate n (pending_frame r) ++ negative r nrc_general_reject ∷ [])
        (timing.cut_off w)))
after_wait still_waiting timing r task w = none

-- `NegativeResponse.to_bytes`: `(self.sid or 0x00) & 0xFF`; a code above 255 is a `ValueError`.
abbrev pub exception_sid : Option Sid → ℕ
exception_sid none = 0
exception_sid (some s) = sid_byte s

abbrev pub to_bytes : ℕ → Option Sid → Action (Option Bytes)
to_bytes code s =
    if ltb code 256
    then return (some (sid_negative_response ∷ exception_sid s ∷ code ∷ []))
    else throw python_error

-- `exc.sid = request.sid`, where it is not set
abbrev pub fill_sid : Option Sid → UdsRequest → Option Sid
fill_sid none r = some (sid r)
fill_sid (some s) r = some s

-- `result[:1] != b"\x7F"`
abbrev pub is_positive : Bytes → Bool
is_positive [] = true
is_positive (b ∷ bs) = not (b == sid_negative_response)

module _ (uds : UdsConfig) where
  -- `resolve_uds` on the dispatcher's end
  unfoldable pub answer : UdsRequest → Run Value → Run (Option Bytes)
  answer r (returned (py_bytes b) w) =
      returned
        (if suppress_pos_rsp r && uds.suppress_pos_rsp_bit && is_positive b then none else some b) w
  answer r (returned v w) = returned none w
  answer r (raised suppress_response w) = returned none w
  answer r (raised (negative_response code s) w) =
      if r.functional && contains code functional_suppressed_nrcs
      then returned none w
      else to_bytes code (fill_sid s r) w
  answer r (raised e w) = raised e w

  abbrev pub map_answer : UdsRequest → Option (Run Value) → Option (Run (Option Bytes))
  map_answer r none = none
  map_answer r (some run) = some (answer r run)

module _ (config : EcuConfig) (t : Buckets) where
  abbrev pub refreshed : Context → World → World
  refreshed ctx w = set_session ctx (refresh_s3 config w.now (session_of ctx w)) w

  -- `resolve_uds`; `none` while it waits for the handler.
  unfoldable pub resolve_uds : ℕ → Timing → Context → World → Option (Run (Option Bytes))
  unfolding after_wait
  resolve_uds fuel timing ctx w = map_answer config.uds ctx.request (
      after_wait (wait config.uds fuel timing.done_at) timing ctx.request
        (dispatch_request config t ctx) (refreshed ctx w))
