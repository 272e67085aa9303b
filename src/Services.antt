-- ===== src/Services.antt =====
-- virtual_ecu/virtecu/services: session_control.py, reset.py and security.py, built-in UDS services
-- over the dispatcher's hooks. Each returns a value, as the Python coroutine does, or raises.
pub mod SessionControl
pub mod Security
pub mod Reset
use doip_playground.Base.{
  leb, ◌==◌, if◌then◌else◌, contains, length, drop, replicate, Bytes, pack_u16, bytes_eq, ℕ, ◌+◌,
  ◌/◌, ◌%◌, bit_xor, Bool, true, false, not, Option, none, some, List, [], ◌∷◌, ◌++◌,
}
use doip_playground.Config.{EcuConfig, Algorithm}
use doip_playground.Uds.{
  nrc_sub_function_not_supported, nrc_incorrect_message_length, nrc_request_sequence_error,
  nrc_invalid_key, nrc_exceeded_number_of_attempts, sid, sub_function, positive,
}
use doip_playground.Effect.{
  ◌>>◌, ◌>>=◌, Action, return, throw, get, modify, update, SessionState, World, negative_response,
  abort_connection,
}
use doip_playground.Core.{refresh_s3, enter_session, reset_session, drop_session_state, reset_ecu}
use doip_playground.Hooks.{Context, Value, py_none, py_bytes}

-- `raise ctx.nrc(code, ...)`
abbrev pub raise_nrc : {A : Type 0} → Context → ℕ → Action A
raise_nrc ctx code = throw (negative_response code (some (sid ctx.request)))

abbrev pub require : Context → Bool → ℕ → Action (Unit {0})
require ctx ok code = if ok then return tt else raise_nrc ctx code

-- `ctx.session`, and a change of it
abbrev pub session_of : Context → World → SessionState
session_of ctx w = w.objects ctx.session

abbrev pub set_session : Context → SessionState → World → World
set_session ctx s w = record w { objects = update w.objects ctx.session s }

abbrev pub or_zero : Option ℕ → ℕ
or_zero none = 0
or_zero (some b) = b

-- `request.sub_function`, after the check that there is one
abbrev pub sub_of : Context → ℕ
sub_of ctx = or_zero (sub_function ctx.request)

module _ (config : EcuConfig) where
  -- session_control.py

  -- `bytes([sub]) + struct.pack("!HH", p2, p2_star)`, in milliseconds and in tens of them
  abbrev pub timing_record : ℕ → Bytes
  timing_record sub =
      sub
      ∷ (pack_u16 (config.uds.p2_server_ms % 65536)
          ++ pack_u16 (config.uds.p2_star_server_ms / 10 % 65536))

  unfoldable pub diagnostic_session_control : Context → Action Value
  diagnostic_session_control ctx = do
    require ctx (length ctx.request.raw == 2) nrc_incorrect_message_length
    require ctx (contains (sub_of ctx) config.uds.sessions) nrc_sub_function_not_supported
    w ← get
    modify (set_session ctx (enter_session config w.now (sub_of ctx) (session_of ctx w)))
    return (py_bytes (positive ctx.request (timing_record (sub_of ctx))))

  unfoldable pub tester_present : Context → Action Value
  tester_present ctx = do
    require ctx (length ctx.request.raw == 2) nrc_incorrect_message_length
    require ctx (sub_of ctx == 0) nrc_sub_function_not_supported
    w ← get
    modify (set_session ctx (refresh_s3 config w.now (session_of ctx w)))
    return (py_bytes (positive ctx.request (0 ∷ [])))

  -- reset.py

  abbrev pub reset_supported : List ℕ
  reset_supported = 0x01 ∷ 0x02 ∷ 0x03 ∷ []

  -- The end of `ecu_reset`, by `uds.reset_drops_connection`.
  finish_reset : Bool → Context → Action Value
  finish_reset true ctx = do
    modify (drop_session_state config ctx.request.source_addr)
    throw (abort_connection (positive ctx.request (sub_of ctx ∷ [])))
  finish_reset false ctx = do
    w ← get
    modify (set_session ctx (reset_session config (session_of ctx w)))
    return (py_bytes (positive ctx.request (sub_of ctx ∷ [])))

  unfoldable pub ecu_reset : Context → Action Value
  unfolding finish_reset
  ecu_reset ctx = do
    require ctx (length ctx.request.raw == 2) nrc_incorrect_message_length
    require ctx (contains (sub_of ctx) reset_supported) nrc_sub_function_not_supported
    modify (reset_ecu config config.uds.reset_clears_writes)
    finish_reset config.uds.reset_drops_connection ctx

  -- security.py

  unfoldable pub level_of : ℕ → ℕ
  level_of sub = (sub + 1) / 2

  -- `zip` stops at the shorter of the two.
  zip_with : (ℕ → ℕ → ℕ) → Bytes → Bytes → Bytes
  zip_with f (s ∷ seed) (k ∷ key) = f s k ∷ zip_with f seed key
  zip_with f _ _ = []

  key_by : Algorithm → Bytes → Bytes → Bytes
  key_by Algorithm.plain seed key = seed
  key_by Algorithm.add seed key = zip_with (λ s k. (s + k) % 256) seed key
  key_by Algorithm.exclusive_or seed key = zip_with (λ s k. bit_xor s k) seed key

  unfoldable pub expected_key : Bytes
  unfolding key_by zip_with
  expected_key =
      key_by config.uds.security.algorithm config.uds.security.seed config.uds.security.key

  unfoldable pub request_seed : Context → ℕ → Action Value
  unfolding level_of
  request_seed ctx sub = do
    require ctx (length ctx.request.raw == 2) nrc_incorrect_message_length
    w ← get
    let s = session_of ctx w
    let seed = config.uds.security.seed
    if leb (level_of sub) s.security_level
        then return (py_bytes (positive ctx.request (sub ∷ replicate (length seed) 0)))
        else (do
          modify (set_session ctx (record s { seed_pending = some sub }))
          return (py_bytes (positive ctx.request (sub ∷ seed))))

  -- `session.seed_pending != sub - 1`, for `sub` above 0
  abbrev pub is_pending : Option ℕ → ℕ → Bool
  is_pending none sub = false
  is_pending (some p) sub = p + 1 == sub

  -- A wrong key is counted, and the seed has to be requested again.
  wrong_key : Context → SessionState → Action Value
  wrong_key ctx s = do
    modify (
        set_session ctx
          (record s { seed_pending = none; security_attempts = s.security_attempts + 1 }))
    raise_nrc ctx (
        if leb config.uds.security.max_attempts (s.security_attempts + 1)
        then nrc_exceeded_number_of_attempts
        else nrc_invalid_key)

  right_key : Context → ℕ → SessionState → Action Value
  unfolding level_of
  right_key ctx sub s = do
    modify (
        set_session ctx
          (record s { security_level = level_of sub; seed_pending = none; security_attempts = 0 }))
    return (py_bytes (positive ctx.request (sub ∷ [])))

  unfoldable pub send_key : Context → ℕ → Action Value
  unfolding wrong_key right_key
  send_key ctx sub = do
    w ← get
    let s = session_of ctx w
    let key = drop 2 ctx.request.raw
    require ctx (is_pending s.seed_pending sub) nrc_request_sequence_error
    require ctx (length key == length config.uds.security.seed) nrc_incorrect_message_length
    if bytes_eq key expected_key then right_key ctx sub s else wrong_key ctx s

  unlock : Context → Action Value
  unfolding request_seed send_key
  unlock ctx = do
    require ctx (leb 2 (length ctx.request.raw)) nrc_incorrect_message_length
    require ctx (not (sub_of ctx == 0)) nrc_sub_function_not_supported
    if sub_of ctx % 2 == 1 then request_seed ctx (sub_of ctx) else send_key ctx (sub_of ctx)

  unfoldable pub security_access : Context → Action Value
  unfolding unlock
  security_access ctx = if config.uds.security.enabled then unlock ctx else return py_none
