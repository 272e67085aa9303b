-- ===== src/Dispatcher.antt =====
-- virtual_ecu/virtecu/dispatcher.py: the precedence ladder, and handler isolation.
pub mod Isolation
pub mod Ladder
use doip_playground.Base.{
  if◌then◌else◌, Bytes, ℕ, Bool, true, false, Option, none, some, List, [], ◌∷◌,
}
use doip_playground.Config.{UdsConfig, Policy, ErrorPolicy}
use doip_playground.Uds.{
  nrc_service_not_supported, nrc_conditions_not_correct, Sid, sid, uds_data, positive, UdsRequest,
}
use doip_playground.Hooks.{
  is_none, truthy, Buckets, bucket, Context, Hook, Value, py_none, no_response, py_bytes, Arguments,
  on_request, on_write, on_routine, observer, any_service, service, read_did, write_did, routine,
}
use doip_playground.Effect.{
  ◌>>◌, ◌>>=◌, Action, return, throw, Exception, negative_response, suppress_response,
  abort_connection, cancelled, python_error, returned, raised,
}

module _ (uds : UdsConfig) where
  -- `on_handler_error`
  abbrev pub isolate : ErrorPolicy → Bool → UdsRequest → Action Value
  isolate policy true r = return py_none
  isolate ErrorPolicy.fallthrough false r = return py_none
  isolate ErrorPolicy.silent false r = throw suppress_response
  isolate ErrorPolicy.nrc false r =
      throw (negative_response nrc_conditions_not_correct (some (sid r)))

  -- The `except` clauses of `_call`.
  caught : Exception → Bool → UdsRequest → Action Value
  caught (negative_response nrc none) is_observer r = throw (negative_response nrc (some (sid r)))
  caught (negative_response nrc (some s)) is_observer r = throw (negative_response nrc (some s))
  caught suppress_response is_observer r = throw suppress_response
  caught cancelled is_observer r = throw cancelled
  caught (abort_connection b) is_observer r = isolate uds.on_handler_error is_observer r
  caught python_error is_observer r = isolate uds.on_handler_error is_observer r

  unfoldable pub call_hook : Hook → Context → Arguments → Bool → Action Value
  unfolding caught
  call_hook h ctx args is_observer w = elim (h.method args ctx w) [
    | returned v w' ↦ returned v w'
    | raised e w' ↦ caught e is_observer ctx.request w'
  ]

  unfoldable pub run_observers : List Hook → Context → Action (Unit {0})
  run_observers [] ctx = return tt
  run_observers (h ∷ hs) ctx = do _ ← call_hook h ctx on_request true; run_observers hs ctx

  -- The first result that is not `None`.
  unfoldable pub first_result : List Hook → Context → Arguments → Action Value
  first_result [] ctx args = return py_none
  first_result (h ∷ hs) ctx args = do
    v ← call_hook h ctx args false
    if is_none v then first_result hs ctx args else return v

  fallback_by : Policy → UdsRequest → Action Value
  fallback_by Policy.silent r = return no_response
  fallback_by Policy.echo r = return (py_bytes (positive r (uds_data r)))
  fallback_by Policy.nrc r = throw (negative_response nrc_service_not_supported (some (sid r)))

  -- `_fallback`
  unfoldable pub fallback : UdsRequest → Action Value
  unfolding fallback_by
  fallback r = fallback_by uds.unknown_service r

  -- `self._service.get(request.sid, ())`
  abbrev pub service_hooks : Buckets → Sid → List Hook
  service_hooks t none = []
  service_hooks t (some s) = bucket (service s) t

  -- What follows a step of the ladder that returned `None`.
  abbrev pub or_else : Action Value → Action Value → Action Value
  or_else step next = do v ← step; if is_none v then next else return v

  -- The ladder of `dispatch` from the core services on, from the catch-alls on, and whole.
  unfoldable pub from_core : (Context → Action Value) → Context → Action Value
  from_core core ctx = or_else (core ctx) (fallback ctx.request)

  unfoldable pub from_any : Buckets → (Context → Action Value) → Context → Action Value
  from_any t core ctx =
      or_else (first_result (bucket any_service t) ctx on_request) (from_core core ctx)

  unfoldable pub from_service : Buckets → (Context → Action Value) → Context → Action Value
  from_service t core ctx =
      or_else (first_result (service_hooks t (sid ctx.request)) ctx on_request)
        (from_any t core ctx)

  unfoldable pub dispatch : Buckets → (Context → Action Value) → Context → Action Value
  dispatch t core ctx = do run_observers (bucket observer t) ctx; from_service t core ctx

  -- `resolve_did_read` and `resolve_routine` on one list of hooks: the first that returns bytes;
  -- a result of another type is skipped.
  abbrev pub bytes_or : Value → Action (Option Bytes) → Action (Option Bytes)
  bytes_or no_response next = throw suppress_response
  bytes_or (py_bytes b) next = return (some b)
  bytes_or _ next = next

  unfoldable pub first_bytes : List Hook → Context → Arguments → Action (Option Bytes)
  first_bytes [] ctx args = return none
  first_bytes (h ∷ hs) ctx args = do
    v ← call_hook h ctx args false
    bytes_or v (first_bytes hs ctx args)

  unfoldable pub resolve_did_read : Buckets → ℕ → Context → Action (Option Bytes)
  resolve_did_read t did ctx = first_bytes (bucket (read_did did) t) ctx on_request

  abbrev pub verdict : Value → Action (Option Bool)
  verdict no_response = throw suppress_response
  verdict v = return (some (truthy v))

  first_verdict : List Hook → Context → Arguments → Action (Option Bool)
  first_verdict [] ctx args = return none
  first_verdict (h ∷ hs) ctx args = do
    v ← call_hook h ctx args false
    if is_none v then first_verdict hs ctx args else verdict v

  unfoldable pub resolve_did_write : Buckets → ℕ → Bytes → Context → Action (Option Bool)
  unfolding first_verdict
  resolve_did_write t did value ctx = first_verdict (bucket (write_did did) t) ctx (on_write value)

  -- An exact `(rid, control)` claim is tried before `(rid, None)`.
  unfoldable pub resolve_routine : Buckets → ℕ → ℕ → Bytes → Context → Action (Option Bytes)
  resolve_routine t rid control body ctx = do
    found ← first_bytes (bucket (routine rid (some control)) t) ctx (on_routine control body)
    elim found [
      | some record_bytes ↦ return (some record_bytes)
      | none ↦ first_bytes (bucket (routine rid none) t) ctx (on_routine control body)
    ]
