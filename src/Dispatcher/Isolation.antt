-- ===== src/Dispatcher/Isolation.antt =====
-- `_call` of virtual_ecu/virtecu/dispatcher.py: what a failing handler can do to the request.
use doip_playground.Base.{if◌then◌else◌, Bytes, ℕ, Bool, true, false, none, some, List, [], ◌∷◌}
use doip_playground.Config.{UdsConfig, Policy, ErrorPolicy}
use doip_playground.Uds.{nrc_service_not_supported, sid, UdsRequest}
use doip_playground.Effect.{
  Action, ◌>>=◌, return, World, Exception, negative_response, suppress_response, abort_connection,
  cancelled, python_error, Run, returned, raised,
}
use doip_playground.Hooks.{
  is_none, Buckets, bucket, Context, Hook, Value, py_none, no_response, py_bytes, py_bool, py_other,
  Arguments, on_request, on_write, observer, any_service, write_did,
}
use doip_playground.Dispatcher.{
  isolate, call_hook, run_observers, first_result, fallback, service_hooks, or_else, from_core,
  from_any, from_service, dispatch, bytes_or, first_bytes, verdict, resolve_did_write, caught,
  fallback_by, first_verdict,
}

-- The exceptions by which a handler speaks to the layers above: a negative response that carries
-- its SID, a suppressed response, a cancellation.
abbrev pub IsControl : Exception → Type 0
IsControl (negative_response code none) = ⊥
IsControl (negative_response code (some s)) = Unit {0}
IsControl suppress_response = Unit {0}
IsControl cancelled = Unit {0}
IsControl (abort_connection b) = ⊥
IsControl python_error = ⊥

-- Every exception that a run ends with is a `P`.
abbrev pub RaisesOnly : (Exception → Type 0) → {A : Type 0} → Run A → Type 0
RaisesOnly P (returned a w) = Unit {0}
RaisesOnly P (raised e w) = P e

module _ (P : Exception → Type 0) where
  pub RaisesOnly-bind :
      {A B : Type 0} (m : Action A) (f : A → Action B) (w : World)
      → RaisesOnly P (m w)
      → ((a : A) (v : World) → RaisesOnly P (f a v))
      → RaisesOnly P ((m >>= f) w)
  RaisesOnly-bind m f w h k = go (m w) h
    where
      go :
          (r : Run _)
          → RaisesOnly P r
          → RaisesOnly P (elim r [ returned a v ↦ f a v | raised e v ↦ raised e v ])
      go (returned a v) h = k a v
      go (raised e v) h = h

  pub RaisesOnly-if :
      {A : Type 0} (b : Bool) (m n : Action A) (w : World)
      → RaisesOnly P (m w)
      → RaisesOnly P (n w)
      → RaisesOnly P ((if b then m else n) w)
  RaisesOnly-if true m n w h k = h
  RaisesOnly-if false m n w h k = k

module _ (uds : UdsConfig) (P : Exception → Type 0)
    (control : (e : Exception) → IsControl e → P e) where
  isolate-RaisesOnly :
      (p : ErrorPolicy) (is_observer : Bool) (r : UdsRequest) (w : World)
      → RaisesOnly P (isolate uds p is_observer r w)
  isolate-RaisesOnly p true r w = tt
  isolate-RaisesOnly ErrorPolicy.fallthrough false r w = tt
  isolate-RaisesOnly ErrorPolicy.silent false r w = control suppress_response tt
  isolate-RaisesOnly ErrorPolicy.nrc false r w = control _ tt

  caught-RaisesOnly :
      (e : Exception) (is_observer : Bool) (r : UdsRequest) (w : World)
      → RaisesOnly P (caught uds e is_observer r w)
  unfolding caught
  caught-RaisesOnly (negative_response code none) o r w = control _ tt
  caught-RaisesOnly (negative_response code (some s)) o r w =
      control (negative_response code (some s)) tt
  caught-RaisesOnly suppress_response o r w = control suppress_response tt
  caught-RaisesOnly cancelled o r w = control cancelled tt
  caught-RaisesOnly (abort_connection b) o r w = isolate-RaisesOnly uds.on_handler_error o r w
  caught-RaisesOnly python_error o r w = isolate-RaisesOnly uds.on_handler_error o r w

  pub call_hook-RaisesOnly :
      (h : Hook) (ctx : Context) (args : Arguments) (o : Bool) (w : World)
      → RaisesOnly P (call_hook uds h ctx args o w)
  unfolding call_hook
  call_hook-RaisesOnly h ctx args o w = go (h.method args ctx w)
    where
      go :
          (r : Run Value)
          → RaisesOnly P (elim r [
            | returned v w' ↦ returned v w'
            | raised e w' ↦ caught uds e o ctx.request w'
          ])
      go (returned v w') = tt
      go (raised e w') = caught-RaisesOnly e o ctx.request w'

  run_observers-RaisesOnly :
      (hs : List Hook) (ctx : Context) (w : World) → RaisesOnly P (run_observers uds hs ctx w)
  unfolding run_observers
  run_observers-RaisesOnly [] ctx w = tt
  run_observers-RaisesOnly (h ∷ hs) ctx w =
      RaisesOnly-bind P (call_hook uds h ctx on_request true) (λ _. run_observers uds hs ctx) w
        (call_hook-RaisesOnly h ctx on_request true w) (λ _ v. run_observers-RaisesOnly hs ctx v)

  pub first_result-RaisesOnly :
      (hs : List Hook) (ctx : Context) (args : Arguments) (w : World)
      → RaisesOnly P (first_result uds hs ctx args w)
  unfolding first_result
  first_result-RaisesOnly [] ctx args w = tt
  first_result-RaisesOnly (h ∷ hs) ctx args w =
      RaisesOnly-bind P (call_hook uds h ctx args false)
        (λ v. if is_none v then first_result uds hs ctx args else return v) w
        (call_hook-RaisesOnly h ctx args false w)
        (λ v u.
          RaisesOnly-if P (is_none v) (first_result uds hs ctx args) (return v) u
            (first_result-RaisesOnly hs ctx args u) tt)

  or_else-RaisesOnly :
      (m n : Action Value) (w : World)
      → RaisesOnly P (m w)
      → ((v : World) → RaisesOnly P (n v))
      → RaisesOnly P (or_else uds m n w)
  or_else-RaisesOnly m n w h k =
      RaisesOnly-bind P m (λ v. if is_none v then n else return v) w h
        (λ v u. RaisesOnly-if P (is_none v) n (return v) u (k u) tt)

  fallback-RaisesOnly : (r : UdsRequest) (w : World) → RaisesOnly P (fallback uds r w)
  unfolding fallback
  fallback-RaisesOnly r w = go uds.unknown_service
    where
      go : (p : Policy) → RaisesOnly P (fallback_by uds p r w)
      go Policy.nrc = control (negative_response nrc_service_not_supported (some (sid r))) tt
      go Policy.echo = tt
      go Policy.silent = tt

  module _ (t : Buckets) (core : Context → Action Value) (ctx : Context)
      (core_raises : (v : World) → RaisesOnly P (core ctx v)) where
    from_core-RaisesOnly : (w : World) → RaisesOnly P (from_core uds core ctx w)
    unfolding from_core
    from_core-RaisesOnly w =
        or_else-RaisesOnly (core ctx) (fallback uds ctx.request) w (core_raises w)
          (fallback-RaisesOnly ctx.request)

    from_any-RaisesOnly : (w : World) → RaisesOnly P (from_any uds t core ctx w)
    unfolding from_any
    from_any-RaisesOnly w =
        or_else-RaisesOnly (first_result uds (bucket any_service t) ctx on_request)
          (from_core uds core ctx) w
          (first_result-RaisesOnly (bucket any_service t) ctx on_request w) from_core-RaisesOnly

    from_service-RaisesOnly : (w : World) → RaisesOnly P (from_service uds t core ctx w)
    unfolding from_service
    from_service-RaisesOnly w =
        or_else-RaisesOnly (first_result uds (service_hooks uds t (sid ctx.request)) ctx on_request)
          (from_any uds t core ctx) w
          (first_result-RaisesOnly (service_hooks uds t (sid ctx.request)) ctx on_request w)
          from_any-RaisesOnly

    -- Whatever the plugins' methods do, no exception of theirs leaves the dispatcher but a
    -- negative response with a SID, a suppression or a cancellation: what it raises is of a class
    -- `P` that holds these three and what the core services raise.
    pub dispatch-RaisesOnly : (w : World) → RaisesOnly P (dispatch uds t core ctx w)
    unfolding dispatch
    dispatch-RaisesOnly w =
        RaisesOnly-bind P (run_observers uds (bucket observer t) ctx)
          (λ _. from_service uds t core ctx) w (run_observers-RaisesOnly (bucket observer t) ctx w)
          (λ _ v. from_service-RaisesOnly v)

  -- The hooks that the core services consult are isolated alike.
  pub first_bytes-RaisesOnly :
      (hs : List Hook) (ctx : Context) (args : Arguments) (w : World)
      → RaisesOnly P (first_bytes uds hs ctx args w)
  unfolding first_bytes
  first_bytes-RaisesOnly [] ctx args w = tt
  first_bytes-RaisesOnly (h ∷ hs) ctx args w =
      RaisesOnly-bind P (call_hook uds h ctx args false)
        (λ v. bytes_or uds v (first_bytes uds hs ctx args)) w
        (call_hook-RaisesOnly h ctx args false w)
        (λ v u. go v u (first_bytes-RaisesOnly hs ctx args u))
    where
      go :
          (v : Value) (u : World)
          → RaisesOnly P (first_bytes uds hs ctx args u)
          → RaisesOnly P (bytes_or uds v (first_bytes uds hs ctx args) u)
      go py_none u k = k
      go no_response u k = control suppress_response tt
      go (py_bytes b) u k = tt
      go (py_bool b) u k = k
      go (py_other b) u k = k

  first_verdict-RaisesOnly :
      (hs : List Hook) (ctx : Context) (args : Arguments) (w : World)
      → RaisesOnly P (first_verdict uds hs ctx args w)
  unfolding first_verdict
  first_verdict-RaisesOnly [] ctx args w = tt
  first_verdict-RaisesOnly (h ∷ hs) ctx args w =
      RaisesOnly-bind P (call_hook uds h ctx args false)
        (λ v. if is_none v then first_verdict uds hs ctx args else verdict uds v) w
        (call_hook-RaisesOnly h ctx args false w)
        (λ v u.
          RaisesOnly-if P (is_none v) (first_verdict uds hs ctx args) (verdict uds v) u
            (first_verdict-RaisesOnly hs ctx args u) (go v u))
    where
      go : (v : Value) (u : World) → RaisesOnly P (verdict uds v u)
      go py_none u = tt
      go no_response u = control suppress_response tt
      go (py_bytes b) u = tt
      go (py_bool b) u = tt
      go (py_other b) u = tt

  pub resolve_did_write-RaisesOnly :
      (t : Buckets) (did : ℕ) (value : Bytes) (ctx : Context) (w : World)
      → RaisesOnly P (resolve_did_write uds t did value ctx w)
  unfolding resolve_did_write
  resolve_did_write-RaisesOnly t did value ctx w =
      first_verdict-RaisesOnly (bucket (write_did did) t) ctx (on_write value) w
