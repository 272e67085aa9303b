-- ===== src/Dispatcher/Ladder.antt =====
-- The precedence ladder of `dispatch` in virtual_ecu/virtecu/dispatcher.py, as one flat list.
use mathlib.Core.Path.{fun_ext}
use doip_playground.Base.{
  Bool-cases, ℕ, ◌≡◌, refl, sym, ap, ◌∙◌, ◌↔◌, inl, inr, true, false, none, some, List, [], ◌∷◌,
  ◌++◌, map, arith,
}
use doip_playground.Config.{UdsConfig, Policy}
use doip_playground.Uds.{sid, UdsRequest}
use doip_playground.Effect.{
  Action, return, >>=-returned, Run-cases, World, negative_response, returned, raised,
}
use doip_playground.Hooks.{
  is_none, Buckets, bucket, Context, Hook, Value, py_none, on_request, observer, any_service,
}
use doip_playground.Dispatcher.{
  call_hook, run_observers, first_result, fallback, service_hooks, or_else, from_core, from_any,
  from_service, dispatch, fallback_by,
}

module _ (uds : UdsConfig) where
  abbrev first_of : List (Action Value) → Action Value
  first_of [] = return py_none
  first_of (m ∷ ms) = or_else uds m (first_of ms)

  abbrev calls : List Hook → Context → List (Action Value)
  calls hs ctx = map (λ h. call_hook uds h ctx on_request false) hs

  -- Everyone who may answer a request, in order: the hooks of its SID, the catch-alls, the core
  -- service, the fallback policy.
  abbrev pub candidates : Buckets → (Context → Action Value) → Context → List (Action Value)
  candidates t core ctx =
      calls (service_hooks uds t (sid ctx.request)) ctx
      ++ (calls (bucket any_service t) ctx ++ core ctx ∷ fallback uds ctx.request ∷ [])

  -- From world `w`, the first candidate whose result is not `None` ends with `v` in `w'`; the ones
  -- before it ran in turn, each from the world that the last left, and returned `None`.
  pub data Wins (v : Value) (w' : World) : List (Action Value) → World → Type 0 where
    here :
        {m : Action Value} {ms : List (Action Value)} {w : World}
        → m w ≡ returned v w'
        → is_none v ≡ false
        → Wins v w' (m ∷ ms) w
    later :
        {m : Action Value} {ms : List (Action Value)} {w u : World}
        → m w ≡ returned py_none u
        → Wins v w' ms u
        → Wins v w' (m ∷ ms) w

  first_result-first_of :
      (hs : List Hook) (ctx : Context)
      → first_result uds hs ctx on_request ≡ first_of (calls hs ctx)
  unfolding first_result
  first_result-first_of [] ctx = refl
  first_result-first_of (h ∷ hs) ctx =
      ap (or_else uds (call_hook uds h ctx on_request false)) (first_result-first_of hs ctx)

  or_else_assoc :
      (m n k : Action Value) → or_else uds (or_else uds m n) k ≡ or_else uds m (or_else uds n k)
  or_else_assoc m n k = fun_ext (λ w. elim (Run-cases (m w)) [
    | inl (v, u, p) ↦ elim (Bool-cases (is_none v)) [
      | inl nothing ↦ ground arith
      | inr something ↦ ground arith
    ]
    | inr (e, u, p) ↦ ground arith
  ])

  first_of-append :
      (ms ns : List (Action Value)) → first_of (ms ++ ns) ≡ or_else uds (first_of ms) (first_of ns)
  first_of-append [] ns = refl
  first_of-append (m ∷ ms) ns =
      ap (or_else uds m) (first_of-append ms ns) ∙ sym (or_else_assoc m (first_of ms) (first_of ns))

  fallback-or_else :
      (r : UdsRequest) → or_else uds (fallback uds r) (return py_none) ≡ fallback uds r
  unfolding fallback
  fallback-or_else r = fun_ext (λ w. go uds.unknown_service w)
    where
      go :
          (p : Policy) (w : World)
          → or_else uds (fallback_by uds p r) (return py_none) w ≡ fallback_by uds p r w
      go Policy.nrc w = refl
      go Policy.echo w = refl
      go Policy.silent w = refl

  module _ (t : Buckets) (core : Context → Action Value) (ctx : Context) where
    from_service-candidates : from_service uds t core ctx ≡ first_of (candidates t core ctx)
    unfolding from_service from_any from_core
    from_service-candidates = rw (
      first_of-append (calls (service_hooks uds t (sid ctx.request)) ctx),
      first_of-append (calls (bucket any_service t) ctx),
      first_result-first_of (service_hooks uds t (sid ctx.request)) ctx,
      first_result-first_of (bucket any_service t) ctx,
      fallback-or_else ctx.request,
    )

  is_none-eq : (v : Value) → is_none v ≡ true → v ≡ py_none
  is_none-eq v e = ground arith

  first_of-Wins :
      (ms : List (Action Value)) (v : Value) (w w' : World)
      → is_none v ≡ false
      → first_of ms w ≡ returned v w'
      → Wins v w' ms w
  first_of-Wins [] v w w' some_v e = absurd (ground arith)
  first_of-Wins (m ∷ ms) v w w' some_v e = elim (Run-cases (m w)) [
    | inr (x, u, p) ↦ absurd (ground arith)
    | inl (x, u, p) ↦ elim (Bool-cases (is_none x)) [
      | inl nothing ↦ later (ground arith) (first_of-Wins ms v u w' some_v (ground arith))
      | inr something ↦ here (ground arith) some_v
    ]
  ]

  Wins-first_of :
      {v : Value} {w' : World} {ms : List (Action Value)} {w : World}
      → Wins v w' ms w
      → first_of ms w ≡ returned v w'
  Wins-first_of (here e some_v) = ground arith
  Wins-first_of (later e rest) = ground (arith, Wins-first_of rest)

  fallback-not_none :
      (r : UdsRequest) (w w' : World) (v : Value)
      → fallback uds r w ≡ returned v w'
      → is_none v ≡ false
  unfolding fallback
  fallback-not_none r w w' v e = ground arith

  or_else-not_none :
      (m n : Action Value) (w w' : World) (v : Value)
      → ((u : World) → n u ≡ returned v w' → is_none v ≡ false)
      → or_else uds m n w ≡ returned v w'
      → is_none v ≡ false
  or_else-not_none m n w w' v last e = elim (Run-cases (m w)) [
    | inr (x, u, p) ↦ absurd (ground arith)
    | inl (x, u, p) ↦ elim (Bool-cases (is_none x)) [
      | inl nothing ↦ last u (ground arith)
      | inr something ↦ ground arith
    ]
  ]

  module _ (t : Buckets) (core : Context → Action Value) (ctx : Context) where
    -- The dispatcher never returns `None`.
    pub dispatch-not_none :
        (w w' : World) (v : Value) → dispatch uds t core ctx w ≡ returned v w' → is_none v ≡ false
    unfolding dispatch from_service from_any from_core
    dispatch-not_none w w' v e =
        let (_, u, _, rest) =
          >>=-returned (run_observers uds (bucket observer t) ctx)
            (λ _. from_service uds t core ctx) w w' v e in
        or_else-not_none (first_result uds (service_hooks uds t (sid ctx.request)) ctx on_request)
          (from_any uds t core ctx) u w' v
          (λ u1.
            or_else-not_none (first_result uds (bucket any_service t) ctx on_request)
              (from_core uds core ctx) u1 w' v
              (λ u2.
                or_else-not_none (core ctx) (fallback uds ctx.request) u2 w' v
                  (λ u3. fallback-not_none ctx.request u3 w' v)))
          rest

    -- A request is answered with `v` exactly when all observers ran, without stopping it, and then
    -- the first candidate that did not return `None` returned `v`.
    pub dispatch_iff_Wins :
        (w w' : World) (v : Value)
        → (dispatch uds t core ctx w ≡ returned v w') ↔ (
            (u : World) × (run_observers uds (bucket observer t) ctx w ≡ returned tt u)
            × Wins v w' (candidates t core ctx) u)
    unfolding dispatch
    dispatch_iff_Wins w w' v = (
      λ e.
          let (o, u, ran, rest) =
            >>=-returned (run_observers uds (bucket observer t) ctx)
              (λ _. from_service uds t core ctx) w w' v e in
          (
            u,
            ran,
            first_of-Wins (candidates t core ctx) v u w' (dispatch-not_none w w' v e)
                (rw (← from_service-candidates t core ctx) rest),
          ),
      λ (u, ran, wins). ground (arith, Wins-first_of wins, from_service-candidates t core ctx),
    )

  -- If the first observer raises a negative response without a SID, that response, with the
  -- request's SID, is the outcome of the request: no handler runs.
  pub observer_stops_request :
      (t : Buckets) (core : Context → Action Value) (ctx : Context) (w w' : World) (h : Hook)
      (hs : List Hook) (code : ℕ)
      → bucket observer t ≡ h ∷ hs
      → h.method on_request ctx w ≡ raised (negative_response code none) w'
      → dispatch uds t core ctx w ≡ raised (negative_response code (some (sid ctx.request))) w'
  unfolding dispatch run_observers call_hook
  observer_stops_request t core ctx w w' h hs code e p = ground arith
