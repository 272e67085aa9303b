-- ===== src/Worker/Suppression.antt =====
-- What the suppress bit of a request leaves of the worker's frames in virtual_ecu/virtecu/session.py.
use doip_playground.Base.{
  if◌then◌else◌, Bool-cases, Bytes, ℕ, ◌≡◌, refl, sym, ap, ◌∙◌, inl, inr, Bool, true, false, Option,
  none, some, List, [], ◌∷◌, ◌++◌, arith,
}
use mathlib.Core.Path.{subst}
use doip_playground.Config.{EcuConfig}
use doip_playground.Uds.{sid_ecu_reset, sid, suppress_pos_rsp, positive, UdsRequest}
use doip_playground.Effect.{
  Action, final, World, Exception, negative_response, suppress_response, abort_connection,
  cancelled, python_error, Run, returned, raised,
}
use doip_playground.Core.{reset_session, drop_session_state, reset_ecu}
use doip_playground.Hooks.{
  Buckets, bucket, Context, Value, py_bytes, observer, any_service, service,
}
use doip_playground.Dispatcher.{
  run_observers, first_result, fallback, or_else, from_core, from_any, from_service, dispatch,
}
use doip_playground.Services.{session_of, set_session, sub_of, ecu_reset}
use doip_playground.Services.Reset.{IsReset}
use doip_playground.CoreServices.{handle, dispatch_request}
use doip_playground.Resolve.{
  wait, respond, map_world, after_wait, answer, map_answer, refreshed, resolve_uds, Timing,
  finished,
}
use doip_playground.Resolve.Suppression.{StartsNegative, answer-StartsNegative}
use doip_playground.Session.{System}
use doip_playground.Worker.{finish_request, next_request, object_of, work, replies, settle}
use doip_playground.Worker.Replies.{
  reply_frames, last_answer, finish_request-out, resolved, work-turn, work-serves,
}

-- What a resolved request may end with, where `closed` says that the connection is finalized.
abbrev pub Allowed : Type 0 → Run (Option Bytes) → Type 0
Allowed closed (returned none w) = Unit {0}
Allowed closed (returned (some b) w) = StartsNegative b
Allowed closed (raised (abort_connection b) w) = closed
Allowed closed (raised _ w) = Unit {0}

module _ (config : EcuConfig) (t : Buckets) where
  resolved_answer :
      (r : UdsRequest) (ended : Option (Run Value)) (run : Run (Option Bytes))
      → map_answer config.uds r ended ≡ some run
      → (v : Run Value) × (answer config.uds r v ≡ run)
  resolved_answer r none run e = absurd (ground arith)
  resolved_answer r (some v) run e = (v, ground arith)

  answered-Allowed :
      (closed : Type 0) (r : UdsRequest) (v : Run Value) (run : Run (Option Bytes))
      → suppress_pos_rsp r ≡ true
      → config.uds.suppress_pos_rsp_bit ≡ true
      → answer config.uds r v ≡ run
      → ((b : Bytes) (w : World) → run ≡ raised (abort_connection b) w → closed)
      → Allowed closed run
  answered-Allowed closed r v (returned none w) p q e shut = tt
  answered-Allowed closed r v (returned (some b) w) p q e shut =
      answer-StartsNegative config.uds r v b w p q e
  answered-Allowed closed r v (raised (abort_connection b) w) p q e shut = shut b w refl
  answered-Allowed closed r v (raised (negative_response c d) w) p q e shut = tt
  answered-Allowed closed r v (raised suppress_response w) p q e shut = tt
  answered-Allowed closed r v (raised cancelled w) p q e shut = tt
  answered-Allowed closed r v (raised python_error w) p q e shut = tt

  aborted_closed :
      (i : ℕ) (r : UdsRequest) (version : ℕ) (b : Bytes) (w : World) (s : System)
      → ((finish_request config t i r version (raised (abort_connection b) w) s).connections
          i).finalized
        ≡ true
  unfolding finish_request
  aborted_closed i r version b w s = ground arith

  -- What a turn on a request with a suppress bit sends.
  abbrev pub Suppressed : ℕ → ℕ → Timing → System → System → UdsRequest → ℕ → Type 0
  Suppressed i fuel timing s s' r version =
      (run : Run (Option Bytes)) × (resolved config t i fuel timing s r ≡ some run)
      × (s'.out
          ≡ s.out
            ++ reply_frames config t i r version ((final run).sent ++ last_answer config t run))
      × Allowed ((s'.connections i).finalized ≡ true) run

  -- A turn of the worker that ends, for a request whose suppress bit is set and honoured, sends the
  -- frames that the handlers and the waiting gave to the responder, and behind them one last answer
  -- only where that is a negative response, or where the turn ends the connection.
  pub work-Suppressed :
      (i fuel : ℕ) (timing : Timing) (s s' : System) (r : UdsRequest) (version : ℕ)
      (rest : List (UdsRequest × ℕ))
      → (s.connections i).queue ≡ (r, version) ∷ rest
      → work config t i fuel timing s ≡ some s'
      → suppress_pos_rsp r ≡ true
      → config.uds.suppress_pos_rsp_bit ≡ true
      → Suppressed i fuel timing s s' r version
  unfolding resolve_uds
  work-Suppressed i fuel timing s s' r version rest q e p bit =
      let (left, (run, ends, out)) = work-serves config t i fuel timing s s' r version rest q e in
      let ran = work-turn config t i fuel timing s r version rest (some run) q ends in
      let ctx : Context = record {
        request = r;
        session = object_of config t (s.connections i).state;
      } in
      let next = next_request config t i rest s in
      let ended : finish_request config t i r version run next ≡ s' = ground arith in
      let (v, is_answer) =
        resolved_answer r
          (after_wait (wait config.uds fuel timing.done_at) timing r (dispatch_request config t ctx)
            (refreshed config t ctx (record (s.world) { sent = [] })))
          run ends in
      (
        run,
        ends,
        out,
        answered-Allowed ((s'.connections i).finalized ≡ true) r v run p bit is_answer (λ b w is.
            ap (λ u. (u.connections i).finalized) (sym ended)
            ∙ ap (λ x. ((finish_request config t i r version x next).connections i).finalized) is
            ∙ aborted_closed i r version b w next),
      )

  or_else-raised :
      (a next : Action Value) (x : Exception) (w u : World)
      → a w ≡ raised x u
      → or_else config.uds a next w ≡ raised x u
  or_else-raised a next x w u e = ground (arith, e)

  or_else-bytes :
      (a next : Action Value) (b : Bytes) (w u : World)
      → a w ≡ returned (py_bytes b) u
      → or_else config.uds a next w ≡ returned (py_bytes b) u
  or_else-bytes a next b w u e = ground (arith, e)

  -- No hook of a plugin stands before the core services.
  pub record Unclaimed : Type 0 where
    pub unobserved : bucket observer t ≡ []
    pub unserved : bucket (service sid_ecu_reset) t ≡ []
    pub uncaught : bucket any_service t ≡ []

  -- The context that a turn resolves a request in.
  abbrev pub context_of : ℕ → System → UdsRequest → Context
  context_of i s r = record { request = r; session = object_of config t (s.connections i).state }

  -- The same request behind the ladder and the wait, where no plugin claims it.
  module _ (ctx : Context) (reset : IsReset config ctx) where
    -- The world behind a reset, by its ending.
    abbrev reset_world : World → World
    reset_world w = reset_ecu config config.uds.reset_clears_writes w

    reset-drops :
        (w : World)
        → config.uds.reset_drops_connection ≡ true
        → ecu_reset config ctx w
          ≡ raised
              (abort_connection (positive ctx.request (sub_of ctx ∷ [])))
              (drop_session_state config ctx.request.source_addr (reset_world w))
    unfolding ecu_reset
    reset-drops w drops =
        let two = reset.two in
        let supported = reset.supported in rw (two, supported, drops, ecu_reset) refl

    reset-keeps :
        (w : World)
        → config.uds.reset_drops_connection ≡ false
        → ecu_reset config ctx w
          ≡ returned (py_bytes (positive ctx.request (sub_of ctx ∷ []))) (
              set_session ctx
                (reset_session config (session_of ctx (reset_world w)))
                (reset_world w))
    unfolding ecu_reset
    reset-keeps w keeps =
        let two = reset.two in
        let supported = reset.supported in rw (two, supported, keeps, ecu_reset) refl

    ladder_reset :
        (w : World)
        → sid ctx.request ≡ some sid_ecu_reset
        → Unclaimed
        → dispatch_request config t ctx w
          ≡ or_else config.uds (ecu_reset config ctx) (fallback config.uds ctx.request) w
    unfolding dispatch_request dispatch from_service from_any from_core first_result run_observers
        handle
    ladder_reset w is_reset free =
        let quiet = free.unobserved in
        let unserved = free.unserved in
        let uncaught = free.uncaught in
        rw (quiet) (rw (is_reset, unserved) (rw (uncaught) (rw (from_core, handle, is_reset) refl)))

    -- What the ladder leaves to the suppression rule.
    reset_answer-drops :
        (w : World)
        → sid ctx.request ≡ some sid_ecu_reset
        → Unclaimed
        → config.uds.reset_drops_connection ≡ true
        → answer config.uds ctx.request (map_world (respond []) (dispatch_request config t ctx w))
          ≡ raised
              (abort_connection (positive ctx.request (sub_of ctx ∷ [])))
              (respond [] (drop_session_state config ctx.request.source_addr (reset_world w)))
    unfolding answer
    reset_answer-drops w is_reset free drops =
        rw
          (
            ladder_reset w is_reset free,
            or_else-raised (ecu_reset config ctx) (fallback config.uds ctx.request)
                (abort_connection (positive ctx.request (sub_of ctx ∷ []))) w
                (drop_session_state config ctx.request.source_addr (reset_world w))
                (reset-drops w drops),
          )
          refl

    reset_answer-keeps :
        (w : World)
        → sid ctx.request ≡ some sid_ecu_reset
        → Unclaimed
        → suppress_pos_rsp ctx.request ≡ true
        → config.uds.suppress_pos_rsp_bit ≡ true
        → config.uds.reset_drops_connection ≡ false
        → answer config.uds ctx.request (map_world (respond []) (dispatch_request config t ctx w))
          ≡ returned none (
              respond [] (
                set_session ctx
                  (reset_session config (session_of ctx (reset_world w)))
                  (reset_world w)))
    unfolding answer
    reset_answer-keeps w is_reset free p bit keeps =
        rw
          (
            ladder_reset w is_reset free,
            or_else-bytes (ecu_reset config ctx) (fallback config.uds ctx.request)
                (positive ctx.request (sub_of ctx ∷ [])) w
                (set_session ctx (reset_session config (session_of ctx (reset_world w)))
                  (reset_world w))
                (reset-keeps w keeps),
          )
          (rw (p, bit) (rw is_reset refl))

    dropped_sent :
        (sa : ℕ) (w : World)
        → w.sent ≡ []
        → (respond [] (drop_session_state config sa (reset_world w))).sent ≡ []
    unfolding drop_session_state reset_ecu
    dropped_sent sa w e = ground (arith, e)

    kept_sent :
        (w : World)
        → w.sent ≡ []
        → (respond [] (
            set_session ctx
              (reset_session config (session_of ctx (reset_world w)))
              (reset_world w))).sent
          ≡ []
    unfolding reset_ecu
    kept_sent w e = ground (arith, e)

  settle_silent :
      (i : ℕ) (r : UdsRequest) (version : ℕ) (w : World) (s : System)
      → w.sent ≡ []
      → settle config t i r version w s ≡ record s { world = record w { sent = [] } }
  unfolding settle replies
  settle_silent i r version w s e = rw e refl

  resolved_prompt :
      (i fuel : ℕ) (timing : Timing) (s : System) (r : UdsRequest)
      → wait config.uds fuel timing.done_at ≡ finished 0
      → resolved config t i fuel timing s r
        ≡ some (
            answer config.uds r (
              map_world (respond []) (
                dispatch_request config t
                  (context_of i s r)
                  (refreshed config t (context_of i s r) (record (s.world) { sent = [] })))))
  unfolding resolve_uds after_wait
  resolved_prompt i fuel timing s r prompt = rw (resolve_uds, prompt, after_wait) refl

  -- How a turn leaves a connection and what is sent, by whether a reset drops the connection.
  abbrev pub ResetLeft : Bool → ℕ → UdsRequest → ℕ → Bytes → System → System → Type 0
  ResetLeft drops i r version b s s' =
      (s'.out ≡ s.out ++ reply_frames config t i r version (if drops then b ∷ [] else []))
      × ((s'.connections i).finalized ≡ (if drops then true else (s.connections i).finalized))

  left_dropping :
      (i : ℕ) (r : UdsRequest) (version : ℕ) (b : Bytes) (u : World) (s : System)
      (rest : List (UdsRequest × ℕ))
      → u.sent ≡ []
      → ResetLeft true i r version b s (
          finish_request config t i r version
            (raised (abort_connection b) u)
            (next_request config t i rest s))
  left_dropping i r version b u s rest silent =
      let next : System = next_request config t i rest s in
      (
        finish_request-out config t i r version (raised (abort_connection b) u) next
            ∙ ap (λ bs. s.out ++ reply_frames config t i r version (bs ++ b ∷ [])) silent,
        aborted_closed i r version b u next,
      )

  left_keeping :
      (i : ℕ) (r : UdsRequest) (version : ℕ) (b : Bytes) (u : World) (s : System)
      (rest : List (UdsRequest × ℕ))
      → u.sent ≡ []
      → ResetLeft false i r version b s
          (finish_request config t i r version (returned none u) (next_request config t i rest s))
  unfolding finish_request
  left_keeping i r version b u s rest silent =
      let next : System = next_request config t i rest s in
      (
        finish_request-out config t i r version (returned none u) next
            ∙ ap (λ bs. s.out ++ reply_frames config t i r version (bs ++ [])) silent,
        ap (λ v. (v.connections i).finalized) (settle_silent i r version u next silent)
            ∙ ground arith,
      )

  -- A turn of the worker on an ECUReset request that is supported, whose suppress bit is set and
  -- honoured, where no plugin's hook stands before the core services and the handler ends within
  -- P2: it ends, and where a reset drops the connection it sends the positive response all the
  -- same and ends the connection; where it does not, nothing is sent and the connection stays.
  pub suppressed_reset :
      (i fuel : ℕ) (timing : Timing) (s : System) (r : UdsRequest) (version : ℕ)
      (rest : List (UdsRequest × ℕ))
      → (s.connections i).queue ≡ (r, version) ∷ rest
      → IsReset config (context_of i s r)
      → sid r ≡ some sid_ecu_reset
      → suppress_pos_rsp r ≡ true
      → config.uds.suppress_pos_rsp_bit ≡ true
      → Unclaimed
      → wait config.uds fuel timing.done_at ≡ finished 0
      → (s' : System) × (work config t i fuel timing s ≡ some s')
        × ResetLeft config.uds.reset_drops_connection i r version
            (positive r (sub_of (context_of i s r) ∷ []))
            s
            s'
  suppressed_reset i fuel timing s r version rest q reset is_reset p bit free prompt =
      let ctx : Context = context_of i s r in
      let w : World = refreshed config t ctx (record (s.world) { sent = [] }) in
      let next : System = next_request config t i rest s in
      let served = resolved_prompt i fuel timing s r prompt in
      elim (Bool-cases config.uds.reset_drops_connection) [
        | inl drops ↦
            let u : World =
              respond [] (drop_session_state config r.source_addr (reset_world ctx reset w)) in
            let ended = served ∙ ap some (reset_answer-drops ctx reset w is_reset free drops) in
            let run : Run (Option Bytes) =
              raised (abort_connection (positive r (sub_of ctx ∷ []))) u in
            (
              finish_request config t i r version run next,
              work-turn config t i fuel timing s r version rest (some run) q ended,
              subst
                  (λ b.
                    ResetLeft b i r version (positive r (sub_of ctx ∷ [])) s
                      (finish_request config t i r version run next))
                  (sym drops)
                  (left_dropping i r version (positive r (sub_of ctx ∷ [])) u s rest
                    (dropped_sent ctx reset r.source_addr w refl)),
            )
        | inr keeps ↦
            let u : World = respond [] (
              set_session ctx (reset_session config (session_of ctx (reset_world ctx reset w)))
                (reset_world ctx reset w)) in
            let ended =
              served ∙ ap some (reset_answer-keeps ctx reset w is_reset free p bit keeps) in
            let run : Run (Option Bytes) = returned none u in
            (
              finish_request config t i r version run next,
              work-turn config t i fuel timing s r version rest (some run) q ended,
              subst
                  (λ b.
                    ResetLeft b i r version (positive r (sub_of ctx ∷ [])) s
                      (finish_request config t i r version run next))
                  (sym keeps)
                  (left_keeping i r version (positive r (sub_of ctx ∷ [])) u s rest
                    (kept_sent ctx reset w refl)),
            )
      ]
