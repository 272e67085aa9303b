-- ===== src/Worker/Replies.antt =====
-- What the worker of virtual_ecu/virtecu/session.py sends: the replies of a request, where and in
-- which version, and when it sends none.
use doip_playground.Base.{
  Option-cases, Bytes, ℕ, ◌≡◌, refl, sym, ap, ◌∙◌, inl, inr, Option, none, some, List, [], ◌∷◌,
  ◌++◌, map, append_assoc, append-nil, arith,
}
use doip_playground.Config.{EcuConfig}
use doip_playground.Doip.{pt_diagnostic_message, Frame}
use doip_playground.Uds.{UdsRequest}
use doip_playground.Effect.{
  final, World, negative_response, suppress_response, abort_connection, cancelled, python_error,
  Run, returned, raised,
}
use doip_playground.Hooks.{Buckets}
use doip_playground.Resolve.{resolve_uds, Timing}
use doip_playground.Session.{bump_general, send, System}
use doip_playground.Pump.{response_body}
use doip_playground.Worker.{
  reply, abort, finish_request, next_request, object_of, work, replies, settle,
}

module _ (config : EcuConfig) (t : Buckets) where
  -- The frame of one UDS message to the tester of a request.
  abbrev pub reply_frame : UdsRequest → ℕ → Bytes → Frame
  reply_frame r version b = record {
    payload_type = pt_diagnostic_message;
    body = response_body config r.source_addr b;
    version = version;
  }

  abbrev pub reply_frames : ℕ → UdsRequest → ℕ → List Bytes → List (ℕ × Frame)
  reply_frames i r version bs = map (λ b. (i, reply_frame r version b)) bs

  -- The answer that ends a run: a returned one, or the response of an aborted connection.
  abbrev pub last_answer : Run (Option Bytes) → List Bytes
  last_answer (returned (some b) w) = b ∷ []
  last_answer (raised (abort_connection b) w) = b ∷ []
  last_answer _ = []

  reply-out :
      (i : ℕ) (r : UdsRequest) (version : ℕ) (b : Bytes) (s : System)
      → (reply config t i r version b s).out ≡ s.out ++ (i, reply_frame r version b) ∷ []
  unfolding send bump_general
  reply-out i r version b s = ground arith

  replies-out :
      (i : ℕ) (r : UdsRequest) (version : ℕ) (bs : List Bytes) (s : System)
      → (replies config t i r version bs s).out ≡ s.out ++ reply_frames i r version bs
  unfolding replies
  replies-out i r version [] s = sym (append-nil s.out)
  replies-out i r version (b ∷ bs) s =
      replies-out i r version bs (reply config t i r version b s)
      ∙ ap (λ o. o ++ reply_frames i r version bs) (reply-out i r version b s)
      ∙ append_assoc s.out ((i, reply_frame r version b) ∷ []) (reply_frames i r version bs)

  settle-out :
      (i : ℕ) (r : UdsRequest) (version : ℕ) (w : World) (s : System)
      → (settle config t i r version w s).out ≡ s.out ++ reply_frames i r version w.sent
  unfolding settle
  settle-out i r version w s =
      replies-out i r version w.sent (record s { world = record w { sent = [] } })

  more_frames :
      (i : ℕ) (r : UdsRequest) (version : ℕ) (bs : List Bytes) (b : Bytes)
      → reply_frames i r version bs ++ (i, reply_frame r version b) ∷ []
        ≡ reply_frames i r version (bs ++ b ∷ [])
  more_frames i r version [] b = refl
  more_frames i r version (x ∷ bs) b =
      ap (λ o. (i, reply_frame r version x) ∷ o) (more_frames i r version bs b)

  settled-reply-out :
      (i : ℕ) (r : UdsRequest) (version : ℕ) (w : World) (b : Bytes) (s : System)
      → (reply config t i r version b (settle config t i r version w s)).out
        ≡ s.out ++ reply_frames i r version (w.sent ++ b ∷ [])
  settled-reply-out i r version w b s =
      reply-out i r version b (settle config t i r version w s)
      ∙ ap (λ o. o ++ (i, reply_frame r version b) ∷ []) (settle-out i r version w s)
      ∙ append_assoc s.out (reply_frames i r version w.sent) ((i, reply_frame r version b) ∷ [])
      ∙ ap (λ o. s.out ++ o) (more_frames i r version w.sent b)

  settled-out :
      (i : ℕ) (r : UdsRequest) (version : ℕ) (w : World) (s : System)
      → (settle config t i r version w s).out ≡ s.out ++ reply_frames i r version (w.sent ++ [])
  settled-out i r version w s =
      settle-out i r version w s
      ∙ ap (λ bs. s.out ++ reply_frames i r version bs) (sym (append-nil w.sent))

  -- A request that is finished has sent what its handlers gave to the responder, in order, and its
  -- one last answer, if it has one, behind that: all to its own connection and in the version that
  -- the request came in, and nothing else.
  pub finish_request-out :
      (i : ℕ) (r : UdsRequest) (version : ℕ) (run : Run (Option Bytes)) (s : System)
      → (finish_request config t i r version run s).out
        ≡ s.out ++ reply_frames i r version ((final run).sent ++ last_answer run)
  unfolding finish_request
  finish_request-out i r version (returned none w) s = settled-out i r version w s
  finish_request-out i r version (returned (some b) w) s = settled-reply-out i r version w b s
  finish_request-out i r version (raised (abort_connection b) w) s =
      settled-reply-out i r version w b s
  finish_request-out i r version (raised (negative_response c d) w) s = settled-out i r version w s
  finish_request-out i r version (raised suppress_response w) s = settled-out i r version w s
  finish_request-out i r version (raised cancelled w) s = settled-out i r version w s
  finish_request-out i r version (raised python_error w) s = settled-out i r version w s

  send-queue :
      (i : ℕ) (f : Frame) (s : System)
      → ((send config i f s).connections i).queue ≡ (s.connections i).queue
  unfolding send bump_general
  send-queue i f s = ground arith

  replies-queue :
      (i : ℕ) (r : UdsRequest) (version : ℕ) (bs : List Bytes) (u : System)
      → ((replies config t i r version bs u).connections i).queue ≡ (u.connections i).queue
  unfolding replies
  replies-queue i r version [] u = refl
  replies-queue i r version (b ∷ bs) u =
      replies-queue i r version bs (reply config t i r version b u)
      ∙ send-queue i (reply_frame r version b) u

  settle-queue :
      (i : ℕ) (r : UdsRequest) (version : ℕ) (w : World) (s : System)
      → ((settle config t i r version w s).connections i).queue ≡ (s.connections i).queue
  unfolding settle
  settle-queue i r version w s =
      replies-queue i r version w.sent (record s { world = record w { sent = [] } })

  settled-reply-queue :
      (i : ℕ) (r : UdsRequest) (version : ℕ) (w : World) (b : Bytes) (s : System)
      → ((reply config t i r version b (settle config t i r version w s)).connections i).queue
        ≡ (s.connections i).queue
  settled-reply-queue i r version w b s =
      send-queue i (reply_frame r version b) (settle config t i r version w s)
      ∙ settle-queue i r version w s

  abort-queue :
      (i : ℕ) (s : System) → ((abort config t i s).connections i).queue ≡ (s.connections i).queue
  abort-queue i s = ground arith

  finish_request-queue :
      (i : ℕ) (r : UdsRequest) (version : ℕ) (run : Run (Option Bytes)) (s : System)
      → ((finish_request config t i r version run s).connections i).queue ≡ (s.connections i).queue
  unfolding finish_request
  finish_request-queue i r version (returned none w) s = settle-queue i r version w s
  finish_request-queue i r version (returned (some b) w) s = settled-reply-queue i r version w b s
  finish_request-queue i r version (raised (abort_connection b) w) s =
      abort-queue i (reply config t i r version b (settle config t i r version w s))
      ∙ settled-reply-queue i r version w b s
  finish_request-queue i r version (raised (negative_response c d) w) s =
      settle-queue i r version w s
  finish_request-queue i r version (raised suppress_response w) s = settle-queue i r version w s
  finish_request-queue i r version (raised cancelled w) s = settle-queue i r version w s
  finish_request-queue i r version (raised python_error w) s = settle-queue i r version w s

  -- How the handlers of a request end.
  abbrev pub resolved : ℕ → ℕ → Timing → System → UdsRequest → Option (Run (Option Bytes))
  resolved i fuel timing s r =
      resolve_uds config t fuel timing
        (record { request = r; session = object_of config t (s.connections i).state })
        (record (s.world) { sent = [] })

  -- What the end of a request's handlers makes of a turn.
  abbrev pub turn : ℕ → UdsRequest → ℕ → System → Option (Run (Option Bytes)) → Option System
  turn i r version next none = none
  turn i r version next (some run) = some (finish_request config t i r version run next)

  pub work-turn :
      (i fuel : ℕ) (timing : Timing) (s : System) (r : UdsRequest) (version : ℕ)
      → (rest : List (UdsRequest × ℕ)) (served : Option (Run (Option Bytes)))
      → (s.connections i).queue ≡ (r, version) ∷ rest
      → resolved i fuel timing s r ≡ served
      → work config t i fuel timing s ≡ turn i r version (next_request config t i rest s) served
  unfolding work
  work-turn i fuel timing s r version rest none q e = rw (q, e, work) refl
  work-turn i fuel timing s r version rest (some run) q e = rw (q, e, work) refl

  -- A turn of the worker that ends serves the oldest request and leaves the others in their order;
  -- its frames are the messages of that request's handlers and their last answer, to its own
  -- connection, in the version that the request came in.
  pub work-serves :
      (i fuel : ℕ) (timing : Timing) (s s' : System) (r : UdsRequest) (version : ℕ)
      (rest : List (UdsRequest × ℕ))
      → (s.connections i).queue ≡ (r, version) ∷ rest
      → work config t i fuel timing s ≡ some s'
      → ((s'.connections i).queue ≡ rest)
        × ((run : Run (Option Bytes)) × (resolved i fuel timing s r ≡ some run)
            × (s'.out ≡ s.out ++ reply_frames i r version ((final run).sent ++ last_answer run)))
  work-serves i fuel timing s s' r version rest q e =
      elim (Option-cases (resolved i fuel timing s r)) [
        | inl waits ↦
            let stuck = work-turn i fuel timing s r version rest none q waits in ground arith
        | inr (run, ends) ↦
            let next = next_request config t i rest s in
            let ran = work-turn i fuel timing s r version rest (some run) q ends in
            let ended : s' ≡ finish_request config t i r version run next = ground arith in
            (
              ap (λ u. (u.connections i).queue) ended
                  ∙ finish_request-queue i r version run next
                  ∙ ground arith,
              (run, ends, ap (λ u. u.out) ended ∙ finish_request-out i r version run next),
            )
      ]
