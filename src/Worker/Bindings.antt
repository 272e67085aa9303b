-- ===== src/Worker/Bindings.antt =====
-- What a turn of the worker of virtual_ecu/virtecu/session.py leaves as it is: the testers.
use doip_playground.Base.{Bytes, ℕ, ◌≡◌, refl, sym, ◌∙◌, Option, none, some, List, [], ◌∷◌, arith}
use doip_playground.Config.{EcuConfig}
use doip_playground.Doip.{pt_diagnostic_message}
use doip_playground.Uds.{UdsRequest}
use doip_playground.Effect.{
  World, negative_response, suppress_response, abort_connection, cancelled, python_error, Run,
  returned, raised,
}
use doip_playground.Hooks.{Buckets}
use doip_playground.Resolve.{Timing}
use doip_playground.Session.{System}
use doip_playground.Session.Registry.{SameBinding, send-SameBinding}
use doip_playground.Pump.{response_body}
use doip_playground.Pump.Frames.{SameBinding-trans}
use doip_playground.Worker.{reply, abort, finish_request, next_request, work, replies, settle}
use doip_playground.Worker.Replies.{resolved, turn, work-turn}

module _ (config : EcuConfig) (t : Buckets) where
  reply-SameBinding :
      (i : ℕ) (r : UdsRequest) (version : ℕ) (b : Bytes) (s : System)
      → SameBinding s (reply config t i r version b s)
  reply-SameBinding i r version b s =
      send-SameBinding config i
        (record {
          payload_type = pt_diagnostic_message;
          body = response_body config r.source_addr b;
          version = version;
        })
        s

  -- The worker and the timers leave every connection's tester as it is.
  replies-SameBinding :
      (i : ℕ) (r : UdsRequest) (version : ℕ) (bs : List Bytes) (s : System)
      → SameBinding s (replies config t i r version bs s)
  unfolding replies
  replies-SameBinding i r version [] s = (refl, λ j. (refl, refl))
  replies-SameBinding i r version (b ∷ bs) s =
      let s' = reply config t i r version b s in
      SameBinding-trans config s s' (replies config t i r version bs s')
        (reply-SameBinding i r version b s) (replies-SameBinding i r version bs s')

  settle-SameBinding :
      (i : ℕ) (r : UdsRequest) (version : ℕ) (w : World) (s : System)
      → SameBinding s (settle config t i r version w s)
  unfolding settle
  settle-SameBinding i r version w s =
      replies-SameBinding i r version w.sent (record s { world = record w { sent = [] } })

  settled-reply-SameBinding :
      (i : ℕ) (r : UdsRequest) (version : ℕ) (w : World) (b : Bytes) (s : System)
      → SameBinding s (reply config t i r version b (settle config t i r version w s))
  settled-reply-SameBinding i r version w b s =
      let s' = settle config t i r version w s in
      SameBinding-trans config s s' (reply config t i r version b s')
        (settle-SameBinding i r version w s) (reply-SameBinding i r version b s')

  abort-SameBinding : (i : ℕ) (s : System) → SameBinding s (abort config t i s)
  abort-SameBinding i s = (refl, λ j. (ground arith, ground arith))

  finish_request-SameBinding :
      (i : ℕ) (r : UdsRequest) (version : ℕ) (run : Run (Option Bytes)) (s : System)
      → SameBinding s (finish_request config t i r version run s)
  unfolding finish_request
  finish_request-SameBinding i r version (returned none w) s = settle-SameBinding i r version w s
  finish_request-SameBinding i r version (returned (some b) w) s =
      settled-reply-SameBinding i r version w b s
  finish_request-SameBinding i r version (raised (abort_connection b) w) s =
      let s' = reply config t i r version b (settle config t i r version w s) in
      SameBinding-trans config s s' (abort config t i s')
        (settled-reply-SameBinding i r version w b s) (abort-SameBinding i s')
  finish_request-SameBinding i r version (raised (negative_response c d) w) s =
      settle-SameBinding i r version w s
  finish_request-SameBinding i r version (raised suppress_response w) s =
      settle-SameBinding i r version w s
  finish_request-SameBinding i r version (raised cancelled w) s = settle-SameBinding i r version w s
  finish_request-SameBinding i r version (raised python_error w) s =
      settle-SameBinding i r version w s

  turn-SameBinding :
      (i : ℕ) (r : UdsRequest) (version : ℕ) (o : Option (Run (Option Bytes))) (s s' : System)
      → turn config t i r version s o ≡ some s'
      → SameBinding s s'
  turn-SameBinding i r version none s s' e = absurd (ground arith)
  turn-SameBinding i r version (some run) s s' e =
      let same : finish_request config t i r version run s ≡ s' = ground arith in
      rw (sym same) (finish_request-SameBinding i r version run s)

  next_request-SameBinding :
      (i : ℕ) (rest : List (UdsRequest × ℕ)) (s : System)
      → SameBinding s (next_request config t i rest s)
  next_request-SameBinding i rest s = (refl, λ j. (ground arith, ground arith))

  -- A turn of the worker leaves the registry, and which connection is bound to which tester.
  pub work-SameBinding :
      (i fuel : ℕ) (timing : Timing) (s s' : System)
      → work config t i fuel timing s ≡ some s'
      → SameBinding s s'
  unfolding work
  work-SameBinding i fuel timing s s' e = go (s.connections i).queue refl
    where
      go : (q : List (UdsRequest × ℕ)) → (s.connections i).queue ≡ q → SameBinding s s'
      go [] p =
          let idle : work config t i fuel timing s ≡ some s = rw (p, work) refl in
          let same : s' ≡ s = ground arith in rw same (refl, λ j. (refl, refl))
      go ((r, version) ∷ rest) p =
          let o = resolved config t i fuel timing s r in
          let next = next_request config t i rest s in
          SameBinding-trans config s next s' (next_request-SameBinding i rest s) (
            turn-SameBinding i r version o next s'
              (sym (work-turn config t i fuel timing s r version rest o p refl) ∙ e))
