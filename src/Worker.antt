-- ===== src/Worker.antt =====
-- virtual_ecu/virtecu/session.py, `_uds_worker`: the requests of a connection, one after another.
pub mod Bindings
pub mod Replies
pub mod Suppression
use doip_playground.Base.{Bytes, ℕ, Option, none, some, List, [], ◌∷◌}
use doip_playground.Config.{EcuConfig}
use doip_playground.Doip.{pt_diagnostic_message}
use doip_playground.Uds.{UdsRequest}
use doip_playground.Effect.{World, abort_connection, Run, returned, raised}
use doip_playground.Hooks.{Buckets, Context}
use doip_playground.Resolve.{resolve_uds, Timing}
use doip_playground.Session.{set_connection, send, System}
use doip_playground.Pump.{response_body, finalize}

module _ (config : EcuConfig) (t : Buckets) where
  -- The closure `responder`: in the version that the request came in.
  abbrev pub reply : ℕ → UdsRequest → ℕ → Bytes → System → System
  reply i r version response s =
      send config i
        (record {
          payload_type = pt_diagnostic_message;
          body = response_body config r.source_addr response;
          version = version;
        })
        s

  replies : ℕ → UdsRequest → ℕ → List Bytes → System → System
  replies i r version [] s = s
  replies i r version (b ∷ bs) s = replies i r version bs (reply i r version b s)

  -- The frames that the run gave to the responder, then its final answer.
  settle : ℕ → UdsRequest → ℕ → World → System → System
  unfolding replies
  settle i r version w s = replies i r version w.sent (record s { world = record w { sent = [] } })

  abbrev pub abort : ℕ → System → System
  abort i s = set_connection i (finalize config (s.connections i)) s

  -- The `except` clauses around `resolve_uds`. A cancellation ends the worker.
  unfoldable pub finish_request : ℕ → UdsRequest → ℕ → Run (Option Bytes) → System → System
  unfolding settle
  finish_request i r version (returned none w) s = settle i r version w s
  finish_request i r version (returned (some b) w) s = reply i r version b (settle i r version w s)
  finish_request i r version (raised (abort_connection b) w) s =
      abort i (reply i r version b (settle i r version w s))
  finish_request i r version (raised e w) s = settle i r version w s

  abbrev pub next_request : ℕ → List (UdsRequest × ℕ) → System → System
  next_request i rest s = set_connection i (record (s.connections i) { queue = rest }) s

  abbrev pub object_of : Option ℕ → ℕ
  object_of none = 0
  object_of (some k) = k

  -- One turn of the worker: the oldest request, resolved against the connection's state. It does
  -- nothing on an empty queue; `none` while the handler runs.
  unfoldable pub work : ℕ → ℕ → Timing → System → Option System
  work i fuel timing s = elim (s.connections i).queue [
    | [] ↦ some s
    | entry ∷ rest ↦
        let ctx : Context = record {
          request = entry.0;
          session = object_of (s.connections i).state;
        } in
        elim (resolve_uds config t fuel timing ctx (record (s.world) { sent = [] })) [
          | none ↦ none
          | some run ↦ some (finish_request i entry.0 entry.1 run (next_request i rest s))
        ]
  ]
