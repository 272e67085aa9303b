-- ===== src/Tests/Tasks.antt =====
-- The worker, the waiting, the session states and the dispatcher at concrete inputs.
use mathlib.Core.List.{Perm}
use doip_playground.Base.{
  ◌==◌, if◌then◌else◌, contains, lookup, insert, Bytes, ◌≡◌, refl, ◌↔◌, true, Option, none, some,
  [], ◌∷◌, ◌++◌, arith,
}
use doip_playground.Uds.{sub_function, suppress_pos_rsp, positive, UdsRequest}
use doip_playground.Effect.{Action, return, throw, final, World, negative_response, Run, returned}
use doip_playground.Core.{is_tidy, session_for, maybe_drop_session_state}
use doip_playground.Core.Sessions.{Table-separate, starts, finds}
use doip_playground.Core.Tidy.{found, reconnect_forgets_attempts}
use doip_playground.Hooks.{
  claim_eq, bucket, register, Context, Hook, Plugin, Value, py_none, py_bytes, observer, service,
}
use doip_playground.Dispatcher.{
  run_observers, first_result, from_core, from_any, from_service, dispatch,
}
use doip_playground.Hooks.Order.{IsSorted}
use doip_playground.Hooks.Tables.{claims_of, bucket-register}
use doip_playground.Dispatcher.Isolation.{IsControl, RaisesOnly, dispatch-RaisesOnly}
use doip_playground.Dispatcher.Ladder.{candidates, dispatch_iff_Wins, Wins}
use doip_playground.Services.{sub_of, tester_present, ecu_reset}
use doip_playground.CoreServices.{handle, dispatch_request}
use doip_playground.Resolve.{wait, resolve_uds, Timing}
use doip_playground.Resolve.Pending.{Told, wait-Told}
use doip_playground.Session.{System}
use doip_playground.Worker.{work}
use doip_playground.Worker.Replies.{reply_frames, last_answer, resolved, work-serves}
use doip_playground.Tests.{
  tester, small_uds, small, tidy_state, world_of, request, asks, idle, active, one_active,
}
use doip_playground.Services.Reset.{IsReset}
use doip_playground.Worker.Suppression.{
  Suppressed, work-Suppressed, context_of, ResetLeft, suppressed_reset, Unclaimed,
}

-- The worker of connection 0 has two requests before it.
abbrev loaded : System
loaded = record one_active {
  connections = λ i.
      if i == 0
      then record active {
        queue = (request (0x3e ∷ 0 ∷ []), 3) ∷ (request (0x3e ∷ 0x80 ∷ []), 3) ∷ [];
      }
      else idle;
}

abbrev prompt : Timing
prompt = record { done_at = some 0; cut_off = λ w. w }

abbrev served_one : Option System
served_one = work small [] 0 1 prompt loaded

abbrev value_or : System → Option System → System
value_or s none = s
value_or s (some u) = u

work-serves_example :
    (((value_or loaded served_one).connections 0).queue ≡ (request (0x3e ∷ 0x80 ∷ []), 3) ∷ [])
    × ((run : Run (Option Bytes)) × (resolved small [] 0 1 prompt loaded (request (0x3e ∷ 0 ∷ []))
          ≡ some run)
        × ((value_or loaded served_one).out
            ≡ loaded.out
              ++ reply_frames small [] 0
                  (request (0x3e ∷ 0 ∷ []))
                  3
                  ((final run).sent ++ last_answer small [] run)))
unfolding work resolve_uds wait dispatch_request dispatch from_service from_any from_core
    first_result run_observers bucket handle tester_present sub_function contains
work-serves_example =
    work-serves small [] 0 1 prompt loaded (value_or loaded served_one) (request (0x3e ∷ 0 ∷ [])) 3
      ((request (0x3e ∷ 0x80 ∷ []), 3) ∷ []) refl refl

wait-Told_example : Told small_uds none (wait small_uds 3 none)
wait-Told_example = wait-Told small_uds 3 none refl (ground arith) (ground arith)

-- The table of session states.
abbrev no_testers : World
no_testers = record (world_of tidy_state) { session_states = [] }

abbrev one_tester : World
one_tester = (session_for small tester no_testers).1

Table-separate_example : (tester ≡ tester) × ((one_tester.objects 1).tester_addr ≡ some tester)
unfolding session_for lookup insert
Table-separate_example =
    Table-separate small one_tester tester tester 1
      (finds no_testers tester (starts no_testers refl)) refl refl

reconnect_forgets_attempts_example :
    (found small tester (
      maybe_drop_session_state small
        (some tester)
        (some 0)
        (world_of tidy_state))).security_attempts
    ≡ 0
unfolding lookup is_tidy
reconnect_forgets_attempts_example =
    reconnect_forgets_attempts small tester 0 (world_of tidy_state) refl refl

-- A plugin that answers a service, and one that observes and refuses.
abbrev answers_zero : Plugin
answers_zero = record {
  name = 97 ∷ [];
  plugin_priority = 100;
  enabled = true;
  plugin_index = 0;
  hooks =
      record {
        claim = service 0x22;
        entry_priority = none;
        entry_method = λ _ _. return (py_bytes (0x62 ∷ []));
      }
      ∷ [];
}

abbrev refuses : Plugin
refuses = record {
  name = 98 ∷ [];
  plugin_priority = 50;
  enabled = true;
  plugin_index = 1;
  hooks =
      record {
        claim = observer;
        entry_priority = none;
        entry_method = λ _ _. throw (negative_response 0x22 none);
      }
      ∷ [];
}

abbrev no_core : Context → Action Value
no_core _ = return py_none

bucket-register_example :
    IsSorted (bucket (service 0x22) (register (answers_zero ∷ refuses ∷ [])))
    × Perm
        (bucket (service 0x22) (register (answers_zero ∷ refuses ∷ [])))
        (claims_of (service 0x22) (answers_zero ∷ refuses ∷ []))
unfolding claim_eq
bucket-register_example = bucket-register (service 0x22) (answers_zero ∷ refuses ∷ []) refl

dispatch-RaisesOnly_example :
    RaisesOnly IsControl (
      dispatch small_uds (register (refuses ∷ [])) no_core (asks (0x22 ∷ [])) (world_of tidy_state))
dispatch-RaisesOnly_example =
    dispatch-RaisesOnly small_uds IsControl (λ e c. c) (register (refuses ∷ [])) no_core
      (asks (0x22 ∷ [])) (λ v. tt) (world_of tidy_state)

dispatch_iff_Wins_example :
    (dispatch small_uds
        (register (answers_zero ∷ []))
        no_core
        (asks (0x22 ∷ []))
        (world_of tidy_state)
      ≡ returned (py_bytes (0x62 ∷ [])) (world_of tidy_state))
    ↔ ((u : World) × (run_observers small_uds
            (bucket observer (register (answers_zero ∷ [])))
            (asks (0x22 ∷ []))
            (world_of tidy_state)
          ≡ returned tt u)
        × Wins small_uds
            (py_bytes (0x62 ∷ []))
            (world_of tidy_state)
            (candidates small_uds (register (answers_zero ∷ [])) no_core (asks (0x22 ∷ [])))
            u)
dispatch_iff_Wins_example =
    dispatch_iff_Wins small_uds (register (answers_zero ∷ [])) no_core (asks (0x22 ∷ []))
      (world_of tidy_state) (world_of tidy_state) (py_bytes (0x62 ∷ []))

abbrev refuses_hook : Hook
refuses_hook = record {
  priority = 50;
  load_index = 1;
  plugin_name = 98 ∷ [];
  method = λ _ _. throw (negative_response 0x22 none);
}

-- Connection 0 has a reset before it, with its suppress bit.
abbrev quiet_reset : UdsRequest
quiet_reset = request (0x11 ∷ 0x81 ∷ [])

abbrev resetting : System
resetting = record one_active {
  connections = λ i. if i == 0 then record active { queue = (quiet_reset, 3) ∷ [] } else idle;
}

abbrev served_reset : Option System
served_reset = work small [] 0 1 prompt resetting

work-Suppressed_example :
    Suppressed small [] 0 1 prompt resetting (value_or resetting served_reset) quiet_reset 3
unfolding work resolve_uds wait dispatch_request dispatch from_service from_any from_core
    first_result run_observers bucket handle ecu_reset sub_function contains suppress_pos_rsp
work-Suppressed_example =
    work-Suppressed small [] 0 1 prompt resetting (value_or resetting served_reset) quiet_reset 3 []
      refl refl refl refl

quiet_reset-IsReset : IsReset small (context_of small [] 0 resetting quiet_reset)
unfolding sub_function contains
quiet_reset-IsReset = record { two = refl; supported = refl }

no_hooks : Unclaimed small []
unfolding bucket
no_hooks = record { unobserved = refl; unserved = refl; uncaught = refl }

suppressed_reset_example :
    (s' : System) × (work small [] 0 1 prompt resetting ≡ some s')
    × ResetLeft small [] true 0 quiet_reset 3
        (positive quiet_reset (sub_of (context_of small [] 0 resetting quiet_reset) ∷ []))
        resetting
        s'
unfolding wait suppress_pos_rsp contains
suppressed_reset_example =
    suppressed_reset small [] 0 1 prompt resetting quiet_reset 3 [] refl quiet_reset-IsReset refl
      refl refl no_hooks refl
