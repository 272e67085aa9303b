-- ===== src/Routine.antt =====
-- virtual_ecu/virtecu/services/routine.py: RoutineControl.
pub mod Sequence
use doip_playground.Base.{
  ◌==◌, if◌then◌else◌, contains, lookup, insert, Bytes, pack_u16, unpack_u16, ℕ, Bool, true, false,
  not, ◌&&◌, Option, none, some, List, [], ◌∷◌, ◌++◌,
}
use doip_playground.Config.{RoutineSpec, EcuConfig}
use doip_playground.Uds.{
  nrc_sub_function_not_supported, nrc_incorrect_message_length, nrc_conditions_not_correct,
  nrc_request_sequence_error, nrc_request_out_of_range, positive,
}
use doip_playground.Effect.{◌>>◌, ◌>>=◌, Action, return, get, modify, World}
use doip_playground.Hooks.{Buckets, Context, Value, py_bytes}
use doip_playground.Dispatcher.{resolve_routine}
use doip_playground.Services.{raise_nrc, require, sub_of}
use doip_playground.Identifier.{check_gates}

abbrev pub start_routine : ℕ
start_routine = 0x01

abbrev pub stop_routine : ℕ
stop_routine = 0x02

abbrev pub request_routine_results : ℕ
request_routine_results = 0x03

abbrev pub controls : List ℕ
controls = start_routine ∷ stop_routine ∷ request_routine_results ∷ []

-- `core.ecu.data.setdefault("routines", {})`
abbrev pub routine_table : World → List (ℕ × Bool)
routine_table w = elim w.routine_state [ none ↦ [] | some m ↦ m ]

-- `_state(core).get(rid, False)`
unfoldable pub is_started : ℕ → World → Bool
is_started rid w = elim (lookup rid (routine_table w)) [ none ↦ false | some b ↦ b ]

-- `_track`
unfoldable pub track : ℕ → ℕ → World → World
track rid control w =
    if control == start_routine
    then record w { routine_state = some (insert rid true (routine_table w)) }
    else if control == stop_routine
    then record w { routine_state = some (insert rid false (routine_table w)) }
    else record w { routine_state = some (routine_table w) }

-- The canned record of a control.
unfoldable pub canned : RoutineSpec → ℕ → Bytes
canned spec control =
    if control == start_routine
    then spec.start
    else if control == stop_routine
    then spec.stop
    else spec.results

abbrev pub routine_reply : Context → ℕ → ℕ → Bytes → Value
routine_reply ctx rid control record_bytes =
    py_bytes (positive ctx.request (control ∷ (pack_u16 rid ++ record_bytes)))

-- The YAML entry, where there is one.
unfoldable pub run_spec : Context → ℕ → ℕ → RoutineSpec → Action Value
run_spec ctx rid control spec = do
  check_gates ctx spec.sessions spec.security
  modify (λ w. record w { routine_state = some (routine_table w) })
  w ← get
  require ctx (not (control == stop_routine && not (is_started rid w))) nrc_request_sequence_error
  require ctx (not (control == request_routine_results && not (is_started rid w)))
      nrc_conditions_not_correct
  modify (track rid control)
  return (routine_reply ctx rid control (canned spec control))

module _ (config : EcuConfig) (t : Buckets) where
  -- Behind the hooks
  abbrev pub routine_or_spec : Context → ℕ → ℕ → Option Bytes → Action Value
  routine_or_spec ctx rid control (some record_bytes) = do
    modify (track rid control)
    return (routine_reply ctx rid control record_bytes)
  routine_or_spec ctx rid control none = elim (lookup rid config.routines) [
    | none ↦ raise_nrc ctx nrc_request_out_of_range
    | some spec ↦ run_spec ctx rid control spec
  ]

  -- On the bytes of the request; shorter than four, it is refused.
  control_bytes : Context → Bytes → Action Value
  control_bytes ctx (s ∷ c ∷ hi ∷ lo ∷ rest) = do
    require ctx (contains (sub_of ctx) controls) nrc_sub_function_not_supported
    found ← resolve_routine config.uds t (unpack_u16 hi lo) (sub_of ctx) rest ctx
    routine_or_spec ctx (unpack_u16 hi lo) (sub_of ctx) found
  control_bytes ctx _ = raise_nrc ctx nrc_incorrect_message_length

  unfoldable pub routine_control : Context → Action Value
  unfolding control_bytes
  routine_control ctx = control_bytes ctx ctx.request.raw
