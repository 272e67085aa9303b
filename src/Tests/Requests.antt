-- ===== src/Tests/Requests.antt =====
-- The UDS services, their dispatcher and the session states at concrete inputs.
use doip_playground.Base.{
  contains, lookup, insert, Bytes, bytes_eq, ℕ, suc, ◌≤◌, ◌≡◌, refl, ◌⊎◌, true, false, none, some,
  [], ◌∷◌, arith,
}
use doip_playground.Uds.{sub_function, dids_of, dids, positive}
use doip_playground.Effect.{final, World, returned}
use doip_playground.Store.{store_read, store_write}
use doip_playground.Store.Laws.{default_of, Distinct}
use doip_playground.Hooks.{bucket, Context, py_bytes}
use doip_playground.Dispatcher.{first_bytes, resolve_did_read}
use doip_playground.Services.{
  sub_of, diagnostic_session_control, ecu_reset, level_of, expected_key, send_key, security_access,
}
use doip_playground.Services.Security.{security_access-Unlocks, Unlocks}
use doip_playground.Services.Reset.{Answers, ecu_reset-restores, IsReset}
use doip_playground.Identifier.{
  session_allowed, check_gates, read_spec, read_table, read_one, read_all, read_data_by_identifier,
  write_spec,
}
use doip_playground.Identifier.Read.{read_data-bounds}
use doip_playground.Identifier.Write.{write-then-read, Readable}
use doip_playground.Routine.{
  stop_routine, request_routine_results, is_started, track, canned, run_spec,
}
use doip_playground.Routine.Sequence.{after_control, run_spec-sequence}
use doip_playground.Tests.{
  vin_did, vin, erase_rid, erase_routine, small, busy_state, world_of, asks,
}

abbrev busy : World
busy = world_of busy_state

abbrev right_key_request : Context
right_key_request = asks (0x27 ∷ 0x02 ∷ 2 ∷ 3 ∷ [])

abbrev wrong_key_request : Context
wrong_key_request = asks (0x27 ∷ 0x02 ∷ 9 ∷ 9 ∷ [])

security_access-Unlocks_example : Unlocks small right_key_request busy
unfolding security_access sub_function send_key bytes_eq expected_key level_of contains
security_access-Unlocks_example =
    security_access-Unlocks small right_key_request busy (λ e. ground arith)

abbrev seed_request : Context
seed_request = asks (0x27 ∷ 1 ∷ [])

abbrev extended : Context
extended = asks (0x10 ∷ 3 ∷ [])

abbrev entered : World
entered = final (diagnostic_session_control small extended busy)

abbrev hard_reset : Context
hard_reset = asks (0x11 ∷ 0x81 ∷ [])

abbrev written : World
written = record busy { did_values = (vin_did, 1 ∷ 1 ∷ []) ∷ [] }

hard_reset-IsReset : IsReset small hard_reset
unfolding sub_function contains
hard_reset-IsReset = record { two = refl; supported = refl }

vin-Distinct : Distinct small.dids
unfolding lookup
vin-Distinct = (refl, tt)

ecu_reset-restores_example :
    ((final (ecu_reset small hard_reset written)).routine_state ≡ none)
    × (store_read vin_did (final (ecu_reset small hard_reset written))
        ≡ default_of vin_did small.dids)
    × Answers
        (positive hard_reset.request (sub_of hard_reset ∷ []))
        (ecu_reset small hard_reset written)
ecu_reset-restores_example =
    ecu_reset-restores small hard_reset vin_did written vin-Distinct hard_reset-IsReset

abbrev write_request : Context
write_request = asks (0x2e ∷ 0xf1 ∷ 0x90 ∷ 1 ∷ 1 ∷ [])

vin-Readable : Readable vin
vin-Readable = record {
  listed = refl;
  unforced = refl;
  sessions = refl;
  security = refl;
  static = refl;
}

write-then-read_example :
    read_spec small [] extended vin_did vin (store_write vin_did (1 ∷ 1 ∷ []) busy)
    ≡ returned (some (1 ∷ 1 ∷ [])) (store_write vin_did (1 ∷ 1 ∷ []) busy)
unfolding write_spec check_gates
write-then-read_example =
    write-then-read small [] write_request extended vin_did (1 ∷ 1 ∷ []) vin
      (py_bytes (0x6e ∷ 0xf1 ∷ 0x90 ∷ [])) busy (store_write vin_did (1 ∷ 1 ∷ []) busy) refl
      vin-Readable

abbrev read_request : Context
read_request = asks (0x22 ∷ 0xf1 ∷ 0x90 ∷ [])

read_data-bounds_example :
    (5 ≤ small.doip.max_payload_bytes)
    × ((body : Bytes) × (n : ℕ) × (v : World) × (read_all small [] read_request
            (dids read_request.request)
            busy
          ≡ returned (body, suc n) v)
        × (0x62 ∷ 0xf1 ∷ 0x90 ∷ 7 ∷ 8 ∷ [] ≡ positive read_request.request body))
unfolding read_data_by_identifier read_all read_one read_table read_spec check_gates lookup dids_of
    resolve_did_read first_bytes bucket
read_data-bounds_example =
    read_data-bounds small [] read_request (0x62 ∷ 0xf1 ∷ 0x90 ∷ 7 ∷ 8 ∷ []) busy busy refl

abbrev stop_request : Context
stop_request = asks (0x31 ∷ 2 ∷ 2 ∷ 3 ∷ [])

abbrev results_request : Context
results_request = asks (0x31 ∷ 3 ∷ 2 ∷ 3 ∷ [])

abbrev stopped : World
stopped = record busy { routine_state = some ((erase_rid, false) ∷ []) }

run_spec-sequence_example :
    (session_allowed erase_routine.sessions 3 ≡ true)
    × (erase_routine.security ≤ busy_state.security_level)
    × ((stop_routine ≡ stop_routine) ⊎ (stop_routine ≡ request_routine_results)
        → is_started erase_rid busy ≡ true)
    × (is_started erase_rid stopped ≡ after_control stop_routine (is_started erase_rid busy))
unfolding run_spec check_gates is_started track lookup insert canned
run_spec-sequence_example =
    run_spec-sequence stop_request erase_rid stop_routine erase_routine
      (py_bytes (0x71 ∷ 2 ∷ 2 ∷ 3 ∷ 2 ∷ [])) busy stopped refl
