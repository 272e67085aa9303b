-- ===== src/Routine/Sequence.antt =====
-- RoutineControl of virtual_ecu/virtecu/services/routine.py: start, then stop or results.
use doip_playground.Base.{
  ◌==◌, if◌then◌else◌, lookup-insert, ℕ, ◌≤◌, ◌≡◌, refl, sym, ap, ◌∙◌, ◌⊎◌, Bool, true, false, some,
  arith,
}
use doip_playground.Config.{RoutineSpec}
use doip_playground.Uds.{nrc_conditions_not_correct, sid}
use doip_playground.Effect.{World, negative_response, returned, raised}
use doip_playground.Hooks.{Context, Value}
use doip_playground.Services.{session_of}
use doip_playground.Identifier.{session_allowed, check_gates}
use doip_playground.Routine.{
  start_routine, stop_routine, request_routine_results, routine_table, is_started, track, run_spec,
}

-- What a control does to the note that a routine is started.
abbrev pub after_control : ℕ → Bool → Bool
after_control control started =
    if control == start_routine then true else if control == stop_routine then false else started

-- `track` notes starts and stops for each routine by itself.
pub is_started-track :
    (rid other control : ℕ) (w : World)
    → is_started other (track rid control w)
      ≡ (if rid == other then after_control control (is_started rid w) else is_started other w)
unfolding is_started track
is_started-track rid other control w = ground (
  arith,
  lookup-insert rid other true (routine_table w),
  lookup-insert rid other false (routine_table w),
)

-- The table of notes exists, as `setdefault` leaves it.
abbrev pub noted : World → World
noted w = record w { routine_state = some (routine_table w) }

run_spec-track :
    (ctx : Context) (rid control : ℕ) (spec : RoutineSpec) (v : Value) (w w' : World)
    → run_spec ctx rid control spec w ≡ returned v w'
    → (session_allowed spec.sessions (session_of ctx w).session_type ≡ true)
      × (spec.security ≤ (session_of ctx w).security_level)
      × ((control ≡ stop_routine) ⊎ (control ≡ request_routine_results)
          → is_started rid (noted w) ≡ true)
      × (w' ≡ track rid control (noted w))
unfolding run_spec check_gates
run_spec-track ctx rid control spec v w w' e = ground arith

-- A routine of the table that answers has passed its gates and, for stop and results, was started;
-- and whether it is started then follows from the control.
pub run_spec-sequence :
    (ctx : Context) (rid control : ℕ) (spec : RoutineSpec) (v : Value) (w w' : World)
    → run_spec ctx rid control spec w ≡ returned v w'
    → (session_allowed spec.sessions (session_of ctx w).session_type ≡ true)
      × (spec.security ≤ (session_of ctx w).security_level)
      × ((control ≡ stop_routine) ⊎ (control ≡ request_routine_results) → is_started rid w ≡ true)
      × (is_started rid w' ≡ after_control control (is_started rid w))
run_spec-sequence ctx rid control spec v w w' e =
    let (a, b, c, d) = run_spec-track ctx rid control spec v w w' e in
    let same : is_started rid (noted w) ≡ is_started rid w = unfold is_started in refl in
    let tracked = is_started-track rid rid control (noted w) in
    (a, b, (λ k. sym same ∙ c k), rw (d, tracked, same) (ground arith))

results-refused :
    (ctx : Context) (rid : ℕ) (spec : RoutineSpec) (w : World)
    → session_allowed spec.sessions (session_of ctx w).session_type ≡ true
    → spec.security ≤ (session_of ctx w).security_level
    → is_started rid (noted w) ≡ false
    → run_spec ctx rid request_routine_results spec w
      ≡ raised (negative_response nrc_conditions_not_correct (some (sid ctx.request))) (noted w)
unfolding run_spec check_gates
results-refused ctx rid spec w a b c = ground arith

-- Behind the stop of a routine its results are refused, by a request in the same session.
pub stop-then-results :
    (ctx again : Context) (rid : ℕ) (spec : RoutineSpec) (v : Value) (w w' : World)
    → again.session ≡ ctx.session
    → run_spec ctx rid stop_routine spec w ≡ returned v w'
    → run_spec again rid request_routine_results spec w'
      ≡ raised (negative_response nrc_conditions_not_correct (some (sid again.request))) (noted w')
stop-then-results ctx again rid spec v w w' same e =
    let (a, b, c, d) = run_spec-track ctx rid stop_routine spec v w w' e in
    let q = run_spec-sequence ctx rid stop_routine spec v w w' e in
    let objects : w'.objects ≡ w.objects = ap (λ u. u.objects) d ∙ (unfold track in refl) in
    let kept : is_started rid (noted w') ≡ is_started rid w' = unfold is_started in refl in
    results-refused again rid spec w' (ground (arith, objects)) (ground (arith, objects))
      (kept ∙ q.3)
