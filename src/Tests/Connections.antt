-- ===== src/Tests/Connections.antt =====
-- The connections, their tasks and the registry at concrete inputs.
use doip_playground.Base.{
  contains, length, lookup, insert, erase, Bytes, ◌≤◌, ◌<◌, ◌≡◌, refl, inl, true, false, none, some,
  [], ◌∷◌, arith,
}
use doip_playground.Doip.{declared_len, read_frame, validate_header}
use doip_playground.Uds.{UdsRequest}
use doip_playground.Session.{
  unregister, bump_general, send_response, accept, admit, evict, resolve_conflict, check_activation,
  handle_routing_activation, after_probe, System,
}
use doip_playground.Session.Takeover.{after_probe_twice}
use doip_playground.Pump.{
  enqueue, accept_message, check_message, handle_type, handle_frame, pump, Overrides, no_override,
}
use doip_playground.Pump.Answers.{check_message-Acknowledged, Acknowledged}
use doip_playground.Pump.Diagnostic.{check_message-Acceptable, Acceptable}
use doip_playground.Entity.{after_turn, Entity, reads, Reachable, starts, steps}
use doip_playground.Entity.Invariant.{Reachable-Sound, Reachable-registry, Sound}
use doip_playground.Tests.{tester, small, tidy_state, world_of, request, idle, active, one_active}

-- An entity with open connections and no tester, and the bytes of a routing activation.
abbrev quiet : Entity
quiet = record {
  system = record {
    world = record (world_of tidy_state) { session_states = []; next_object = 0 };
    connections = λ _. idle;
    registry = [];
    out = [];
  };
  probing = λ _. none;
}

abbrev activation_bytes : Bytes
activation_bytes = 2 ∷ 0xfd ∷ 0 ∷ 5 ∷ 0 ∷ 0 ∷ 0 ∷ 7 ∷ 0x0e ∷ 0x80 ∷ 0 ∷ 0 ∷ 0 ∷ 0 ∷ 0 ∷ []

abbrev no_overrides : Overrides small
no_overrides = record { activation = none; ack = no_override }

abbrev activated_once : Entity
activated_once = after_turn 0 (pump small 0 activation_bytes no_overrides quiet.system).0 quiet

-- A second connection asks for the same tester, and its pump waits.
abbrev waiting : Entity
waiting =
    after_turn 1 (pump small 1 activation_bytes no_overrides activated_once.system).0 activated_once

activated_once-Reachable : Reachable small [] activated_once
activated_once-Reachable =
    steps quiet activated_once (starts quiet refl (λ _. refl))
      (reads quiet 0 activation_bytes no_overrides refl)

waiting-Reachable : Reachable small [] waiting
unfolding pump read_frame declared_len handle_frame validate_header bump_general handle_type
    handle_routing_activation check_activation contains resolve_conflict lookup admit accept
waiting-Reachable =
    steps activated_once waiting activated_once-Reachable
      (reads activated_once 1 activation_bytes no_overrides refl)

Reachable-Sound_example : Sound small waiting
Reachable-Sound_example = Reachable-Sound small [] waiting waiting-Reachable

Reachable-registry_example :
    (tester ≡ tester)
    × ((waiting.system.connections 0).activated ≡ true)
    × ((waiting.system.connections 0).tester ≡ some tester)
    × (length waiting.system.registry ≤ 2)
unfolding pump read_frame declared_len handle_frame validate_header bump_general handle_type
    handle_routing_activation check_activation contains resolve_conflict lookup admit accept
    send_response insert
Reachable-registry_example =
    Reachable-registry small [] waiting tester tester 0 waiting-Reachable refl refl

abbrev taken_over : System
taken_over = (after_probe small 1 tester 0 false one_active).1

abbrev taken_twice : System
taken_twice = (after_probe small 2 tester 0 false taken_over).1

taken_over-room : length taken_over.registry ≡ 1
unfolding after_probe evict unregister lookup erase admit accept send_response insert
taken_over-room = refl

after_probe_twice_example :
    (lookup tester taken_twice.registry ≡ some 2)
    × ((taken_twice.connections 1).activated ≡ true)
    × ((taken_twice.connections 1).tester ≡ some tester)
    × ((taken_twice.connections 1).is_open ≡ true)
unfolding lookup
after_probe_twice_example =
    after_probe_twice small 1 2 tester 0 one_active (λ e. ground arith) (λ e. ground arith) refl
      (ground arith) (ground (arith, taken_over-room)) refl refl

abbrev read_vin : UdsRequest
read_vin = request (0x22 ∷ 0xf1 ∷ 0x90 ∷ [])

active-Acceptable : Acceptable small active read_vin
active-Acceptable = record {
  active = refl;
  own_source = refl;
  addressed = inl refl;
  fits = ground arith;
}

check_message-Acceptable_example : Acceptable small active read_vin × (true ≡ true) × (0 < 8)
unfolding check_message accept_message enqueue send_response
check_message-Acceptable_example =
    check_message-Acceptable small 0 read_vin no_override one_active (λ e. ground arith)

check_message-Acknowledged_example :
    Acknowledged small 1 one_active (check_message small 1 read_vin no_override one_active).1
check_message-Acknowledged_example =
    check_message-Acknowledged small 1 read_vin no_override one_active refl
