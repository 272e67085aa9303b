-- ===== src/Tests/Echoes.antt =====
-- The echo ECU at concrete inputs.
use doip_playground.Base.{lookup, Bytes, ◌≡◌, refl, true, false, some, [], ◌∷◌, ◌++◌, arith}
use doip_playground.Doip.{pt_routing_act_request, pt_diagnostic_message, pt_diagnostic_positive_ack}
use doip_playground.Gateway.{byte_at}
use doip_playground.Echo.{
  echo_frame, echo_read_frame, echo_send, evict_echo, echo_uds_response, accept_activation,
  handle_echo_activation, after_echo_probe, dispatch_echo, serve_echo, echo_state, idle_echo,
  EchoConfig, EchoEcu, reads_on, echo_serves, echo_starts, echo_goes,
}
use doip_playground.Echo.Ownership.{EchoReach-Sound, EchoSound}
use doip_playground.Echo.Takeover.{evicted_forgets_successor}
use doip_playground.Echo.Answers.{serve_echo-diagnostic}

abbrev echo_config : EchoConfig
echo_config = record {
  vin = 0x45 ∷ 0x43 ∷ 0x48 ∷ 0x4f ∷ [];
  eid = 1 ∷ 2 ∷ 3 ∷ 4 ∷ 5 ∷ 6 ∷ [];
  gid = 6 ∷ 5 ∷ 4 ∷ 3 ∷ 2 ∷ 1 ∷ [];
  ecu_addr = 0x0002;
  node_type = 1;
  power_mode = 1;
  max_data = 4096;
}

-- A Routing Activation Request of tester 0x0e80.
abbrev asks_0e80 : Bytes
asks_0e80 = 0x0e ∷ 0x80 ∷ 0 ∷ 0 ∷ 0 ∷ 0 ∷ 0 ∷ []

-- Connection 1 behind that request.
abbrev one_active : EchoEcu
one_active = echo_state echo_config (
    serve_echo echo_config 1 (echo_frame pt_routing_act_request asks_0e80) []
      (idle_echo echo_config))

EchoReach-Sound_example : EchoSound one_active
unfolding lookup
EchoReach-Sound_example = EchoReach-Sound echo_config one_active (
    echo_goes (idle_echo echo_config) one_active echo_starts
      (echo_serves 1 (echo_frame pt_routing_act_request asks_0e80) [] (idle_echo echo_config) refl))

-- Connection 2 takes the address from 1, which then ends.
abbrev forgotten : EchoEcu
forgotten = evict_echo 1 (after_echo_probe echo_config 2 0x0e80 1 false one_active)

evicted_forgets_successor_example :
    ((forgotten.sessions 2).activated ≡ true)
    × ((forgotten.sessions 2).tester_addr ≡ some 0x0e80)
    × (handle_echo_activation echo_config 3 asks_0e80 forgotten
        ≡ accept_activation echo_config 3 0x0e80 forgotten)
unfolding serve_echo dispatch_echo handle_echo_activation accept_activation byte_at lookup
evicted_forgets_successor_example =
    evicted_forgets_successor echo_config 2 0x0e80 1 3 asks_0e80 one_active (omega arith) refl
      (omega arith) refl

-- The VIN is asked for.
abbrev vin_frame : Bytes
vin_frame = echo_frame pt_diagnostic_message (0x0e ∷ 0x80 ∷ 0x00 ∷ 0x02 ∷ 0x22 ∷ 0xf1 ∷ 0x90 ∷ [])

serve_echo-diagnostic_example :
    (echo_read_frame (vin_frame ++ 7 ∷ []) ≡ some (vin_frame, 7 ∷ []))
    × (serve_echo echo_config 1 vin_frame [] one_active
        ≡ reads_on (
            echo_send 1 pt_diagnostic_message
              (0x00
                ∷ 0x02
                ∷ 0x0e
                ∷ 0x80
                ∷ echo_uds_response echo_config (0x22 ∷ 0xf1 ∷ 0x90 ∷ []) [])
              (echo_send 1 pt_diagnostic_positive_ack
                (0x0e ∷ 0x80 ∷ 0x00 ∷ 0x02 ∷ 0x00 ∷ [])
                one_active)))
unfolding serve_echo dispatch_echo handle_echo_activation accept_activation byte_at lookup
serve_echo-diagnostic_example =
    serve_echo-diagnostic echo_config 1 0x0e80 0x0002 (0x22 ∷ 0xf1 ∷ 0x90 ∷ []) [] (7 ∷ [])
      one_active refl
