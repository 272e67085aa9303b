-- ===== src/Tests/Links.antt =====
-- The edge node's connections to ECUs and its middleware at concrete inputs.
use doip_playground.Base.{
  contains, lookup, Bytes, ℕ, suc, ◌≡◌, refl, true, false, none, List, [], ◌∷◌, ◌++◌, arith,
}
use doip_playground.Doip.{
  pt_routing_act_response, pt_alive_check_request, pt_diagnostic_message, read_exactly,
}
use doip_playground.Gateway.{wire_frame, byte_at}
use doip_playground.Gateway.Diagnostic.{dropped}
use doip_playground.Gateway.EcuLink.{
  ecu_length_valid, read_ecu_frame, await_activation, mark_terminal, background_frames, recv_times,
  raises, gives,
}
use doip_playground.Gateway.EcuLink.Setup.{GrantedBy, do_routing_activation-GrantedBy}
use doip_playground.Gateway.EcuLink.Queue.{relevant, open_leg, recv_times-ended}
use doip_playground.Gateway.Middleware.{
  drop_matches, drop_process, enabled_filters, run_chain, Filter, tester_to_ecu, ecu_to_tester,
  only,
}
use doip_playground.Gateway.Middleware.Cadence.{InCadence, injections-InCadence}
use doip_playground.Gateway.Middleware.Chain.{ComesThrough, run_chain-ComesThrough}

abbrev early_probe : Bytes
early_probe = wire_frame pt_alive_check_request []

abbrev granted_response : Bytes
granted_response =
    wire_frame pt_routing_act_response (0x0e ∷ 0x80 ∷ 0 ∷ 2 ∷ 0x10 ∷ 0 ∷ 0 ∷ 0 ∷ 0 ∷ [])

-- The ECU probes before it grants the activation.
do_routing_activation-GrantedBy_example :
    GrantedBy 4096 0x0e80 2 3 0 1 (early_probe ++ (granted_response ++ 7 ∷ [])) (7 ∷ [])
unfolding await_activation read_ecu_frame ecu_length_valid read_exactly lookup contains byte_at
do_routing_activation-GrantedBy_example =
    do_routing_activation-GrantedBy 4096 0x0e80 2 1 (early_probe ++ (granted_response ++ 7 ∷ []))
      (7 ∷ []) refl

abbrev late_answer : Bytes
late_answer = wire_frame pt_diagnostic_message (0 ∷ 2 ∷ 0x0e ∷ 0x80 ∷ 0x7e ∷ [])

recv_times-ended_example :
    recv_times 3
      (mark_terminal false (background_frames (early_probe ∷ late_answer ∷ []) (open_leg [])))
    ≡ gives late_answer ∷ raises ∷ raises ∷ []
unfolding relevant byte_at
recv_times-ended_example = recv_times-ended (early_probe ∷ late_answer ∷ []) 2

-- Every second message to the ECU.
injections-InCadence_example :
    InCadence (only tester_to_ecu) 2 (tester_to_ecu ∷ ecu_to_tester ∷ tester_to_ecu ∷ []) 0
injections-InCadence_example =
    injections-InCadence (only tester_to_ecu) 2 (tester_to_ecu ∷ ecu_to_tester ∷ tester_to_ecu ∷ [])
      0 (omega arith)

-- A filter that drops nothing here, and one that is switched off and would drop everything.
abbrev two_filters : List (Filter ℕ)
two_filters =
    record {
      filter_enabled = true;
      process = λ raw d s. (drop_process (only ecu_to_tester) none true d raw, suc s);
    }
    ∷ record { filter_enabled = false; process = λ raw d s. (dropped, s) }
    ∷ []

run_chain-ComesThrough_example : ComesThrough two_filters tester_to_ecu late_answer 0 late_answer 1
unfolding run_chain enabled_filters drop_matches
run_chain-ComesThrough_example =
    run_chain-ComesThrough two_filters tester_to_ecu late_answer 0 late_answer 1 refl
