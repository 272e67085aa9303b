-- ===== src/Tests/Gateways.antt =====
-- The edge node's framing, activation, diagnostics and exchanges at concrete inputs.
use doip_playground.Base.{
  contains, length, take, drop, replicate, lookup, insert, erase, Bytes, ℕ, ◌+◌, ◌≤◌, ◌≡◌, refl,
  Bool, true, false, some, List, [], ◌∷◌, ◌++◌, arith,
}
use doip_playground.Doip.{
  pt_diagnostic_message, pt_diagnostic_positive_ack, pt_diagnostic_negative_ack, declared_len,
}
use doip_playground.Gateway.{is_tester_allowed, wire_frame, byte_at, GatewayConfig}
use doip_playground.Gateway.Wire.{read_wire_frame, read_frames, got, nacked}
use doip_playground.Gateway.Wire.Framing.{InStep, read_wire_frame-InStep}
use doip_playground.Gateway.Wire.Streams.{stream_of, read_frames-stream_of, Sent}
use doip_playground.Gateway.Exchange.{
  recv_ecu_frame, give_up, on_wait, exchange_round, exchange_loop, exchange, Delivery, frame_at,
}
use doip_playground.Gateway.Exchange.Whole.{EndsSettled, exchange-Settled}
use doip_playground.Gateway.Activation.Steps.{
  empty_edge, connects, requests, acquires, EdgeReach, begins, then_step,
}
use doip_playground.Gateway.Activation.{
  send_raw, reserve, attach, connect, commit, commit_open, check_capacity, resolve_owner,
  stop_initial_timer, request_activation, enter_lock, Edge,
}
use doip_playground.Gateway.Activation.Exclusive.{EdgeReach-exclusive}
use doip_playground.Gateway.Diagnostic.{
  send_diag_nack, lookup_by_ecu_addr, connect_to_ecu, route, handle_diagnostic_message,
  dispatch_frame, goes_on, passed, opened,
}
use doip_playground.Gateway.Diagnostic.Forwarding.{Forwards, handle_diagnostic_message-Forwards}
use doip_playground.Gateway.Serving.{serve_handling, by_command, serve_frame, EcuSide, served}
use doip_playground.Gateway.Serving.Back.{ServedBack, serve_frame-Back, InTime}

abbrev pub node : GatewayConfig
node = record {
  vin = 87 ∷ 48 ∷ [];
  node_type = 0;
  node_logical_addr = 0x1234;
  power_mode = 1;
  max_payload_bytes = 16;
  tester_addr_low = 0x0e00;
  tester_addr_high = 0x0fff;
  tester_addr_list = [];
  max_connections = 2;
  ecu_response_timeout = 10;
  ecu_pending_max_wait = 50;
  strict_response_matching = true;
}

abbrev stays_open : ℕ → Bool
stays_open _ = false

-- A read of the VIN, its ACK, ResponsePending and answer.
abbrev read_vin : Bytes
read_vin = wire_frame pt_diagnostic_message (0x0e ∷ 0x80 ∷ 0 ∷ 2 ∷ 0x22 ∷ 0xf1 ∷ 0x90 ∷ [])

abbrev vin_ack : Bytes
vin_ack = wire_frame pt_diagnostic_positive_ack (0 ∷ 2 ∷ 0x0e ∷ 0x80 ∷ 0 ∷ [])

abbrev vin_pending : Bytes
vin_pending = wire_frame pt_diagnostic_message (0 ∷ 2 ∷ 0x0e ∷ 0x80 ∷ 0x7f ∷ 0x22 ∷ 0x78 ∷ [])

abbrev vin_answer : Bytes
vin_answer = wire_frame pt_diagnostic_message (0 ∷ 2 ∷ 0x0e ∷ 0x80 ∷ 0x62 ∷ 0xf1 ∷ 0x90 ∷ 87 ∷ [])

abbrev slow_ecu : List Delivery
slow_ecu = frame_at 5 vin_ack ∷ frame_at 9 vin_pending ∷ frame_at 45 vin_answer ∷ []

exchange-Settled_example :
    EndsSettled node stays_open 0x22 read_vin 50
      (exchange node stays_open (some 0x22) read_vin 60 0 (some 1) 0 slow_ecu)
exchange-Settled_example =
    exchange-Settled node stays_open 0x22 read_vin 60 0 (some 1) 0 slow_ecu refl (omega arith)
      (omega arith) (omega arith)

-- A frame of an unknown type and a body over the limit, in front of the request.
abbrev noisy : List Sent
noisy =
    record { sent_version = 2; sent_type = 0xdead; sent_body = 1 ∷ 2 ∷ [] }
    ∷ record { sent_version = 3; sent_type = 0x8001; sent_body = replicate 20 0 }
    ∷ record { sent_version = 2; sent_type = 0x8001; sent_body = 0x0e ∷ 0x80 ∷ 0 ∷ 2 ∷ 0x22 ∷ [] }
    ∷ []

read_frames-stream_of_example :
    read_frames node true 4 (stream_of noisy [])
    ≡ nacked 1
      ∷ nacked 2
      ∷ got (2 ∷ 253 ∷ 128 ∷ 1 ∷ 0 ∷ 0 ∷ 0 ∷ 5 ∷ 0x0e ∷ 0x80 ∷ 0 ∷ 2 ∷ 0x22 ∷ [])
      ∷ read_frames node true 1 []
unfolding lookup contains
read_frames-stream_of_example = read_frames-stream_of node noisy 1 [] (
  (refl, λ ls e le. absurd (ground arith)),
  ((refl, λ ls e le. absurd (omega arith)), ((refl, λ ls e le. ground arith), tt)),
)

read_wire_frame-InStep_example :
    InStep (read_vin ++ []) (7 ∷ []) (read_wire_frame node true (read_vin ++ 7 ∷ []))
unfolding declared_len
read_wire_frame-InStep_example =
    read_wire_frame-InStep node (take 8 read_vin) (drop 8 read_vin) (7 ∷ []) refl refl

handle_diagnostic_message-Forwards_example :
    Forwards node
      (2 ∷ [])
      []
      stays_open
      (opened 7)
      (some 0x0e80)
      (passed read_vin)
      read_vin
      2
      7
      read_vin
unfolding handle_diagnostic_message route connect_to_ecu lookup_by_ecu_addr byte_at lookup
handle_diagnostic_message-Forwards_example =
    handle_diagnostic_message-Forwards node (2 ∷ []) [] stays_open (opened 7) (some 0x0e80) []
      (passed read_vin) read_vin read_vin 2 7 (omega arith) refl

-- One session that is connected and activated.
abbrev edge_connected : Edge
edge_connected = connect node 1 (empty_edge node)

abbrev edge_queued : Edge
edge_queued = request_activation node 1 0x0e80 0 (stop_initial_timer node 1 edge_connected)

abbrev edge_active : Edge
edge_active = enter_lock node 1 0x0e80 edge_queued

edge_active_reached : EdgeReach node edge_active
unfolding connect attach reserve lookup insert request_activation is_tester_allowed contains
edge_active_reached =
    then_step (then_step (then_step begins (connects 1 refl)) (requests 1 0x0e80 0 refl refl))
      (acquires 1 0x0e80 refl refl)

EdgeReach-exclusive_example :
    ◌≡◌ {A = ℕ} 1 1
    × (lookup 0x0e80 edge_active.registered ≡ some 1)
    × (length edge_active.registered ≤ 2)
    × (length edge_active.open_sockets ≤ 2 + 1)
unfolding connect attach reserve lookup insert request_activation is_tester_allowed contains
    resolve_owner check_capacity commit_open commit send_raw erase
EdgeReach-exclusive_example =
    EdgeReach-exclusive node edge_active 1 1 0x0e80 edge_active_reached refl refl refl refl refl
      refl

-- The middleware has put another target into the message, and that ECU stays silent.
abbrev rewritten : Bytes
rewritten = wire_frame pt_diagnostic_message (0x0e ∷ 0x80 ∷ 0 ∷ 3 ∷ 0x22 ∷ 0xf1 ∷ 0x90 ∷ [])

abbrev silent_side : EcuSide
silent_side = record {
  closing = stays_open;
  start = 0;
  written = some 1;
  failed_at = 0;
  arriving = [];
}

silent_side-InTime : InTime node 60 silent_side
silent_side-InTime = record {
  some_time = omega arith;
  written_by = omega arith;
  enough = omega arith;
}

serve_frame-Back_example : ServedBack read_vin (
    serve_frame node
      (3 ∷ [])
      []
      stays_open
      (opened 7)
      1
      []
      (passed rewritten)
      60
      silent_side
      true
      (some 0x0e80)
      read_vin)
serve_frame-Back_example =
    serve_frame-Back node (3 ∷ []) [] stays_open (opened 7) 1 [] (passed rewritten) 60 silent_side
      true (some 0x0e80) read_vin (omega arith) (unfold byte_at in refl) silent_side-InTime

-- What goes back then: a NACK of the message as the tester sent it.
silent_side-nacks :
    serve_frame node
      (3 ∷ [])
      []
      stays_open
      (opened 7)
      1
      []
      (passed rewritten)
      60
      silent_side
      true
      (some 0x0e80)
      read_vin
    ≡ served
        (wire_frame pt_diagnostic_negative_ack (0 ∷ 2 ∷ 0x0e ∷ 0x80 ∷ 0x06 ∷ []) ∷ [])
        []
        goes_on
unfolding serve_frame by_command dispatch_frame byte_at serve_handling handle_diagnostic_message
    route lookup connect_to_ecu lookup_by_ecu_addr exchange exchange_loop exchange_round on_wait
    recv_ecu_frame give_up send_diag_nack
silent_side-nacks = refl
