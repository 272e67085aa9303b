-- ===== src/Tests.antt =====
-- A small ECU, and the properties at concrete inputs.
pub mod Framing
pub mod Requests
pub mod Connections
pub mod Tasks
pub mod Gateways
pub mod Discoveries
pub mod Links
pub mod Echoes
use doip_playground.Base.{◌==◌, if◌then◌else◌, Bytes, ℕ, true, false, none, some, [], ◌∷◌}
use doip_playground.Config.{
  UdsConfig, DidSpec, RoutineSpec, EcuConfig, Policy, ErrorPolicy, Algorithm,
}
use doip_playground.Uds.{dids, UdsRequest}
use doip_playground.Effect.{SessionState, World}
use doip_playground.Hooks.{Context}
use doip_playground.Session.{Connection, System}

abbrev pub tester : ℕ
tester = 0x0e80

abbrev pub vin_did : ℕ
vin_did = 0xf190

abbrev pub vin : DidSpec
vin = record {
  dynamic = false;
  size = some 2;
  value = some (7 ∷ 8 ∷ []);
  read = true;
  write = true;
  read_sessions = none;
  write_sessions = none;
  read_security = 0;
  write_security = 0;
  read_nrc = none;
  write_nrc = none;
}

abbrev pub erase_rid : ℕ
erase_rid = 0x0203

abbrev pub erase_routine : RoutineSpec
erase_routine = record {
  start = 1 ∷ [];
  stop = 2 ∷ [];
  results = 3 ∷ [];
  sessions = none;
  security = 0;
}

abbrev pub small_uds : UdsConfig
small_uds = record {
  default_session = 1;
  s3_server_ms = 5000;
  p2_server_ms = 50;
  p2_star_server_ms = 5000;
  auto_response_pending = true;
  max_response_pending = 2;
  suppress_pos_rsp_bit = true;
  functional_addr = 0xe400;
  unknown_service = Policy.nrc;
  unknown_did = Policy.nrc;
  on_handler_error = ErrorPolicy.nrc;
  reset_clears_writes = true;
  reset_drops_connection = true;
  sessions = 1 ∷ 2 ∷ 3 ∷ [];
  security = record {
    enabled = true;
    seed = 1 ∷ 2 ∷ [];
    algorithm = Algorithm.add;
    key = 1 ∷ 1 ∷ [];
    max_attempts = 3;
  };
}

abbrev pub small : EcuConfig
small = record {
  doip = record {
    ecu_logical_addr = 0x1000;
    max_payload_bytes = 100;
    tester_addr_low = 0x0e00;
    tester_addr_high = 0x0eff;
    initial_inactivity_ms = 2000;
    general_inactivity_ms = 300000;
    max_concurrent_sessions = 2;
  };
  uds = small_uds;
  dids = (vin_did, vin) ∷ [];
  routines = (erase_rid, erase_routine) ∷ [];
}

-- Object 0 belongs to the tester: in an extended session, with a seed pending and a failed key.
abbrev pub busy_state : SessionState
busy_state = record {
  session_type = 3;
  security_level = 0;
  seed_pending = some 1;
  security_attempts = 1;
  tester_addr = some tester;
  activated = true;
  s3_task = some 5000;
}

abbrev pub tidy_state : SessionState
tidy_state = record {
  session_type = 1;
  security_level = 0;
  seed_pending = none;
  security_attempts = 2;
  tester_addr = some tester;
  activated = true;
  s3_task = none;
}

abbrev pub world_of : SessionState → World
world_of s = record {
  now = 100;
  objects = λ _. s;
  next_object = 1;
  session_states = (tester, 0) ∷ [];
  did_values = (vin_did, 7 ∷ 8 ∷ []) ∷ [];
  routine_state = some ((erase_rid, true) ∷ []);
  sent = [];
}

abbrev pub request : Bytes → UdsRequest
request raw = record { raw = raw; source_addr = tester; target_addr = 0x1000; functional = false }

abbrev pub asks : Bytes → Context
asks raw = record { request = request raw; session = 0 }

abbrev pub idle : Connection
idle = record {
  activated = false;
  tester = none;
  state = none;
  queue = [];
  req_version = 2;
  initial_deadline = some 2000;
  general_deadline = none;
  finalized = false;
  is_open = true;
}

abbrev pub active : Connection
active = record {
  activated = true;
  tester = some tester;
  state = some 0;
  queue = [];
  req_version = 3;
  initial_deadline = none;
  general_deadline = some 1000;
  finalized = false;
  is_open = true;
}

-- Connection 0 is registered for the tester; the others are idle.
abbrev pub one_active : System
one_active = record {
  world = world_of busy_state;
  connections = λ i. if i == 0 then active else idle;
  registry = (tester, 0) ∷ [];
  out = [];
}
