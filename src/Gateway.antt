-- ===== src/Gateway.antt =====
-- doip_edgenode: the gateway between testers and the ECUs behind it. Here: the configuration that its
-- sessions read, and the frames they build. The payload types and NACK codes are those of Doip.
pub mod Wire
pub mod Exchange
pub mod Activation
pub mod Diagnostic
pub mod Serving
pub mod EcuLink
pub mod Middleware
pub mod Announcer
use doip_playground.Base.{
  leb, if◌then◌else◌, contains, length, Bytes, pack_u16, pack_u32, unpack_u16, ℕ, zero, suc,
  bit_xor, Bool, true, ◌&&◌, List, [], ◌∷◌, ◌++◌,
}

-- The fields of `DoIPConfig` and `TimerConfig` that the model reads; times are in milliseconds.
pub record GatewayConfig : Type 0 where
  pub vin : Bytes
  pub node_type : ℕ
  pub node_logical_addr : ℕ
  pub power_mode : ℕ
  pub max_payload_bytes : ℕ
  pub tester_addr_low : ℕ
  pub tester_addr_high : ℕ
  pub tester_addr_list : List ℕ
  pub max_connections : ℕ
  pub ecu_response_timeout : ℕ
  pub ecu_pending_max_wait : ℕ
  pub strict_response_matching : Bool

-- `is_tester_allowed`
unfoldable pub is_tester_allowed : GatewayConfig → ℕ → Bool
is_tester_allowed config addr =
    if leb config.tester_addr_low addr && leb addr config.tester_addr_high
    then true
    else contains addr config.tester_addr_list

-- `_build_frame` in its default version, for a payload of fewer than 2 ^ 32 bytes
abbrev pub wire_frame : ℕ → Bytes → Bytes
wire_frame payload_type payload =
    0x02 ∷ bit_xor 0xff 0x02 ∷ (pack_u16 payload_type ++ (pack_u32 (length payload) ++ payload))

-- `raw[n]`, read only where the code knows that it is there
unfoldable pub byte_at : ℕ → Bytes → ℕ
byte_at n [] = 0
byte_at zero (b ∷ bs) = b
byte_at (suc n) (b ∷ bs) = byte_at n bs

-- `int.from_bytes(raw[n:n+2], "big")`, for raw of n + 2 bytes or more
abbrev pub word_at : ℕ → Bytes → ℕ
word_at n raw = unpack_u16 (byte_at n raw) (byte_at (suc n) raw)
