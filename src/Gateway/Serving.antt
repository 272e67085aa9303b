-- ===== src/Gateway/Serving.antt =====
-- One frame of a tester in doip_edgenode/session.py from `_dispatch` to its end: a diagnostic message
-- with its exchange, up to the frames that the session itself makes in answer.
pub mod Back
use doip_playground.Base.{
  leb, if◌then◌else◌, length, Bytes, ℕ, Bool, Option, none, some, List, [], ◌∷◌,
}
use doip_playground.Doip.{nack_invalid_source_address, nack_generic_unknown_payload_type}
use doip_playground.Gateway.{byte_at, GatewayConfig}
use doip_playground.Gateway.Diagnostic.{
  header_nack_frame, send_diag_nack, entity_status_frame, power_mode_frame,
  handle_diagnostic_message, dispatch_frame, Ending, goes_on, fails, Handling, local, forward,
  Verdict, Attempt, Command, ignore, answer_status, answer_power, unknown_type, activate,
  probe_reply, refuse_early, diagnose,
}
use doip_playground.Gateway.Exchange.{exchange, Outcome, Delivery}

-- What a session does with a frame: it makes frames of its own, relays those of an ECU, and goes on or
-- fails; or it begins a routing activation, or takes a reply to a probe; or its exchange has not ended
-- on the fuel given.
pub data FrameTurn : Type 0 where
  served : List Bytes → List Bytes → Ending → FrameTurn
  activates : ℕ → ℕ → FrameTurn
  hears_probe : Bytes → FrameTurn
  unended : FrameTurn

-- `sent_bytes[12] if len(sent_bytes) >= 13 else None`
abbrev pub request_sid_of : Bytes → Option ℕ
request_sid_of sent_bytes =
    if leb 13 (length sent_bytes) then some (byte_at 12 sent_bytes) else none

-- What the outside does in an exchange: when the session is closing, when the exchange starts, when its
-- request is written or fails to be, and what the ECU's connection delivers.
pub record EcuSide : Type 0 where
  pub closing : ℕ → Bool
  pub start : ℕ
  pub written : Option ℕ
  pub failed_at : ℕ
  pub arriving : List Delivery

-- `_send_diag_nack` in an exchange, for a request of at least twelve bytes
abbrev pub own_frames : Handling → List Bytes
own_frames (local frames ending) = frames
own_frames (forward target conn bytes) = []

abbrev pub local_nack : Option (ℕ × Bytes) → List Bytes
local_nack none = []
local_nack (some (code, request)) = own_frames (send_diag_nack code request goes_on)

module _ (config : GatewayConfig) where
  abbrev pub exchanged : Option Outcome → FrameTurn
  exchanged none = unended
  exchanged (some o) = served (local_nack o.nack) o.frames goes_on

  -- `_handle_diagnostic` with `_exchange_with_ecu`, called with the bytes for the ECU and the message
  -- of the tester.
  unfoldable pub serve_handling : ℕ → EcuSide → Bytes → Handling → FrameTurn
  serve_handling fuel ecu raw (local frames ending) = served frames [] ending
  serve_handling fuel ecu raw (forward target conn processed) = exchanged (
      exchange config ecu.closing (request_sid_of processed) raw fuel ecu.start ecu.written
        ecu.failed_at ecu.arriving)

  module _ (table : List ℕ) (ecu_conns : List (ℕ × ℕ)) (connected : ℕ → Bool) (attempt : Attempt)
      (open_count : ℕ) (random : Bytes) (verdict : Verdict) where
    -- `_dispatch`, behind its decision
    unfoldable pub by_command : ℕ → EcuSide → Option ℕ → Command → FrameTurn
    by_command fuel ecu tester ignore = served [] [] goes_on
    by_command fuel ecu tester answer_status =
        served (entity_status_frame config open_count ∷ []) [] goes_on
    by_command fuel ecu tester answer_power = served (power_mode_frame config ∷ []) [] goes_on
    by_command fuel ecu tester unknown_type =
        served (header_nack_frame nack_generic_unknown_payload_type ∷ []) [] goes_on
    by_command fuel ecu tester (refuse_early raw) =
        serve_handling fuel ecu raw (send_diag_nack nack_invalid_source_address raw fails)
    by_command fuel ecu tester (activate src activation_type) = activates src activation_type
    by_command fuel ecu tester (probe_reply raw) = hears_probe raw
    by_command fuel ecu tester (diagnose raw) = serve_handling fuel ecu raw (
        handle_diagnostic_message config tester random table ecu_conns connected attempt verdict
          raw)

    -- `_dispatch`
    unfoldable pub serve_frame : ℕ → EcuSide → Bool → Option ℕ → Bytes → FrameTurn
    serve_frame fuel ecu activated tester raw =
        by_command fuel ecu tester (dispatch_frame activated raw)
