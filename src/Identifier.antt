-- ===== src/Identifier.antt =====
-- virtual_ecu/virtecu/services/data_identifier.py: ReadDataByIdentifier and WriteDataByIdentifier.
pub mod Read
pub mod Write
use doip_playground.Base.{
  ltb, leb, ◌==◌, if◌then◌else◌, contains, length, lookup, Bytes, pack_u16, unpack_u16, ℕ, suc, ◌%◌,
  Bool, true, false, not, ◌&&◌, Option, none, some, List, [], ◌∷◌, ◌++◌,
}
use doip_playground.Config.{DidSpec, EcuConfig, Policy}
use doip_playground.Uds.{
  nrc_incorrect_message_length, nrc_response_too_long, nrc_request_out_of_range,
  nrc_security_access_denied, did_active_diagnostic_session, uds_data, dids, positive,
}
use doip_playground.Effect.{◌>>◌, ◌>>=◌, Action, return, throw, get, modify, python_error}
use doip_playground.Store.{store_read, store_write}
use doip_playground.Hooks.{Buckets, Context, Value, no_response, py_bytes}
use doip_playground.Dispatcher.{resolve_did_read, resolve_did_write}
use doip_playground.Services.{raise_nrc, require, session_of}

-- `sessions is not None and ctx.session_type not in sessions`
abbrev pub session_allowed : Option (List ℕ) → ℕ → Bool
session_allowed none t = true
session_allowed (some ts) t = contains t ts

-- `_check_gates`
unfoldable pub check_gates : Context → Option (List ℕ) → ℕ → Action (Unit {0})
check_gates ctx sessions security = do
  w ← get
  require ctx (session_allowed sessions (session_of ctx w).session_type) nrc_request_out_of_range
  require ctx (leb security (session_of ctx w).security_level) nrc_security_access_denied

-- A forced NRC of the configuration
abbrev pub forced : Context → Option ℕ → Action (Unit {0})
forced ctx none = return tt
forced ctx (some code) = raise_nrc ctx code

-- `bytes([x])`, a `ValueError` above 255
abbrev pub one_byte : ℕ → Action Bytes
one_byte x = if ltb x 256 then return (x ∷ []) else throw python_error

module _ (config : EcuConfig) (t : Buckets) where
  unknown_by : Policy → Context → ℕ → Action (Option Bytes)
  unknown_by Policy.silent ctx did = return none
  unknown_by Policy.echo ctx did = return (some (pack_u16 did))
  unknown_by Policy.nrc ctx did = raise_nrc ctx nrc_request_out_of_range

  -- `_unknown_did`
  unfoldable pub unknown_did : Context → ℕ → Action (Option Bytes)
  unfolding unknown_by
  unknown_did ctx did = unknown_by config.uds.unknown_did ctx did

  -- `_dynamic_value`, with the error of a DID that nothing provides
  dynamic_value : Context → ℕ → Action (Option Bytes)
  dynamic_value ctx did =
      if did == did_active_diagnostic_session
      then (do w ← get; b ← one_byte (session_of ctx w).session_type; return (some b))
      else raise_nrc ctx nrc_request_out_of_range

  stored_value : Context → ℕ → Action (Option Bytes)
  stored_value ctx did = do
    w ← get
    elim (store_read did w) [
      | none ↦ raise_nrc ctx nrc_request_out_of_range
      | some v ↦ return (some v)
    ]

  -- The YAML entry, where it may be read.
  unfoldable pub read_spec : Context → ℕ → DidSpec → Action (Option Bytes)
  unfolding dynamic_value stored_value
  read_spec ctx did spec = do
    forced ctx spec.read_nrc
    check_gates ctx spec.read_sessions spec.read_security
    if spec.dynamic then dynamic_value ctx did else stored_value ctx did

  -- `_read_one` behind the hooks
  unfoldable pub read_table : Context → ℕ → Action (Option Bytes)
  read_table ctx did = elim (lookup did config.dids) [
    | none ↦ unknown_did ctx did
    | some spec ↦ if spec.read then read_spec ctx did spec else unknown_did ctx did
  ]

  unfoldable pub read_one : Context → ℕ → Action (Option Bytes)
  read_one ctx did = do
    value ← resolve_did_read config.uds t did ctx
    elim value [ some v ↦ return (some v) | none ↦ read_table ctx did ]

  -- `record += did + value`, unless the DID is skipped
  abbrev pub add_record : ℕ → Option Bytes → Bytes → Bytes
  add_record did none rest = rest
  add_record did (some v) rest = pack_u16 did ++ (v ++ rest)

  abbrev pub add_served : Option Bytes → ℕ → ℕ
  add_served none n = n
  add_served (some v) n = suc n

  -- The loop over `request.dids()`: the records in order, and how many there are.
  unfoldable pub read_all : Context → List ℕ → Action (Bytes × ℕ)
  read_all ctx [] = return ([], 0)
  read_all ctx (did ∷ rest) = do
    value ← read_one ctx did
    later ← read_all ctx rest
    return (add_record did value later.0, add_served value later.1)

  -- What follows the loop.
  abbrev pub finish_read : Context → Bytes × ℕ → Action Value
  finish_read ctx (body, served) =
      if served == 0
      then return no_response
      else if ltb config.doip.max_payload_bytes (length (positive ctx.request body))
      then raise_nrc ctx nrc_response_too_long
      else return (py_bytes (positive ctx.request body))

  unfoldable pub read_data_by_identifier : Context → Action Value
  read_data_by_identifier ctx = do
    let body = uds_data ctx.request
    require ctx (not (length body == 0) && length body % 2 == 0) nrc_incorrect_message_length
    all ← read_all ctx (dids ctx.request)
    finish_read ctx all

  abbrev pub size_fits : Option ℕ → Bytes → Bool
  size_fits none value = true
  size_fits (some n) value = length value == n

  -- The YAML entry, where there is one.
  unfoldable pub write_spec : Context → ℕ → Bytes → DidSpec → Action Value
  write_spec ctx did value spec = do
    require ctx spec.write nrc_request_out_of_range
    forced ctx spec.write_nrc
    check_gates ctx spec.write_sessions spec.write_security
    require ctx (size_fits spec.size value) nrc_incorrect_message_length
    modify (store_write did value)
    return (py_bytes (positive ctx.request (pack_u16 did)))

  -- `write_data_by_identifier` behind the hooks
  unfoldable pub write_table : Context → ℕ → Bytes → Action Value
  write_table ctx did value = elim (lookup did config.dids) [
    | some spec ↦ write_spec ctx did value spec
    | none ↦ unknown_did ctx did >>= λ echoed. elim echoed [
      | none ↦ return no_response
      | some b ↦ return (py_bytes (positive ctx.request b))
    ]
  ]

  abbrev pub by_verdict : Context → ℕ → Option Bool → Action Value → Action Value
  by_verdict ctx did none next = next
  by_verdict ctx did (some true) next = return (py_bytes (positive ctx.request (pack_u16 did)))
  by_verdict ctx did (some false) next = raise_nrc ctx nrc_request_out_of_range

  -- On the body of the request; shorter than three bytes, it is refused.
  write_body : Context → Bytes → Action Value
  write_body ctx (hi ∷ lo ∷ b ∷ value) = do
    accepted ← resolve_did_write config.uds t (unpack_u16 hi lo) (b ∷ value) ctx
    by_verdict ctx (unpack_u16 hi lo) accepted (write_table ctx (unpack_u16 hi lo) (b ∷ value))
  write_body ctx _ = raise_nrc ctx nrc_incorrect_message_length

  unfoldable pub write_data_by_identifier : Context → Action Value
  unfolding write_body
  write_data_by_identifier ctx = write_body ctx (uds_data ctx.request)
