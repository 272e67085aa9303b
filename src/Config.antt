-- ===== src/Config.antt =====
-- virtual_ecu/virtecu/config.py: the typed configuration that the running ECU reads, after loading.
-- Integers that the loader admits only when they are not negative are numbers here.
use doip_playground.Base.{Bytes, ℕ, Bool, Option, List}

-- `uds.unknown_service` and `uds.unknown_did`
pub data Policy : Type 0 where
  nrc echo silent : Policy

-- `uds.on_handler_error`
pub data ErrorPolicy : Type 0 where
  nrc fallthrough silent : ErrorPolicy

-- `uds.security.algorithm`
pub data Algorithm : Type 0 where
  plain exclusive_or add : Algorithm

pub record SecurityConfig : Type 0 where
  pub enabled : Bool
  pub seed : Bytes
  pub algorithm : Algorithm
  pub key : Bytes
  pub max_attempts : ℕ

pub record UdsConfig : Type 0 where
  pub default_session : ℕ
  pub s3_server_ms : ℕ
  pub p2_server_ms : ℕ
  pub p2_star_server_ms : ℕ
  pub auto_response_pending : Bool
  pub max_response_pending : ℕ
  pub suppress_pos_rsp_bit : Bool
  pub functional_addr : ℕ
  pub unknown_service : Policy
  pub unknown_did : Policy
  pub on_handler_error : ErrorPolicy
  pub reset_clears_writes : Bool
  pub reset_drops_connection : Bool
  pub sessions : List ℕ
  pub security : SecurityConfig

pub record DoipConfig : Type 0 where
  pub ecu_logical_addr : ℕ
  pub max_payload_bytes : ℕ
  pub tester_addr_low : ℕ
  pub tester_addr_high : ℕ
  pub initial_inactivity_ms : ℕ
  pub general_inactivity_ms : ℕ
  pub max_concurrent_sessions : ℕ

-- One entry of `data_identifiers:`; `dynamic` is the property `type == "dynamic"`.
pub record DidSpec : Type 0 where
  pub dynamic : Bool
  pub size : Option ℕ
  pub value : Option Bytes
  pub read : Bool
  pub write : Bool
  pub read_sessions : Option (List ℕ)
  pub write_sessions : Option (List ℕ)
  pub read_security : ℕ
  pub write_security : ℕ
  pub read_nrc : Option ℕ
  pub write_nrc : Option ℕ

pub record RoutineSpec : Type 0 where
  pub start : Bytes
  pub stop : Bytes
  pub results : Bytes
  pub sessions : Option (List ℕ)
  pub security : ℕ

pub record EcuConfig : Type 0 where
  pub doip : DoipConfig
  pub uds : UdsConfig
  pub dids : List (ℕ × DidSpec)
  pub routines : List (ℕ × RoutineSpec)
