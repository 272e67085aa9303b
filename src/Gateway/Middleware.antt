-- ===== src/Gateway/Middleware.antt =====
-- doip_edgenode/middleware: the chain, and the filters that work on bytes or counters. A packet is its
-- bytes; a random draw is an argument; setting a header field of a packet is a parameter.
pub mod Cadence
pub mod Chain
use doip_playground.Base.{
  leb, ◌==◌, if◌then◌else◌, length, take, drop, Bytes, ℕ, zero, suc, bit_xor, Bool, true, false,
  not, ◌&&◌, Option, none, some, List, [], ◌∷◌, ◌++◌,
}
use doip_playground.Gateway.{word_at}
use doip_playground.Gateway.Diagnostic.{Verdict, faulted, dropped, passed}

pub data Direction : Type 0 where
  tester_to_ecu ecu_to_tester : Direction

-- The direction of a filter's settings; `both` of HeaderFaultMiddleware, None of DropMiddleware.
pub data Selected : Type 0 where
  only : Direction → Selected
  both_directions : Selected

abbrev pub direction_selected : Selected → Direction → Bool
direction_selected both_directions d = true
direction_selected (only tester_to_ecu) tester_to_ecu = true
direction_selected (only ecu_to_tester) ecu_to_tester = true
direction_selected (only tester_to_ecu) ecu_to_tester = false
direction_selected (only ecu_to_tester) tester_to_ecu = false

-- `HeaderFaultMiddleware._should_inject`, with its counter
unfoldable pub should_inject : Selected → ℕ → Direction → ℕ → Bool × ℕ
should_inject selected inject_on_nth d counter =
    if not (direction_selected selected d)
    then (false, counter)
    else if leb inject_on_nth (suc counter)
    then (true, 0)
    else (false, suc counter)

-- `HeaderFaultMiddleware.process`; `faulty` is what the fault makes of the packet.
abbrev pub header_fault_process :
    (Bytes → Bytes) → Selected → ℕ → Direction → Bytes → ℕ → Verdict × ℕ
header_fault_process faulty selected inject_on_nth d raw counter =
    let (inject, counter') = should_inject selected inject_on_nth d counter in
    (passed (if inject then faulty raw else raw), counter')

-- `DropMiddleware._matches`
unfoldable pub drop_matches : Selected → Option ℕ → Direction → Bytes → Bool
drop_matches selected match_type d raw =
    direction_selected selected d && elim match_type [ none ↦ true | some pt ↦ word_at 2 raw == pt ]

-- `DropMiddleware.process`, by whether the draw is below the rate
abbrev pub drop_process : Selected → Option ℕ → Bool → Direction → Bytes → Verdict
drop_process selected match_type drawn d raw =
    if drop_matches selected match_type d raw && drawn then dropped else passed raw

-- `payload[offset] ^= mask`
unfoldable pub flip_at : ℕ → ℕ → Bytes → Bytes
flip_at mask offset [] = []
flip_at mask zero (b ∷ bs) = bit_xor b mask ∷ bs
flip_at mask (suc offset) (b ∷ bs) = b ∷ flip_at mask offset bs

-- `CorruptMiddleware.process`; `drawn` is the random offset within the payload.
unfoldable pub corrupt_process : Option ℕ → ℕ → ℕ → Bytes → Bytes
corrupt_process byte_offset flip_mask drawn raw =
    if length (drop 8 raw) == 0 then raw else elim byte_offset [
      | none ↦ take 8 raw ++ flip_at flip_mask drawn (drop 8 raw)
      | some offset ↦
          if leb (length (drop 8 raw)) offset
          then raw
          else take 8 raw ++ flip_at flip_mask offset (drop 8 raw)
    ]

-- An enabled or disabled middleware, on the state of all of them.
pub record Filter (S : Type 0) : Type 0 where
  pub filter_enabled : Bool
  pub process : Bytes → Direction → S → Verdict × S

module _ {S : Type 0} where
  -- `MiddlewareChain.__init__`
  unfoldable pub enabled_filters : List (Filter S) → List (Filter S)
  enabled_filters [] = []
  enabled_filters (f ∷ fs) =
      let rest = enabled_filters fs in if f.filter_enabled then f ∷ rest else rest

  abbrev pub then_next : Verdict × S → (Bytes → S → Verdict × S) → Verdict × S
  then_next (passed raw, s) next = next raw s
  then_next (dropped, s) next = (dropped, s)
  then_next (faulted code, s) next = (faulted code, s)

  -- The loop of `MiddlewareChain.run`
  unfoldable pub run_chain : List (Filter S) → Direction → Bytes → S → Verdict × S
  run_chain [] d raw s = (passed raw, s)
  run_chain (f ∷ fs) d raw s = then_next (f.process raw d s) (run_chain fs d)
