-- ===== src/Gateway/EcuLink.antt =====
-- doip_edgenode/ecu_client.py, on a plain socket: the frames that are accepted from an ECU, the routing
-- activation towards it, and the queue between the background reader and `recv`. A stream is what
-- the ECU sends before it closes, in time for each read of the activation.
pub mod Setup
pub mod Queue
use doip_playground.Base.{
  ltb, leb, ◌==◌, if◌then◌else◌, contains, lookup, Bytes, pack_u16, unpack_u16, unpack_u32, ℕ, zero,
  suc, bit_xor, Bool, true, false, not, ◌&&◌, ◌||◌, Option, none, some, List, [], ◌∷◌, ◌++◌,
}
use doip_playground.Doip.{
  ver, pt_header_nack, pt_routing_act_request, pt_routing_act_response, pt_alive_check_request,
  pt_alive_check_response, read_exactly, ptype,
}
use doip_playground.Gateway.{wire_frame, byte_at, word_at}

-- `fixed_lengths`
abbrev pub ecu_fixed_lengths : List (ℕ × List ℕ)
ecu_fixed_lengths =
    (0x0000, 1 ∷ [])
    ∷ (pt_routing_act_response, 9 ∷ 13 ∷ [])
    ∷ (pt_alive_check_request, 0 ∷ [])
    ∷ (pt_alive_check_response, 2 ∷ [])
    ∷ (0x4002, 3 ∷ 7 ∷ [])
    ∷ (0x4004, 1 ∷ [])
    ∷ []

-- Whether the type is supported, with a length that it may have.
unfoldable pub ecu_length_valid : ℕ → ℕ → Bool
ecu_length_valid ptype n = elim (lookup ptype ecu_fixed_lengths) [
  | some lengths ↦ contains n lengths
  | none ↦ contains ptype (0x8001 ∷ 0x8002 ∷ 0x8003 ∷ []) && leb 5 n
]

-- `_build_ra_request`
abbrev pub ra_request : ℕ → Bytes
ra_request src_addr =
    wire_frame pt_routing_act_request (pack_u16 src_addr ++ 0x00 ∷ 0 ∷ 0 ∷ 0 ∷ 0 ∷ [])

-- `_send_alive_check_response`
abbrev pub alive_reply : ℕ → Bytes
alive_reply tester = wire_frame pt_alive_check_response (pack_u16 tester)

module _ (max_payload_bytes : ℕ) where
  -- `_read_frame`: the frame and what follows it, or none for its error or the end of the stream
  unfoldable pub read_ecu_frame : Bytes → Option (Bytes × Bytes)
  read_ecu_frame (ver ∷ inv ∷ hi ∷ lo ∷ a ∷ b ∷ c ∷ d ∷ rest) =
      if not (contains ver (0x02 ∷ 0x03 ∷ [])) || not (inv == bit_xor ver 0xff)
      then none
      else if ltb max_payload_bytes (unpack_u32 a b c d)
      then none
      else if ecu_length_valid (unpack_u16 hi lo) (unpack_u32 a b c d)
      then elim (read_exactly (unpack_u32 a b c d) rest) [
        | none ↦ none
        | some (payload, left) ↦ some ((ver ∷ inv ∷ hi ∷ lo ∷ a ∷ b ∷ c ∷ d ∷ []) ++ payload, left)
      ]
      else none
  read_ecu_frame _ = none

-- How the activation goes: with the alive check replies sent and the stream behind it, or not.
pub data SetupResult : Type 0 where
  linked : ℕ → Bytes → SetupResult
  setup_failed : SetupResult

module _ (max_payload_bytes tester ecu_addr : ℕ) where
  -- The checks of a Routing Activation Response.
  abbrev pub is_accepted : Bytes → Bool
  is_accepted raw = word_at 8 raw == tester && word_at 10 raw == ecu_addr && byte_at 12 raw == 0x10

  -- The loop of `_do_routing_activation`, by the frames it may still read.
  unfoldable pub await_activation : ℕ → ℕ → Bytes → SetupResult
  await_activation zero replies stream = setup_failed
  await_activation (suc left) replies stream = elim (read_ecu_frame max_payload_bytes stream) [
    | none ↦ setup_failed
    | some (raw, rest) ↦
        let skip = await_activation left replies rest in
        let reply = await_activation left (suc replies) rest in
        if word_at 2 raw == pt_header_nack
        then skip
        else if word_at 2 raw == pt_alive_check_request
        then reply
        else if word_at 2 raw == pt_routing_act_response
        then (if is_accepted raw then linked replies rest else setup_failed)
        else setup_failed
  ]

  abbrev pub do_routing_activation : Bytes → SetupResult
  do_routing_activation stream = await_activation 3 0 stream

-- What stands in `_recv_queue`: a frame, or the marker of the end.
pub data Item : Type 0 where
  queued_frame : Bytes → Item
  end_marker : Item

pub record EcuLeg : Type 0 where
  pub leg_connected : Bool
  pub terminated : Bool
  pub recv_queue : List Item

-- `_mark_terminal`
unfoldable pub mark_terminal : Bool → EcuLeg → EcuLeg
mark_terminal discard leg = record {
  leg_connected = false;
  terminated = true;
  recv_queue =
      let kept = if discard then [] else leg.recv_queue in
      if not leg.terminated || discard then kept ++ end_marker ∷ [] else kept;
}

-- A frame that `_background_reader` has read: a Header NACK is dropped, an Alive Check Request is
-- answered, any other is queued. The Boolean says whether a reply is sent.
unfoldable pub background_frame : Bytes → EcuLeg → Bool × EcuLeg
background_frame raw leg =
    if word_at 2 raw == pt_header_nack
    then (false, leg)
    else if word_at 2 raw == pt_alive_check_request
    then (true, leg)
    else (false, record leg { recv_queue = leg.recv_queue ++ queued_frame raw ∷ [] })

unfoldable pub background_frames : List Bytes → EcuLeg → EcuLeg
background_frames [] leg = leg
background_frames (raw ∷ raws) leg = background_frames raws (background_frame raw leg).1

-- How a `recv` goes: it waits, returns a frame, or raises.
pub data Received : Type 0 where
  waits raises : Received
  gives : Bytes → Received

unfoldable pub recv_items : List Item → Received × List Item
recv_items [] = (waits, [])
recv_items (queued_frame raw ∷ items) = (gives raw, items)
recv_items (end_marker ∷ items) = (raises, items ++ end_marker ∷ [])

-- `recv`
unfoldable pub recv_frame : EcuLeg → Received × EcuLeg
recv_frame leg =
    if not leg.leg_connected && not leg.terminated
    then (raises, leg)
    else (let (r, items) = recv_items leg.recv_queue in (r, record leg { recv_queue = items }))

-- Several calls, one after another, to the first that waits.
unfoldable pub recv_times : ℕ → EcuLeg → List Received
recv_times zero leg = []
recv_times (suc n) leg = (recv_frame leg).0 ∷ recv_times n (recv_frame leg).1
