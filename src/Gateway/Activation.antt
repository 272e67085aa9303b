-- ===== src/Gateway/Activation.antt =====
-- Routing activation in doip_edgenode/session.py, with the registry of session_registry.py, for all
-- sessions at once. A number names a session and its socket. A handler runs from one wait to the
-- next as one function; `Place` says where a session's task waits. Whether a probed tester is alive
-- is an argument. A frame that is sent is written at once.
pub mod Steps
pub mod Admission
pub mod Registered
pub mod Turns
pub mod Commits
pub mod Handlers
pub mod Exclusive
use doip_playground.Base.{
  leb, ◌==◌, if◌then◌else◌, contains, length, replicate, lookup, insert, erase, Bytes, pack_u16, ℕ,
  ◌+◌, Bool, true, false, not, ◌&&◌, Option, none, some, List, [], ◌∷◌, ◌++◌,
}
use doip_playground.Doip.{pt_routing_act_response, pt_alive_check_request}
use doip_playground.Gateway.{is_tester_allowed, wire_frame, GatewayConfig}

pub record DoipSession : Type 0 where
  pub activated : Bool
  pub tester_logical_addr : Option ℕ
  pub closing : Bool
  pub transport_closed : Bool
  pub initial_timer : Bool
  pub inactivity_timer : Bool

-- Where the task of a session is: not begun, between two frames, waiting for the activation lock of
-- an address, for another session's Alive Check, for the capacity lock, for the probes of a snapshot
-- of the registry, behind the evictions that follow from them, or ended.
pub data Place : Type 0 where
  absent reading gone : Place
  queued : ℕ → Place
  probing : ℕ → ℕ → Place
  waiting_capacity : ℕ → Place
  reclaiming : ℕ → List (ℕ × ℕ) → Place
  deciding : ℕ → Place

-- `registered` is `SessionRegistry._sessions`, `holders` says who is inside which activation lock.
pub record Edge : Type 0 where
  pub sessions : ℕ → DoipSession
  pub places : ℕ → Place
  pub open_sockets : List (ℕ × Option ℕ)
  pub registered : List (ℕ × ℕ)
  pub holders : List (ℕ × ℕ)
  pub out : List (ℕ × Bytes)

abbrev pub put_session : ℕ → DoipSession → (ℕ → DoipSession) → ℕ → DoipSession
put_session i s f j = if j == i then s else f j

abbrev pub put_place : ℕ → Place → (ℕ → Place) → ℕ → Place
put_place i p f j = if j == i then p else f j

abbrev pub goto : ℕ → Place → Edge → Edge
goto i p e = record e { places = put_place i p e.places }

-- `SessionRegistry.unregister`
unfoldable pub unregister_session : ℕ → ℕ → List (ℕ × ℕ) → List (ℕ × ℕ)
unregister_session addr i registered = elim (lookup addr registered) [
  | none ↦ registered
  | some j ↦ if j == i then erase addr registered else registered
]

abbrev pub unregister_if : Option ℕ → ℕ → List (ℕ × ℕ) → List (ℕ × ℕ)
unregister_if none i registered = registered
unregister_if (some addr) i registered = unregister_session addr i registered

-- `SessionRegistry.release`
abbrev pub release : ℕ → List (ℕ × Option ℕ) → List (ℕ × Option ℕ)
release i sockets = erase i sockets

-- `_close_transport_and_registry`
unfoldable pub close_transport : ℕ → Edge → Edge
close_transport i e =
    let s = e.sessions i in
    if s.transport_closed then e else record e {
      sessions =
          put_session i
            (record s { transport_closed = true; initial_timer = false; inactivity_timer = false })
            e.sessions;
      open_sockets = release i e.open_sockets;
      registered = unregister_if s.tester_logical_addr i e.registered;
    }

-- `_schedule_cleanup`, which is also `evict`
unfoldable pub schedule_cleanup : ℕ → Edge → Edge
unfolding close_transport
schedule_cleanup i e =
    close_transport i
      (record e { sessions = put_session i (record (e.sessions i) { closing = true }) e.sessions })

-- `_send_raw`
unfoldable pub send_raw : ℕ → Bytes → Edge → Edge
send_raw i raw e = if (e.sessions i).closing then e else record e { out = e.out ++ (i, raw) ∷ [] }

-- The end of the activation lock's block, and of the session's task by an error or a cancellation.
abbrev pub leave_lock : ℕ → Edge → Edge
leave_lock addr e = record e { holders = erase addr e.holders }

abbrev pub end_session : ℕ → Edge → Edge
end_session i e = goto i gone (schedule_cleanup i e)

abbrev pub fail_locked : ℕ → ℕ → Edge → Edge
fail_locked i src e = end_session i (leave_lock src e)

abbrev pub is_tester_of : DoipSession → ℕ → Bool
is_tester_of s src = elim s.tester_logical_addr [ none ↦ false | some addr ↦ addr == src ]

-- `existing is None or existing is self`
abbrev pub other_owner : ℕ → Option ℕ → Option ℕ
other_owner i none = none
other_owner i (some j) = if j == i then none else some j

abbrev pub owns_address : Option ℕ → ℕ → Bool
owns_address none j = false
owns_address (some k) j = k == j

-- `SessionRegistry.reserve` and `attach`: with the socket's session, if there is room.
unfoldable pub reserve : ℕ → ℕ → List (ℕ × Option ℕ) → Bool × List (ℕ × Option ℕ)
reserve max_connections i sockets = elim (lookup i sockets) [
  | some _ ↦ (true, sockets)
  | none ↦
      if leb (max_connections + 1) (length sockets)
      then (false, sockets)
      else (true, insert i none sockets)
]

unfoldable pub attach : ℕ → ℕ → List (ℕ × Option ℕ) → Option (List (ℕ × Option ℕ))
unfolding reserve
attach max_connections i sockets =
    let (admitted, reserved) = reserve max_connections i sockets in
    if admitted then some (insert i (some i) reserved) else none

abbrev pub new_session : DoipSession
new_session = record {
  activated = false;
  tester_logical_addr = none;
  closing = false;
  transport_closed = false;
  initial_timer = true;
  inactivity_timer = false;
}

module _ (config : GatewayConfig) where
  -- `_send_routing_activation_response`
  abbrev pub routing_response : ℕ → ℕ → Bytes
  routing_response code addr =
      wire_frame pt_routing_act_response
        (pack_u16 addr ++ (pack_u16 config.node_logical_addr ++ code ∷ replicate 8 0))

  abbrev pub respond : ℕ → ℕ → ℕ → Edge → Edge
  respond i code src e = send_raw i (routing_response code src) e

  -- A socket is accepted and its session constructed, or the socket is closed.
  unfoldable pub connect : ℕ → Edge → Edge
  connect i e = elim (attach config.max_connections i e.open_sockets) [
    | none ↦ e
    | some sockets ↦ record e {
      sessions = put_session i new_session e.sessions;
      places = put_place i reading e.places;
      open_sockets = sockets;
    }
  ]

  -- The commit: no wait between its check of `closing` and the response.
  unfoldable pub commit : ℕ → ℕ → Edge → Edge
  commit i src e =
      let s = e.sessions i in
      respond i 0x10 src (record e {
        sessions =
            put_session i
              (record s {
                activated = true;
                tester_logical_addr = some src;
                inactivity_timer = true;
              })
              e.sessions;
        registered = insert src i e.registered;
      })

  unfoldable pub commit_open : ℕ → ℕ → Edge → Edge
  commit_open i src e =
      if (e.sessions i).closing
      then fail_locked i src e
      else goto i reading (leave_lock src (commit i src e))

  abbrev pub is_full : Edge → Bool
  is_full e = leb config.max_connections (length e.registered)

  -- The second check of the capacity, and the commit.
  unfoldable pub finish_capacity : ℕ → ℕ → Edge → Edge
  finish_capacity i src e =
      if is_full e then fail_locked i src (respond i 0x01 src e) else commit_open i src e

  -- `_activate_with_conflict_check` behind its loop.
  unfoldable pub check_capacity : ℕ → ℕ → Edge → Edge
  check_capacity i src e =
      if (e.sessions i).activated
      then commit_open i src e
      else if is_full e
      then goto i (waiting_capacity src) e
      else commit_open i src e

  -- `_reclaim_capacity` up to its probes.
  unfoldable pub start_reclaim : ℕ → ℕ → Edge → Edge
  start_reclaim i src e =
      if (e.sessions i).closing
      then fail_locked i src e
      else if is_full e
      then goto i (reclaiming src e.registered) e
      else finish_capacity i src e

  -- The evictions of `_reclaim_capacity`: `dead` are the owners whose finished probe found nobody.
  unfoldable pub evict_dead : (ℕ → Bool) → List (ℕ × ℕ) → Edge → Edge
  evict_dead dead [] e = e
  evict_dead dead ((addr, owner) ∷ owners) e = evict_dead dead owners (
      if dead owner && owns_address (lookup addr e.registered) owner
      then schedule_cleanup owner e
      else e)

  unfoldable pub after_reclaim : ℕ → ℕ → List (ℕ × ℕ) → (ℕ → Bool) → Edge → Edge
  after_reclaim i src owners dead e =
      if (e.sessions i).closing
      then fail_locked i src e
      else goto i (deciding src) (evict_dead dead owners e)

  -- The loop's body up to its wait; the probe is sent to the owner's tester.
  unfoldable pub resolve_owner : ℕ → ℕ → Edge → Edge
  resolve_owner i src e =
      if (e.sessions i).closing
      then fail_locked i src e
      else elim (other_owner i (lookup src e.registered)) [
        | none ↦ check_capacity i src e
        | some j ↦ goto i (probing src j) (send_raw j (wire_frame pt_alive_check_request []) e)
      ]

  -- And behind it, with the next round.
  unfoldable pub after_alive_probe : ℕ → ℕ → ℕ → Bool → Edge → Edge
  after_alive_probe i src j alive e =
      if (e.sessions i).closing
      then fail_locked i src e
      else if not (owns_address (lookup src e.registered) j)
      then resolve_owner i src e
      else if alive
      then fail_locked i src (respond i 0x03 src e)
      else resolve_owner i src (schedule_cleanup j e)

  abbrev pub refuse_activation : ℕ → ℕ → ℕ → Edge → Edge
  refuse_activation i code src e = end_session i (respond i code src e)

  abbrev pub stop_initial_timer : ℕ → Edge → Edge
  stop_initial_timer i e = record e {
    sessions = put_session i (record (e.sessions i) { initial_timer = false }) e.sessions;
  }

  -- `_handle_routing_activation` up to the activation lock.
  unfoldable pub request_activation : ℕ → ℕ → ℕ → Edge → Edge
  request_activation i src activation_type e =
      if (e.sessions i).activated && not (is_tester_of (e.sessions i) src)
      then refuse_activation i 0x02 src e
      else if not (is_tester_allowed config src)
      then refuse_activation i 0x00 src e
      else if not (contains activation_type (0x00 ∷ 0x01 ∷ []))
      then refuse_activation i 0x06 src e
      else goto i (queued src) e

  -- Inside the lock.
  abbrev pub enter_lock : ℕ → ℕ → Edge → Edge
  enter_lock i src e = resolve_owner i src (record e { holders = insert src i e.holders })

  -- What a task that is cancelled leaves.
  abbrev pub leave_place : Place → Edge → Edge
  leave_place (probing src j) e = leave_lock src e
  leave_place (waiting_capacity src) e = leave_lock src e
  leave_place (reclaiming src owners) e = leave_lock src e
  leave_place (deciding src) e = leave_lock src e
  leave_place _ e = e
