-- ===== src/Tests/Discoveries.antt =====
-- UDP discovery and the hooks of the DoIP layer at concrete inputs.
use mathlib.Core.List.{Memᴰ}
use doip_playground.Base.{
  ◌==◌, if◌then◌else◌, length, Bytes, ℕ, suc, ◌≤◌, ◌≡◌, refl, true, false, Option, none, some, [],
  ◌∷◌,
}
use doip_playground.Doip.{pt_vehicle_id_request}
use doip_playground.Gateway.Announcer.{
  judge_datagram, take_notice, timer_fires, Announcer, hears, fires, listens, then_hears,
}
use doip_playground.Gateway.Announcer.Quiet.{AnnouncerReach-Unanswered}
use doip_playground.Tests.Gateways.{node}
use doip_playground.DoipHooks.{
  doip_hook_of, register_doip, resolve_doip, DoipEntry, DoipPlugin, DoipHook, on_routing_activation,
  CallResult, returned_value, raised_error,
}
use doip_playground.DoipHooks.Registration.{IsInOrder, register_doip-IsInOrder}
use doip_playground.DoipHooks.Deciding.{Justified, resolve_doip-Justified}
use doip_playground.Discovery.{datagram_received, sends, announcement, DiscoveryConfig, Peer}
use doip_playground.Discovery.Storm.{Unanswered, datagram_received-Unanswered}
use doip_playground.Discovery.Identification.{request_datagram}

abbrev entity : DiscoveryConfig
entity = record {
  vin = 87 ∷ 48 ∷ [];
  eid = 1 ∷ 2 ∷ 3 ∷ 4 ∷ 5 ∷ 6 ∷ [];
  gid = 0 ∷ 0 ∷ 0 ∷ 0 ∷ 0 ∷ 0 ∷ [];
  logical_addr = 0x0002;
  node_type = 0;
  power_mode = 1;
  max_data = 4096;
  max_sockets = 4;
  announce_wait_ms = 500;
  port = 13400;
  local_ips = 10 ∷ [];
}

abbrev asker : Peer
asker = record { ip = 20; source_port = 50000; parts = 20 ∷ 50000 ∷ [] }

-- A request for the entity's EID, with the wildcard version.
abbrev eid_request : Bytes
eid_request = 1 ∷ 2 ∷ 3 ∷ 4 ∷ 5 ∷ 6 ∷ []

datagram_received-Unanswered_example : Unanswered entity 0 asker (
    announcement entity
    ∷ sends entity none
        (datagram_received entity 0 asker (request_datagram entity 2 pt_vehicle_id_request 0 [])))
datagram_received-Unanswered_example =
    datagram_received-Unanswered entity entity 0 0 asker asker
      (request_datagram entity 2 pt_vehicle_id_request 0 []) none

-- A plugin that is switched off, with a hook on routing activation.
abbrev denier : DoipEntry
denier = record { kind = on_routing_activation; own_priority = none; handler = 0 }

abbrev switched_off : DoipPlugin
switched_off = record {
  plugin_label = [];
  class_priority = 100;
  is_enabled = false;
  load_position = 0;
  entries = denier ∷ [];
}

register_doip-IsInOrder_example :
    IsInOrder (register_doip (switched_off ∷ []) on_routing_activation)
    × Memᴰ
        (doip_hook_of switched_off denier)
        (register_doip (switched_off ∷ []) on_routing_activation)
register_doip-IsInOrder_example =
    register_doip-IsInOrder on_routing_activation switched_off denier (switched_off ∷ [])
      (Memᴰ.head refl) (Memᴰ.head refl) refl

-- Handler 0 raises, handler 1 returns a text that is no number; a state counts the calls.
abbrev two_handlers : ℕ → ℕ → ℕ → CallResult Bytes × ℕ
two_handlers which code calls =
    if which == 0 then (raised_error, suc calls) else (returned_value (97 ∷ []), suc calls)

abbrev no_number : Bytes → Option ℕ
no_number text = none

abbrev hook_named : ℕ → DoipHook
hook_named which = record {
  hook_priority = 100;
  hook_position = 0;
  hook_label = [];
  hook_handler = which;
}

resolve_doip-Justified_example :
    Justified two_handlers no_number
      (resolve_doip two_handlers no_number (hook_named 0 ∷ hook_named 1 ∷ []) 0x0e80 0)
      (hook_named 0 ∷ hook_named 1 ∷ [])
      0x0e80
      0
resolve_doip-Justified_example =
    resolve_doip-Justified two_handlers no_number (hook_named 0 ∷ hook_named 1 ∷ []) 0x0e80 0

-- A datagram asks the edge node's discovery socket who it is, and its timer fires.
abbrev asked_node : Announcer
asked_node =
    take_notice node eid_request eid_request 1 0x0a000001
      (judge_datagram node eid_request eid_request 0 (some 0x0a000001)
        (0x02 ∷ 0xfd ∷ 0x00 ∷ 0x01 ∷ 0 ∷ 0 ∷ 0 ∷ 0 ∷ []))
      (record { has_transport = true; pending = []; notices = [] })

abbrev told_node : Announcer
told_node = timer_fires node eid_request eid_request 1 asked_node

AnnouncerReach-Unanswered_example :
    (length told_node.pending ≤ 256)
    × (told_node.has_transport ≡ false → told_node.pending ≡ [])
    × Unanswered entity 2 asker told_node.notices
AnnouncerReach-Unanswered_example =
    AnnouncerReach-Unanswered node eid_request eid_request entity 2 asker told_node (
      then_hears
        (then_hears listens (hears 0 1 0x0a000001 (0x02 ∷ 0xfd ∷ 0x00 ∷ 0x01 ∷ 0 ∷ 0 ∷ 0 ∷ 0 ∷ [])))
        (fires 1))
