-- ===== src/Session/Admission.antt =====
-- Routing activation in virtual_ecu/virtecu/session.py: no step of it breaks the registry.
use doip_playground.Base.{
  ltb, leb, ◌==◌, Bool-cases, Option-cases, contains, length, lookup, Bytes, ℕ, ◌≡◌, ◌≢◌, inl, inr,
  Bool, true, false, not, ◌&&◌, Option, none, some, [], ◌∷◌, arith,
}
use doip_playground.Config.{EcuConfig}
use doip_playground.Doip.{
  pt_header_nack, pt_routing_act_response, nack_generic_invalid_payload_length, Frame,
}
use doip_playground.Session.{
  activation_fields, send, send_response, activation_response, deny, confirm, admit, evict,
  competitor, probe_frame, resolve_conflict, is_tester, check_activation, deny_by_hook, by_override,
  handle_routing_activation, after_probe, System, Activation, done, probe,
}
use doip_playground.Session.Registry.{
  RegistryInv, CapacityInv, length-unregister-le, SameBinding, SameBinding-RegistryInv,
  send-SameBinding, send_response-SameBinding, evict-RegistryInv, accept-RegistryInv,
  accept-CapacityInv,
}

-- The two invariants of the registry.
pub record Consistent (config : EcuConfig) (s : System) : Type 0 where
  pub bindings : RegistryInv s
  pub capacity : CapacityInv config s

-- The result of an activation step, whichever way it ends.
abbrev pub system_of : Activation → System
system_of (done f s) = s
system_of (probe j s) = s

module _ (config : EcuConfig) where
  pub SameBinding-Consistent :
      (s s' : System) → SameBinding s s' → Consistent config s → Consistent config s'
  SameBinding-Consistent s s' b c = record {
    bindings = SameBinding-RegistryInv s s' b c.bindings;
    capacity = let k = c.capacity in ground (arith, b.0);
  }

  deny-Consistent :
      (i src code : ℕ) (s : System)
      → Consistent config s
      → Consistent config (deny config i src code s).1
  unfolding deny
  deny-Consistent i src code s = SameBinding-Consistent s (deny config i src code s).1 (
      send_response-SameBinding config i pt_routing_act_response
        (activation_response config src code) s)

  admit-Consistent :
      (i src : ℕ) (s : System)
      → (s.connections i).activated ≡ false
      → Consistent config s
      → Consistent config (admit config i src s).1
  unfolding admit
  admit-Consistent i src s fresh c =
      elim (Bool-cases (leb config.doip.max_concurrent_sessions (length s.registry))) [
        | inl full ↦ rw (full, admit) (deny-Consistent i src 0x01 s c)
        | inr room ↦
            rw (room, admit)
              (record {
                bindings = accept-RegistryInv config i src s fresh c.bindings;
                capacity = accept-CapacityInv config i src s (ground arith);
              })
      ]

  pub evict-Consistent :
      (j : ℕ) (s : System) → Consistent config s → Consistent config (evict config j s)
  unfolding evict
  evict-Consistent j s c = record {
    bindings = evict-RegistryInv config j s c.bindings;
    capacity =
        let k = c.capacity in
        omega (arith, length-unregister-le (s.connections j).tester j s.registry);
  }

  -- Behind the wait for another connection's Alive Check, whatever other steps have done meanwhile,
  -- the registry stays consistent, whether or not that connection answered.
  pub after_probe-Consistent :
      (i src j : ℕ) (alive : Bool) (s : System)
      → i ≢ j
      → (s.connections i).activated ≡ false
      → Consistent config s
      → Consistent config (after_probe config i src j alive s).1
  unfolding after_probe
  after_probe-Consistent i src j true s ne fresh c = deny-Consistent i src 0x03 s c
  after_probe-Consistent i src j false s ne fresh c =
      admit-Consistent i src (evict config j s) (unfold evict in ground arith)
        (evict-Consistent j s c)

  confirm-Consistent :
      (i src : ℕ) (s : System) → Consistent config s → Consistent config (confirm config i src s)
  confirm-Consistent i src s = SameBinding-Consistent s (confirm config i src s) (
      send_response-SameBinding config i pt_routing_act_response
        (activation_response config src 0x10) s)

  send-Consistent :
      (i : ℕ) (f : Frame) (s : System) → Consistent config s → Consistent config (send config i f s)
  send-Consistent i f s =
      SameBinding-Consistent s (send config i f s) (send-SameBinding config i f s)

  resolve_conflict-Consistent :
      (i src : ℕ) (s : System)
      → (s.connections i).activated ≡ false
      → Consistent config s
      → Consistent config (system_of (resolve_conflict config i src s))
  unfolding resolve_conflict
  resolve_conflict-Consistent i src s fresh c =
      elim (Option-cases (competitor config i (lookup src s.registry))) [
        | inl nobody ↦ rw (nobody, resolve_conflict) (admit-Consistent i src s fresh c)
        | inr (j, other) ↦ rw (other, resolve_conflict) (send-Consistent j (probe_frame config) s c)
      ]

  check_activation-Consistent :
      (i src activation_type : ℕ) (s : System)
      → Consistent config s
      → Consistent config (system_of (check_activation config i src activation_type s))
  unfolding check_activation
  check_activation-Consistent i src activation_type s c =
      let k = s.connections i in
      elim (Bool-cases
        (not (leb config.doip.tester_addr_low src && leb src config.doip.tester_addr_high))) [
          | inl range ↦ rw (range, check_activation) (deny-Consistent i src 0x00 s c)
          | inr in_range ↦ elim (Bool-cases (not (contains activation_type (0x00 ∷ 0x01 ∷ [])))) [
            | inl kind ↦ rw (in_range, kind, check_activation) (deny-Consistent i src 0x06 s c)
            | inr known ↦ elim (Bool-cases (k.activated && not (is_tester config src k.tester))) [
              | inl other ↦
                  rw (in_range, known, other, check_activation) (deny-Consistent i src 0x02 s c)
              | inr own ↦ elim (Bool-cases (k.activated && is_tester config src k.tester)) [
                | inl again ↦
                    rw (in_range, known, own, again, check_activation)
                      (confirm-Consistent i src s c)
                | inr fresh ↦
                    rw (in_range, known, own, fresh, check_activation)
                      (resolve_conflict-Consistent i src s (ground arith) c)
              ]
            ]
          ]
        ]

  deny_by_hook-Consistent :
      (i src code : ℕ) (s : System)
      → Consistent config s
      → Consistent config (system_of (deny_by_hook config i src code s))
  unfolding deny_by_hook
  deny_by_hook-Consistent i src code s c = elim (Bool-cases (ltb code 256)) [
    | inl fits ↦ rw (fits, deny_by_hook) (deny-Consistent i src code s c)
    | inr wide ↦ rw (wide, deny_by_hook) c
  ]

  by_override-Consistent :
      (i src activation_type : ℕ) (override : Option ℕ) (s : System)
      → Consistent config s
      → Consistent config (system_of (by_override config i src activation_type override s))
  by_override-Consistent i src activation_type none s c =
      check_activation-Consistent i src activation_type s c
  by_override-Consistent i src activation_type (some code) s c = elim (Bool-cases (code == 0x10)) [
    | inl success ↦ rw success (check_activation-Consistent i src activation_type s c)
    | inr denial ↦ rw denial (deny_by_hook-Consistent i src code s c)
  ]

  -- Up to the wait, too, whatever the payload, the hooks' verdict and the state of the connection.
  pub handle_routing_activation-Consistent :
      (i : ℕ) (payload : Bytes) (override : Option ℕ) (s : System)
      → Consistent config s
      → Consistent config (system_of (handle_routing_activation config i payload override s))
  unfolding handle_routing_activation
  handle_routing_activation-Consistent i payload override s c =
      elim (Option-cases (activation_fields payload)) [
        | inl short ↦
            rw (short, handle_routing_activation)
              (SameBinding-Consistent s
                (send_response config i pt_header_nack (nack_generic_invalid_payload_length ∷ []) s)
                (send_response-SameBinding config i pt_header_nack
                  (nack_generic_invalid_payload_length ∷ []) s)
                c)
        | inr ((src, activation_type), fields) ↦
            rw (fields, handle_routing_activation)
              (by_override-Consistent i src activation_type override s c)
      ]
