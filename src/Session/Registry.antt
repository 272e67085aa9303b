-- ===== src/Session/Registry.antt =====
-- `SessionRegistry` of virtual_ecu/virtecu/session.py: what an entry of it means, and how the steps
-- that change it keep that.
use doip_playground.Doip.{pt_routing_act_response, Frame}
use doip_playground.Base.{
  ◌==◌, if◌then◌else◌, length, lookup, lookup-insert, lookup-erase, length-insert, length-erase-le,
  Bytes, ℕ, ◌≤◌, ◌<◌, ◌≡◌, refl, ◌≢◌, true, false, Option, none, some, List, arith,
}
use doip_playground.Config.{EcuConfig}
use doip_playground.Session.{
  unregister, bump_general, send, response_frame, send_response, activation_response,
  register_tester, accept, evict, System,
}

-- A registered tester's connection is activated for exactly that tester.
abbrev pub RegistryInv : System → Type 0
RegistryInv s =
    (sa i : ℕ)
    → lookup sa s.registry ≡ some i
    → ((s.connections i).activated ≡ true) × ((s.connections i).tester ≡ some sa)

-- The registry holds no more testers than it may.
abbrev pub CapacityInv : EcuConfig → System → Type 0
CapacityInv config s = length s.registry ≤ config.doip.max_concurrent_sessions

-- Two testers are never registered on one connection.
pub RegistryInv-injective :
    (s : System) (a b i : ℕ)
    → RegistryInv s
    → lookup a s.registry ≡ some i
    → lookup b s.registry ≡ some i
    → a ≡ b
RegistryInv-injective s a b i inv p q = ground (arith, inv a i p, inv b i q)

pub lookup-unregister :
    (sa : ℕ) (i k : ℕ) (m : List (ℕ × ℕ))
    → lookup k (unregister (some sa) i m) ≡ (
        if sa == k
        then elim (lookup sa m) [ none ↦ none | some j ↦ if j == i then none else some j ]
        else lookup k m)
unfolding unregister
lookup-unregister sa i k m = ground (arith, lookup-erase sa k m)

pub length-unregister-le :
    (t : Option ℕ) (i : ℕ) (m : List (ℕ × ℕ)) → length (unregister t i m) ≤ length m
unfolding unregister
length-unregister-le none i m = omega arith
length-unregister-le (some sa) i m = ground (arith, length-erase-le sa m)

-- Two systems in which the registry says the same.
abbrev pub SameBinding : System → System → Type 0
SameBinding s s' =
    (s'.registry ≡ s.registry)
    × ((j : ℕ)
        → ((s'.connections j).activated ≡ (s.connections j).activated)
          × ((s'.connections j).tester ≡ (s.connections j).tester))

pub SameBinding-RegistryInv : (s s' : System) → SameBinding s s' → RegistryInv s → RegistryInv s'
SameBinding-RegistryInv s s' (r, b) inv sa i h = ground (arith, b i, inv sa i)

module _ (config : EcuConfig) where
  pub bump_general-SameBinding : (i : ℕ) (s : System) → SameBinding s (bump_general config i s)
  unfolding bump_general
  bump_general-SameBinding i s = (ground arith, λ j. ground arith)

  pub send-SameBinding : (i : ℕ) (f : Frame) (s : System) → SameBinding s (send config i f s)
  unfolding send
  send-SameBinding i f s = bump_general-SameBinding i s

  pub send_response-SameBinding :
      (i pt : ℕ) (body : Bytes) (s : System) → SameBinding s (send_response config i pt body s)
  unfolding send_response
  send_response-SameBinding i pt body s = send-SameBinding i (response_frame config i pt body s) s

  evict-entry :
      (j : ℕ) (s : System) (t : Option ℕ)
      → (s.connections j).tester ≡ t
      → RegistryInv s
      → (sa i : ℕ) → lookup sa (unregister t j s.registry) ≡ some i
      → (lookup sa s.registry ≡ some i) × (i ≢ j)
  unfolding unregister
  evict-entry j s none e inv sa i h = (h, λ same. ground (arith, inv sa i h))
  evict-entry j s (some ta) e inv sa i h = (
    ground (arith, lookup-erase ta sa s.registry),
    λ same. ground (arith, inv sa i, lookup-erase ta sa s.registry),
  )

  -- After an eviction the evicted connection is in no entry, and the other entries stay.
  pub evict-RegistryInv : (j : ℕ) (s : System) → RegistryInv s → RegistryInv (evict config j s)
  unfolding evict
  evict-RegistryInv j s inv sa i h =
      let (old, ne) = evict-entry j s (s.connections j).tester refl inv sa i h in
      ground (arith, inv sa i old)

  register_tester-RegistryInv :
      (i src : ℕ) (s : System)
      → (s.connections i).activated ≡ false
      → RegistryInv s
      → RegistryInv (register_tester config i src s)
  unfolding register_tester
  register_tester-RegistryInv i src s fresh inv sa j h =
      ground (arith, inv sa j, lookup-insert src sa i s.registry)

  pub accept-RegistryInv :
      (i src : ℕ) (s : System)
      → (s.connections i).activated ≡ false
      → RegistryInv s
      → RegistryInv (accept config i src s)
  unfolding accept
  accept-RegistryInv i src s fresh inv =
      SameBinding-RegistryInv (register_tester config i src s) (accept config i src s)
        (send_response-SameBinding i pt_routing_act_response (activation_response config src 0x10)
          (register_tester config i src s))
        (register_tester-RegistryInv i src s fresh inv)

  pub accept-CapacityInv :
      (i src : ℕ) (s : System)
      → length s.registry < config.doip.max_concurrent_sessions
      → CapacityInv config (accept config i src s)
  unfolding accept register_tester send_response send bump_general
  accept-CapacityInv i src s h = ground (arith, length-insert src i s.registry)
