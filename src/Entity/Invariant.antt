-- ===== src/Entity/Invariant.antt =====
-- What holds of the connections of virtual_ecu/virtecu/session.py in any interleaving of their tasks.
use doip_playground.Base.{
  ◌==◌, Bool-cases, length, lookup, ℕ, ◌≤◌, ◌≡◌, refl, sym, ap, ◌∙◌, ◌≢◌, inl, inr, Bool, true,
  false, none, some, [], arith,
}
use doip_playground.Config.{EcuConfig}
use doip_playground.Core.{s3_expiry}
use doip_playground.Hooks.{Buckets}
use doip_playground.Session.{set_connection, evict, after_probe, System, Activation, done, probe}
use doip_playground.Session.Registry.{RegistryInv-injective, SameBinding}
use doip_playground.Session.Admission.{
  SameBinding-Consistent, evict-Consistent, after_probe-Consistent, Consistent,
}
use doip_playground.Pump.{pump, supervise, connected}
use doip_playground.Pump.Waiting.{pump-Turn, Turn}
use doip_playground.Pump.Frames.{deny-Others, admit-Others}
use doip_playground.Worker.Bindings.{work-SameBinding}
use doip_playground.Entity.{
  set_probe, after_turn, Entity, Step, connects, reads, resumes, works, supervises, ends, expires,
  waits, Reachable, starts, steps,
}

-- The registry is consistent, and a connection whose pump waits for an Alive Check waits for
-- another one and is not activated.
pub record Sound (config : EcuConfig) (e : Entity) : Type 0 where
  pub consistent : Consistent config e.system
  pub probing :
      (i j : ℕ) → e.probing i ≡ some j → (j ≢ i) × ((e.system.connections i).activated ≡ false)

module _ (config : EcuConfig) (t : Buckets) where
  supervise-SameBinding : (i : ℕ) (s : System) → SameBinding s (supervise config i s)
  unfolding supervise
  supervise-SameBinding i s = (ground arith, λ j. (ground arith, ground arith))

  connected-Consistent :
      (i : ℕ) (s : System)
      → ((sa : ℕ) → lookup sa s.registry ≢ some i)
      → Consistent config s
      → Consistent config (set_connection i (connected config s.world.now) s)
  connected-Consistent i s unused c =
      let k = c.capacity in
      record { bindings = λ sa j h. ground (arith, c.bindings sa j h, unused sa); capacity = k }

  connected-activated :
      (i : ℕ) (s : System) (k : ℕ)
      → (s.connections k).activated ≡ false
      → ((set_connection i (connected config s.world.now) s).connections k).activated ≡ false
  unfolding connected
  connected-activated i s k q = ground arith

  registered-nobody : (s : System) (sa i : ℕ) → s.registry ≡ [] → lookup sa s.registry ≢ some i
  unfolding lookup
  registered-nobody s sa i empty h = ground arith

  -- Steps that bind no tester.
  SameBinding-Sound :
      (e : Entity) (s : System)
      → SameBinding e.system s
      → Sound config e
      → Sound config (record e { system = s })
  SameBinding-Sound e s b sound = record {
    consistent = SameBinding-Consistent config e.system s b sound.consistent;
    probing = λ i j p. let q = sound.probing i j p in (q.0, (b.1 i).0 ∙ q.1);
  }

  after_turn-Sound :
      (i : ℕ) (e : Entity) (a : Activation)
      → e.probing i ≡ none
      → Turn config i e.system a
      → Sound config e
      → Sound config (after_turn i a e)
  after_turn-Sound i e (done f s) idle turn sound = record {
    consistent = turn.local.consistent sound.consistent;
    probing = λ k j p.
        let ne : k ≢ i = λ same. ground (arith, ap e.probing same) in
        let q = sound.probing k j p in (q.0, turn.local.others k ne ∙ q.1);
  }
  after_turn-Sound i e (probe j s) idle turn sound = record {
    consistent = turn.local.consistent sound.consistent;
    probing = λ k l p. elim (Bool-cases (k == i)) [
      | inl own ↦
          let same : k ≡ i = ground arith in
          let target : l ≡ j = ground arith in
          let w = turn.waits in
          ((λ h. w.0 (sym target ∙ h ∙ same)), ap (λ n. (s.connections n).activated) same ∙ w.1)
      | inr other ↦
          let old : e.probing k ≡ some l = ground arith in
          let q = sound.probing k l old in (q.0, turn.local.others k (ground arith) ∙ q.1)
    ];
  }

  evict-activated :
      (j : ℕ) (s : System) (k : ℕ)
      → ((evict config j s).connections k).activated ≡ (s.connections k).activated
  unfolding evict
  evict-activated j s k = ground arith

  after_probe-Others :
      (i src j : ℕ) (alive : Bool) (s : System) (k : ℕ)
      → k ≢ i
      → ((after_probe config i src j alive s).1.connections k).activated
        ≡ (s.connections k).activated
  unfolding after_probe
  after_probe-Others i src j true s k ne = deny-Others config i src 0x03 s k ne
  after_probe-Others i src j false s k ne =
      admit-Others config i src (evict config j s) k ne ∙ evict-activated j s k

  after_probe-Sound :
      (i src j : ℕ) (alive : Bool) (e : Entity)
      → e.probing i ≡ some j
      → Sound config e
      → Sound config (record {
        system = (after_probe config i src j alive e.system).1;
        probing = set_probe e.probing i none;
      })
  after_probe-Sound i src j alive e p sound =
      let (ne, fresh) = sound.probing i j p in
      record {
        consistent =
            after_probe-Consistent config i src j alive e.system (λ h. ne (sym h)) fresh
              sound.consistent;
        probing = λ k l h.
            let old : (k ≢ i) × (e.probing k ≡ some l) = (ground arith, ground arith) in
            let q = sound.probing k l old.1 in
            (q.0, after_probe-Others i src j alive e.system k old.0 ∙ q.1);
      }

  Step-Sound : (e e' : Entity) → Step config t e e' → Sound config e → Sound config e'
  Step-Sound e _ (connects _ i unused) sound = record {
    consistent = connected-Consistent i e.system unused sound.consistent;
    probing = λ k l p. let q = sound.probing k l p in (q.0, connected-activated i e.system k q.1);
  }
  Step-Sound e _ (reads _ i stream o idle) sound =
      after_turn-Sound i e (pump config i stream o e.system).0 idle
        (pump-Turn config i stream o e.system) sound
  Step-Sound e _ (resumes _ i src j alive p) sound = after_probe-Sound i src j alive e p sound
  Step-Sound e _ (works _ i fuel timing s' w) sound =
      SameBinding-Sound e s' (work-SameBinding config t i fuel timing e.system s' w) sound
  Step-Sound e _ (supervises _ i) sound =
      SameBinding-Sound e (supervise config i e.system) (supervise-SameBinding i e.system) sound
  Step-Sound e _ (ends _ i) sound = record {
    consistent = evict-Consistent config i e.system sound.consistent;
    probing = λ k l p. let q = sound.probing k l p in (q.0, evict-activated i e.system k ∙ q.1);
  }
  Step-Sound e _ (expires _ k) sound =
      SameBinding-Sound e (record (e.system) { world = s3_expiry config k e.system.world })
        (refl, λ j. (refl, refl)) sound
  Step-Sound e _ (waits _ w) sound =
      SameBinding-Sound e (record (e.system) { world = w }) (refl, λ j. (refl, refl)) sound

  -- In any order of the steps of all connections' tasks, from an empty registry on: the registry
  -- stays consistent, and a pump that waits for an Alive Check waits for another connection than its
  -- own, which is not activated meanwhile.
  pub Reachable-Sound : (e : Entity) → Reachable config t e → Sound config e
  Reachable-Sound e (starts _ empty idle) = record {
    consistent = record {
      bindings = λ sa i h. absurd (registered-nobody e.system sa i empty h);
      capacity = ground arith;
    };
    probing = λ i j p. absurd (ground (arith, idle i));
  }
  Reachable-Sound e (steps e' _ r s) = Step-Sound e' e s (Reachable-Sound e' r)

  -- In any order of the steps of all connections' tasks, from an empty registry on: a connection
  -- that is registered for a tester is activated for that tester, for no other, and no more testers
  -- are registered than the configuration allows.
  pub Reachable-registry :
      (e : Entity) (a b i : ℕ)
      → Reachable config t e
      → lookup a e.system.registry ≡ some i
      → lookup b e.system.registry ≡ some i
      → (a ≡ b)
        × ((e.system.connections i).activated ≡ true)
        × ((e.system.connections i).tester ≡ some a)
        × (length e.system.registry ≤ config.doip.max_concurrent_sessions)
  Reachable-registry e a b i r p q =
      let c = (Reachable-Sound e r).consistent in
      let own = c.bindings a i p in
      (RegistryInv-injective e.system a b i c.bindings p q, own.0, own.1, c.capacity)
