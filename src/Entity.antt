-- ===== src/Entity.antt =====
-- The whole entity of virtual_ecu/virtecu/session.py: its connections, each with a pump, a worker
-- and a supervisor, in any order of their steps. Between two waits a step is not interrupted.
pub mod Invariant
use doip_playground.Base.{
  ◌==◌, if◌then◌else◌, lookup, Bytes, ℕ, ◌≡◌, ◌≢◌, Bool, Option, none, some, [],
}
use doip_playground.Config.{EcuConfig}
use doip_playground.Effect.{World}
use doip_playground.Core.{s3_expiry}
use doip_playground.Hooks.{Buckets}
use doip_playground.Resolve.{Timing}
use doip_playground.Session.{set_connection, evict, after_probe, System, Activation, done, probe}
use doip_playground.Pump.{pump, supervise, connected, Overrides}
use doip_playground.Worker.{work}

-- `probing i` is the connection whose Alive Check Response the pump of `i` waits for.
pub record Entity : Type 0 where
  pub system : System
  pub probing : ℕ → Option ℕ

abbrev pub set_probe : (ℕ → Option ℕ) → ℕ → Option ℕ → ℕ → Option ℕ
set_probe f i o k = if k == i then o else f k

-- The pump of `i` goes on, or waits.
abbrev pub after_turn : ℕ → Activation → Entity → Entity
after_turn i (done f s) e = record { system = s; probing = e.probing }
after_turn i (probe j s) e = record { system = s; probing = set_probe e.probing i (some j) }

module _ (config : EcuConfig) (t : Buckets) where
  -- The steps of the tasks: a connection is opened, its pump reads a frame (with the hooks'
  -- results), goes on behind the Alive Check of another (for the source address of its request), its
  -- worker serves a request, its timers fire, and it is torn down; an S3 timer fires, and time goes
  -- by.
  pub data Step : Entity → Entity → Type 0 where
    connects :
        (e : Entity) (i : ℕ)
        → ((sa : ℕ) → lookup sa e.system.registry ≢ some i)
        → Step e
            (record e { system = set_connection i (connected config e.system.world.now) e.system })
    reads :
        (e : Entity) (i : ℕ) (stream : Bytes) (o : Overrides config)
        → e.probing i ≡ none
        → Step e (after_turn i (pump config i stream o e.system).0 e)
    resumes :
        (e : Entity) (i src j : ℕ) (alive : Bool)
        → e.probing i ≡ some j
        → Step e (record {
          system = (after_probe config i src j alive e.system).1;
          probing = set_probe e.probing i none;
        })
    works :
        (e : Entity) (i fuel : ℕ) (timing : Timing) (s' : System)
        → work config t i fuel timing e.system ≡ some s'
        → Step e (record e { system = s' })
    supervises : (e : Entity) (i : ℕ) → Step e (record e { system = supervise config i e.system })
    ends : (e : Entity) (i : ℕ) → Step e (record e { system = evict config i e.system })
    expires :
        (e : Entity) (k : ℕ)
        → Step e
            (record e { system = record (e.system) { world = s3_expiry config k e.system.world } })
    waits :
        (e : Entity) (w : World) → Step e (record e { system = record (e.system) { world = w } })

  pub data Reachable : Entity → Type 0 where
    starts : (e : Entity) → e.system.registry ≡ [] → ((i : ℕ) → e.probing i ≡ none) → Reachable e
    steps : (e e' : Entity) → Reachable e → Step e e' → Reachable e'
