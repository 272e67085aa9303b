-- ===== src/Store.antt =====
-- virtual_ecu/virtecu/store.py: the current value of every declared DID. The specs are the
-- configuration's table; the values stand in the process state.
pub mod Laws
use doip_playground.Base.{lookup, insert, Bytes, ℕ, Option, none, some, List, [], ◌∷◌}
use doip_playground.Config.{DidSpec}
use doip_playground.Effect.{World}

-- `{did: spec.value for did, spec in specs.items() if spec.value is not None}`
unfoldable pub defaults : List (ℕ × DidSpec) → List (ℕ × Bytes)
defaults [] = []
defaults ((did, spec) ∷ specs) = elim spec.value [
  | none ↦ defaults specs
  | some v ↦ (did, v) ∷ defaults specs
]

-- `DidStore.read`
abbrev pub store_read : ℕ → World → Option Bytes
store_read did w = lookup did w.did_values

-- `DidStore.write`
abbrev pub store_write : ℕ → Bytes → World → World
store_write did value w = record w { did_values = insert did value w.did_values }

-- `DidStore.reset`
abbrev pub store_reset : List (ℕ × DidSpec) → World → World
store_reset specs w = record w { did_values = defaults specs }
