-- ===== src/Store/Laws.antt =====
-- Reads of `DidStore` (virtual_ecu/virtecu/store.py) after its writes and its reset.
use doip_playground.Base.{
  ◌==◌, if◌then◌else◌, lookup, lookup-insert, Bytes, ℕ, ◌≡◌, refl, Option, none, some, List, [],
  ◌∷◌, arith,
}
use doip_playground.Config.{DidSpec}
use doip_playground.Effect.{World}
use doip_playground.Store.{defaults, store_read, store_write}

pub store_read-store_write :
    (k j : ℕ) (v : Bytes) (w : World)
    → store_read j (store_write k v w) ≡ (if k == j then some v else store_read j w)
store_read-store_write k j v w = ground (arith, lookup-insert k j v w.did_values)

-- The YAML default of a DID.
abbrev pub default_of : ℕ → List (ℕ × DidSpec) → Option Bytes
default_of did specs = elim (lookup did specs) [ none ↦ none | some spec ↦ spec.value ]

-- The keys of a Python dictionary are distinct.
abbrev pub Distinct : {V : Type 0} → List (ℕ × V) → Type 0
Distinct [] = Unit {0}
Distinct ((k, v) ∷ m) = (lookup k m ≡ none) × Distinct m

lookup-defaults_missing :
    (did : ℕ) (specs : List (ℕ × DidSpec))
    → lookup did specs ≡ none
    → lookup did (defaults specs) ≡ none
unfolding lookup defaults
lookup-defaults_missing did [] e = refl
lookup-defaults_missing did ((k, spec) ∷ specs) e =
    ground (arith, lookup-defaults_missing did specs)

pub lookup-defaults :
    (did : ℕ) (specs : List (ℕ × DidSpec))
    → Distinct specs
    → lookup did (defaults specs) ≡ default_of did specs
unfolding lookup defaults
lookup-defaults did [] d = refl
lookup-defaults did ((k, spec) ∷ specs) d =
    ground (arith, lookup-defaults did specs d.1, lookup-defaults_missing k specs d.0)
