-- ===== src/Base/Dict.antt =====
-- A Python dictionary with number keys, as an association list in insertion order.
use Prim.Native.Nat.{ℕ, suc, ◌≤◌, ◌<◌}
use mathlib.Core.Path.{◌≡◌, refl}
use mathlib.Core.Bool.{true, false}
use mathlib.Core.List.{List, [], ◌∷◌}
use mathlib.Core.Option.{Option, none, some}
use native.Mathlib.Omega.{arith}
use doip_playground.Base.Tests.{◌==◌, if◌then◌else◌}
use doip_playground.Base.Lists.{length}

module _ {ℓ} {V : Type ℓ} (key : ℕ) where
  -- `d.get(key)`
  unfoldable pub lookup : List (ℕ × V) → Option V
  lookup [] = none
  lookup ((name, old) ∷ rest) = let found = lookup rest in if name == key then some old else found

  -- `d[key] = v`
  unfoldable pub insert : V → List (ℕ × V) → List (ℕ × V)
  insert v [] = (key, v) ∷ []
  insert v ((name, old) ∷ rest) =
      let more = insert v rest in if name == key then (name, v) ∷ rest else (name, old) ∷ more

  -- `d.pop(key, None)`, the dictionary left
  unfoldable pub erase : List (ℕ × V) → List (ℕ × V)
  erase [] = []
  erase ((name, old) ∷ rest) =
      let kept = erase rest in if name == key then kept else (name, old) ∷ kept

-- What a dictionary says behind a change, and how long it is.
module _ {ℓ} {V : Type ℓ} where
  pub lookup-insert :
      (changed asked : ℕ) (new : V) (d : List (ℕ × V))
      → lookup asked (insert changed new d)
        ≡ elim (changed == asked) [ true ↦ some new | false ↦ lookup asked d ]
  unfolding lookup insert
  lookup-insert changed asked new [] = ground arith
  lookup-insert changed asked new ((name, old) ∷ rest) =
      let behind = lookup-insert changed asked new rest in ground arith

  pub lookup-erase :
      (gone asked : ℕ) (d : List (ℕ × V))
      → lookup asked (erase gone d) ≡ elim (gone == asked) [ true ↦ none | false ↦ lookup asked d ]
  unfolding lookup erase
  lookup-erase gone asked [] = ground arith
  lookup-erase gone asked ((name, old) ∷ rest) =
      let behind = lookup-erase gone asked rest in ground arith

  -- A key that is new adds one entry, and one that is there adds none.
  pub length-insert :
      (k : ℕ) (v : V) (m : List (ℕ × V))
      → length (insert k v m) ≡ elim (lookup k m) [ none ↦ suc (length m) | some _ ↦ length m ]
  unfolding lookup insert
  length-insert k v [] = refl
  length-insert k v ((i, w) ∷ m) = ground (arith, length-insert k v m)

  pub length-erase-le : (k : ℕ) (m : List (ℕ × V)) → length (erase k m) ≤ length m
  unfolding erase
  length-erase-le k [] = omega arith
  length-erase-le k ((i, w) ∷ m) = ground (arith, length-erase-le k m)

  pub length-erase-lt :
      (k : ℕ) (v : V) (m : List (ℕ × V)) → lookup k m ≡ some v → length (erase k m) < length m
  unfolding lookup erase
  length-erase-lt k v [] e = ground arith
  length-erase-lt k v ((i, w) ∷ m) e = ground (arith, length-erase-lt k v m, length-erase-le k m)
