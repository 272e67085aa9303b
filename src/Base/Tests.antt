-- ===== src/Base/Tests.antt =====
-- Boolean tests on the native numbers, the conditional, and splits that keep their equation.
use Prim.Native.Nat.{ℕ, zero, suc, ◌+◌, ◌<◌, ◌≤◌, compare, Ordering}
use mathlib.Core.Path.{◌≡◌, refl, sym, ap, ◌∙◌}
use mathlib.Core.Logic.{◌↔◌, ◌⊎◌, inl, inr}
use mathlib.Core.Bool.{Bool, true, false, ◌||◌}
use mathlib.Core.Option.{Option, none, some}
use mathlib.Core.List.{List, [], ◌∷◌}
use native.Mathlib.Omega.{arith}

abbrev pub ltb : ℕ → ℕ → Bool
ltb a b = elim (compare a b) [ Ordering.lt ↦ true | _ ↦ false ]

abbrev pub leb : ℕ → ℕ → Bool
leb a b = elim (compare a b) [ Ordering.gt ↦ false | _ ↦ true ]

infix 50 ◌==◌
abbrev pub ◌==◌ : ℕ → ℕ → Bool
a == b = elim (compare a b) [ Ordering.eq ↦ true | _ ↦ false ]

infix 1 if◌then◌else◌
abbrev pub if◌then◌else◌ {ℓ} : {A : Type ℓ} → Bool → A → A → A
if true then x else y = x
if false then x else y = y

pub ==_iff : (a b : ℕ) → ((a == b) ≡ true) ↔ (a ≡ b)
==_iff a b = ground arith

pub Bool-cases : (b : Bool) → (b ≡ true) ⊎ (b ≡ false)
Bool-cases true = inl refl
Bool-cases false = inr refl

pub Option-cases {ℓ} : {A : Type ℓ} (o : Option A) → (o ≡ none) ⊎ ((a : A) × (o ≡ some a))
Option-cases none = inl refl
Option-cases (some a) = inr (a, refl)

-- `x in xs` for numbers.
unfoldable pub contains : ℕ → List ℕ → Bool
contains x [] = false
contains x (y ∷ ys) = y == x || contains x ys

-- A test on each of the `count` numbers from `start` on, for facts about bytes.
module _ (test : ℕ → Bool) where
  unfoldable pub every_from : ℕ → ℕ → Bool
  every_from start zero = true
  every_from start (suc count) = if test start then every_from (suc start) count else false

  pub every_from-test :
      (count start n : ℕ)
      → start ≤ n
      → n < start + count
      → every_from start count ≡ true
      → test n ≡ true
  unfolding every_from
  every_from-test zero start n low high all = absurd (omega arith)
  every_from-test (suc count) start n low high all = elim (Bool-cases (test start)) [
    | inr bad ↦ absurd (ground arith)
    | inl good ↦ elim (Bool-cases (start == n)) [
      | inl same ↦ ap test (sym ((==_iff start n).0 same)) ∙ good
      | inr other ↦ every_from-test count (suc start) n (ground arith) (omega arith) (ground arith)
    ]
  ]

-- A predicate on a conditional, from each branch under its test.
pub if-rule {ℓ κ} :
    {A : Type ℓ} (P : A → Type κ) (b : Bool) {x y : A}
    → (b ≡ true → P x)
    → (b ≡ false → P y)
    → P (if b then x else y)
if-rule P true f g = f refl
if-rule P false f g = g refl
