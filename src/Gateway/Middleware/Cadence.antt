-- ===== src/Gateway/Middleware/Cadence.antt =====
-- How often doip_edgenode/middleware/header_fault.py injects its fault.
use native.Mathlib.Nat.{mul-add, mul-zero, mul-one}
use doip_playground.Base.{
  leb, if◌then◌else◌, Bool-cases, ℕ, suc, ◌+◌, ◌*◌, ◌≤◌, ◌<◌, ◌≡◌, refl, inl, inr, Bool, true,
  false, List, [], ◌∷◌, arith,
}
use doip_playground.Gateway.Middleware.{direction_selected, should_inject, Direction, Selected}

-- The counter behind some calls, with whether each of them injected, oldest first.
unfoldable pub injections : Selected → ℕ → List Direction → ℕ → List Bool × ℕ
injections selected n [] counter = ([], counter)
injections selected n (d ∷ ds) counter =
    let (inject, counter') = should_inject selected n d counter in
    let (more, counter'') = injections selected n ds counter' in (inject ∷ more, counter'')

unfoldable pub count_true : List Bool → ℕ
count_true [] = 0
count_true (b ∷ bs) = (if b then 1 else 0) + count_true bs

unfoldable pub count_selected : Selected → List Direction → ℕ
count_selected selected [] = 0
count_selected selected (d ∷ ds) =
    (if direction_selected selected d then 1 else 0) + count_selected selected ds

-- The calls' sum, as the theorem states it.
abbrev pub InCadence : Selected → ℕ → List Direction → ℕ → Type 0
InCadence selected n ds counter =
    (n * count_true (injections selected n ds counter).0 + (injections selected n ds counter).1
      ≡ counter + count_selected selected ds)
    × ((injections selected n ds counter).1 < n)

inject_step :
    (selected : Selected) (n : ℕ) (d : Direction) (ds : List Direction) (counter : ℕ)
    (inject : Bool) (counter' : ℕ)
    → should_inject selected n d counter ≡ (inject, counter')
    → n * (if inject then 1 else 0) + counter'
      ≡ counter + (if direction_selected selected d then 1 else 0)
    → InCadence selected n ds counter'
    → InCadence selected n (d ∷ ds) counter
unfolding injections count_true count_selected
inject_step selected n d ds counter inject counter' e sum (behind, below) =
    let spread =
      mul-add n (if inject then 1 else 0) (count_true (injections selected n ds counter').0) in
    rw e (omega (arith, spread, sum, behind), below)

should_inject-other :
    (selected : Selected) (n : ℕ) (d : Direction) (counter : ℕ)
    → direction_selected selected d ≡ false
    → should_inject selected n d counter ≡ (false, counter)
unfolding should_inject
should_inject-other selected n d counter e = rw e refl

should_inject-now :
    (selected : Selected) (n : ℕ) (d : Direction) (counter : ℕ)
    → direction_selected selected d ≡ true
    → leb n (suc counter) ≡ true
    → should_inject selected n d counter ≡ (true, 0)
unfolding should_inject
should_inject-now selected n d counter e now = rw (e, now) refl

should_inject-later :
    (selected : Selected) (n : ℕ) (d : Direction) (counter : ℕ)
    → direction_selected selected d ≡ true
    → leb n (suc counter) ≡ false
    → should_inject selected n d counter ≡ (false, suc counter)
unfolding should_inject
should_inject-later selected n d counter e later = rw (e, later) refl

-- Over any calls in both directions, faults are injected at every n-th call of the selected direction
-- and no other: n times the injections, and the counter behind them, which is below n, make up the
-- calls of that direction and the counter before, if that was below n.
pub injections-InCadence :
    (selected : Selected) (n : ℕ) (ds : List Direction) (counter : ℕ)
    → counter < n
    → InCadence selected n ds counter
unfolding injections count_true count_selected
injections-InCadence selected n [] counter h = (omega (arith, mul-zero n), h)
injections-InCadence selected n (d ∷ ds) counter h =
    elim (Bool-cases (direction_selected selected d)) [
      | inr other ↦
          inject_step selected n d ds counter false counter
            (should_inject-other selected n d counter other) (rw other (omega (arith, mul-zero n)))
            (injections-InCadence selected n ds counter h)
      | inl chosen ↦ elim (Bool-cases (leb n (suc counter))) [
        | inl now ↦
            inject_step selected n d ds counter true 0
              (should_inject-now selected n d counter chosen now)
              (rw chosen (let reached : n ≤ suc counter = ground arith in omega (arith, mul-one n)))
              (injections-InCadence selected n ds 0 (omega arith))
        | inr later ↦
            let short : suc counter < n = ground arith in
            inject_step selected n d ds counter false (suc counter)
              (should_inject-later selected n d counter chosen later)
              (rw chosen (omega (arith, mul-zero n)))
              (injections-InCadence selected n ds (suc counter) short)
      ]
    ]
