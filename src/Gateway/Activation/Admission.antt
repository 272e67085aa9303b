-- ===== src/Gateway/Activation/Admission.antt =====
-- Which sockets doip_edgenode/session_registry.py admits.
use doip_playground.Base.{
  length, lookup, insert, lookup-insert, length-insert, ℕ, suc, ◌+◌, ◌≤◌, ◌≡◌, ◌≢◌, ◌↔◌, ◌⊎◌, true,
  Option, none, some, List, arith,
}
use doip_playground.Gateway.Activation.{reserve, attach}

reserve-lookup :
    (max_connections i : ℕ) (sockets : List (ℕ × Option ℕ))
    → (reserve max_connections i sockets).0 ≡ true
    → lookup i (reserve max_connections i sockets).1 ≢ none
unfolding reserve
reserve-lookup max_connections i sockets h = ground (arith, lookup-insert i i none sockets)

-- What an admission comes to: when it succeeds, what a known socket changes, and that an admitted
-- socket is in the table, which grows by at most one entry.
abbrev pub Admits : ℕ → ℕ → List (ℕ × Option ℕ) → Type 0
Admits max_connections i sockets =
    (((reserve max_connections i sockets).0 ≡ true)
      ↔ ((lookup i sockets ≢ none) ⊎ (length sockets ≤ max_connections)))
    × ((lookup i sockets ≢ none) → (reserve max_connections i sockets).1 ≡ sockets)
    × ((reserve max_connections i sockets).0 ≡ true
        → lookup i (reserve max_connections i sockets).1 ≢ none)
    × (length (reserve max_connections i sockets).1 ≤ suc (length sockets))

-- A socket is admitted exactly if it is known, or fewer than one more than the configured number of
-- connections are open. A known one changes nothing, an admitted one is in the table, and the table
-- grows by at most one entry.
pub reserve-Admits :
    (max_connections i : ℕ) (sockets : List (ℕ × Option ℕ)) → Admits max_connections i sockets
reserve-Admits max_connections i sockets = (
  unfold reserve in ground arith,
  unfold reserve in (λ known. ground arith),
  reserve-lookup max_connections i sockets,
  unfold reserve in ground (arith, length-insert i none sockets),
)

-- A session is attached within the bound on sockets.
pub attach_bounded :
    (max_connections i : ℕ) (sockets sockets' : List (ℕ × Option ℕ))
    → attach max_connections i sockets ≡ some sockets'
    → length sockets ≤ max_connections + 1
    → length sockets' ≤ max_connections + 1
unfolding attach reserve
attach_bounded max_connections i sockets sockets' e h = ground (
  arith,
  length-insert i (some i) (insert i none sockets),
  length-insert i (some i) sockets,
  length-insert i none sockets,
  lookup-insert i i none sockets,
)
