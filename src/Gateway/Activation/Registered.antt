-- ===== src/Gateway/Activation/Registered.antt =====
-- What the registry of doip_edgenode/session_registry.py says of the sessions, and how a cleanup and
-- an activation keep it true.
use doip_playground.Base.{
  ◌==◌, if◌then◌else◌, ==_iff, Bool-cases, Option-cases, length, lookup, insert, lookup-insert,
  lookup-erase, length-insert, length-erase-le, ℕ, ◌+◌, ◌≤◌, ◌<◌, ◌≡◌, ◌≢◌, ◌⊎◌, inl, inr, true,
  false, Option, none, some, List, arith,
}
use doip_playground.Gateway.{GatewayConfig}
use doip_playground.Gateway.Activation.{
  unregister_session, release, close_transport, schedule_cleanup, send_raw, commit, Edge,
}

-- A registered session is activated for exactly its address and not closing, an activated session
-- that is not closing is registered, the registry and the sockets keep to their bounds, and a closed
-- transport belongs to a session that is closing.
pub record EdgeCore (config : GatewayConfig) (e : Edge) : Type 0 where
  pub owned :
      (addr j : ℕ)
      → lookup addr e.registered ≡ some j
      → ((e.sessions j).activated ≡ true)
        × ((e.sessions j).tester_logical_addr ≡ some addr)
        × ((e.sessions j).closing ≡ false)
  pub listed :
      (j : ℕ)
      → (e.sessions j).activated ≡ true
      → (e.sessions j).closing ≡ false
      → (addr : ℕ) × ((e.sessions j).tester_logical_addr ≡ some addr)
        × (lookup addr e.registered ≡ some j)
  pub within : length e.registered ≤ config.max_connections
  pub sockets : length e.open_sockets ≤ config.max_connections + 1
  pub shut : (j : ℕ) → (e.sessions j).transport_closed ≡ true → (e.sessions j).closing ≡ true

lookup-unregister_session :
    (addr i k : ℕ) (m : List (ℕ × ℕ))
    → lookup k (unregister_session addr i m) ≡ (
        if addr == k
        then elim (lookup addr m) [ none ↦ none | some j ↦ if j == i then none else some j ]
        else lookup k m)
unfolding unregister_session
lookup-unregister_session addr i k m = ground (arith, lookup-erase addr k m)

length-unregister_session-le :
    (addr i : ℕ) (m : List (ℕ × ℕ)) → length (unregister_session addr i m) ≤ length m
unfolding unregister_session
length-unregister_session-le addr i m = ground (arith, length-erase-le addr m)

length-release-le : (i : ℕ) (m : List (ℕ × Option ℕ)) → length (release i m) ≤ length m
length-release-le i m = length-erase-le i m

pub schedule_cleanup-other :
    (i k : ℕ) (e : Edge) → k ≢ i → (schedule_cleanup i e).sessions k ≡ e.sessions k
unfolding schedule_cleanup close_transport
schedule_cleanup-other i k e ne = ground arith

pub schedule_cleanup_self :
    (i : ℕ) (e : Edge)
    → (((schedule_cleanup i e).sessions i).closing ≡ true)
      × (((schedule_cleanup i e).sessions i).activated ≡ (e.sessions i).activated)
      × (((schedule_cleanup i e).sessions i).tester_logical_addr
          ≡ (e.sessions i).tester_logical_addr)
unfolding schedule_cleanup close_transport
schedule_cleanup_self i e = ground arith

pub schedule_cleanup-still :
    (i : ℕ) (e : Edge)
    → ((schedule_cleanup i e).places ≡ e.places) × ((schedule_cleanup i e).holders ≡ e.holders)
unfolding schedule_cleanup close_transport
schedule_cleanup-still i e = (ground arith, ground arith)

cleanup_bounds :
    (i : ℕ) (e : Edge)
    → (length (schedule_cleanup i e).registered ≤ length e.registered)
      × (length (schedule_cleanup i e).open_sockets ≤ length e.open_sockets)
unfolding schedule_cleanup close_transport
cleanup_bounds i e = elim (Option-cases (e.sessions i).tester_logical_addr) [
  | inl nobody ↦ ground (arith, length-release-le i e.open_sockets)
  | inr (addr, named) ↦
      ground (
        arith,
        length-release-le i e.open_sockets,
        length-unregister_session-le addr i e.registered,
      )
]

-- The entries that are there behind a cleanup were there before.
pub cleanup_keeps_none :
    (i addr : ℕ) (e : Edge)
    → lookup addr e.registered ≡ none
    → lookup addr (schedule_cleanup i e).registered ≡ none
unfolding schedule_cleanup close_transport
cleanup_keeps_none i addr e h = elim (Option-cases (e.sessions i).tester_logical_addr) [
  | inl nobody ↦ ground arith
  | inr (own, named) ↦ ground (arith, lookup-unregister_session own i addr e.registered)
]

module _ (config : GatewayConfig) where
  cleanup_entry :
      (i addr k : ℕ) (e : Edge)
      → EdgeCore config e
      → lookup addr (schedule_cleanup i e).registered ≡ some k
      → (lookup addr e.registered ≡ some k) × (k ≢ i)
  unfolding schedule_cleanup close_transport
  cleanup_entry i addr k e core h = elim (Option-cases (e.sessions i).tester_logical_addr) [
    | inl nobody ↦ ground (arith, core.owned addr k, core.shut i)
    | inr (own, named) ↦
        ground
          (arith, lookup-unregister_session own i addr e.registered, core.owned addr k, core.shut i)
  ]

  cleanup_other_entry :
      (i addr k : ℕ) (e : Edge)
      → lookup addr e.registered ≡ some k
      → k ≢ i
      → lookup addr (schedule_cleanup i e).registered ≡ some k
  unfolding schedule_cleanup close_transport
  cleanup_other_entry i addr k e h ne = elim (Option-cases (e.sessions i).tester_logical_addr) [
    | inl nobody ↦ ground arith
    | inr (own, named) ↦ ground (arith, lookup-unregister_session own i addr e.registered)
  ]

  cleanup_shut :
      (i j : ℕ) (e : Edge)
      → EdgeCore config e
      → ((schedule_cleanup i e).sessions j).transport_closed ≡ true
      → ((schedule_cleanup i e).sessions j).closing ≡ true
  unfolding schedule_cleanup close_transport
  cleanup_shut i j e core h = ground (arith, core.shut j, core.shut i)

  cleanup_owned :
      (i addr k : ℕ) (e : Edge)
      → EdgeCore config e
      → lookup addr (schedule_cleanup i e).registered ≡ some k
      → (((schedule_cleanup i e).sessions k).activated ≡ true)
        × (((schedule_cleanup i e).sessions k).tester_logical_addr ≡ some addr)
        × (((schedule_cleanup i e).sessions k).closing ≡ false)
  cleanup_owned i addr k e core h =
      let (before, other) = cleanup_entry i addr k e core h in
      rw (schedule_cleanup-other i k e other) (core.owned addr k before)

  cleanup_listed :
      (i k : ℕ) (e : Edge)
      → EdgeCore config e
      → ((schedule_cleanup i e).sessions k).activated ≡ true
      → ((schedule_cleanup i e).sessions k).closing ≡ false
      → (addr : ℕ) × (((schedule_cleanup i e).sessions k).tester_logical_addr ≡ some addr)
        × (lookup addr (schedule_cleanup i e).registered ≡ some k)
  cleanup_listed i k e core active alive = elim (Bool-cases (k == i)) [
    | inl same ↦
        let k_is_i : k ≡ i = (==_iff k i).0 same in
        absurd (cc ((schedule_cleanup_self i e).0, alive, k_is_i))
    | inr other ↦
        let ne : k ≢ i = ground arith in
        let unmoved = schedule_cleanup-other i k e ne in
        let (addr, named, entry) = core.listed k (rw unmoved at active) (rw unmoved at alive) in
        (addr, rw unmoved named, cleanup_other_entry i addr k e entry ne)
  ]

  -- A cleanup, of any session and at any time, keeps it.
  pub schedule_cleanup-Core :
      (i : ℕ) (e : Edge) → EdgeCore config e → EdgeCore config (schedule_cleanup i e)
  schedule_cleanup-Core i e core = record {
    owned = λ addr k h. cleanup_owned i addr k e core h;
    listed = λ k active alive. cleanup_listed i k e core active alive;
    within = omega (arith, (cleanup_bounds i e).0, core.within);
    sockets = omega (arith, (cleanup_bounds i e).1, core.sockets);
    shut = λ j h. cleanup_shut i j e core h;
  }

  -- Sending and the places change nothing of it.
  abbrev pub SameRegistry : Edge → Edge → Type 0
  SameRegistry e e' =
      (e'.sessions ≡ e.sessions)
      × (e'.registered ≡ e.registered)
      × (e'.open_sockets ≡ e.open_sockets)

  pub SameRegistry-Core : (e e' : Edge) → SameRegistry e e' → EdgeCore config e → EdgeCore config e'
  SameRegistry-Core e e' (s, r, o) core = record {
    owned = λ addr j h. rw s (core.owned addr j (rw r at h));
    listed = λ j active alive. rw (s, r) (core.listed j (rw s at active) (rw s at alive));
    within = rw r core.within;
    sockets = rw o core.sockets;
    shut = λ j h. rw s (core.shut j (rw s at h));
  }

  pub commit-other :
      (i src k : ℕ) (e : Edge) → k ≢ i → (commit config i src e).sessions k ≡ e.sessions k
  unfolding commit send_raw
  commit-other i src k e ne = ground arith

  pub commit_self :
      (i src : ℕ) (e : Edge)
      → (((commit config i src e).sessions i).activated ≡ true)
        × (((commit config i src e).sessions i).tester_logical_addr ≡ some src)
        × (((commit config i src e).sessions i).closing ≡ (e.sessions i).closing)
  unfolding commit send_raw
  commit_self i src e = (ground arith, ground arith, ground arith)

  pub commit-still :
      (i src : ℕ) (e : Edge)
      → ((commit config i src e).registered ≡ insert src i e.registered)
        × ((commit config i src e).places ≡ e.places)
        × ((commit config i src e).holders ≡ e.holders)
  unfolding commit send_raw
  commit-still i src e = (ground arith, ground arith, ground arith)

  -- An address that is to be registered for session `i`: its own, or free with room for an entry.
  abbrev pub MayRegister : ℕ → ℕ → Edge → Type 0
  MayRegister i src e =
      ((lookup src e.registered ≡ some i)
        ⊎ ((lookup src e.registered ≡ none)
            × ((e.sessions i).activated ≡ false)
            × (length e.registered < config.max_connections)))

  commit_listed :
      (i src k : ℕ) (e : Edge)
      → EdgeCore config e
      → MayRegister i src e
      → ((commit config i src e).sessions k).activated ≡ true
      → ((commit config i src e).sessions k).closing ≡ false
      → (addr : ℕ) × (((commit config i src e).sessions k).tester_logical_addr ≡ some addr)
        × (lookup addr (commit config i src e).registered ≡ some k)
  commit_listed i src k e core free active alive = elim (Bool-cases (k == i)) [
    | inl same ↦
        let k_is_i : k ≡ i = (==_iff k i).0 same in
        rw (k_is_i, (commit-still i src e).0)
          (src, (commit_self i src e).1, ground (arith, lookup-insert src src i e.registered))
    | inr other ↦
        let ne : k ≢ i = ground arith in
        let unmoved = commit-other i src k e ne in
        let (addr, named, entry) = core.listed k (rw unmoved at active) (rw unmoved at alive) in
        (
          addr,
          rw unmoved named,
          rw (commit-still i src e).0 (ground (arith, lookup-insert src addr i e.registered)),
        )
  ]

  -- Such a registration keeps it.
  pub commit-Core :
      (i src : ℕ) (e : Edge)
      → EdgeCore config e
      → (e.sessions i).closing ≡ false
      → MayRegister i src e
      → EdgeCore config (commit config i src e)
  unfolding commit send_raw
  commit-Core i src e core open_still free = record {
    owned = λ addr j h.
        ground (arith, lookup-insert src addr i e.registered, core.owned addr j, core.owned src i);
    listed = λ j active alive. commit_listed i src j e core free active alive;
    within = ground (arith, length-insert src i e.registered, core.within);
    sockets = ground (arith, core.sockets);
    shut = λ j h. ground (arith, core.shut j, core.shut i);
  }
