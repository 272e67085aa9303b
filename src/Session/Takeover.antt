-- ===== src/Session/Takeover.antt =====
-- Behind the Alive Check in virtual_ecu/virtecu/session.py: what becomes of a tester that is already
-- registered, and of the one that asks for its place.
use doip_playground.Base.{
  length, lookup, lookup-insert, length-erase-lt, ℕ, ◌≤◌, ◌<◌, ◌≡◌, refl, sym, ap, ◌∙◌, ◌≢◌, true,
  false, some, [], ◌∷◌, ◌++◌, arith,
}
use doip_playground.Config.{EcuConfig}
use doip_playground.Doip.{pt_routing_act_response}
use doip_playground.Session.{
  unregister, bump_general, send, response_frame, send_response, activation_response, deny,
  register_tester, accept, admit, evict, after_probe, Connection, System, stay, close,
}
use doip_playground.Session.Registry.{SameBinding, send_response-SameBinding}

module _ (config : EcuConfig) where
  -- What a tester owns: its registered connection.
  accept-lookup : (i src : ℕ) (s : System) → lookup src (accept config i src s).registry ≡ some i
  unfolding accept register_tester send_response send bump_general
  accept-lookup i src s = ground (arith, lookup-insert src src i s.registry)

  accept-own :
      (i src : ℕ) (s : System)
      → (((accept config i src s).connections i).activated ≡ true)
        × (((accept config i src s).connections i).tester ≡ some src)
        × (((accept config i src s).connections i).is_open ≡ (s.connections i).is_open)
  unfolding accept register_tester send_response send bump_general
  accept-own i src s = (ground arith, ground arith, ground arith)

  pub accept-other :
      (i src j : ℕ) (s : System) → j ≢ i → (accept config i src s).connections j ≡ s.connections j
  unfolding accept register_tester send_response send bump_general
  accept-other i src j s ne = ground arith

  admit-room :
      (i src : ℕ) (s : System)
      → length s.registry < config.doip.max_concurrent_sessions
      → admit config i src s ≡ (stay, accept config i src s)
  unfolding admit
  admit-room i src s room = ground arith

  evict-room :
      (j src n : ℕ) (s : System)
      → lookup src s.registry ≡ some j
      → (s.connections j).tester ≡ some src
      → length s.registry ≤ n
      → length (evict config j s).registry < n
  unfolding evict unregister
  evict-room j src n s reg own cap = ground (arith, length-erase-lt src j s.registry reg)

  evict-other : (j k : ℕ) (s : System) → k ≢ j → (evict config j s).connections k ≡ s.connections k
  unfolding evict
  evict-other j k s ne = ground arith

  evict-closed : (j : ℕ) (s : System) → ((evict config j s).connections j).is_open ≡ false
  unfolding evict
  evict-closed j s = ground arith

  -- An eviction of a connection that is no longer registered changes no entry.
  evict-stale :
      (j src b : ℕ) (s : System)
      → b ≢ j
      → lookup src s.registry ≡ some b
      → (s.connections j).tester ≡ some src
      → (evict config j s).registry ≡ s.registry
  unfolding evict unregister
  evict-stale j src b s ne reg own = ground arith

  -- Where the connection that was probed answers, the newcomer is denied with 0x03 on its own
  -- socket, which closes, and neither the registry nor any connection's binding changes.
  pub after_probe_alive :
      (i src j : ℕ) (s : System)
      → ((after_probe config i src j true s).0 ≡ close)
        × SameBinding s (after_probe config i src j true s).1
        × ((after_probe config i src j true s).1.out
            ≡ s.out
              ++ (
                i,
                response_frame config i pt_routing_act_response
                    (activation_response config src 0x03)
                    s,
              )
                ∷ [])
  unfolding after_probe deny
  after_probe_alive i src j s = (
    refl,
    send_response-SameBinding config i pt_routing_act_response (activation_response config src 0x03)
        s,
    unfold send_response bump_general in ground arith,
  )

  -- Where the probed connection is registered for the tester and does not answer, and the registry
  -- is within its bound: it loses its entry and its socket, and the newcomer, another connection,
  -- is registered for the tester and stays.
  pub after_probe_dead :
      (i src j : ℕ) (s : System)
      → i ≢ j
      → lookup src s.registry ≡ some j
      → (s.connections j).tester ≡ some src
      → length s.registry ≤ config.doip.max_concurrent_sessions
      → ((after_probe config i src j false s).0 ≡ stay)
        × (lookup src (after_probe config i src j false s).1.registry ≡ some i)
        × (((after_probe config i src j false s).1.connections j).is_open ≡ false)
        × (((after_probe config i src j false s).1.connections i).tester ≡ some src)
  unfolding after_probe admit
  after_probe_dead i src j s ne reg own cap =
      let s' = evict config j s in
      let room = admit-room i src s' (evict-room j src _ s reg own cap) in
      ground (
        arith,
        room,
        accept-lookup i src s',
        accept-own i src s',
        accept-other i src j s',
        evict-closed j s,
      )

  evict-tester :
      (j k : ℕ) (s : System) → ((evict config j s).connections k).tester ≡ (s.connections k).tester
  unfolding evict
  evict-tester j k s = ground arith

  -- A second eviction of `j`, after a newcomer `a` has taken its place, and the admission of `b`.
  evict_again :
      (a b src j : ℕ) (s1 : System)
      → a ≢ b
      → a ≢ j
      → lookup src s1.registry ≡ some a
      → (s1.connections j).tester ≡ some src
      → length s1.registry < config.doip.max_concurrent_sessions
      → (admit config b src (evict config j s1) ≡ (stay, accept config b src (evict config j s1)))
        × ((accept config b src (evict config j s1)).connections a ≡ s1.connections a)
  evict_again a b src j s1 ab aj reg own room =
      let same = evict-stale j src a s1 aj reg own in
      let s' = evict config j s1 in
      (admit-room b src s' (rw same room), accept-other b src a s' ab ∙ evict-other j a s1 aj)

  -- Two other connections that both wait for the same silent connection, registered for their
  -- tester, are both admitted if there is room for one more behind the first: the later one takes
  -- the registry entry, and the earlier one stays activated for the tester, with its socket open.
  pub after_probe_twice :
      (a b src j : ℕ) (s : System)
      → a ≢ b
      → a ≢ j
      → (s.connections a).is_open ≡ true
      → length s.registry ≤ config.doip.max_concurrent_sessions
      → length (after_probe config a src j false s).1.registry < config.doip.max_concurrent_sessions
      → lookup src s.registry ≡ some j
      → (s.connections j).tester ≡ some src
      → let s1 = (after_probe config a src j false s).1 in
        let s2 = (after_probe config b src j false s1).1 in
        (lookup src s2.registry ≡ some b)
        × ((s2.connections a).activated ≡ true)
        × ((s2.connections a).tester ≡ some src)
        × ((s2.connections a).is_open ≡ true)
  unfolding after_probe
  after_probe_twice a b src j s ab aj op cap room reg own =
      let s0 = evict config j s in
      let s1 = accept config a src s0 in
      let first = admit-room a src s0 (evict-room j src _ s reg own cap) in
      rw first (
        let (second, keeps) =
          evict_again a b src j s1 ab aj (accept-lookup a src s0)
            (ap (λ (c : Connection). c.tester) (accept-other a src j s0 (λ e. aj (sym e)))
              ∙ evict-tester j j s
              ∙ own)
            (rw first at room) in
        let owned = accept-own a src s0 in
        rw (second, keeps)
          (
            accept-lookup b src (evict config j s1),
            owned.0,
            owned.1,
            owned.2 ∙ ap (λ (c : Connection). c.is_open) (evict-other j a s aj) ∙ op,
          ))
