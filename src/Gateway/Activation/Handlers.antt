-- ===== src/Gateway/Activation/Handlers.antt =====
-- The handlers of a routing activation in doip_edgenode/session.py behind a probe and from the request
-- on, and the cleanup of other sessions, as turns.
use doip_playground.Base.{
  ◌==◌, if◌then◌else◌, ==_iff, Bool-cases, contains, if-rule, lookup, ℕ, ◌≡◌, refl, sym, ap, ◌∙◌,
  inl, inr, Bool, true, false, not, ◌&&◌, some, List, [], ◌∷◌, arith,
}
use doip_playground.Gateway.{is_tester_allowed, GatewayConfig}
use doip_playground.Gateway.Activation.{
  goto, schedule_cleanup, end_session, is_tester_of, owns_address, routing_response, respond,
  evict_dead, after_reclaim, resolve_owner, after_alive_probe, refuse_activation,
  request_activation, DoipSession, Edge, queued, deciding,
}
use doip_playground.Gateway.Activation.Registered.{
  schedule_cleanup-other, schedule_cleanup_self, schedule_cleanup-still, cleanup_keeps_none,
  schedule_cleanup-Core, EdgeCore,
}
use doip_playground.Gateway.Activation.Turns.{
  Named, Held, Vacant, Tame-trans, send_raw-Tame, cleanup-Tame, Tame,
}
use doip_playground.Gateway.Activation.Commits.{
  after, send_raw-Core, goto-Turn, end_session-Turn, fail_locked-Turn, deny_locked-Turn,
  resolve_owner-Turn, Turn,
}

module _ (config : GatewayConfig) where
  pub cleanup_activated :
      (i j : ℕ) (e : Edge)
      → ((schedule_cleanup j e).sessions i).activated ≡ (e.sessions i).activated
  cleanup_activated i j e = elim (Bool-cases (i == j)) [
    | inl same ↦ rw ((==_iff i j).0 same) (schedule_cleanup_self j e).1
    | inr other ↦
        ap (λ (s : DoipSession). s.activated) (schedule_cleanup-other j i e (ground arith))
  ]

  pub cleanup_tester :
      (i j : ℕ) (e : Edge)
      → ((schedule_cleanup j e).sessions i).tester_logical_addr ≡ (e.sessions i).tester_logical_addr
  cleanup_tester i j e = elim (Bool-cases (i == j)) [
    | inl same ↦ rw ((==_iff i j).0 same) (schedule_cleanup_self j e).2
    | inr other ↦
        ap (λ (s : DoipSession). s.tester_logical_addr)
          (schedule_cleanup-other j i e (ground arith))
  ]

  -- A session that waits for room, with its address free.
  record Waiting (i src : ℕ) (e e' : Edge) : Type 0 where
    core : EdgeCore config e'
    tame : Tame i e e'
    held : Held e' i src
    vacant : Vacant e' i src

  -- An eviction leaves the address that the evicting session wants as free as it was.
  cleanup-Waiting :
      (i src j : ℕ) (e : Edge)
      → EdgeCore config e
      → Held e i src
      → Vacant e i src
      → Waiting i src e (schedule_cleanup j e)
  cleanup-Waiting i src j e core held (free, idle) = record {
    core = schedule_cleanup-Core config j e core;
    tame = cleanup-Tame i j e;
    held = rw (schedule_cleanup-still j e).1 held;
    vacant = (cleanup_keeps_none j src e free, cleanup_activated i j e ∙ idle);
  }

  evict_dead-Waiting :
      (i src : ℕ) (dead : ℕ → Bool) (owners : List (ℕ × ℕ)) (e0 e : Edge)
      → Waiting i src e0 e
      → Waiting i src e0 (evict_dead config dead owners e)
  unfolding evict_dead
  evict_dead-Waiting i src dead [] e0 e w = w
  evict_dead-Waiting i src dead ((addr, owner) ∷ owners) e0 e w =
      evict_dead-Waiting i src dead owners e0
        (if dead owner && owns_address (lookup addr e.registered) owner
          then schedule_cleanup owner e
          else e)
        (if-rule (λ e'. Waiting i src e0 e')
          (dead owner && owns_address (lookup addr e.registered) owner)
          (λ _.
            let next = cleanup-Waiting i src owner e w.core w.held w.vacant in
            record {
              core = next.core;
              tame = Tame-trans i e0 e (schedule_cleanup owner e) w.tame next.tame;
              held = next.held;
              vacant = next.vacant;
            })
          (λ _. w))

  pub same-Tame : (i : ℕ) (e : Edge) → Tame i e e
  same-Tame i e = record {
    who = λ k ne. (refl, refl);
    kept = λ s k ne h. h;
    vacant = λ s free. inl free;
    stay = λ k ne. refl;
  }

  pub after_reclaim-Turn :
      (i src : ℕ) (owners : List (ℕ × ℕ)) (dead : ℕ → Bool) (e : Edge)
      → EdgeCore config e
      → Held e i src
      → Vacant e i src
      → Turn config i e (after_reclaim config i src owners dead e)
  unfolding after_reclaim
  after_reclaim-Turn i src owners dead e core held vacant =
      if-rule (λ e'. Turn config i e e') (e.sessions i).closing
        (λ _. fail_locked-Turn config i src e core held)
        (λ _.
          let e' = evict_dead config dead owners e in
          let w =
            evict_dead-Waiting i src dead owners e e
              (record { core = core; tame = same-Tame i e; held = held; vacant = vacant }) in
          after config i e e' (goto i (deciding src) e') w.tame
            (goto-Turn config i (deciding src) e' w.core (w.held, w.vacant)))

  resolve_evicted-Turn :
      (i src j : ℕ) (e : Edge)
      → EdgeCore config e
      → Held e i src
      → Named e i src
      → Turn config i e (resolve_owner config i src (schedule_cleanup j e))
  resolve_evicted-Turn i src j e core held named =
      let e' = schedule_cleanup j e in
      after config i e e' (resolve_owner config i src e') (cleanup-Tame i j e) (
        resolve_owner-Turn config i src e' (schedule_cleanup-Core config j e core)
          (rw (schedule_cleanup-still j e).1 held)
          (λ active. cleanup_tester i j e ∙ named (sym (cleanup_activated i j e) ∙ active)))

  pub after_alive_probe-Turn :
      (i src j : ℕ) (alive : Bool) (e : Edge)
      → EdgeCore config e
      → Named e i src
      → Held e i src
      → Turn config i e (after_alive_probe config i src j alive e)
  unfolding after_alive_probe
  after_alive_probe-Turn i src j alive e core named held =
      if-rule (λ e'. Turn config i e e') (e.sessions i).closing
        (λ _. fail_locked-Turn config i src e core held)
        (λ _.
          if-rule (λ e'. Turn config i e e') (not (owns_address (lookup src e.registered) j))
            (λ _. resolve_owner-Turn config i src e core held named)
            (λ _.
              if-rule (λ e'. Turn config i e e') alive
                (λ _. deny_locked-Turn config i 0x03 src e core held)
                (λ _. resolve_evicted-Turn i src j e core held named)))

  refuse-Turn :
      (i code src : ℕ) (e : Edge)
      → EdgeCore config e
      → Turn config i e (refuse_activation config i code src e)
  refuse-Turn i code src e core =
      let e' = respond config i code src e in
      after config i e e' (end_session i e')
        (send_raw-Tame i i (routing_response config code src) e)
        (end_session-Turn config i e'
          (send_raw-Core config i (routing_response config code src) e core))

  own_name :
      (s : DoipSession) (src : ℕ)
      → s.activated ≡ true
      → (s.activated && not (is_tester_of s src)) ≡ false
      → s.tester_logical_addr ≡ some src
  own_name s src active own = ground arith

  pub request_activation-Turn :
      (i src activation_type : ℕ) (e : Edge)
      → EdgeCore config e
      → Turn config i e (request_activation config i src activation_type e)
  unfolding request_activation
  request_activation-Turn i src activation_type e core =
      if-rule (λ e'. Turn config i e e')
        ((e.sessions i).activated && not (is_tester_of (e.sessions i) src))
        (λ _. refuse-Turn i 0x02 src e core)
        (λ own.
          if-rule (λ e'. Turn config i e e') (not (is_tester_allowed config src))
            (λ _. refuse-Turn i 0x00 src e core)
            (λ _.
              if-rule (λ e'. Turn config i e e') (not (contains activation_type (0x00 ∷ 0x01 ∷ [])))
                (λ _. refuse-Turn i 0x06 src e core)
                (λ _.
                  goto-Turn config i (queued src) e core
                    (λ active. own_name (e.sessions i) src active own))))
