-- ===== src/Gateway/Activation/Exclusive.antt =====
-- In every interleaving of the sessions of doip_edgenode/session.py, an address has one session.
use doip_playground.Base.{
  ◌==◌, ==_iff, Bool-cases, Option-cases, length, lookup, insert, lookup-insert, ℕ, ◌+◌, ◌≤◌, ◌≡◌,
  refl, sym, ◌∙◌, ◌≢◌, inl, inr, true, false, Option, none, some, List, arith,
}
use doip_playground.Gateway.{GatewayConfig}
use mathlib.Core.Path.{subst}
use doip_playground.Gateway.Activation.Steps.{
  empty_edge, EdgeStep, connects, requests, acquires, probed, enters_capacity, reclaimed, decides,
  cleans_up, cancelled, EdgeReach, begins, then_step,
}
use doip_playground.Gateway.Activation.{
  put_session, put_place, schedule_cleanup, attach, new_session, connect, stop_initial_timer,
  request_activation, enter_lock, leave_place, Edge, Place, absent, reading, gone, queued, probing,
  waiting_capacity, reclaiming, deciding,
}
use doip_playground.Gateway.Activation.Registered.{
  schedule_cleanup-still, cleanup_keeps_none, schedule_cleanup-Core, SameRegistry-Core, EdgeCore,
}
use doip_playground.Gateway.Activation.Turns.{
  Named, Held, Vacant, PlaceOk, PlaceOk-Tame, leave_lock-Tame, Tame,
}
use doip_playground.Gateway.Activation.Admission.{attach_bounded}
use doip_playground.Gateway.Activation.Commits.{
  after, goto-here, end_session-Turn, leave_lock-Core, finish_capacity-Turn, start_reclaim-Turn,
  resolve_owner-Turn, Turn,
}
use doip_playground.Gateway.Activation.Handlers.{
  cleanup_activated, cleanup_tester, same-Tame, after_reclaim-Turn, after_alive_probe-Turn,
  request_activation-Turn,
}

module _ (config : GatewayConfig) where
  -- What holds between any two steps.
  pub record EdgeInv (e : Edge) : Type 0 where
    pub consistent : EdgeCore config e
    pub placed : (i : ℕ) → PlaceOk e i (e.places i)

  Turn-Inv : (i : ℕ) (e e' : Edge) → EdgeInv e → Turn config i e e' → EdgeInv e'
  Turn-Inv i e e' inv turn = record {
    consistent = turn.core;
    placed = λ k. elim (Bool-cases (k == i)) [
      | inl same ↦ rw ((==_iff k i).0 same) turn.place
      | inr other ↦
          let ne : k ≢ i = ground arith in
          rw (turn.tame.stay k ne) (PlaceOk-Tame i k e e' (e.places k) turn.tame ne (inv.placed k))
    ];
  }

  Named-cleanup : (i k src : ℕ) (e : Edge) → Named e k src → Named (schedule_cleanup i e) k src
  Named-cleanup i k src e named active =
      cleanup_tester config k i e ∙ named (sym (cleanup_activated config k i e) ∙ active)

  Vacant-cleanup :
      (i k src : ℕ) (e : Edge)
      → Held e k src
      → lookup src e.registered ≡ none
      → (e.sessions k).activated ≡ false
      → Held (schedule_cleanup i e) k src × Vacant (schedule_cleanup i e) k src
  Vacant-cleanup i k src e held free idle = (
    rw (schedule_cleanup-still i e).1 held,
    (cleanup_keeps_none i src e free, cleanup_activated config k i e ∙ idle),
  )

  -- The invariant where the places stay and a session is cleaned up.
  PlaceOk-cleanup :
      (i k : ℕ) (e : Edge) (p : Place) → PlaceOk e k p → PlaceOk (schedule_cleanup i e) k p
  PlaceOk-cleanup i k e absent ok = cleanup_activated config k i e ∙ ok
  PlaceOk-cleanup i k e reading ok = tt
  PlaceOk-cleanup i k e gone ok = tt
  PlaceOk-cleanup i k e (queued src) ok = Named-cleanup i k src e ok
  PlaceOk-cleanup i k e (probing src j) (named, held) =
      (Named-cleanup i k src e named, rw (schedule_cleanup-still i e).1 held)
  PlaceOk-cleanup i k e (waiting_capacity src) (held, (free, idle)) =
      Vacant-cleanup i k src e held free idle
  PlaceOk-cleanup i k e (reclaiming src owners) (held, (free, idle)) =
      Vacant-cleanup i k src e held free idle
  PlaceOk-cleanup i k e (deciding src) (held, (free, idle)) =
      Vacant-cleanup i k src e held free idle

  cleanup-Inv : (i : ℕ) (e : Edge) → EdgeInv e → EdgeInv (schedule_cleanup i e)
  cleanup-Inv i e inv = record {
    consistent = schedule_cleanup-Core config i e inv.consistent;
    placed =
        λ k. rw (schedule_cleanup-still i e).0 (PlaceOk-cleanup i k e (e.places k) (inv.placed k));
  }

  -- What a task that is cancelled holds is its own lock.
  leave_place-Tame :
      (i : ℕ) (p : Place) (e : Edge) → PlaceOk e i p → Tame i e (leave_place config p e)
  leave_place-Tame i absent e ok = same-Tame config i e
  leave_place-Tame i reading e ok = same-Tame config i e
  leave_place-Tame i gone e ok = same-Tame config i e
  leave_place-Tame i (queued src) e ok = same-Tame config i e
  leave_place-Tame i (probing src j) e ok = leave_lock-Tame i src e ok.1
  leave_place-Tame i (waiting_capacity src) e ok = leave_lock-Tame i src e ok.0
  leave_place-Tame i (reclaiming src owners) e ok = leave_lock-Tame i src e ok.0
  leave_place-Tame i (deciding src) e ok = leave_lock-Tame i src e ok.0

  leave_place-Core :
      (p : Place) (e : Edge) → EdgeCore config e → EdgeCore config (leave_place config p e)
  leave_place-Core absent e core = core
  leave_place-Core reading e core = core
  leave_place-Core gone e core = core
  leave_place-Core (queued src) e core = core
  leave_place-Core (probing src j) e core = leave_lock-Core config src e core
  leave_place-Core (waiting_capacity src) e core = leave_lock-Core config src e core
  leave_place-Core (reclaiming src owners) e core = leave_lock-Core config src e core
  leave_place-Core (deciding src) e core = leave_lock-Core config src e core

  enter_lock-Turn :
      (i src : ℕ) (e : Edge)
      → EdgeCore config e
      → Named e i src
      → lookup src e.holders ≡ none
      → Turn config i e (enter_lock config i src e)
  enter_lock-Turn i src e core named free =
      let e' : Edge = record e { holders = insert src i e.holders } in
      after config i e e' (enter_lock config i src e)
        (record {
          who = λ k ne. (refl, refl);
          kept = λ s k ne h. ground (arith, lookup-insert src s i e.holders);
          vacant = λ s none_there. inl none_there;
          stay = λ k ne. refl;
        })
        (resolve_owner-Turn config i src e' (SameRegistry-Core config e e' (refl, refl, refl) core)
          (ground (arith, lookup-insert src src i e.holders)) named)

  -- A new session, where there was none.
  abbrev connected : ℕ → List (ℕ × Option ℕ) → Edge → Edge
  connected i sockets e = record e {
    sessions = put_session i new_session e.sessions;
    places = put_place i reading e.places;
    open_sockets = sockets;
  }

  connected-Core :
      (i : ℕ) (e : Edge) (sockets : List (ℕ × Option ℕ))
      → EdgeCore config e
      → (e.sessions i).activated ≡ false
      → length sockets ≤ config.max_connections + 1
      → EdgeCore config (connected i sockets e)
  connected-Core i e sockets core idle room = record {
    owned = λ addr j h. ground (arith, core.owned addr j);
    listed = λ j active alive.
        let (addr, named, entry) = core.listed j (ground arith) (ground arith) in
        (addr, ground arith, entry);
    within = core.within;
    sockets = room;
    shut = λ j h. ground (arith, core.shut j);
  }

  connect-Turn :
      (i : ℕ) (e : Edge)
      → EdgeCore config e
      → e.places i ≡ absent
      → (e.sessions i).activated ≡ false
      → Turn config i e (connect config i e)
  unfolding connect
  connect-Turn i e core here idle =
      elim (Option-cases (attach config.max_connections i e.open_sockets)) [
        | inl refused ↦
            rw (refused, connect)
              (record { core = core; tame = same-Tame config i e; place = rw here idle })
        | inr (sockets, admitted) ↦
            rw (admitted, connect)
              (record {
                core = connected-Core i e sockets core idle (
                    attach_bounded config.max_connections i e.open_sockets sockets admitted
                      core.sockets);
                tame = record {
                  who = λ k ne. ground arith;
                  kept = λ s k ne h. h;
                  vacant = λ s free. inl free;
                  stay = λ k ne. ground arith;
                };
                place =
                    subst (λ q. PlaceOk (connected i sockets e) i q)
                      (sym (goto-here config i reading e)) tt;
              })
      ]

  -- The timer is of no account here.
  stop_initial_timer-Core :
      (i : ℕ) (e : Edge) → EdgeCore config e → EdgeCore config (stop_initial_timer config i e)
  stop_initial_timer-Core i e core = record {
    owned = λ addr j h. ground (arith, core.owned addr j);
    listed = λ j active alive.
        let (addr, named, entry) = core.listed j (ground arith) (ground arith) in
        (addr, ground arith, entry);
    within = core.within;
    sockets = core.sockets;
    shut = λ j h. ground (arith, core.shut j);
  }

  request-Turn :
      (i src activation_type : ℕ) (e : Edge)
      → EdgeCore config e
      → Turn config i e
          (request_activation config i src activation_type (stop_initial_timer config i e))
  request-Turn i src activation_type e core =
      let e' = stop_initial_timer config i e in
      after config i e e' (request_activation config i src activation_type e')
        (record {
          who = λ k ne. ground arith;
          kept = λ s k ne h. h;
          vacant = λ s free. inl free;
          stay = λ k ne. refl;
        })
        (request_activation-Turn config i src activation_type e' (stop_initial_timer-Core i e core))

  -- Every step keeps it.
  EdgeStep-Inv : (e e' : Edge) → EdgeStep config e e' → EdgeInv e → EdgeInv e'
  EdgeStep-Inv e e' (connects i here) inv =
      Turn-Inv i e e' inv (connect-Turn i e inv.consistent here (rw here at (inv.placed i)))
  EdgeStep-Inv e e' (requests i src activation_type here open_still) inv =
      Turn-Inv i e e' inv (request-Turn i src activation_type e inv.consistent)
  EdgeStep-Inv e e' (acquires i src here free) inv =
      Turn-Inv i e e' inv (enter_lock-Turn i src e inv.consistent (rw here at (inv.placed i)) free)
  EdgeStep-Inv e e' (probed i src j alive here) inv =
      let (named, held) = rw here at (inv.placed i) in
      Turn-Inv i e e' inv (after_alive_probe-Turn config i src j alive e inv.consistent named held)
  EdgeStep-Inv e e' (enters_capacity i src here) inv =
      let (held, vacant) = rw here at (inv.placed i) in
      Turn-Inv i e e' inv (start_reclaim-Turn config i src e inv.consistent held vacant)
  EdgeStep-Inv e e' (reclaimed i src owners dead here) inv =
      let (held, vacant) = rw here at (inv.placed i) in
      Turn-Inv i e e' inv (after_reclaim-Turn config i src owners dead e inv.consistent held vacant)
  EdgeStep-Inv e e' (decides i src here) inv =
      let (held, vacant) = rw here at (inv.placed i) in
      Turn-Inv i e e' inv (finish_capacity-Turn config i src e inv.consistent held vacant)
  EdgeStep-Inv e e' (cleans_up i begun) inv = cleanup-Inv i e inv
  EdgeStep-Inv e e' (cancelled i begun) inv = Turn-Inv i e e' inv (
      after config i e (leave_place config (e.places i) e) e'
        (leave_place-Tame i (e.places i) e (inv.placed i))
        (end_session-Turn config i (leave_place config (e.places i) e)
          (leave_place-Core (e.places i) e inv.consistent)))

  empty-Inv : EdgeInv (empty_edge config)
  unfolding lookup
  empty-Inv = record {
    consistent = record {
      owned = λ addr j h. absurd (ground arith);
      listed = λ j active alive. absurd (ground arith);
      within = omega arith;
      sockets = omega arith;
      shut = λ j h. absurd (ground arith);
    };
    placed = λ i. refl;
  }

  EdgeReach-Inv : (e : Edge) → EdgeReach config e → EdgeInv e
  EdgeReach-Inv _ begins = empty-Inv
  EdgeReach-Inv _ (then_step {e} {e'} r s) = EdgeStep-Inv e e' s (EdgeReach-Inv e r)

  -- In every interleaving of the sessions from an empty edge node, with evictions, cleanups and
  -- cancellations at any time between two waits: of two sessions that are activated for the same
  -- address and not closing, both are the one that is registered for it; and neither the registry
  -- nor the open sockets exceed the configured number of connections, the sockets by more than the
  -- one in reserve.
  pub EdgeReach-exclusive :
      (e : Edge) (i j addr : ℕ)
      → EdgeReach config e
      → (e.sessions i).activated ≡ true
      → (e.sessions i).closing ≡ false
      → (e.sessions i).tester_logical_addr ≡ some addr
      → (e.sessions j).activated ≡ true
      → (e.sessions j).closing ≡ false
      → (e.sessions j).tester_logical_addr ≡ some addr
      → (i ≡ j)
        × (lookup addr e.registered ≡ some i)
        × (length e.registered ≤ config.max_connections)
        × (length e.open_sockets ≤ config.max_connections + 1)
  EdgeReach-exclusive e i j addr r ai ci ti aj cj tj =
      let core = (EdgeReach-Inv e r).consistent in
      let (addr_i, named_i, entry_i) = core.listed i ai ci in
      let (addr_j, named_j, entry_j) = core.listed j aj cj in
      (ground arith, ground arith, core.within, core.sockets)
