-- ===== src/Gateway/Activation/Commits.antt =====
-- The commit of a routing activation in doip_edgenode/session.py, with the capacity check before it,
-- is a turn that keeps the registry consistent and leaves the session where it may wait.
use doip_playground.Base.{
  Option-cases, if-rule, lookup, Bytes, ℕ, ◌≡◌, refl, sym, inl, inr, false, none, [], arith,
}
use doip_playground.Doip.{pt_alive_check_request}
use mathlib.Core.Path.{subst}
use doip_playground.Gateway.{wire_frame, GatewayConfig}
use doip_playground.Gateway.Activation.{
  goto, schedule_cleanup, send_raw, leave_lock, end_session, fail_locked, other_owner,
  routing_response, respond, commit, commit_open, is_full, finish_capacity, check_capacity,
  start_reclaim, resolve_owner, Edge, Place, absent, reading, gone, queued, probing,
  waiting_capacity, reclaiming, deciding,
}
use doip_playground.Gateway.Activation.Registered.{
  schedule_cleanup-Core, SameRegistry-Core, commit-still, MayRegister, commit-Core, EdgeCore,
}
use doip_playground.Gateway.Activation.Turns.{
  Named, Held, Vacant, PlaceOk, Tame-trans, send_raw-Tame, cleanup-Tame, goto-Tame, leave_lock-Tame,
  commit-Tame, Tame,
}

module _ (config : GatewayConfig) where
  -- A turn of session `i`, from `e` to `e'`.
  pub record Turn (i : ℕ) (e e' : Edge) : Type 0 where
    pub core : EdgeCore config e'
    pub tame : Tame i e e'
    pub place : PlaceOk e' i (e'.places i)

  pub after : (i : ℕ) (e e' e'' : Edge) → Tame i e e' → Turn i e' e'' → Turn i e e''
  after i e e' e'' t turn = record {
    core = turn.core;
    tame = Tame-trans i e e' e'' t turn.tame;
    place = turn.place;
  }

  pub send_raw-Core :
      (k : ℕ) (raw : Bytes) (e : Edge) → EdgeCore config e → EdgeCore config (send_raw k raw e)
  send_raw-Core k raw e =
      SameRegistry-Core config e (send_raw k raw e)
        (unfold send_raw in (ground arith, ground arith, ground arith))

  pub goto-here : (i : ℕ) (p : Place) (e : Edge) → (goto i p e).places i ≡ p
  goto-here i p e = ground arith

  PlaceOk-goto :
      (i : ℕ) (p : Place) (e : Edge) (q : Place) → PlaceOk e i q → PlaceOk (goto i p e) i q
  PlaceOk-goto i p e absent ok = ok
  PlaceOk-goto i p e reading ok = ok
  PlaceOk-goto i p e gone ok = ok
  PlaceOk-goto i p e (queued src) ok = ok
  PlaceOk-goto i p e (probing src j) ok = ok
  PlaceOk-goto i p e (waiting_capacity src) ok = ok
  PlaceOk-goto i p e (reclaiming src owners) ok = ok
  PlaceOk-goto i p e (deciding src) ok = ok

  pub goto-Turn :
      (i : ℕ) (p : Place) (e : Edge) → EdgeCore config e → PlaceOk e i p → Turn i e (goto i p e)
  goto-Turn i p e core ok = record {
    core = SameRegistry-Core config e (goto i p e) (refl, refl, refl) core;
    tame = goto-Tame i p e;
    place = subst (λ q. PlaceOk (goto i p e) i q) (sym (goto-here i p e)) (PlaceOk-goto i p e p ok);
  }

  pub end_session-Turn : (i : ℕ) (e : Edge) → EdgeCore config e → Turn i e (end_session i e)
  end_session-Turn i e core =
      after i e (schedule_cleanup i e) (end_session i e) (cleanup-Tame i i e)
        (goto-Turn i gone (schedule_cleanup i e) (schedule_cleanup-Core config i e core) tt)

  pub leave_lock-Core :
      (src : ℕ) (e : Edge) → EdgeCore config e → EdgeCore config (leave_lock src e)
  leave_lock-Core src e = SameRegistry-Core config e (leave_lock src e) (refl, refl, refl)

  pub fail_locked-Turn :
      (i src : ℕ) (e : Edge) → EdgeCore config e → Held e i src → Turn i e (fail_locked i src e)
  fail_locked-Turn i src e core held =
      after i e (leave_lock src e) (fail_locked i src e) (leave_lock-Tame i src e held)
        (end_session-Turn i (leave_lock src e) (leave_lock-Core src e core))

  pub deny_locked-Turn :
      (i code src : ℕ) (e : Edge)
      → EdgeCore config e
      → Held e i src
      → Turn i e (fail_locked i src (respond config i code src e))
  deny_locked-Turn i code src e core held =
      let e' = respond config i code src e in
      after i e e' (fail_locked i src e') (send_raw-Tame i i (routing_response config code src) e) (
        fail_locked-Turn i src e' (send_raw-Core i (routing_response config code src) e core)
          (unfold send_raw in ground arith))

  commit_open-Turn :
      (i src : ℕ) (e : Edge)
      → EdgeCore config e
      → Held e i src
      → ((e.sessions i).closing ≡ false → MayRegister config i src e)
      → Turn i e (commit_open config i src e)
  unfolding commit_open
  commit_open-Turn i src e core held free =
      if-rule (λ e'. Turn i e e') (e.sessions i).closing (λ _. fail_locked-Turn i src e core held)
        (λ open_still.
          let e1 = commit config i src e in
          let e2 = leave_lock src e1 in
          let core1 = commit-Core config i src e core open_still (free open_still) in
          after i e e1 (goto i reading e2) (commit-Tame config i src e held) (
            after i e1 e2 (goto i reading e2)
              (leave_lock-Tame i src e1 (rw (commit-still config i src e).2 held))
              (goto-Turn i reading e2 (leave_lock-Core src e1 core1) tt)))

  pub finish_capacity-Turn :
      (i src : ℕ) (e : Edge)
      → EdgeCore config e
      → Held e i src
      → Vacant e i src
      → Turn i e (finish_capacity config i src e)
  unfolding finish_capacity
  finish_capacity-Turn i src e core held (free, idle) =
      if-rule (λ e'. Turn i e e') (is_full config e) (λ _. deny_locked-Turn i 0x01 src e core held)
        (λ room. commit_open-Turn i src e core held (λ _. inr (free, idle, ground arith)))

  check_capacity-Turn :
      (i src : ℕ) (e : Edge)
      → EdgeCore config e
      → Held e i src
      → Named e i src
      → other_owner i (lookup src e.registered) ≡ none
      → Turn i e (check_capacity config i src e)
  unfolding check_capacity
  check_capacity-Turn i src e core held named mine =
      if-rule (λ e'. Turn i e e') (e.sessions i).activated
        (λ active. commit_open-Turn i src e core held (λ open_still.
          let (addr, own, entry) = core.listed i active open_still in
          inl (ground (arith, named active))))
        (λ idle.
          let free : lookup src e.registered ≡ none = ground (arith, core.owned src i) in
          if-rule (λ e'. Turn i e e') (is_full config e)
            (λ _. goto-Turn i (waiting_capacity src) e core (held, (free, idle)))
            (λ room. commit_open-Turn i src e core held (λ _. inr (free, idle, ground arith))))

  pub start_reclaim-Turn :
      (i src : ℕ) (e : Edge)
      → EdgeCore config e
      → Held e i src
      → Vacant e i src
      → Turn i e (start_reclaim config i src e)
  unfolding start_reclaim
  start_reclaim-Turn i src e core held vacant =
      if-rule (λ e'. Turn i e e') (e.sessions i).closing (λ _. fail_locked-Turn i src e core held)
        (λ _.
          if-rule (λ e'. Turn i e e') (is_full config e)
            (λ _. goto-Turn i (reclaiming src e.registered) e core (held, vacant))
            (λ _. finish_capacity-Turn i src e core held vacant))

  pub resolve_owner-Turn :
      (i src : ℕ) (e : Edge)
      → EdgeCore config e
      → Held e i src
      → Named e i src
      → Turn i e (resolve_owner config i src e)
  unfolding resolve_owner
  resolve_owner-Turn i src e core held named =
      if-rule (λ e'. Turn i e e') (e.sessions i).closing (λ _. fail_locked-Turn i src e core held)
        (λ _. elim (Option-cases (other_owner i (lookup src e.registered))) [
          | inl mine ↦ rw (mine, resolve_owner) (check_capacity-Turn i src e core held named mine)
          | inr (j, other) ↦
              let e' = send_raw j (wire_frame pt_alive_check_request []) e in
              rw (other, resolve_owner)
                (after i e e' (goto i (probing src j) e')
                  (send_raw-Tame i j (wire_frame pt_alive_check_request []) e)
                  (goto-Turn i (probing src j) e'
                    (send_raw-Core j (wire_frame pt_alive_check_request []) e core)
                    (unfold send_raw in (λ active. ground (arith, named), ground arith))))
        ])
