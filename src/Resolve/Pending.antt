-- ===== src/Resolve/Pending.antt =====
-- The waiting of `_dispatch_with_p2` in virtual_ecu/virtecu/session.py.
use doip_playground.Base.{
  Bool-cases, ℕ, zero, suc, ◌+◌, ◌*◌, ◌≤◌, ◌<◌, ◌≡◌, inl, inr, true, false, Option, arith,
}
use doip_playground.Config.{UdsConfig}
use doip_playground.Resolve.{
  done_by, at_cap, wait_loop, wait, Waited, finished, gave_up, still_waiting,
}

module _ (uds : UdsConfig) where
  abbrev pub Ended : Waited → Type 0
  Ended (finished n) = Unit {0}
  Ended (gave_up n) = Unit {0}
  Ended still_waiting = ⊥

  -- When the window behind `n` 0x78 frames closes, in tenths of a millisecond.
  abbrev pub window_end : ℕ → ℕ
  window_end n = uds.p2_server_ms * 10 + n * (uds.p2_star_server_ms * 9)

  -- The handler ended by the close of the window in which it was found finished; the waiting gave
  -- up with exactly as many frames as the cap, on a handler that had not ended by the close of the
  -- last window.
  abbrev pub Told : Option ℕ → Waited → Type 0
  Told done_at (finished n) =
      (n ≤ uds.max_response_pending) × (done_by done_at (window_end n) ≡ true)
  Told done_at (gave_up n) =
      (n ≡ uds.max_response_pending) × (done_by done_at (window_end n) ≡ false)
  Told done_at still_waiting = ⊥

  wait_loop-Told :
      (fuel : ℕ) (done_at : Option ℕ) (elapsed window pending_sent : ℕ)
      → 0 < uds.max_response_pending
      → pending_sent ≤ uds.max_response_pending
      → uds.max_response_pending < fuel + pending_sent
      → elapsed + window ≡ window_end pending_sent
      → Told done_at (wait_loop uds fuel done_at elapsed window pending_sent)
  unfolding wait_loop
  wait_loop-Told zero done_at elapsed window pending_sent pos le enough e = absurd (omega arith)
  wait_loop-Told (suc fuel) done_at elapsed window pending_sent pos le enough e =
      elim (Bool-cases (done_by done_at (elapsed + window))) [
        | inl done ↦ rw done (le, rw e at done)
        | inr busy ↦ rw busy (elim (Bool-cases (at_cap uds.max_response_pending pending_sent)) [
          | inl cap ↦ rw cap (ground arith, rw e at busy)
          | inr more ↦ rw more (
              wait_loop-Told fuel done_at (elapsed + window) (uds.p2_star_server_ms * 9)
                (suc pending_sent) pos (ground arith) (omega arith) (omega arith))
        ])
      ]

  -- With ResponsePending on and capped, and more fuel than the cap, the waiting always ends, also
  -- on a handler that never does: after at most as many 0x78 frames as the cap, on a handler that
  -- ended by the close of the last window, or after exactly as many, on one that had not.
  pub wait-Told :
      (fuel : ℕ) (done_at : Option ℕ)
      → uds.auto_response_pending ≡ true
      → 0 < uds.max_response_pending
      → uds.max_response_pending < fuel
      → Told done_at (wait uds fuel done_at)
  unfolding wait
  wait-Told fuel done_at auto pos enough = rw auto (
      wait_loop-Told fuel done_at 0 (uds.p2_server_ms * 10) 0 pos (omega arith) (omega arith)
        (omega arith))
