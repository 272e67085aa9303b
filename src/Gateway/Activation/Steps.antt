-- ===== src/Gateway/Activation/Steps.antt =====
-- The sessions of doip_edgenode/session.py in any order of their steps, for routing activation.
use doip_playground.Base.{lookup, ℕ, ◌≡◌, ◌≢◌, Bool, false, none, List, []}
use doip_playground.Gateway.{GatewayConfig}
use doip_playground.Gateway.Activation.{
  schedule_cleanup, end_session, new_session, connect, finish_capacity, start_reclaim,
  after_reclaim, after_alive_probe, stop_initial_timer, request_activation, enter_lock, leave_place,
  Edge, absent, reading, queued, probing, waiting_capacity, reclaiming, deciding,
}

module _ (config : GatewayConfig) where
  -- One step of one session, between two waits.
  pub data EdgeStep (e : Edge) : Edge → Type 0 where
    connects : (i : ℕ) → e.places i ≡ absent → EdgeStep e (connect config i e)
    requests :
        (i src activation_type : ℕ)
        → e.places i ≡ reading
        → (e.sessions i).closing ≡ false
        → EdgeStep e
            (request_activation config i src activation_type (stop_initial_timer config i e))
    acquires :
        (i src : ℕ)
        → e.places i ≡ queued src
        → lookup src e.holders ≡ none
        → EdgeStep e (enter_lock config i src e)
    probed :
        (i src j : ℕ) (alive : Bool)
        → e.places i ≡ probing src j
        → EdgeStep e (after_alive_probe config i src j alive e)
    enters_capacity :
        (i src : ℕ) → e.places i ≡ waiting_capacity src → EdgeStep e (start_reclaim config i src e)
    reclaimed :
        (i src : ℕ) (owners : List (ℕ × ℕ)) (dead : ℕ → Bool)
        → e.places i ≡ reclaiming src owners
        → EdgeStep e (after_reclaim config i src owners dead e)
    decides : (i src : ℕ) → e.places i ≡ deciding src → EdgeStep e (finish_capacity config i src e)
    cleans_up : (i : ℕ) → e.places i ≢ absent → EdgeStep e (schedule_cleanup i e)
    cancelled :
        (i : ℕ)
        → e.places i ≢ absent
        → EdgeStep e (end_session i (leave_place config (e.places i) e))

  abbrev pub empty_edge : Edge
  empty_edge = record {
    sessions = λ _. new_session;
    places = λ _. absent;
    open_sockets = [];
    registered = [];
    holders = [];
    out = [];
  }

  pub data EdgeReach : Edge → Type 0 where
    begins : EdgeReach empty_edge
    then_step : {e e' : Edge} → EdgeReach e → EdgeStep e e' → EdgeReach e'
