-- ===== src/Resolve/Suppression.antt =====
-- The suppression rules of `resolve_uds` in virtual_ecu/virtecu/session.py.
use doip_playground.Base.{Bytes, ◌≡◌, true, some, [], ◌∷◌, arith}
use doip_playground.Config.{UdsConfig}
use doip_playground.Uds.{sid_negative_response, suppress_pos_rsp, UdsRequest}
use doip_playground.Effect.{
  World, negative_response, suppress_response, abort_connection, cancelled, python_error, Run,
  returned, raised,
}
use doip_playground.Hooks.{Value, py_none, no_response, py_bytes, py_bool, py_other}
use doip_playground.Resolve.{answer}

abbrev pub StartsNegative : Bytes → Type 0
StartsNegative [] = ⊥
StartsNegative (b ∷ bs) = b ≡ sid_negative_response

module _ (uds : UdsConfig) where
  bytes_rule :
      (r : UdsRequest) (b a : Bytes) (w w' : World)
      → suppress_pos_rsp r ≡ true
      → uds.suppress_pos_rsp_bit ≡ true
      → answer uds r (returned (py_bytes b) w) ≡ returned (some a) w'
      → StartsNegative a
  unfolding answer
  bytes_rule r [] a w w' p q e = absurd (ground arith)
  bytes_rule r (x ∷ xs) [] w w' p q e = absurd (ground arith)
  bytes_rule r (x ∷ xs) (y ∷ ys) w w' p q e = ground arith

  -- Where the suppress bit is set and honoured, an answer that is returned for the wire is a
  -- negative response, whatever the handlers return or raise; one that leaves by an exception is
  -- not meant.
  pub answer-StartsNegative :
      (r : UdsRequest) (run : Run Value) (a : Bytes) (w : World)
      → suppress_pos_rsp r ≡ true
      → uds.suppress_pos_rsp_bit ≡ true
      → answer uds r run ≡ returned (some a) w
      → StartsNegative a
  answer-StartsNegative r (returned (py_bytes b) w') a w p q e = bytes_rule r b a w' w p q e
  answer-StartsNegative r (returned py_none w') a w p q e = absurd (unfold answer in ground arith)
  answer-StartsNegative r (returned no_response w') a w p q e =
      absurd (unfold answer in ground arith)
  answer-StartsNegative r (returned (py_bool b) w') a w p q e =
      absurd (unfold answer in ground arith)
  answer-StartsNegative r (returned (py_other b) w') a w p q e =
      absurd (unfold answer in ground arith)
  answer-StartsNegative r (raised (negative_response code s) w') [] w p q e =
      absurd (unfold answer in ground arith)
  answer-StartsNegative r (raised (negative_response code s) w') (y ∷ ys) w p q e =
      unfold answer in ground arith
  answer-StartsNegative r (raised suppress_response w') a w p q e =
      absurd (unfold answer in ground arith)
  answer-StartsNegative r (raised (abort_connection b) w') a w p q e =
      absurd (unfold answer in ground arith)
  answer-StartsNegative r (raised cancelled w') a w p q e = absurd (unfold answer in ground arith)
  answer-StartsNegative r (raised python_error w') a w p q e =
      absurd (unfold answer in ground arith)
