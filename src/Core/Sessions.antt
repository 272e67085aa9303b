-- ===== src/Core/Sessions.antt =====
-- The table of session states in virtual_ecu/virtecu/core.py: what a tester finds when it comes
-- back.
use doip_playground.Base.{
  lookup, lookup-insert, lookup-erase, ℕ, ◌<◌, ◌≡◌, Option, none, some, [], arith,
}
use doip_playground.Config.{EcuConfig}
use doip_playground.Effect.{update, World}
use doip_playground.Core.{
  reset_session, session_for, maybe_drop_session_state, drop_session_state, s3_expiry,
}

-- Every entry of the table is an object that exists and that belongs to the entry's tester.
abbrev pub TableInv : World → Type 0
TableInv w =
    (sa i : ℕ)
    → lookup sa w.session_states ≡ some i
    → (i < w.next_object) × ((w.objects i).tester_addr ≡ some sa)

-- So two testers never share a session state.
pub TableInv-injective :
    (w : World) (a b i : ℕ)
    → TableInv w
    → lookup a w.session_states ≡ some i
    → lookup b w.session_states ≡ some i
    → a ≡ b
TableInv-injective w a b i inv ha hb = ground (arith, inv a i ha, inv b i hb)

module _ (config : EcuConfig) where
  pub session_for-TableInv :
      (sa : ℕ) (w : World) → TableInv w → TableInv (session_for config sa w).1
  unfolding session_for
  session_for-TableInv sa w inv a i h =
      ground (arith, inv a i, lookup-insert sa a w.next_object w.session_states)

  pub maybe_drop-TableInv :
      (t state : Option ℕ) (w : World)
      → TableInv w
      → TableInv (maybe_drop_session_state config t state w)
  unfolding maybe_drop_session_state
  maybe_drop-TableInv none state w inv a i h = inv a i h
  maybe_drop-TableInv (some sa) state w inv a i h =
      ground (arith, inv a i, lookup-erase sa a w.session_states)

  pub drop-TableInv : (sa : ℕ) (w : World) → TableInv w → TableInv (drop_session_state config sa w)
  unfolding drop_session_state
  drop-TableInv sa w inv a i h = ground (arith, inv a i, lookup-erase sa a w.session_states)

  reset-TableInv :
      (i : ℕ) (w : World)
      → TableInv w
      → TableInv (record w { objects = update w.objects i (reset_session config (w.objects i)) })
  unfolding reset_session
  reset-TableInv i w inv a j h = ground (arith, inv a j)

  pub s3_expiry-TableInv : (i : ℕ) (w : World) → TableInv w → TableInv (s3_expiry config i w)
  unfolding s3_expiry
  s3_expiry-TableInv i w inv =
      maybe_drop-TableInv (w.objects i).tester_addr (some i) _ (reset-TableInv i w inv)

-- What the operations of `EcuCore` do to the table, from a table without entries on.
pub data Table (config : EcuConfig) : World → Type 0 where
  starts : (w : World) → w.session_states ≡ [] → Table config w
  finds : (w : World) (sa : ℕ) → Table config w → Table config (session_for config sa w).1
  tidies :
      (w : World) (t state : Option ℕ)
      → Table config w
      → Table config (maybe_drop_session_state config t state w)
  drops : (w : World) (sa : ℕ) → Table config w → Table config (drop_session_state config sa w)
  expires : (w : World) (i : ℕ) → Table config w → Table config (s3_expiry config i w)

module _ (config : EcuConfig) where
  starts-TableInv : (w : World) → w.session_states ≡ [] → TableInv w
  unfolding lookup
  starts-TableInv w empty sa i h = ground arith

  Table-TableInv : (w : World) → Table config w → TableInv w
  Table-TableInv w (starts _ empty) = starts-TableInv w empty
  Table-TableInv _ (finds w sa t) = session_for-TableInv config sa w (Table-TableInv w t)
  Table-TableInv _ (tidies w o state t) = maybe_drop-TableInv config o state w (Table-TableInv w t)
  Table-TableInv _ (drops w sa t) = drop-TableInv config sa w (Table-TableInv w t)
  Table-TableInv _ (expires w i t) = s3_expiry-TableInv config i w (Table-TableInv w t)

  -- In whatever order testers are looked up, tidied, dropped and expired, two testers never share a
  -- session state, and the state of an entry is the one of its tester.
  pub Table-separate :
      (w : World) (a b i : ℕ)
      → Table config w
      → lookup a w.session_states ≡ some i
      → lookup b w.session_states ≡ some i
      → (a ≡ b) × ((w.objects i).tester_addr ≡ some a)
  Table-separate w a b i t p q =
      (TableInv-injective w a b i (Table-TableInv w t) p q, (Table-TableInv w t a i p).1)
