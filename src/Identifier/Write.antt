-- ===== src/Identifier/Write.antt =====
-- WriteDataByIdentifier of virtual_ecu/virtecu/services/data_identifier.py, as a later read sees it.
use doip_playground.Base.{
  lookup, Bytes, pack_u16, unpack_u16, ℕ, ◌≤◌, ◌≡◌, refl, ◌↔◌, true, false, none, some, [], ◌∷◌,
  arith,
}
use doip_playground.Config.{DidSpec, EcuConfig}
use doip_playground.Uds.{uds_data, positive}
use doip_playground.Effect.{World, Exception, returned, raised}
use doip_playground.Store.{store_read, store_write}
use doip_playground.Store.Laws.{store_read-store_write}
use doip_playground.Hooks.{Buckets, bucket, Context, Value, py_bytes, write_did}
use doip_playground.Dispatcher.{resolve_did_write}
use doip_playground.Services.{session_of}
use doip_playground.Identifier.{
  session_allowed, check_gates, read_spec, size_fits, write_spec, write_table,
  write_data_by_identifier,
}

-- What the YAML entry of a DID asks of a write.
pub record Writable (config : EcuConfig) (t : Buckets) (spec : DidSpec) (ctx : Context)
    (value : Bytes) (w : World) : Type 0 where
  pub listed : spec.write ≡ true
  pub unforced : spec.write_nrc ≡ none
  pub session : session_allowed spec.write_sessions (session_of ctx w).session_type ≡ true
  pub security : spec.write_security ≤ (session_of ctx w).security_level
  pub fits : size_fits config t spec.size value ≡ true

-- The YAML entry lets the stored value be read, in any session, without security.
pub record Readable (spec : DidSpec) : Type 0 where
  pub listed : spec.read ≡ true
  pub unforced : spec.read_nrc ≡ none
  pub sessions : spec.read_sessions ≡ none
  pub security : spec.read_security ≡ 0
  pub static : spec.dynamic ≡ false

module _ (config : EcuConfig) (t : Buckets) where
  write_spec-returned :
      (ctx : Context) (did : ℕ) (value : Bytes) (spec : DidSpec) (v : Value) (w w' : World)
      → write_spec config t ctx did value spec w ≡ returned v w'
      → Writable config t spec ctx value w
        × (w' ≡ store_write did value w)
        × (v ≡ py_bytes (positive ctx.request (pack_u16 did)))
  unfolding write_spec check_gates
  write_spec-returned ctx did value spec v w w' e = ground arith

  write_spec-stores :
      (ctx : Context) (did : ℕ) (value : Bytes) (spec : DidSpec) (w : World)
      → Writable config t spec ctx value w
      → write_spec config t ctx did value spec w
        ≡ returned (py_bytes (positive ctx.request (pack_u16 did))) (store_write did value w)
  unfolding write_spec check_gates
  write_spec-stores ctx did value spec w h =
      let listed = h.listed in
      let unforced = h.unforced in
      let session = h.session in let security = h.security in let fits = h.fits in ground arith

  -- A write by the table returns exactly when its entry lets it, and then with the positive response
  -- and the one value stored.
  pub write_spec-Writable :
      (ctx : Context) (did : ℕ) (value : Bytes) (spec : DidSpec) (v : Value) (w w' : World)
      → (write_spec config t ctx did value spec w ≡ returned v w') ↔ (
          Writable config t spec ctx value w
          × (w' ≡ store_write did value w)
          × (v ≡ py_bytes (positive ctx.request (pack_u16 did))))
  write_spec-Writable ctx did value spec v w w' = (
    write_spec-returned ctx did value spec v w w',
    λ (h, stored, positively). rw (stored, positively) (write_spec-stores ctx did value spec w h),
  )

  -- A refused write changes nothing.
  write_spec-refused :
      (ctx : Context) (did : ℕ) (value : Bytes) (spec : DidSpec) (x : Exception) (w w' : World)
      → write_spec config t ctx did value spec w ≡ raised x w'
      → w' ≡ w
  unfolding write_spec check_gates
  write_spec-refused ctx did value spec x w w' e = ground arith

  read_spec-stored :
      (ctx : Context) (did : ℕ) (spec : DidSpec) (v : Bytes) (w : World)
      → Readable spec
      → store_read did w ≡ some v
      → read_spec config t ctx did spec w ≡ returned (some v) w
  unfolding read_spec check_gates
  read_spec-stored ctx did spec v w r e =
      let listed = r.listed in
      let unforced = r.unforced in
      let sessions = r.sessions in
      let security = r.security in let static = r.static in ground arith

  -- A write by the table that succeeds, then a read of the same DID by the table, where its entry
  -- lets anyone read the stored value: the value is the one written.
  pub write-then-read :
      (ctx reader : Context) (did : ℕ) (value : Bytes) (spec : DidSpec) (v : Value) (w w' : World)
      → write_spec config t ctx did value spec w ≡ returned v w'
      → Readable spec
      → read_spec config t reader did spec w' ≡ returned (some value) w'
  write-then-read ctx reader did value spec v w w' e r =
      let (_, after, _) = write_spec-returned ctx did value spec v w w' e in
      read_spec-stored reader did spec value w' r
        (ground (arith, store_read-store_write did did value w))

  -- Behind the hooks, of which none claims the DID.
  write_body-table :
      (ctx : Context) (hi lo b : ℕ) (value : Bytes) (spec : DidSpec) (w : World)
      → uds_data ctx.request ≡ hi ∷ lo ∷ b ∷ value
      → bucket (write_did (unpack_u16 hi lo)) t ≡ []
      → lookup (unpack_u16 hi lo) config.dids ≡ some spec
      → write_data_by_identifier config t ctx w
        ≡ write_spec config t ctx (unpack_u16 hi lo) (b ∷ value) spec w
  unfolding write_data_by_identifier resolve_did_write write_table
  write_body-table ctx hi lo b value spec w d none_claims found =
      rw (write_data_by_identifier, d, none_claims, found, write_table) refl
