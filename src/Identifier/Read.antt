-- ===== src/Identifier/Read.antt =====
-- ReadDataByIdentifier of virtual_ecu/virtecu/services/data_identifier.py: its records and their
-- bound.
use doip_playground.Base.{
  ◌==◌, length, Bytes, pack_u16, ℕ, zero, suc, ◌+◌, ◌%◌, ◌≤◌, ◌≡◌, refl, ap, ◌∙◌, inl, inr, not,
  ◌&&◌, Option, none, some, List, [], ◌∷◌, ◌++◌, append_assoc, arith,
}
use doip_playground.Config.{EcuConfig}
use doip_playground.Uds.{nrc_incorrect_message_length, uds_data, dids, positive}
use doip_playground.Effect.{
  ◌>>=◌, Action, return, >>=-returned, Run-cases, World, Run, returned, raised,
}
use doip_playground.Hooks.{Buckets, Context, py_bytes}
use doip_playground.Services.{require}
use doip_playground.Identifier.{
  read_one, add_record, add_served, read_all, finish_read, read_data_by_identifier,
}

module _ (config : EcuConfig) (t : Buckets) where
  add_record-append :
      (did : ℕ) (v : Option Bytes) (r more : Bytes)
      → add_record config t did v r ++ more ≡ add_record config t did v (r ++ more)
  add_record-append did none r more = refl
  add_record-append did (some v) r more =
      append_assoc (pack_u16 did) (v ++ r) more
      ∙ ap (λ x. pack_u16 did ++ x) (append_assoc v r more)

  add_served-add :
      (v : Option Bytes) (m n : ℕ) → add_served config t v m + n ≡ add_served config t v (m + n)
  add_served-add none m n = refl
  add_served-add (some v) m n = omega arith

  -- The loop on the DIDs of one list, then on those of another.
  abbrev pub read_both : Context → List ℕ → List ℕ → Action (Bytes × ℕ)
  read_both ctx xs ys = do
    first ← read_all config t ctx xs
    second ← read_all config t ctx ys
    return (first.0 ++ second.0, first.1 + second.1)

  -- The DIDs of a request are read one after another, each in the state that the reads before it
  -- leave, an error among them ends the loop, and their records stand in the order of the request.
  pub read_all-append :
      (ctx : Context) (xs ys : List ℕ) (w : World)
      → read_all config t ctx (xs ++ ys) w ≡ read_both ctx xs ys w
  unfolding read_all
  read_all-append ctx [] ys w = again (read_all config t ctx ys w)
    where
      again :
          (r : Run (Bytes × ℕ))
          → r ≡ elim r [ returned a v ↦ returned ([] ++ a.0, 0 + a.1) v | raised e v ↦ raised e v ]
      again (returned a v) = ap (λ n. returned (a.0, n) v) (omega arith)
      again (raised e v) = refl
  read_all-append ctx (x ∷ xs) ys w = elim (Run-cases (read_one config t ctx x w)) [
    | inr (err, v, e) ↦ rw (◌>>=◌, read_both, e) refl
    | inl (value, v, e) ↦
        rw (◌>>=◌, read_both, e, read_all-append ctx xs ys v)
          (elim (Run-cases (read_all config t ctx xs v)) [
            | inr (err, u, f) ↦ rw (◌>>=◌, f) refl
            | inl (a, u, f) ↦
                rw (◌>>=◌, f)
                  (elim (Run-cases (read_all config t ctx ys u)) [
                    | inr (err, z, g) ↦ rw (◌>>=◌, g) refl
                    | inl (b, z, g) ↦
                        rw
                          (
                            ◌>>=◌,
                            g,
                            add_record-append x value a.0 b.0,
                            add_served-add value a.1 b.1,
                          )
                          refl
                  ])
          ])
  ]

  finish_read-bounds :
      (ctx : Context) (all : Bytes × ℕ) (b : Bytes) (w w' : World)
      → finish_read config t ctx all w ≡ returned (py_bytes b) w'
      → (length b ≤ config.doip.max_payload_bytes)
        × ((n : ℕ) × (all.1 ≡ suc n))
        × (b ≡ positive ctx.request all.0)
  finish_read-bounds ctx (body, zero) b w w' e = ground arith
  finish_read-bounds ctx (body, suc n) b w w' e = (ground arith, (n, refl), ground arith)

  -- A positive response is no longer than the configured payload, and is the SID before the records
  -- of the loop, of which there is at least one.
  pub read_data-bounds :
      (ctx : Context) (b : Bytes) (w w' : World)
      → read_data_by_identifier config t ctx w ≡ returned (py_bytes b) w'
      → (length b ≤ config.doip.max_payload_bytes)
        × ((body : Bytes) × (n : ℕ) × (v : World) × (read_all config t ctx (dids ctx.request) w
              ≡ returned (body, suc n) v)
            × (b ≡ positive ctx.request body))
  unfolding read_data_by_identifier
  read_data-bounds ctx b w w' e =
      let (_, v, q, f) =
        >>=-returned
          (require ctx
            (not (length (uds_data ctx.request) == 0) && length (uds_data ctx.request) % 2 == 0)
            nrc_incorrect_message_length)
          (λ _. read_all config t ctx (dids ctx.request) >>= finish_read config t ctx) w w'
          (py_bytes b) e in
      let (all, u, g, h) =
        >>=-returned (read_all config t ctx (dids ctx.request)) (finish_read config t ctx) v w'
          (py_bytes b) f in
      let (fits, (n, some_record), shape) = finish_read-bounds ctx all b u w' h in
      let same : v ≡ w = ground arith in (fits, (all.0, n, u, (ground arith), shape))
