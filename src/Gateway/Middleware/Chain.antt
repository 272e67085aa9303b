-- ===== src/Gateway/Middleware/Chain.antt =====
-- What the chain of doip_edgenode/middleware lets through, and what a corruption leaves alone.
use doip_playground.Base.{
  leb, ◌==◌, if◌then◌else◌, Bool-cases, length, take, drop, length-drop, Bytes, ℕ, zero, suc, ◌+◌,
  ◌≤◌, ◌<◌, bit_xor, ◌≡◌, refl, ap, ◌⊎◌, inl, inr, true, false, some, List, [], ◌∷◌, ◌++◌, arith,
}
use doip_playground.Gateway.{byte_at}
use doip_playground.Gateway.Diagnostic.{Verdict, faulted, dropped, passed}
use doip_playground.Gateway.Middleware.{
  flip_at, corrupt_process, enabled_filters, then_next, run_chain, Filter, Direction,
}

module _ {S : Type 0} where
  -- A packet comes through: each enabled filter passes on what it was given, and disabled ones are
  -- as if they were not there.
  abbrev pub ComesThrough : List (Filter S) → Direction → Bytes → S → Bytes → S → Type 0
  ComesThrough [] d raw s out s' = (raw ≡ out) × (s ≡ s')
  ComesThrough (f ∷ fs) d raw s out s' =
      ((f.filter_enabled ≡ false) × ComesThrough fs d raw s out s')
      ⊎ ((f.filter_enabled ≡ true)
          × ((mid : Bytes) × (t : S) × (f.process raw d s ≡ (passed mid, t))
              × ComesThrough fs d mid t out s'))

  passed_on :
      (r : Verdict × S) (next : Bytes → S → Verdict × S) (out : Bytes) (s' : S)
      → then_next r next ≡ (passed out, s')
      → (mid : Bytes) × (t : S) × (r ≡ (passed mid, t)) × (next mid t ≡ (passed out, s'))
  passed_on (passed mid, t) next out s' e = (mid, t, refl, e)
  passed_on (dropped, t) next out s' e = absurd (ground arith)
  passed_on (faulted code, t) next out s' e = absurd (ground arith)

  -- The chain hands on a packet only if every enabled filter did, each on what the one before it
  -- made of the packet, and disabled filters were not called: none is skipped behind a drop.
  pub run_chain-ComesThrough :
      (fs : List (Filter S)) (d : Direction) (raw : Bytes) (s : S) (out : Bytes) (s' : S)
      → run_chain (enabled_filters fs) d raw s ≡ (passed out, s')
      → ComesThrough fs d raw s out s'
  unfolding enabled_filters run_chain
  run_chain-ComesThrough [] d raw s out s' e = (ground arith, ground arith)
  run_chain-ComesThrough (f ∷ fs) d raw s out s' e = elim (Bool-cases f.filter_enabled) [
    | inr off ↦ inl (off, run_chain-ComesThrough fs d raw s out s' (rw off at e))
    | inl on ↦
        let (mid, t, here, behind) =
          passed_on (f.process raw d s) (run_chain (enabled_filters fs) d) out s' (rw on at e) in
        inr (on, (mid, t, here, run_chain-ComesThrough fs d mid t out s' behind))
  ]

flip_at-shift :
    (mask n o k : ℕ) (raw : Bytes)
    → n ≤ length raw
    → k ≡ n + o
    → take n raw ++ flip_at mask o (drop n raw) ≡ flip_at mask k raw
unfolding flip_at
flip_at-shift mask zero o k raw h e = ap (λ (x : ℕ). flip_at mask x raw) (omega (arith, e))
flip_at-shift mask (suc n) o k [] h e = absurd (omega arith)
flip_at-shift mask (suc n) o zero (b ∷ bs) h e = absurd (omega arith)
flip_at-shift mask (suc n) o (suc k) (b ∷ bs) h e =
    ap (◌∷◌ b) (flip_at-shift mask n o k bs (omega (arith, h)) (omega (arith, e)))

byte_at-flip_at :
    (mask o k : ℕ) (raw : Bytes)
    → o < length raw
    → byte_at k (flip_at mask o raw)
      ≡ (if k == o then bit_xor (byte_at k raw) mask else byte_at k raw)
unfolding flip_at byte_at
byte_at-flip_at mask o k [] h = absurd (omega arith)
byte_at-flip_at mask zero zero (b ∷ bs) h = refl
byte_at-flip_at mask zero (suc k) (b ∷ bs) h = ground arith
byte_at-flip_at mask (suc o) zero (b ∷ bs) h = ground arith
byte_at-flip_at mask (suc o) (suc k) (b ∷ bs) h =
    ground (arith, byte_at-flip_at mask o k bs (omega (arith, h)))

length-flip_at : (mask o : ℕ) (raw : Bytes) → length (flip_at mask o raw) ≡ length raw
unfolding flip_at
length-flip_at mask o [] = refl
length-flip_at mask zero (b ∷ bs) = refl
length-flip_at mask (suc o) (b ∷ bs) = ap suc (length-flip_at mask o bs)

corrupt_process-flips :
    (offset mask drawn : ℕ) (raw : Bytes)
    → 8 + offset < length raw
    → corrupt_process (some offset) mask drawn raw ≡ flip_at mask (8 + offset) raw
unfolding corrupt_process
corrupt_process-flips offset mask drawn raw h =
    let some_payload : (length (drop 8 raw) == 0) ≡ false = ground (arith, length-drop 8 raw) in
    let inside : leb (length (drop 8 raw)) offset ≡ false = ground (arith, length-drop 8 raw) in
    rw (some_payload, inside) (flip_at-shift mask 8 offset (8 + offset) raw (omega arith) refl)

-- A corruption at a configured offset within the payload changes that byte, by the mask, and no other
-- byte of the packet, in particular none of its header, nor its length.
pub corrupt_process-one_byte :
    (offset mask drawn : ℕ) (raw : Bytes)
    → 8 + offset < length raw
    → (length (corrupt_process (some offset) mask drawn raw) ≡ length raw)
      × ((k : ℕ)
          → byte_at k (corrupt_process (some offset) mask drawn raw)
            ≡ (if k == 8 + offset then bit_xor (byte_at k raw) mask else byte_at k raw))
corrupt_process-one_byte offset mask drawn raw h =
    rw (corrupt_process-flips offset mask drawn raw h)
      (length-flip_at mask (8 + offset) raw, λ k. byte_at-flip_at mask (8 + offset) k raw h)
