-- ===== src/Gateway/Wire/Framing.antt =====
-- How the reads of a session in doip_edgenode/session.py keep to the borders of the frames.
use doip_playground.Base.{
  ltb, ◌==◌, Option-cases, contains, if-rule, length, take, drop, take-append-drop, length-take,
  length-drop, lookup, Bytes, unpack_u16, unpack_u32, ℕ, zero, suc, ◌-◌, ◌≤◌, ◌<◌, bit_xor, ◌≡◌,
  refl, sym, ap, ◌∙◌, ◌⊎◌, inl, inr, true, not, ◌||◌, Option, some, List, [], ◌∷◌, ◌++◌,
  append_assoc, arith,
}
use doip_playground.Doip.{
  nack_generic_incorrect_pattern, nack_generic_unknown_payload_type, nack_generic_message_too_large,
  nack_generic_invalid_payload_length, read_exactly, declared_len, ptype,
}
use doip_playground.Gateway.{GatewayConfig}
use doip_playground.Doip.Codec.{read_exactly-append}
use doip_playground.Gateway.Wire.{
  valid_versions, tcp_payload_lengths, tcp_discard_chunk_bytes, discard, fits_lengths, reject,
  take_payload, check_lengths, check_type, read_wire_frame, WireRead, received, skipped, violation,
  disconnected,
}
use Prim.Native.Nat.{min}

read_exactly-within :
    (k : ℕ) (xs rest : Bytes)
    → k ≤ length xs
    → read_exactly k (xs ++ rest) ≡ some (take k xs, drop k xs ++ rest)
read_exactly-within k xs rest h =
    ap (λ (l : Bytes). read_exactly k (l ++ rest)) (sym (take-append-drop k xs))
    ∙ ap (read_exactly k) (append_assoc (take k xs) (drop k xs) rest)
    ∙ read_exactly-append k (take k xs) (drop k xs ++ rest) (omega (arith, length-take {0} k xs))

discard-step :
    (fuel n : ℕ) (stream chunk rest : Bytes)
    → read_exactly (min (suc n) tcp_discard_chunk_bytes) stream ≡ some (chunk, rest)
    → discard (suc fuel) (suc n) stream
      ≡ discard fuel (suc n - min (suc n) tcp_discard_chunk_bytes) rest
unfolding discard
discard-step fuel n stream chunk rest e = ground arith

-- With a unit of fuel for every byte and one more, the discard takes exactly the bytes it is told.
discard-append :
    (fuel n : ℕ) (xs rest : Bytes)
    → length xs ≡ n
    → n < fuel
    → discard fuel n (xs ++ rest) ≡ some rest
unfolding discard
discard-append zero n xs rest e h = absurd (omega arith)
discard-append (suc fuel) zero [] rest e h = refl
discard-append (suc fuel) zero (x ∷ xs) rest e h = absurd (omega arith)
discard-append (suc fuel) (suc n) xs rest e h =
    let k : ℕ = min (suc n) tcp_discard_chunk_bytes in
    discard-step fuel n (xs ++ rest) (take k xs) (drop k xs ++ rest)
      (read_exactly-within k xs rest (omega (arith, e)))
    ∙ discard-append fuel (suc n - k) (drop k xs) rest (omega (arith, length-drop {0} k xs))
        (omega arith)

pub reject-append :
    (code n : ℕ) (xs rest : Bytes)
    → length xs ≡ n
    → reject true code n (xs ++ rest) ≡ skipped code rest
unfolding reject
reject-append code n [] rest e = ground arith
reject-append code n (x ∷ xs) rest e =
    rw (discard-append (suc n) n (x ∷ xs) rest e (omega arith)) (ground arith)

pub take_payload-append :
    (hdr : Bytes) (n : ℕ) (xs rest : Bytes)
    → length xs ≡ n
    → take_payload hdr n (xs ++ rest) ≡ received (hdr ++ xs) rest
unfolding take_payload
take_payload-append hdr n xs rest e = rw (read_exactly-append n xs rest e, take_payload) refl

-- How a read stands to the frame at the head of the stream and to what follows it: the frame comes
-- back whole or is skipped whole, with all behind it left, or the session closes with the NACK for a
-- header that cannot be trusted.
abbrev pub InStep : Bytes → Bytes → WireRead → Type 0
InStep raw rest (received f left) = (f ≡ raw) × (left ≡ rest)
InStep raw rest (skipped code left) = left ≡ rest
InStep raw rest (violation code) =
    (code ≡ nack_generic_incorrect_pattern) ⊎ (code ≡ nack_generic_invalid_payload_length)
InStep raw rest (disconnected code) = ⊥

module _ (config : GatewayConfig) where
  check_lengths-InStep :
      (lengths : Option (List ℕ)) (hdr : Bytes) (n : ℕ) (body rest : Bytes)
      → length body ≡ n
      → InStep (hdr ++ body) rest (check_lengths config true lengths hdr n (body ++ rest))
  unfolding check_lengths
  check_lengths-InStep lengths hdr n body rest e =
      if-rule (λ r. InStep (hdr ++ body) rest r) (ltb config.max_payload_bytes n)
        (λ _. rw (reject-append nack_generic_message_too_large n body rest e) refl)
        (λ _.
          if-rule (λ r. InStep (hdr ++ body) rest r) (fits_lengths lengths n)
            (λ _. rw (take_payload-append hdr n body rest e) (refl, refl)) (λ _. inr refl))

  check_type-InStep :
      (ptype : ℕ) (hdr : Bytes) (n : ℕ) (body rest : Bytes)
      → length body ≡ n
      → InStep (hdr ++ body) rest (check_type config true ptype hdr n (body ++ rest))
  unfolding check_type
  check_type-InStep ptype hdr n body rest e =
      elim (Option-cases (lookup ptype tcp_payload_lengths)) [
        | inl unknown ↦
            rw (unknown, check_type)
              (rw (reject-append nack_generic_unknown_payload_type n body rest e) refl)
        | inr (lengths, known) ↦
            rw (known, check_type) (check_lengths-InStep lengths hdr n body rest e)
      ]

  -- From a stream that starts with a header of 8 bytes, any bytes, and a body of the length that the
  -- header declares, with rejected bodies arriving in time, a read returns that frame whole or skips
  -- it whole, and leaves exactly what follows; or the session closes, with 0x00 or 0x04.
  pub read_wire_frame-InStep :
      (hdr body rest : Bytes)
      → length hdr ≡ 8
      → length body ≡ declared_len hdr
      → InStep (hdr ++ body) rest (read_wire_frame config true (hdr ++ (body ++ rest)))
  unfolding read_wire_frame declared_len
  read_wire_frame-InStep (v ∷ i ∷ hi ∷ lo ∷ a ∷ b ∷ c ∷ d ∷ []) body rest l e =
      if-rule (λ r. InStep ((v ∷ i ∷ hi ∷ lo ∷ a ∷ b ∷ c ∷ d ∷ []) ++ body) rest r)
        (not (contains v valid_versions) || not (i == bit_xor 0xff v)) (λ _. inl refl)
        (λ _.
          check_type-InStep (unpack_u16 hi lo) (v ∷ i ∷ hi ∷ lo ∷ a ∷ b ∷ c ∷ d ∷ [])
            (unpack_u32 a b c d) body rest e)
  read_wire_frame-InStep _ body rest l e = absurd (ground arith)
