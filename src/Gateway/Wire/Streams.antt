-- ===== src/Gateway/Wire/Streams.antt =====
-- What a session of doip_edgenode/session.py sees of a stream of several frames.
use doip_playground.Base.{
  ltb, ◌==◌, if◌then◌else◌, Bool-cases, Option-cases, contains, length, lookup, Bytes, pack_u16,
  pack_u32, unpack_u16, ℕ, suc, ◌+◌, ◌/◌, ◌%◌, ◌≤◌, bit_xor, ◌≡◌, refl, inl, inr, true, Option,
  none, some, List, [], ◌∷◌, ◌++◌, map, arith,
}
use doip_playground.Doip.{nack_generic_unknown_payload_type, nack_generic_message_too_large}
use doip_playground.Doip.Codec.{u32_parts}
use doip_playground.Gateway.{GatewayConfig}
use doip_playground.Gateway.Wire.{
  valid_versions, tcp_payload_lengths, fits_lengths, check_lengths, check_type, read_wire_frame,
  read_frames, WireRead, received, skipped, disconnected, Seen, got, nacked, ended,
}
use doip_playground.Gateway.Wire.Framing.{reject-append, take_payload-append}

-- A frame that a tester sends, with the body it declares.
pub record Sent : Type 0 where
  pub sent_version : ℕ
  pub sent_type : ℕ
  pub sent_body : Bytes

abbrev pub sent_bytes : Sent → Bytes
sent_bytes f =
    f.sent_version
    ∷ bit_xor 0xff f.sent_version
    ∷ (pack_u16 f.sent_type ++ (pack_u32 (length f.sent_body) ++ f.sent_body))

abbrev pub stream_of : List Sent → Bytes → Bytes
stream_of [] rest = rest
stream_of (f ∷ fs) rest = sent_bytes f ++ stream_of fs rest

module _ (config : GatewayConfig) where
  -- What the session is to see: the frame itself, or the NACK of a type it does not serve or of a
  -- body over the limit.
  abbrev pub seen_by : Sent → Option (Option (List ℕ)) → Seen
  seen_by f none = nacked nack_generic_unknown_payload_type
  seen_by f (some lengths) =
      if ltb config.max_payload_bytes (length f.sent_body)
      then nacked nack_generic_message_too_large
      else got (sent_bytes f)

  abbrev pub seen_of : Sent → Seen
  seen_of f = seen_by f (lookup f.sent_type tcp_payload_lengths)

  -- A version of the standard, and a length that fits the type, where the type is served.
  abbrev pub IsTrusted : Sent → Type 0
  IsTrusted f =
      (contains f.sent_version valid_versions ≡ true)
      × ((lengths : Option (List ℕ))
          → lookup f.sent_type tcp_payload_lengths ≡ some lengths
          → length f.sent_body ≤ config.max_payload_bytes
          → fits_lengths lengths (length f.sent_body) ≡ true)

  abbrev pub AllTrusted : List Sent → Type 0
  AllTrusted [] = Unit {0}
  AllTrusted (f ∷ fs) = IsTrusted f × AllTrusted fs

  -- What a read of a frame gives, by what the session is to see of it.
  abbrev read_as : Bytes → Seen → WireRead
  read_as rest (got raw) = received raw rest
  read_as rest (nacked code) = skipped code rest
  read_as rest (ended code) = disconnected code

  check_lengths-seen :
      (lengths : Option (List ℕ)) (hdr body rest : Bytes)
      → (length body ≤ config.max_payload_bytes → fits_lengths lengths (length body) ≡ true)
      → check_lengths config true lengths hdr (length body) (body ++ rest)
        ≡ read_as rest (
            if ltb config.max_payload_bytes (length body)
            then nacked nack_generic_message_too_large
            else got (hdr ++ body))
  unfolding check_lengths
  check_lengths-seen lengths hdr body rest fits =
      elim (Bool-cases (ltb config.max_payload_bytes (length body))) [
        | inl over ↦
            rw over (reject-append nack_generic_message_too_large (length body) body rest refl)
        | inr within ↦
            rw (within, fits (ground arith)) (take_payload-append hdr (length body) body rest refl)
      ]

  check_type-seen :
      (f : Sent) (rest : Bytes)
      → IsTrusted f
      → (hdr : Bytes) → hdr ++ f.sent_body ≡ sent_bytes f
      → check_type config true f.sent_type hdr (length f.sent_body) (f.sent_body ++ rest)
        ≡ read_as rest (seen_of f)
  unfolding check_type
  check_type-seen f rest (v, fits) hdr e =
      elim (Option-cases (lookup f.sent_type tcp_payload_lengths)) [
        | inl unknown ↦
            rw (unknown, check_type)
              (reject-append nack_generic_unknown_payload_type (length f.sent_body) f.sent_body rest
                refl)
        | inr (lengths, known) ↦
            rw (known, check_type, ← e)
              (check_lengths-seen lengths hdr f.sent_body rest (fits lengths known))
      ]

  ==-self : (n : ℕ) → (n == n) ≡ true
  ==-self n = ground arith

  u16_parts : (n : ℕ) → unpack_u16 (n / 256) (n % 256) ≡ n
  u16_parts n = omega arith

  read_wire_frame-seen :
      (f : Sent) (rest : Bytes)
      → IsTrusted f
      → read_wire_frame config true (sent_bytes f ++ rest) ≡ read_as rest (seen_of f)
  unfolding read_wire_frame
  read_wire_frame-seen f rest (v, fits) =
      rw
        (
          v,
          u16_parts f.sent_type,
          u32_parts (length f.sent_body),
          ==-self (bit_xor 0xff f.sent_version),
        )
        (check_type-seen f rest (v, fits)
          (f.sent_version
            ∷ bit_xor 0xff f.sent_version
            ∷ (pack_u16 f.sent_type ++ pack_u32 (length f.sent_body)))
          refl)

  rounds : List Sent → ℕ → ℕ
  rounds [] more = more
  rounds (f ∷ fs) more = suc (rounds fs more)

  rounds-lem : (fs : List Sent) (more : ℕ) → rounds fs more ≡ length fs + more
  unfolding rounds
  rounds-lem [] more = omega arith
  rounds-lem (f ∷ fs) more = omega (arith, rounds-lem fs more)

  seen_not_ended :
      (f : Sent) (rest : Bytes) (fuel : ℕ) (later : List Seen)
      → read_frames config true fuel rest ≡ later
      → read_wire_frame config true (sent_bytes f ++ rest) ≡ read_as rest (seen_of f)
      → read_frames config true (suc fuel) (sent_bytes f ++ rest) ≡ seen_of f ∷ later
  unfolding read_frames
  seen_not_ended f rest fuel later e r =
      elim (Option-cases (lookup f.sent_type tcp_payload_lengths)) [
        | inl unknown ↦ ground arith
        | inr (lengths, known) ↦ ground arith
      ]

  read_frames-rounds :
      (fs : List Sent) (more : ℕ) (rest : Bytes)
      → AllTrusted fs
      → read_frames config true (rounds fs more) (stream_of fs rest)
        ≡ map seen_of fs ++ read_frames config true more rest
  unfolding rounds
  read_frames-rounds [] more rest _ = refl
  read_frames-rounds (f ∷ fs) more rest (trusted, others) =
      seen_not_ended f (stream_of fs rest) (rounds fs more)
        (map seen_of fs ++ read_frames config true more rest)
        (read_frames-rounds fs more rest others)
        (read_wire_frame-seen f (stream_of fs rest) trusted)

  -- A stream of whole frames in versions of the standard, each of a length that fits its type where
  -- the session serves the type, is seen frame by frame, in order: the frame itself, the NACK 0x01
  -- of a type that is not served, or the NACK 0x02 of a body over the limit. So no frame that is
  -- rejected hides one behind it. One unit of fuel for each frame is enough, and rejected bodies
  -- arrive in time.
  pub read_frames-stream_of :
      (fs : List Sent) (more : ℕ) (rest : Bytes)
      → AllTrusted fs
      → read_frames config true (length fs + more) (stream_of fs rest)
        ≡ map seen_of fs ++ read_frames config true more rest
  read_frames-stream_of fs more rest trusted =
      rw (← rounds-lem fs more) (read_frames-rounds fs more rest trusted)
