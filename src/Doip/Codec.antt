-- ===== src/Doip/Codec.antt =====
-- `build_frame` against `read_frame`, `ptype` and `payload` of virtual_ecu/virtecu/doip.py.
use doip_playground.Base.{
  Bool-cases, Option-cases, length, take, length-append, take-append-drop, length-take,
  take-append_exact, drop-append_exact, Bytes, unpack_u32, ℕ, zero, suc, ◌/◌, ◌%◌, ◌<◌, bit_xor,
  ◌≡◌, refl, ap, inl, inr, false, Option, some, [], ◌∷◌, ◌++◌, append-nil, arith,
}
use doip_playground.Doip.{
  build_frame, read_exactly, declared_len, exceeds, read_payload, after_header, read_frame, ptype,
  payload_of, frame, frame_too_large,
}

-- The header of a frame whose fields fit.
abbrev pub header_bytes : ℕ → ℕ → ℕ → Bytes
header_bytes pt n v =
    v
    ∷ bit_xor 0xff v
    ∷ pt / 256
    ∷ pt % 256
    ∷ n / 16777216
    ∷ n / 65536 % 256
    ∷ n / 256 % 256
    ∷ n % 256
    ∷ []

pub u32_parts : (n : ℕ) → unpack_u32 (n / 16777216) (n / 65536 % 256) (n / 256 % 256) (n % 256) ≡ n
u32_parts n = omega arith

declared_len-header : (pt n v : ℕ) → declared_len (header_bytes pt n v) ≡ n
unfolding declared_len
declared_len-header pt n v = u32_parts n

pub read_exactly-append :
    (n : ℕ) (xs ys : Bytes) → length xs ≡ n → read_exactly n (xs ++ ys) ≡ some (xs, ys)
unfolding read_exactly
read_exactly-append n xs ys e =
    rw (← e) (ground (arith, length-append xs ys, take-append_exact xs ys, drop-append_exact xs ys))

read_exactly-splits :
    (n : ℕ) (s a b : Bytes)
    → read_exactly n s ≡ some (a, b)
    → (s ≡ a ++ b) × (length a ≡ n) × (a ≡ take n s)
unfolding read_exactly
read_exactly-splits n s a b e = ground (arith, take-append-drop n s, length-take n s)

pub build_frame-eq_some :
    (pt : ℕ) (body : Bytes) (v : ℕ) (raw : Bytes)
    → build_frame pt body v ≡ some raw
    → raw ≡ header_bytes pt (length body) v ++ body
unfolding build_frame
build_frame-eq_some pt body v raw e = ground arith

after_header-lem :
    (max_len : Option ℕ) (hdr body rest : Bytes)
    → declared_len hdr ≡ length body
    → exceeds (length body) max_len ≡ false
    → after_header max_len hdr (body ++ rest) ≡ frame (hdr ++ body) rest
unfolding after_header read_payload
after_header-lem max_len hdr [] rest e h = ground (arith, append-nil hdr)
after_header-lem max_len hdr (x ∷ xs) rest e h =
    ground (arith, read_exactly-append (length (x ∷ xs)) (x ∷ xs) rest refl)

read_frame-header :
    (pt v : ℕ) (body rest : Bytes) (max_len : Option ℕ)
    → exceeds (length body) max_len ≡ false
    → read_frame max_len ((header_bytes pt (length body) v ++ body) ++ rest)
      ≡ frame (header_bytes pt (length body) v ++ body) rest
unfolding read_frame
read_frame-header pt v body rest max_len h =
    rw (read_exactly-append 8 (header_bytes pt (length body) v) (body ++ rest) refl, read_frame)
      (after_header-lem max_len (header_bytes pt (length body) v) body rest
        (declared_len-header pt (length body) v) h)

-- Whatever `build_frame` produces, `read_frame` takes off the front of any stream, with every byte
-- behind it left, under every limit that the payload's length does not exceed; `ptype` and
-- `payload` then give back what was framed.
pub read_frame-build_frame :
    (pt : ℕ) (body : Bytes) (v : ℕ) (max_len : Option ℕ) (rest raw : Bytes)
    → build_frame pt body v ≡ some raw
    → exceeds (length body) max_len ≡ false
    → (read_frame max_len (raw ++ rest) ≡ frame raw rest)
      × (ptype raw ≡ some pt)
      × (payload_of raw ≡ body)
unfolding ptype
read_frame-build_frame pt body v max_len rest raw e h =
    rw (build_frame-eq_some pt body v raw e)
      (read_frame-header pt v body rest max_len h, ap some (omega arith), refl)

-- How a frame lies in the stream `hdr ++ tl`.
abbrev pub SplitsAfter : Option ℕ → Bytes → Bytes → Bytes → Bytes → Type 0
SplitsAfter max_len hdr tl raw rest =
    (body : Bytes) × (raw ≡ hdr ++ body)
    × (tl ≡ body ++ rest)
    × (length body ≡ declared_len hdr)
    × (exceeds (declared_len hdr) max_len ≡ false)

read_payload-splits :
    (hdr : Bytes) (plen : ℕ) (tl raw rest : Bytes)
    → read_payload hdr plen tl ≡ frame raw rest
    → (body : Bytes) × (raw ≡ hdr ++ body) × (tl ≡ body ++ rest) × (length body ≡ plen)
unfolding read_payload
read_payload-splits hdr zero tl raw rest e =
    ([], ground (arith, append-nil hdr), ground arith, refl)
read_payload-splits hdr (suc n) tl raw rest e = elim (Option-cases (read_exactly (suc n) tl)) [
  | inl stuck ↦ absurd (ground arith)
  | inr ((body, left), read) ↦
      let (whole, len, _) = read_exactly-splits (suc n) tl body left read in
      (body, ground arith, ground arith, len)
]

after_header-splits :
    (max_len : Option ℕ) (hdr tl raw rest : Bytes)
    → after_header max_len hdr tl ≡ frame raw rest
    → SplitsAfter max_len hdr tl raw rest
unfolding after_header
after_header-splits max_len hdr tl raw rest e =
    elim (Bool-cases (exceeds (declared_len hdr) max_len)) [
      | inl over ↦ absurd (cc (rw over at e))
      | inr fits ↦
          let (body, whole, split, len) =
            read_payload-splits hdr (declared_len hdr) tl raw rest (rw fits at e) in
          (body, whole, split, len, fits)
    ]

-- A successful `read_frame` splits the stream into an 8-byte header, a payload of exactly the
-- length that the header declares and the limit allows, and what is left; the frame is the first
-- two.
pub read_frame-splits :
    (max_len : Option ℕ) (stream raw rest : Bytes)
    → read_frame max_len stream ≡ frame raw rest
    → (hdr tl : Bytes) × (stream ≡ hdr ++ tl)
      × (length hdr ≡ 8)
      × SplitsAfter max_len hdr tl raw rest
unfolding read_frame
read_frame-splits max_len stream raw rest e = elim (Option-cases (read_exactly 8 stream)) [
  | inl stuck ↦ absurd (cc (rw (stuck, read_frame) at e))
  | inr ((hdr, tl), read) ↦
      let (whole, len, _) = read_exactly-splits 8 stream hdr tl read in
      (
        hdr,
        tl,
        whole,
        len,
        after_header-splits max_len hdr tl raw rest (rw (read, read_frame) at e),
      )
]

-- Behind a header of 8 bytes that declares a length over the limit, the frame is refused with both
-- numbers, whatever bytes follow the header.
pub read_frame-too_large :
    (max_len : ℕ) (hdr rest : Bytes)
    → length hdr ≡ 8
    → max_len < declared_len hdr
    → read_frame (some max_len) (hdr ++ rest) ≡ frame_too_large (declared_len hdr) max_len
unfolding read_frame
read_frame-too_large max_len hdr rest l h =
    rw (read_exactly-append 8 hdr rest l, read_frame) (unfold after_header in ground arith)
