-- ===== src/Echo/Answers.antt =====
-- How echo_ecu/echo_ecu.py reads a frame, and what it answers to a diagnostic message in one.
use doip_playground.Base.{
  ltb, ◌==◌, length, Bytes, pack_u16, unpack_u16, ℕ, ◌/◌, ◌%◌, ◌≡◌, refl, ap, true, false, some, [],
  ◌∷◌, ◌++◌, arith,
}
use doip_playground.Doip.{ver, pt_diagnostic_message, pt_diagnostic_positive_ack, declared_len}
use doip_playground.Doip.Codec.{header_bytes, u32_parts, read_exactly-append}
use doip_playground.Gateway.{byte_at}
use doip_playground.Echo.{
  echo_frame, echo_read_frame, echo_send, echo_uds_response, handle_echo_diagnostic, dispatch_echo,
  serve_echo, EchoConfig, EchoEcu, reads_on,
}

-- The header of its frames.
abbrev echo_header : ℕ → ℕ → Bytes
echo_header pt n = header_bytes pt n ver

-- A frame that it builds is read back whole, with what follows it left in the stream.
echo_read_frame-echo_frame :
    (pt : ℕ) (body rest : Bytes)
    → echo_read_frame (echo_frame pt body ++ rest) ≡ some (echo_frame pt body, rest)
unfolding echo_read_frame declared_len
echo_read_frame-echo_frame pt [] rest =
    rw (read_exactly-append 8 (echo_header pt 0) rest refl, echo_read_frame) refl
echo_read_frame-echo_frame pt (b ∷ body) rest =
    let n : ℕ = length (b ∷ body) in
    let some_bytes : (n == 0) ≡ false = ground arith in
    rw
      (
        read_exactly-append 8 (echo_header pt n) ((b ∷ body) ++ rest) refl,
        echo_read_frame,
        u32_parts n,
      )
      (rw (read_exactly-append n (b ∷ body) rest refl, some_bytes) refl)

u16_parts : (n : ℕ) → unpack_u16 (n / 256) (n % 256) ≡ n
u16_parts n = omega arith

module _ (config : EchoConfig) where
  answered_diagnostic :
      (i src tgt : ℕ) (uds trailer : Bytes) (s : EchoEcu)
      → (s.sessions i).activated ≡ true
      → handle_echo_diagnostic config i (pack_u16 src ++ (pack_u16 tgt ++ uds)) trailer s
        ≡ echo_send i pt_diagnostic_message
            (pack_u16 tgt ++ (pack_u16 src ++ echo_uds_response config uds trailer))
            (echo_send i pt_diagnostic_positive_ack (pack_u16 src ++ (pack_u16 tgt ++ 0x00 ∷ [])) s)
  unfolding handle_echo_diagnostic byte_at
  answered_diagnostic i src tgt uds trailer s active =
      let payload : Bytes = pack_u16 src ++ (pack_u16 tgt ++ uds) in
      let whole : ltb (length payload) 4 ≡ false = ground arith in
      rw (active, whole, u16_parts src, u16_parts tgt) refl

  -- A diagnostic message that an activated connection sends in a frame, with its addresses and its
  -- UDS bytes, is read and answered by a Positive ACK to the same addresses, and then by a response
  -- with the two addresses swapped; nothing else changes, and what follows it stays in the stream.
  pub serve_echo-diagnostic :
      (i src tgt : ℕ) (uds trailer rest : Bytes) (s : EchoEcu)
      → (s.sessions i).activated ≡ true
      → let raw = echo_frame pt_diagnostic_message (pack_u16 src ++ (pack_u16 tgt ++ uds)) in
        (echo_read_frame (raw ++ rest) ≡ some (raw, rest))
        × (serve_echo config i raw trailer s
            ≡ reads_on (
                echo_send i pt_diagnostic_message
                  (pack_u16 tgt ++ (pack_u16 src ++ echo_uds_response config uds trailer))
                  (echo_send i pt_diagnostic_positive_ack
                    (pack_u16 src ++ (pack_u16 tgt ++ 0x00 ∷ []))
                    s)))
  unfolding serve_echo byte_at dispatch_echo handle_echo_diagnostic
  serve_echo-diagnostic i src tgt uds trailer rest s active = (
    echo_read_frame-echo_frame pt_diagnostic_message (pack_u16 src ++ (pack_u16 tgt ++ uds)) rest,
    ap reads_on (answered_diagnostic i src tgt uds trailer s active),
  )
