-- ===== src/Echo/Takeover.antt =====
-- What the end of an evicted connection of echo_ecu/echo_ecu.py does to its successor.
use doip_playground.Base.{
  ltb, ◌==◌, length, lookup, erase, lookup-erase, Bytes, ℕ, ◌≤◌, ◌≡◌, refl, ap, ◌∙◌, ◌≢◌, true,
  false, Option, none, some, ◌∷◌, arith,
}
use doip_playground.Gateway.{word_at}
use doip_playground.Echo.{
  unregister_echo, evict_echo, accept_activation, handle_echo_activation, after_echo_probe,
  EchoConfig, EchoSession, EchoEcu,
}

unregister-sessions : (who : Option ℕ) (s : EchoEcu) → (unregister_echo who s).sessions ≡ s.sessions
unregister-sessions none s = refl
unregister-sessions (some sa) s = refl

evict-sessions : (j : ℕ) (s : EchoEcu) → (evict_echo j s).sessions ≡ s.sessions
unfolding evict_echo
evict-sessions j s =
    unregister-sessions (s.sessions j).tester_addr (record s { closed = j ∷ s.closed })

evict-forgets :
    (j sa : ℕ) (s : EchoEcu)
    → (s.sessions j).tester_addr ≡ some sa
    → lookup sa (evict_echo j s).registry ≡ none
unfolding evict_echo
evict-forgets j sa s e = rw e (ground (arith, lookup-erase sa sa s.registry))

module _ (config : EchoConfig) where
  -- A free address is given at once.
  free_address :
      (k src : ℕ) (payload : Bytes) (s : EchoEcu)
      → 7 ≤ length payload
      → word_at 0 payload ≡ src
      → lookup src s.registry ≡ none
      → handle_echo_activation config k payload s ≡ accept_activation config k src s
  unfolding handle_echo_activation
  free_address k src payload s long asks free =
      let whole : ltb (length payload) 7 ≡ false = ground arith in rw (whole, asks, free) refl

  accepted_session :
      (i src : ℕ) (s : EchoEcu)
      → (accept_activation config i src s).sessions i
        ≡ record { activated = true; tester_addr = some src }
  unfolding accept_activation
  accepted_session i src s = ground arith

  -- Whom a handler takes the address from keeps its own record of the address.
  taken_session :
      (i src j : ℕ) (s : EchoEcu)
      → i ≢ j
      → (after_echo_probe config i src j false s).sessions j ≡ s.sessions j
  unfolding after_echo_probe accept_activation
  taken_session i src j s ne =
      let other : (j == i) ≡ false = ground arith in
      rw other (ap (λ f. f j) (evict-sessions j (record s { probing = erase i s.probing })))

  -- Behind a probe that got no answer the newcomer is activated for the address; but when the
  -- evicted connection then ends, the registry forgets the address, and a third connection that
  -- asks for it is admitted as if it were free, without a probe of the newcomer, which stays
  -- activated.
  pub evicted_forgets_successor :
      (i src j k : ℕ) (payload : Bytes) (s : EchoEcu)
      → i ≢ j
      → (s.sessions j).tester_addr ≡ some src
      → 7 ≤ length payload
      → word_at 0 payload ≡ src
      → let t = evict_echo j (after_echo_probe config i src j false s) in
        ((t.sessions i).activated ≡ true)
        × ((t.sessions i).tester_addr ≡ some src)
        × (handle_echo_activation config k payload t ≡ accept_activation config k src t)
  unfolding after_echo_probe
  evicted_forgets_successor i src j k payload s ne e long asks =
      let admitted : EchoEcu = after_echo_probe config i src j false s in
      let active : (evict_echo j admitted).sessions i
          ≡ record { activated = true; tester_addr = some src } =
        ap (λ f. f i) (evict-sessions j admitted)
        ∙ accepted_session i src (evict_echo j (record s { probing = erase i s.probing })) in
      (
        ap EchoSession.activated active,
        ap EchoSession.tester_addr active,
        free_address k src payload (evict_echo j admitted) long asks (
            evict-forgets j src admitted
              (ap EchoSession.tester_addr (taken_session i src j s ne) ∙ e)),
      )
