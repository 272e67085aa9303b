-- ===== src/Discovery/Storm.antt =====
-- Entities that speak virtual_ecu/virtecu/udp.py do not answer each other's answers.
use doip_playground.Base.{
  ltb, ◌==◌, Option-cases, contains, if-rule, length, drop, Bytes, unpack_u16, ℕ, ◌/◌, ◌%◌, ◌≡◌,
  refl, inl, inr, true, Option, none, some, List, [], ◌∷◌, ◌++◌, arith,
}
use doip_playground.Doip.{
  ver, pt_entity_status_request, pt_power_mode_request, build_frame, validate_header, ptype,
}
use doip_playground.Doip.Codec.{header_bytes, build_frame-eq_some}
use doip_playground.Discovery.{
  udp_known_types, version_wildcard_types, udp_never_nack_types, is_self_origin, matches_entity,
  serve_datagram, by_header, datagram_received, identification_response, sends, announcement,
  DiscoveryConfig, Peer, silence,
}

-- Every payload type in a list of sendings is one that is never answered.
abbrev pub AllQuiet : List (ℕ × Bytes) → Type 0
AllQuiet [] = Unit {0}
AllQuiet ((pt, body) ∷ rest) = (contains pt udp_never_nack_types ≡ true) × AllQuiet rest

u16_parts : (n : ℕ) → unpack_u16 (n / 256) (n % 256) ≡ n
u16_parts n = omega arith

never_answered :
    (config : DiscoveryConfig) (registered : ℕ) (peer : Peer) (pt : ℕ) (body raw : Bytes)
    → contains pt udp_never_nack_types ≡ true
    → build_frame pt body ver ≡ some raw
    → datagram_received config registered peer raw ≡ silence
unfolding datagram_received ptype
never_answered config registered peer pt body raw quiet built =
    rw (build_frame-eq_some pt body ver raw built) (
      if-rule (λ r. r ≡ silence) (ltb (length (header_bytes pt (length body) ver ++ body)) 8)
        (λ _. refl)
        (λ _.
          if-rule (λ r. r ≡ silence) (is_self_origin config peer) (λ _. refl)
            (λ _. rw (u16_parts pt, quiet) refl)))

module _ (config : DiscoveryConfig) where
  identification_response-AllQuiet :
      (override : Option Bytes) → AllQuiet (identification_response config override)
  unfolding identification_response contains
  identification_response-AllQuiet none = (refl, tt)
  identification_response-AllQuiet (some []) = tt
  identification_response-AllQuiet (some (b ∷ bs)) = (refl, tt)

  serve_datagram-AllQuiet :
      (registered pt : ℕ) (peer : Peer) (req : Bytes) (override : Option Bytes)
      → AllQuiet (sends config override (serve_datagram config registered peer pt req))
  unfolding serve_datagram contains
  serve_datagram-AllQuiet registered pt peer req override =
      if-rule (λ r. AllQuiet (sends config override r)) (pt == pt_entity_status_request)
        (λ _. (refl, tt))
        (λ _.
          if-rule (λ r. AllQuiet (sends config override r)) (pt == pt_power_mode_request)
            (λ _. (refl, tt))
            (λ _.
              if-rule (λ r. AllQuiet (sends config override r)) (contains pt version_wildcard_types)
                (λ _.
                  if-rule (λ r. AllQuiet (sends config override r)) (matches_entity config req pt)
                    (λ _. identification_response-AllQuiet override) (λ _. tt))
                (λ _. tt)))

  by_header-AllQuiet :
      (registered pt : ℕ) (peer : Peer) (raw : Bytes) (check : Option (Option ℕ))
      (override : Option Bytes)
      → AllQuiet (sends config override (by_header config registered peer pt raw check))
  unfolding contains
  by_header-AllQuiet registered pt peer raw none override = tt
  by_header-AllQuiet registered pt peer raw (some (some nack)) override = (refl, tt)
  by_header-AllQuiet registered pt peer raw (some none) override =
      serve_datagram-AllQuiet registered pt peer (drop 8 raw) override

  datagram_received-AllQuiet :
      (registered : ℕ) (peer : Peer) (raw : Bytes) (override : Option Bytes)
      → AllQuiet (sends config override (datagram_received config registered peer raw))
  unfolding datagram_received
  datagram_received-AllQuiet registered peer raw override =
      if-rule (λ r. AllQuiet (sends config override r)) (ltb (length raw) 8) (λ _. tt)
        (λ _.
          if-rule (λ r. AllQuiet (sends config override r)) (is_self_origin config peer) (λ _. tt)
            (λ _. elim (Option-cases (ptype raw)) [
              | inl short ↦ rw short tt
              | inr (pt, typed) ↦ rw typed (
                  if-rule (λ r. AllQuiet (sends config override r))
                    (contains pt udp_never_nack_types) (λ _. tt)
                    (λ _.
                      by_header-AllQuiet registered pt peer raw
                        (validate_header raw (some udp_known_types) version_wildcard_types)
                        override))
            ]))

-- Of what a list of sendings puts on the wire, an entity answers nothing.
abbrev pub Unanswered : DiscoveryConfig → ℕ → Peer → List (ℕ × Bytes) → Type 0
Unanswered other registered peer [] = Unit {0}
Unanswered other registered peer ((pt, body) ∷ rest) =
    ((raw : Bytes)
      → build_frame pt body ver ≡ some raw
      → datagram_received other registered peer raw ≡ silence)
    × Unanswered other registered peer rest

pub AllQuiet-Unanswered :
    (other : DiscoveryConfig) (registered : ℕ) (peer : Peer) (sent : List (ℕ × Bytes))
    → AllQuiet sent
    → Unanswered other registered peer sent
AllQuiet-Unanswered other registered peer [] quiet = tt
AllQuiet-Unanswered other registered peer ((pt, body) ∷ rest) (q, quiet) = (
  λ raw built. never_answered other registered peer pt body raw q built,
  AllQuiet-Unanswered other registered peer rest quiet,
)

-- Whatever datagram an entity receives and whatever its hook says, each frame that it sends in
-- answer, and each of its announcements, is met with silence by every entity of this kind that
-- receives it, from any sender: two entities never answer each other's answers.
pub datagram_received-Unanswered :
    (config other : DiscoveryConfig) (registered registered' : ℕ) (peer peer' : Peer) (raw : Bytes)
    (override : Option Bytes)
    → Unanswered other registered' peer'
        (announcement config ∷ sends config override (datagram_received config registered peer raw))
datagram_received-Unanswered config other registered registered' peer peer' raw override =
    AllQuiet-Unanswered other registered' peer'
      (announcement config ∷ sends config override (datagram_received config registered peer raw))
      (unfold contains in refl, datagram_received-AllQuiet config registered peer raw override)
