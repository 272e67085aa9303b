-- ===== src/Doip/Header.antt =====
-- `validate_header` of virtual_ecu/virtecu/doip.py.
use doip_playground.Base.{
  contains, Bytes, unpack_u16, ℕ, bit_xor, ◌≡◌, ◌↔◌, ◌⊎◌, true, Option, none, some, List, ◌∷◌,
  arith,
}
use doip_playground.Doip.{accepted_versions, validate_header}

-- A version that TCP_DATA and UDP_DISCOVERY both accept, or the wildcard on a type that allows it.
abbrev pub VersionAllowed : ℕ → ℕ → List ℕ → Type 0
VersionAllowed v pt wildcard_types =
    (contains v accepted_versions ≡ true) ⊎ ((v ≡ 0xff) × (contains pt wildcard_types ≡ true))

abbrev pub TypeKnown : ℕ → Option (List ℕ) → Type 0
TypeKnown pt none = Unit {0}
TypeKnown pt (some known) = contains pt known ≡ true

-- A header passes exactly when the second byte is the complement of the first, the version is
-- allowed for the payload type, and the type is known where the caller cares.
pub validate_header-accepts :
    (v inv hi lo : ℕ) (rest : Bytes) (known_types : Option (List ℕ)) (wildcard_types : List ℕ)
    → (validate_header (v ∷ inv ∷ hi ∷ lo ∷ rest) known_types wildcard_types ≡ some none) ↔ (
        (inv ≡ bit_xor 0xff v)
        × VersionAllowed v (unpack_u16 hi lo) wildcard_types
        × TypeKnown (unpack_u16 hi lo) known_types)
unfolding validate_header contains
validate_header-accepts v inv hi lo rest none wildcard_types =
    (λ e. ground arith, λ e. ground arith)
validate_header-accepts v inv hi lo rest (some known) wildcard_types =
    (λ e. ground arith, λ e. ground arith)
