-- ===== src/Uds/Request.antt =====
-- The byte masks of `UdsRequest` in virtual_ecu/virtecu/uds.py.
use doip_playground.Base.{
  ltb, leb, ◌==◌, if◌then◌else◌, ==_iff, Bool-cases, every_from, every_from-test, Bytes, ℕ, ◌/◌,
  ◌%◌, ◌<◌, bit_and, ◌≡◌, refl, inl, inr, Bool, true, not, some, List, [], ◌∷◌, arith,
}
use doip_playground.Uds.{has_sub_function, sub_function, suppress_pos_rsp, dids_of, UdsRequest}

-- The two masks on a byte.
abbrev low_mask_agrees : ℕ → Bool
low_mask_agrees b = bit_and b 0x7f == b % 128

abbrev top_bit_agrees : ℕ → Bool
top_bit_agrees b = if bit_and b 0x80 == 0 then ltb b 128 else leb 128 b

low_mask_table : every_from low_mask_agrees 0 256 ≡ true
unfolding every_from
low_mask_table = refl

top_bit_table : every_from top_bit_agrees 0 256 ≡ true
unfolding every_from
top_bit_table = refl

pub low_mask : (b : ℕ) → b < 256 → bit_and b 0x7f ≡ b % 128
low_mask b h =
    let fact = every_from-test low_mask_agrees 256 0 b (omega arith) (omega arith) low_mask_table in
    (==_iff (bit_and b 0x7f) (b % 128)).0 fact

top_bit : (b : ℕ) → b < 256 → not (bit_and b 0x80 == 0) ≡ leb 128 b
top_bit b h =
    let fact = every_from-test top_bit_agrees 256 0 b (omega arith) (omega arith) top_bit_table in
    elim (Bool-cases (bit_and b 0x80 == 0)) [
      | inl z ↦ rw z (ground arith)
      | inr n ↦ rw n (ground arith)
    ]

-- Byte 1 of a request of a service with a sub-function, if it is below 256, is read as its value
-- modulo 128 and, for the suppress bit, whether it is at least 128.
pub sub_function_bits :
    (r : UdsRequest) (s b : ℕ) (rest : Bytes)
    → r.raw ≡ s ∷ b ∷ rest
    → has_sub_function r ≡ true
    → b < 256
    → (sub_function r ≡ some (b % 128)) × (suppress_pos_rsp r ≡ leb 128 b)
unfolding sub_function suppress_pos_rsp
sub_function_bits r s b rest e sub h = (ground (arith, low_mask b h), ground (arith, top_bit b h))

-- `pack_u16` of each identifier, joined
abbrev pub pack_dids : List ℕ → Bytes
pack_dids [] = []
pack_dids (d ∷ ds) = d / 256 ∷ d % 256 ∷ pack_dids ds

-- The identifiers of a 0x22 request are read back, in order, as they were packed.
pub dids_of-pack_dids : (ds : List ℕ) → dids_of (pack_dids ds) ≡ ds
unfolding dids_of
dids_of-pack_dids [] = refl
dids_of-pack_dids (d ∷ ds) = ground (arith, dids_of-pack_dids ds)
