-- ===== src/Tests/Framing.antt =====
-- The framing and the tables at concrete inputs.
use doip_playground.Base.{Bytes, bit_xor, ◌≡◌, refl, ◌↔◌, none, some, [], ◌∷◌, ◌++◌}
use doip_playground.Doip.{build_frame, read_frame, validate_header, ptype, payload_of, frame}
use doip_playground.Doip.Codec.{read_frame-build_frame}
use doip_playground.Doip.Header.{VersionAllowed, TypeKnown, validate_header-accepts}

abbrev activation_frame : Bytes
activation_frame = 2 ∷ 0xfd ∷ 0 ∷ 5 ∷ 0 ∷ 0 ∷ 0 ∷ 2 ∷ 0x0e ∷ 0x80 ∷ []

read_frame-build_frame_example :
    (read_frame (some 10) (activation_frame ++ 9 ∷ []) ≡ frame activation_frame (9 ∷ []))
    × (ptype activation_frame ≡ some 5)
    × (payload_of activation_frame ≡ 0x0e ∷ 0x80 ∷ [])
read_frame-build_frame_example =
    read_frame-build_frame 5 (0x0e ∷ 0x80 ∷ []) 2 (some 10) (9 ∷ []) activation_frame
      (unfold build_frame in refl) refl

validate_header-accepts_example :
    (validate_header activation_frame none [] ≡ some none)
    ↔ ((0xfd ≡ bit_xor 0xff 2) × VersionAllowed 2 5 [] × TypeKnown 5 none)
validate_header-accepts_example =
    validate_header-accepts 2 0xfd 0 5 (0 ∷ 0 ∷ 0 ∷ 2 ∷ 0x0e ∷ 0x80 ∷ []) none []
