-- ===== src/Asn1/Runs.antt =====
-- DER objects at concrete inputs.
use asyncssh.Base.{ℕ, ◌+◌, ◌/◌, ◌≡◌, ◌<◌, refl, arith, false, true, List, [], ◌∷◌, ◌++◌, length, ok}
use asyncssh.Base.Int.{bit_length_ℕ}
use asyncssh.Asn1.{frame, unframe, decode_tag, tag_digits, encode_identifier}
use asyncssh.Asn1.Framing.{unframe-frame, tag_31_misread}

-- An application tag of two digits.
long_tag : encode_identifier 1 true 300 ≡ ok (127 ∷ 130 ∷ 44 ∷ [])
unfolding encode_identifier tag_digits
long_tag = refl

two_bytes : (bit_length_ℕ 2 + 7) / 8 < 128
unfolding bit_length_ℕ
two_bytes = omega arith

unframe-frame_example :
    (bytes : List ℕ) × (frame 2 true 300 (5 ∷ 6 ∷ []) ≡ ok bytes)
    × ((rest : List ℕ)
        → unframe (bytes ++ rest)
          ≡ ok (record {
            asn1_class = 2;
            constructed = true;
            tag = 300;
            content = 5 ∷ 6 ∷ [];
            end_ = length bytes;
          }))
unframe-frame_example =
    unframe-frame 2 true 300 (5 ∷ 6 ∷ []) (omega arith) (λ e. omega arith) two_bytes

tag_31_misread_example :
    (bytes : List ℕ) × (frame 2 false 31 (5 ∷ 6 ∷ []) ≡ ok bytes)
    × (decode_tag bytes ≡ ok (length {A = ℕ} (5 ∷ 6 ∷ []), 2))
tag_31_misread_example = tag_31_misread 2 false (5 ∷ 6 ∷ []) (omega arith) (omega arith)
