-- ===== src/Asn1.antt =====
-- The framing of DER objects: asyncssh/asn1.py, the identifier and length of der_encode and der_decode_partial. A
-- bitwise or of numbers that share no bit is a sum, a shift a product or a quotient, and a mask a remainder.
use asyncssh.Base.{
  ℕ, zero, suc, ◌+◌, ◌*◌, ◌/◌, ◌%◌, Bool, true, false, not, ◌&&◌, List, [], ◌∷◌, ◌++◌, length, take,
  drop, ltb, leb, ◌==◌, if◌then◌else◌, Result, ok, err, Error,
}
use asyncssh.Base.Bytes.{to_bytes, from_bytes}
use asyncssh.Base.Int.{bit_length_ℕ}
mod Framing
mod Runs

-- The loop of `_encode_identifier` over a tag of 0x80 or more, on fuel; the list stands in the order of the result.
unfoldable pub tag_digits : ℕ → ℕ → List ℕ → List ℕ
tag_digits zero tag identifier = identifier
tag_digits (suc n) tag identifier =
    let shifted = tag / 128 in
    let rest = tag_digits n shifted ((128 + shifted % 128) ∷ identifier) in
    if leb 128 tag then rest else identifier

-- The classes are 0 to 3.
unfoldable pub encode_identifier : ℕ → Bool → ℕ → Result (List ℕ)
unfolding tag_digits
encode_identifier asn1_class constructed tag =
    if ltb asn1_class 4
    then (let flags = asn1_class * 64 + (if constructed then 32 else 0) in
        if ltb tag 32
        then ok ((flags + tag) ∷ [])
        else ok ((flags + 31) ∷ tag_digits tag tag (tag % 128 ∷ [])))
    else err Error.asn1_encode_error

-- `len_bytes`; `bytes` of a number above 255 is a ValueError.
unfoldable pub encode_length : ℕ → Result (List ℕ)
encode_length length_ =
    if ltb length_ 128
    then ok (length_ ∷ [])
    else (let size = (bit_length_ℕ length_ + 7) / 8 in
        elim (to_bytes size length_) [
          | err e ↦ err e
          | ok len_bytes ↦
              if ltb size 256 then ok ((128 + size % 128) ∷ len_bytes) else err Error.value_error
        ])

-- `identifier + len_bytes + content`
unfoldable pub frame : ℕ → Bool → ℕ → List ℕ → Result (List ℕ)
unfolding encode_identifier encode_length
frame asn1_class constructed tag content = elim (encode_identifier asn1_class constructed tag) [
  | err e ↦ err e
  | ok identifier ↦ elim (encode_length (length content)) [
    | err e ↦ err e
    | ok len_bytes ↦ ok (identifier ++ (len_bytes ++ content))
  ]
]

-- What `der_decode_partial` knows before it looks at the content.
pub record Framed : Type 0 where
  pub asn1_class : ℕ
  pub constructed : Bool
  pub tag : ℕ
  pub content : List ℕ
  pub end_ : ℕ

-- The loop over the bytes of a long tag: the tag and the offset after it.
unfoldable pub read_tag : ℕ → ℕ → List ℕ → Result (ℕ × ℕ)
read_tag tag offset [] = err Error.asn1_decode_error
read_tag tag offset (b ∷ bs) =
    if ltb b 128 then ok (tag + b, suc offset) else read_tag ((tag + b % 128) * 128) (suc offset) bs

-- The tag of the first byte, or the long one that follows, and the offset after it.
unfoldable pub decode_tag : List ℕ → Result (ℕ × ℕ)
unfolding read_tag
decode_tag [] = err Error.asn1_decode_error
decode_tag (first ∷ rest) = if first % 32 == 31 then read_tag 0 1 rest else ok (first % 32, 1)

-- The length of the content and the offset after it, from the bytes at an offset.
unfoldable pub decode_length : ℕ → List ℕ → Result (ℕ × ℕ)
decode_length offset [] = err Error.asn1_decode_error
decode_length offset (b ∷ bs) =
    if ltb 128 b
    then ok (from_bytes (take (b % 128) bs), suc offset + b % 128)
    else if b == 128
    then err Error.asn1_decode_error
    else ok (b, suc offset)

unfoldable pub unframe : List ℕ → Result Framed
unfolding decode_tag decode_length
unframe [] = err Error.asn1_decode_error
unframe (first ∷ rest) =
    let bytes = first ∷ rest in
    if ltb (length bytes) 2 then err Error.asn1_decode_error else elim (decode_tag bytes) [
      | err e ↦ err e
      | ok (tag, offset) ↦ elim (decode_length offset (drop offset bytes)) [
        | err e ↦ err e
        | ok (size, start) ↦
            if ltb (length bytes) (start + size)
            then err Error.asn1_decode_error
            else ok (record {
              asn1_class = first / 64;
              constructed = first / 32 % 2 == 1;
              tag = tag;
              content = take size (drop start bytes);
              end_ = start + size;
            })
      ]
    ]
