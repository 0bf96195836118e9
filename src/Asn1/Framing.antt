-- ===== src/Asn1/Framing.antt =====
-- What frames an object is read back.
use mathlib.Core.List.{append_assoc}
use asyncssh.Base.{
  ℕ, zero, suc, ◌+◌, ◌*◌, ◌/◌, ◌%◌, ◌^◌, ◌≤◌, ◌<◌, ◌⊎◌, inl, inr, ◌≡◌, ◌≢◌, refl, ◌∙◌, ap, sym,
  arith, Bool, true, false, List, [], ◌∷◌, ◌++◌, length, take, drop, take-append, drop-append,
  length-append, ltb, leb, ◌==◌, if◌then◌else◌, ok,
}
use asyncssh.Base.Bytes.{big_endian, to_bytes_fits, length-big_endian, from_bytes-big_endian}
use asyncssh.Base.Int.{bit_length_ℕ, bit_length_ℕ_bounds}
use asyncssh.Asn1.{
  tag_digits, encode_identifier, encode_length, frame, read_tag, decode_tag, decode_length, unframe,
}
use asyncssh.Packet.Mpint.{pow_byte, pow_le}

leb_cases : (a b : ℕ) → ((leb a b ≡ true) × (a ≤ b)) ⊎ ((leb a b ≡ false) × (b < a))
leb_cases a b = ground arith

read_tag_more :
    (tag offset b : ℕ) (bs : List ℕ)
    → 128 ≤ b
    → read_tag tag offset (b ∷ bs) ≡ read_tag ((tag + b % 128) * 128) (suc offset) bs
unfolding read_tag
read_tag_more tag offset b bs h = ground arith

read_tag_last :
    (tag offset b : ℕ) (bs : List ℕ)
    → b < 128
    → read_tag tag offset (b ∷ bs) ≡ ok (tag + b, suc offset)
unfolding read_tag
read_tag_last tag offset b bs h = ground arith

-- The digits of a long tag, before what stands behind them.
read_tag-tag_digits :
    (n tag offset : ℕ) (bs rest : List ℕ)
    → tag ≤ n
    → (k : ℕ) × (length (tag_digits n tag bs) ≡ k + length bs)
      × (read_tag 0 offset (tag_digits n tag bs ++ rest)
          ≡ read_tag (tag / 128 * 128) (k + offset) (bs ++ rest))
unfolding tag_digits
read_tag-tag_digits zero tag offset bs rest h =
    let z : tag / 128 * 128 ≡ 0 = omega arith in
    let o : 0 + offset ≡ offset = omega arith in (0, omega arith, rw (z, o) refl)
read_tag-tag_digits (suc n) tag offset bs rest h = elim (leb_cases 128 tag) [
  | inl (b, l) ↦
      let (k, len, e) =
        read_tag-tag_digits n (tag / 128) offset ((128 + tag / 128 % 128) ∷ bs) rest
          (omega arith) in
      let shifted : (tag / 128 / 128 * 128 + (128 + tag / 128 % 128) % 128) * 128
          ≡ tag / 128 * 128 =
        omega arith in
      let moved : suc (k + offset) ≡ suc k + offset = omega arith in
      (
        suc k,
        rw (b) (omega (arith, len)),
        rw (b) (
            e
            ∙ read_tag_more (tag / 128 / 128 * 128) (k + offset) (128 + tag / 128 % 128)
                (bs ++ rest) (omega arith)
            ∙ rw (shifted, moved) refl),
      )
  | inr (b, l) ↦
      let z : tag / 128 * 128 ≡ 0 = omega arith in
      let o : 0 + offset ≡ offset = omega arith in (0, rw (b) (omega arith), rw (b, z, o) refl)
]

-- The number of bytes that a length of 128 or more takes.
abbrev size_of : ℕ → ℕ
size_of n = (bit_length_ℕ n + 7) / 8

size_of-fits : (n : ℕ) → n < 256 ^ size_of n
size_of-fits n = rw (pow_byte (size_of n)) (
    omega (arith, (bit_length_ℕ_bounds n).0, pow_le (bit_length_ℕ n) (8 * size_of n) (omega arith)))

-- A length that takes fewer than 128 bytes is read back.
decode_length-encode_length :
    (size : ℕ)
    → size_of size < 128
    → (enc : List ℕ) × (encode_length size ≡ ok enc)
      × ((offset : ℕ) (rest : List ℕ)
          → decode_length offset (enc ++ rest) ≡ ok (size, offset + length enc))
unfolding encode_length decode_length
decode_length-encode_length size h = elim (leb_cases 128 size) [
  | inl (b, l) ↦
      let digits = big_endian (size_of size) size in
      let long : ltb size 128 ≡ false = ground arith in
      let short : ltb (size_of size) 256 ≡ true = ground arith in
      let low : size_of size % 128 ≡ size_of size = omega arith in
      let some_ : ltb 128 (128 + size_of size) ≡ true =
        ground (arith, ((bit_length_ℕ_bounds size).1 (omega arith)).0) in
      let back : (128 + size_of size) % 128 ≡ size_of size = omega arith in
      (
        (128 + size_of size % 128) ∷ big_endian (size_of size) size,
        rw (long, to_bytes_fits (size_of size) size (size_of-fits size), short) refl,
        λ offset rest.
            rw
              (
                low,
                some_,
                back,
                take-append (size_of size) digits rest (length-big_endian (size_of size) size),
                from_bytes-big_endian (size_of size) size (size_of-fits size),
                length-big_endian (size_of size) size,
              )
              (ap (λ n. ok (size, n)) (omega arith)),
      )
  | inr (b, l) ↦ (size ∷ [], ground arith, λ offset rest. ground arith)
]

-- The identifier of an object, whose tag is not 31, is read back.
decode_tag-encode_identifier :
    (asn1_class : ℕ) (constructed : Bool) (tag : ℕ)
    → asn1_class < 4
    → tag ≢ 31
    → (first : ℕ) × (more : List ℕ) × (encode_identifier asn1_class constructed tag
        ≡ ok (first ∷ more))
      × (first / 64 ≡ asn1_class)
      × ((first / 32 % 2 == 1) ≡ constructed)
      × ((rest : List ℕ) → decode_tag (first ∷ (more ++ rest)) ≡ ok (tag, suc (length more)))
unfolding encode_identifier decode_tag
decode_tag-encode_identifier asn1_class constructed tag c t = elim (leb_cases 32 tag) [
  | inl (b, l) ↦
      let flags = asn1_class * 64 + (if constructed then 32 else 0) in
      (
        flags + 31,
        tag_digits tag tag (tag % 128 ∷ []),
        ground arith,
        ground arith,
        ground arith,
        λ rest.
            let (k, len, e) = read_tag-tag_digits tag tag 1 (tag % 128 ∷ []) rest (omega arith) in
            let mark : ((flags + 31) % 32 == 31) ≡ true = ground arith in
            let whole : tag / 128 * 128 + tag % 128 ≡ tag = omega arith in
            let count : suc (k + 1) ≡ suc (length (tag_digits tag tag (tag % 128 ∷ []))) =
              omega (arith, len) in
            rw (mark) (
              e
              ∙ read_tag_last (tag / 128 * 128) (k + 1) (tag % 128) rest (omega arith)
              ∙ rw (whole, count) refl),
      )
  | inr (b, l) ↦
      let flags = asn1_class * 64 + (if constructed then 32 else 0) in
      let low : (flags + tag) % 32 ≡ tag = ground arith in
      let mark : (tag == 31) ≡ false = ground arith in
      (flags + tag, [], ground arith, ground arith, ground arith, λ rest. rw (low, mark) refl)
]

encode_length_pos : (n : ℕ) (enc : List ℕ) → encode_length n ≡ ok enc → 1 ≤ length enc
unfolding encode_length
encode_length_pos n enc h = ground arith

unframe_parts :
    (first tag offset size start : ℕ) (tail : List ℕ)
    → 1 ≤ length tail
    → decode_tag (first ∷ tail) ≡ ok (tag, offset)
    → decode_length offset (drop offset (first ∷ tail)) ≡ ok (size, start)
    → start + size ≤ length (first ∷ tail)
    → unframe (first ∷ tail)
      ≡ ok (record {
        asn1_class = first / 64;
        constructed = first / 32 % 2 == 1;
        tag = tag;
        content = take size (drop start (first ∷ tail));
        end_ = start + size;
      })
unfolding unframe
unframe_parts first tag offset size start tail l t s b =
    let wide : ltb (suc (length tail)) 2 ≡ false = ground arith in
    let fits : ltb (suc (length tail)) (start + size) ≡ false = ground arith in
    rw (unframe, wide, t, s, fits) refl

-- An object of one of the four classes, whose tag is not 31 and whose length takes fewer than 128 bytes, is framed,
-- and from bytes that start with the frame its class, tag and content are read back, with the end of the frame.
pub unframe-frame :
    (asn1_class : ℕ) (constructed : Bool) (tag : ℕ) (content : List ℕ)
    → asn1_class < 4
    → tag ≢ 31
    → (bit_length_ℕ (length content) + 7) / 8 < 128
    → (bytes : List ℕ) × (frame asn1_class constructed tag content ≡ ok bytes)
      × ((rest : List ℕ)
          → unframe (bytes ++ rest)
            ≡ ok (record {
              asn1_class = asn1_class;
              constructed = constructed;
              tag = tag;
              content = content;
              end_ = length bytes;
            }))
unfolding frame
unframe-frame asn1_class constructed tag content c t h =
    let (first, more, made, cls, con, tagged) =
      decode_tag-encode_identifier asn1_class constructed tag c t in
    let (enc, sized, size) = decode_length-encode_length (length content) h in
    (
      first ∷ (more ++ (enc ++ content)),
      rw (frame, made, sized) refl,
      λ rest.
          let tail = more ++ (enc ++ (content ++ rest)) in
          let flat : (more ++ (enc ++ content)) ++ rest ≡ tail =
            append_assoc more (enc ++ content) rest
            ∙ ap (λ l. more ++ l) (append_assoc enc content rest) in
          let behind : drop (length more) tail ≡ enc ++ (content ++ rest) =
            drop-append (length more) more (enc ++ (content ++ rest)) refl in
          let start = suc (length more) + length enc in
          let body : take (length content) (drop start (first ∷ tail)) ≡ content =
            ap (λ l. take (length content) (drop start (first ∷ l)))
              (sym (append_assoc more enc (content ++ rest)))
            ∙ ap (take (length content)) (
                drop-append start (first ∷ (more ++ enc)) (content ++ rest)
                  (omega (arith, length-append more enc)))
            ∙ take-append (length content) content rest refl in
          let l1 = length-append more (enc ++ content) in
          let l2 = length-append enc content in
          let l3 = length-append more (enc ++ (content ++ rest)) in
          let l4 = length-append enc (content ++ rest) in
          let l5 = length-append content rest in
          let end : start + length content ≡ suc (length (more ++ (enc ++ content))) =
            omega (arith, l1, l2) in
          ap (λ l. unframe (first ∷ l)) flat
          ∙ unframe_parts first tag (suc (length more)) (length content) start tail
              (omega (arith, l3, l4, encode_length_pos (length content) enc sized))
              (tagged (enc ++ (content ++ rest)))
              (rw (behind) (size (suc (length more)) (content ++ rest))) (omega (arith, l3, l4, l5))
          ∙ rw (cls, con, body, end) refl,
    )

-- An object of one of the four classes with tag 31 and fewer than 128 bytes of content is framed, but what reads the
-- frame takes the length of the content for the tag.
pub tag_31_misread :
    (asn1_class : ℕ) (constructed : Bool) (content : List ℕ)
    → asn1_class < 4
    → length content < 128
    → (bytes : List ℕ) × (frame asn1_class constructed 31 content ≡ ok bytes)
      × (decode_tag bytes ≡ ok (length content, 2))
unfolding frame encode_identifier encode_length decode_tag
tag_31_misread asn1_class constructed content c l =
    let flags = asn1_class * 64 + (if constructed then 32 else 0) in
    let class_ : ltb asn1_class 4 ≡ true = ground arith in
    let short : ltb (length content) 128 ≡ true = ground arith in
    let zero_add : 0 + length content ≡ length content = omega arith in
    let mark : ((flags + 31) % 32 == 31) ≡ true = ground arith in
    (
      (flags + 31) ∷ length content ∷ content,
      rw (frame, class_, short) refl,
      rw (mark) (read_tag_last 0 1 (length content) content l ∙ rw (zero_add) refl),
    )
