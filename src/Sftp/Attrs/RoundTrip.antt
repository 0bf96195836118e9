-- ===== src/Sftp/Attrs/RoundTrip.antt =====
-- Attributes that were encoded are decoded, as far as the version carries them.
use mathlib.Core.List.{append_assoc, append-nil}
use asyncssh.Base.{
  ◌<◌, ℕ, ◌+◌, ◌*◌, ◌≡◌, arith, ◌∙◌, subst, Bool, Option, some, List, [], ◌∷◌, ◌++◌, if◌then◌else◌,
  Result, ok, err, >>=-eq-ok, Error,
}
use asyncssh.Packet.{
  Decoder, fmap, get_byte, get_uint32, get_uint64, get_string, byte, uint32, uint64, string,
}
use asyncssh.Packet.RoundTrip.{cursor}
use asyncssh.Sftp.Attrs.{
  Version, number, Attrs, Draft, given, is_given, both, since, join, draft, encode,
}
use asyncssh.Sftp.Attrs.Decode.{
  exceeds, valid_attr_flags, mend_flags, optional, get_pair, get_text, decode_rest, decode_fields,
  attributes, decode,
}
use asyncssh.Sftp.Attrs.Flags.{bit, word, bit_at, exceeds-word, has-word}
use asyncssh.Sftp.Attrs.Reading.{
  Reads, pair-Reads, fmap-Reads, then-Reads, given-flag, given-Reads, join-eq-ok, join-nil,
  pair-eq-ok,
}
use asyncssh.Sftp.Attrs.Groups.{
  uint32-Reads, uint64-Reads, byte-Reads, string-Reads, text-Reads, two_numbers, flag_bit,
  type-Reads, sent_ids, Named, owner-Reads,
}
use asyncssh.Sftp.Attrs.Times.{times-Reads, extended-Reads}
use asyncssh.Sftp.Attrs.Slots.{
  sent, slots, Sendable, Utf8, mend_flags-slots, clash-slots, clash-old, carried, slots-Told,
  flags-slots,
}

-- A part that is written under a flag and read as it was given.
record Sends {A : Type 0} (d : Draft) (n : ℕ) (get : Decoder A) (x : A) : Type 0 where
  sends : (f : ℕ) (bytes : List ℕ) → d ≡ ok (f, bytes) → (f ≡ n) × Reads get bytes x

record Joins {A : Type 0} (ds : List Draft) (n : ℕ) (get : Decoder A) (x : A) : Type 0 where
  joins : (f : ℕ) (bytes : List ℕ) → join ds ≡ ok (f, bytes) → (f ≡ n) × Reads get bytes x

last_part :
    {A : Type 0} {d : Draft} {n : ℕ} {get : Decoder A} {x : A}
    → Sends d n get x
    → Joins (d ∷ []) n get x
last_part {d} h = record {
  joins = λ f bytes e.
      let (f1, b1, f2, b2, first, rest, sum, all) = join-eq-ok d [] f bytes e in
      let (zero_, none_) = join-nil f2 b2 rest in
      let (flag, reads) = h.sends f1 b1 first in
      (omega (arith, sum, zero_, flag), rw (← all, ← none_, append-nil b1) reads);
}

next_part :
    {A B : Type 0} {d : Draft} {ds : List Draft} {n m : ℕ} {get : Decoder A} {more : Decoder B}
    {x : A} {y : B}
    → Sends d n get x
    → Joins ds m more y
    → Joins (d ∷ ds) (n + m) (get_pair get more) (x, y)
next_part {d} {ds} {get} {more} {x} {y} h k = record {
  joins = λ f bytes e.
      let (f1, b1, f2, b2, first, rest, sum, all) = join-eq-ok d ds f bytes e in
      let (flag, reads) = h.sends f1 b1 first in
      let (flags, others) = k.joins f2 b2 rest in
      (omega (arith, sum, flag, flags), rw (← all) (pair-Reads get more b1 b2 x y reads others));
}

given-Sends :
    {A : Type 0} (flag : ℕ) (o : Option A) (encode : A → Result (List ℕ)) (get : Decoder A)
    (told : Bool)
    → told ≡ is_given o
    → ((x : A) (enc : List ℕ) → o ≡ some x → encode x ≡ ok enc → Reads get enc x)
    → Sends (given flag o encode) (flag * bit (is_given o)) (optional told get) o
given-Sends flag o encode get told t k = record {
  sends = λ f bytes e. (
    flag_bit flag o (given-flag flag o encode f bytes e),
    given-Reads flag o encode get told f bytes k t e,
  );
}

module _ (is_utf8 : List ℕ → Bool) where
  draft-Joins :
      (v : Version) (a : Attrs)
      → Named is_utf8 (sent_ids v a).1
      → Utf8 is_utf8 (since 6 v a.mime_type)
      → (f : ℕ) (bytes : List ℕ) → draft v a ≡ ok (f, bytes)
      → (f ≡ word (slots v a)) × Reads (decode_fields is_utf8 v (word (slots v a))) bytes (sent v a)
  unfolding draft decode_fields decode_rest bit_at
  draft-Joins v a u m f bytes h =
      let at_ = λ (k : ℕ). has-word k (slots v a) in
      let all =
        next_part (record { sends = λ f b e. type-Reads v a f b e })
          (next_part
            (given-Sends 1 a.size uint64 get_uint64 _ (at_ 0) (λ x enc e h. uint64-Reads x enc h))
            (next_part
              (given-Sends 1024 a.alloc_size uint64 get_uint64 _ (at_ 10)
                (λ x enc e h. uint64-Reads x enc h))
              (next_part
                (record {
                  sends = λ f b e.
                      let o = owner-Reads is_utf8 v a f b u e in
                      (o.0, o.1 (word (slots v a)) (at_ 1) (at_ 7));
                })
                (next_part
                  (given-Sends 4 a.permissions uint32 get_uint32 _ (at_ 2)
                    (λ x enc e h. uint32-Reads x enc h))
                  (next_part
                    (record {
                      sends = λ f b e.
                          let t = times-Reads v a f b e in
                          (t.0, t.1 (word (slots v a)) (slots-Told v a));
                    })
                    (next_part
                      (given-Sends 64 (since 4 v a.acl) string get_string _ (at_ 6)
                        (λ x enc e h. string-Reads x enc h))
                      (next_part
                        (given-Sends 512 (since 5 v (both a.attrib_bits a.attrib_valid)) _
                          (get_pair get_uint32 get_uint32) _ (at_ 9)
                          (λ x enc e h. two_numbers x enc h))
                        (next_part
                          (given-Sends 2048 (since 6 v a.text_hint) byte get_byte _ (at_ 11)
                            (λ x enc e h. byte-Reads x enc h))
                          (next_part
                            (given-Sends 4096 (since 6 v a.mime_type) string
                              (get_text is_utf8 Error.sftp_bad_message) _ (at_ 12)
                              (λ x enc e h.
                                text-Reads is_utf8 Error.sftp_bad_message x enc
                                  (subst (Utf8 is_utf8) e m) h))
                            (next_part
                              (given-Sends 8192 (since 6 v a.nlink) uint32 get_uint32 _ (at_ 13)
                                (λ x enc e h. uint32-Reads x enc h))
                              (next_part
                                (given-Sends 16384 (since 6 v a.untrans_name) string get_string _
                                  (at_ 14) (λ x enc e h. string-Reads x enc h))
                                (last_part (record {
                                  sends = λ f b e.
                                      let x = extended-Reads a.extended f b e in
                                      (x.0, x.1 _ (at_ 31));
                                }))))))))))))) in
      let (flags, reads) = all.joins f bytes h in (flags ∙ flags-slots v a, reads)

  refused_or_read : ℕ → Version → Decoder Attrs
  refused_or_read flags v =
      if exceeds 32 flags (valid_attr_flags v)
      then (λ p. (err Error.sftp_bad_message, p))
      else fmap (attributes v) (decode_fields is_utf8 v flags)

  -- What is encoded is decoded to what the version carries, wherever it stands in a packet, if an allocation size is
  -- given in version 6 only and the texts are UTF-8.
  pub decode-encode :
      (v : Version) (a : Attrs) (enc front rest : List ℕ)
      → Sendable v a
      → Named is_utf8 (sent_ids v a).1
      → Utf8 is_utf8 (since 6 v a.mime_type)
      → encode v a ≡ ok enc
      → decode is_utf8 v (cursor front (enc ++ rest))
        ≡ (ok (carried v a), cursor (front ++ enc) rest)
  unfolding encode decode refused_or_read attributes carried
  decode-encode v a enc front rest s u m h =
      let ((f, bytes), e, more) = >>=-eq-ok (draft v a) _ h in
      let (b1, b2, head, tail, all) = pair-eq-ok (uint32 f) (ok bytes) enc more in
      let same : bytes ≡ b2 = cc in
      let (flags, fields) = draft-Joins v a u m f bytes e in
      let w = word (slots v a) in
      let next : Reads (refused_or_read (mend_flags v f) v) b2 (attributes v (sent v a)) =
        rw
          (
            flags,
            mend_flags-slots v a,
            exceeds-word (slots v a) (valid_attr_flags v),
            clash-slots v a s,
            ← same,
          )
          (fmap-Reads (attributes v) (decode_fields is_utf8 v w) bytes (sent v a) fields) in
      let whole =
        then-Reads get_uint32 (λ g. refused_or_read (mend_flags v g) v) b1 b2 f
          (attributes v (sent v a)) (uint32-Reads f b1 head) next in
      rw (← all) (whole.reads front rest)

  -- What attributes with an allocation size are encoded to before version 6, when they are encoded and the owner names
  -- are UTF-8, is refused as a bad message.
  pub alloc_size_refused :
      (v : Version) (a : Attrs) (n : ℕ) (enc front rest : List ℕ)
      → number v < 6
      → a.alloc_size ≡ some n
      → Named is_utf8 (sent_ids v a).1
      → encode v a ≡ ok enc
      → (decode is_utf8 v (cursor front (enc ++ rest))).0 ≡ err Error.sftp_bad_message
  unfolding encode decode
  alloc_size_refused v a n enc front rest old given_ u h =
      let ((f, bytes), e, more) = >>=-eq-ok (draft v a) _ h in
      let (b1, b2, head, tail, all) = pair-eq-ok (uint32 f) (ok bytes) enc more in
      let (flags, fields) = draft-Joins v a u (no_mime v a old) f bytes e in
      let first = uint32-Reads f b1 head in
      rw (
        ← all,
        append_assoc b1 b2 rest,
        first.reads front (b2 ++ rest),
        flags,
        mend_flags-slots v a,
        exceeds-word (slots v a) (valid_attr_flags v),
        clash-old v a n old given_,
      )
    where
      no_mime : (v : Version) (a : Attrs) → number v < 6 → Utf8 is_utf8 (since 6 v a.mime_type)
      no_mime Version.v3 a l = tt
      no_mime Version.v4 a l = tt
      no_mime Version.v5 a l = tt
      no_mime Version.v6 a l = absurd (omega arith)
