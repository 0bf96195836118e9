-- ===== src/Sftp/Attrs/Groups.antt =====
-- The groups of fields that depend on the version are read as they were written.
use asyncssh.Base.{
  ℕ, ◌+◌, ◌*◌, ◌≡◌, arith, subst, Bool, true, false, Option, none, some, List, [], if◌then◌else◌,
  Result, ok, err, ◌>>=◌, >>=-eq-ok, Error,
}
use asyncssh.Packet.{
  fmap, get_byte, get_uint32, get_uint64, get_string, byte, uint32, uint64, string,
}
use asyncssh.Packet.RoundTrip.{
  get_byte-byte, get_uint32-uint32, get_uint64-uint64, get_string-string,
}
use asyncssh.Sftp.Attrs.{
  Version, Attrs, Draft, given, is_given, both, pair, filetype, encode_type, owner_names,
  encode_owner,
}
use asyncssh.Sftp.Attrs.Decode.{has, optional, get_pair, get_text, Ids, decode_type, decode_owner}
use asyncssh.Sftp.Attrs.Flags.{bit}
use asyncssh.Sftp.Attrs.Reading.{
  Reads, nothing_read, fmap-Reads, pair-Reads, given-flag, given-Reads, pair-eq-ok,
}

pub uint32-Reads : (v : ℕ) (enc : List ℕ) → uint32 v ≡ ok enc → Reads get_uint32 enc v
uint32-Reads v enc h = record { reads = λ front rest. get_uint32-uint32 v enc front rest h }

pub uint64-Reads : (v : ℕ) (enc : List ℕ) → uint64 v ≡ ok enc → Reads get_uint64 enc v
uint64-Reads v enc h = record { reads = λ front rest. get_uint64-uint64 v enc front rest h }

pub byte-Reads : (v : ℕ) (enc : List ℕ) → byte v ≡ ok enc → Reads get_byte enc v
byte-Reads v enc h = record { reads = λ front rest. get_byte-byte v enc front rest h }

pub string-Reads : (v enc : List ℕ) → string v ≡ ok enc → Reads get_string enc v
string-Reads v enc h = record { reads = λ front rest. get_string-string v enc front rest h }

pub text-Reads :
    (is_utf8 : List ℕ → Bool) (e : Error) (v enc : List ℕ)
    → is_utf8 v ≡ true
    → string v ≡ ok enc
    → Reads (get_text is_utf8 e) enc v
unfolding get_text
text-Reads is_utf8 e v enc u h = record {
  reads = λ front rest. rw (get_string-string v enc front rest h, u);
}

pub two_numbers :
    (x : ℕ × ℕ) (enc : List ℕ)
    → pair (uint32 x.0) (uint32 x.1) ≡ ok enc
    → Reads (get_pair get_uint32 get_uint32) enc x
two_numbers (x, y) enc h =
    let (b1, b2, first, second, all) = pair-eq-ok (uint32 x) (uint32 y) enc h in
    rw (← all) (
      pair-Reads get_uint32 get_uint32 b1 b2 x y (uint32-Reads x b1 first)
        (uint32-Reads y b2 second))

-- The type that is sent.
abbrev pub sent_type : Version → Attrs → ℕ
sent_type Version.v3 a = 5
sent_type v a = filetype v a.type_

byte_part :
    (t f : ℕ) (bytes : List ℕ)
    → ◌≡◌ {A = Draft} (byte t >>= λ enc. ok (0, enc)) (ok (f, bytes))
    → (f ≡ 0) × Reads get_byte bytes t
byte_part t f bytes h =
    let (enc, first, e) = >>=-eq-ok (byte t) _ h in
    let all : enc ≡ bytes = cc in (cc, rw (← all) (byte-Reads t enc first))

pub type-Reads :
    (v : Version) (a : Attrs) (f : ℕ) (bytes : List ℕ)
    → encode_type v a ≡ ok (f, bytes)
    → (f ≡ 0) × Reads (decode_type v) bytes (sent_type v a)
unfolding encode_type decode_type
type-Reads Version.v3 a f bytes h =
    let none_ : [] ≡ bytes = cc in (cc, rw (← none_) (nothing_read 5))
type-Reads Version.v4 a f bytes h = byte_part (filetype Version.v4 a.type_) f bytes h
type-Reads Version.v5 a f bytes h = byte_part a.type_ f bytes h
type-Reads Version.v6 a f bytes h = byte_part a.type_ f bytes h

-- What is told of owner and group.
abbrev pub sent_ids : Version → Attrs → Ids
sent_ids Version.v3 a = (both a.uid a.gid, none)
sent_ids v a = (none, owner_names a)

-- The names are UTF-8.
abbrev pub Named : (List ℕ → Bool) → Option (List ℕ × List ℕ) → Type 0
Named is_utf8 none = Unit {0}
Named is_utf8 (some names) = (is_utf8 names.0 ≡ true) × (is_utf8 names.1 ≡ true)

pub flag_bit :
    {A : Type 0} (flag : ℕ) {f : ℕ} (o : Option A)
    → f ≡ (if is_given o then flag else 0)
    → f ≡ flag * bit (is_given o)
flag_bit flag none h = omega (arith, h)
flag_bit flag (some x) h = omega (arith, h)

not_raised :
    {A : Type 0} (b : Bool) (e : Error) (r : Result A) {x : A}
    → (if b then err e else r) ≡ ok x
    → r ≡ ok x
not_raised true e r h = cc
not_raised false e r h = h

module _ (is_utf8 : List ℕ → Bool) where
  owner_part :
      (names : Option (List ℕ × List ℕ)) (f : ℕ) (bytes : List ℕ) (told : Bool)
      → Named is_utf8 names
      → given 128 names (λ n. pair (string n.0) (string n.1)) ≡ ok (f, bytes)
      → told ≡ is_given names
      → Reads
          (optional told (
            get_pair
              (get_text is_utf8 Error.sftp_owner_invalid)
              (get_text is_utf8 Error.sftp_group_invalid)))
          bytes
          names
  owner_part names f bytes told u h t =
      given-Reads 128 names (λ n. pair (string n.0) (string n.1)) _ told f bytes
        (λ n enc e w.
          let (b1, b2, first, second, all) = pair-eq-ok (string n.0) (string n.1) enc w in
          let (good, fine) = subst (Named is_utf8) e u in
          rw (← all) (
            pair-Reads (get_text is_utf8 Error.sftp_owner_invalid)
              (get_text is_utf8 Error.sftp_group_invalid) b1 b2 n.0 n.1
              (text-Reads is_utf8 Error.sftp_owner_invalid n.0 b1 good first)
              (text-Reads is_utf8 Error.sftp_group_invalid n.1 b2 fine second)))
        t h

  -- From version 4 on.
  names-Reads :
      (a : Attrs) (f : ℕ) (bytes : List ℕ)
      → Named is_utf8 (owner_names a)
      → given 128 (owner_names a) (λ names. pair (string names.0) (string names.1)) ≡ ok (f, bytes)
      → (f ≡ 128 * bit (is_given (owner_names a)))
        × ((flags : ℕ)
            → has flags 128 ≡ is_given (owner_names a)
            → Reads
                (fmap {A = Option (List ℕ × List ℕ)} {B = Ids}
                  (λ names. (none, names))
                  (optional (has flags 128) (
                    get_pair
                      (get_text is_utf8 Error.sftp_owner_invalid)
                      (get_text is_utf8 Error.sftp_group_invalid))))
                bytes
                (none, owner_names a))
  names-Reads a f bytes u h = (
    flag_bit 128 (owner_names a) (given-flag 128 (owner_names a) _ f bytes h),
    λ flags t.
        fmap-Reads (λ names. (none, names)) _ bytes (owner_names a)
          (owner_part (owner_names a) f bytes (has flags 128) u h t),
  )

  pub owner-Reads :
      (v : Version) (a : Attrs) (f : ℕ) (bytes : List ℕ)
      → Named is_utf8 (sent_ids v a).1
      → encode_owner v a ≡ ok (f, bytes)
      → (f ≡ 2 * bit (is_given (sent_ids v a).0) + 128 * bit (is_given (sent_ids v a).1))
        × ((flags : ℕ)
            → has flags 2 ≡ is_given (sent_ids v a).0
            → has flags 128 ≡ is_given (sent_ids v a).1
            → Reads (decode_owner is_utf8 v flags) bytes (sent_ids v a))
  unfolding encode_owner decode_owner
  owner-Reads Version.v3 a f bytes u h =
      let ids = both a.uid a.gid in
      let sent : given 2 ids (λ i. pair (uint32 i.0) (uint32 i.1)) ≡ ok (f, bytes) =
        not_raised _ _ _ h in
      (
        omega (arith, flag_bit 2 ids (given-flag 2 ids _ f bytes sent)),
        λ flags t t'.
            fmap-Reads {B = Ids} (λ i. (i, none)) _ bytes ids
              (given-Reads 2 ids (λ i. pair (uint32 i.0) (uint32 i.1))
                (get_pair get_uint32 get_uint32) (has flags 2) f bytes
                (λ i enc e w. two_numbers i enc w) t sent),
      )
  owner-Reads Version.v4 a f bytes u h =
      let r = names-Reads a f bytes u h in (omega (arith, r.0), λ flags t t'. r.1 flags t')
  owner-Reads Version.v5 a f bytes u h =
      let r = names-Reads a f bytes u h in (omega (arith, r.0), λ flags t t'. r.1 flags t')
  owner-Reads Version.v6 a f bytes u h =
      let r = names-Reads a f bytes u h in (omega (arith, r.0), λ flags t t'. r.1 flags t')
