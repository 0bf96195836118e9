-- ===== src/Sftp/Status/Answers.antt =====
-- Errors that were encoded are read.
use mathlib.Core.List.{append_assoc}
use asyncssh.Base.{
  ℕ, ◌<◌, ◌≤◌, ◌≡◌, refl, arith, ap, ◌∙◌, sym, Bool, true, false, Option, none, some, List, [], ◌∷◌,
  ◌++◌, length, length-append, ltb, leb, ◌==◌, if◌then◌else◌, Result, ok, err, >>=-eq-ok, Error,
  Bool-cases, inl, inr,
}
use asyncssh.Base.Bytes.{to_bytes}
use asyncssh.Packet.{Decoder, fmap, has_more, check_end, uint32, string}
use asyncssh.Packet.RoundTrip.{cursor, to_bytes-eq-ok, get_uint32-uint32}
use asyncssh.Connection.Receive.{is_ascii}
use asyncssh.Sftp.Attrs.Decode.{get_text}
use asyncssh.Sftp.Attrs.Reading.{pair-Reads, pair-eq-ok}
use asyncssh.Sftp.Attrs.Groups.{text-Reads}
use asyncssh.Sftp.Status.{
  SftpError, wire_code, encode_names, encode_error, get_reason, make_error, construct,
  process_status,
}

-- Where a packet ends.
at_end : (front : List ℕ) → has_more (cursor front []) ≡ false
unfolding has_more cursor
at_end front = ground (arith, length-append front [])

before_end : (front rest : List ℕ) → 1 ≤ length rest → has_more (cursor front rest) ≡ true
unfolding has_more cursor
before_end front rest h = ground (arith, length-append front rest)

length-string : (text enc : List ℕ) → string text ≡ ok enc → 1 ≤ length enc
unfolding string
length-string text enc h =
    let (size, sized, e) = >>=-eq-ok (to_bytes 4 (length text)) _ h in
    let (four, value) = to_bytes-eq-ok 4 (length text) size sized in
    let all : size ++ text ≡ enc = cc in omega (arith, ap length all, length-append size text, four)

-- The code of an error stays the code of an error.
wire_code_cases :
    (version code : ℕ)
    → 1 ≤ code
    → code ≤ 31
    → (code == 16) ≡ false
    → (1 ≤ wire_code version code)
      × (wire_code version code ≤ 31)
      × ((wire_code version code == 16) ≡ false)
unfolding wire_code
wire_code_cases version code l h k = ground arith

module _ (is_utf8 : List ℕ → Bool) where
  get_reason-read :
      (reason lang b2 b3 front rest : List ℕ)
      → is_utf8 reason ≡ true
      → is_ascii lang ≡ true
      → string reason ≡ ok b2
      → string lang ≡ ok b3
      → get_reason is_utf8 (cursor front ((b2 ++ b3) ++ rest))
        ≡ (ok (reason, lang), cursor (front ++ (b2 ++ b3)) rest)
  unfolding get_reason
  get_reason-read reason lang b2 b3 front rest u a first second =
      let more : 1 ≤ length ((b2 ++ b3) ++ rest) = omega (
        arith,
        length-append (b2 ++ b3) rest,
        length-append b2 b3,
        length-string reason b2 first,
      ) in
      let both_ =
        pair-Reads (get_text is_utf8 Error.sftp_bad_message)
          (get_text is_ascii Error.sftp_bad_message) b2 b3 reason lang
          (text-Reads is_utf8 Error.sftp_bad_message reason b2 u first)
          (text-Reads is_ascii Error.sftp_bad_message lang b3 a second) in
      rw (before_end front ((b2 ++ b3) ++ rest) more) (both_.reads front rest)

  construct-read :
      (code : ℕ) (reason lang b1 b2 b3 front rest : List ℕ)
      → 1 ≤ code
      → code ≤ 31
      → (code == 16) ≡ false
      → is_utf8 reason ≡ true
      → is_ascii lang ≡ true
      → uint32 code ≡ ok b1
      → string reason ≡ ok b2
      → string lang ≡ ok b3
      → construct is_utf8 (cursor front (b1 ++ ((b2 ++ b3) ++ rest))) ≡ (
        ok (some (record { code = code; reason = reason; lang = lang; unknown_names = none })),
        cursor ((front ++ b1) ++ (b2 ++ b3)) rest,
      )
  unfolding construct make_error
  construct-read code reason lang b1 b2 b3 front rest l h k u a head first second =
      let not_ok : (code == 0) ≡ false = ground arith in
      let known : leb code 31 ≡ true = ground arith in
      rw (
        get_uint32-uint32 code b1 front ((b2 ++ b3) ++ rest) head,
        get_reason-read reason lang b2 b3 (front ++ b1) rest u a first second,
        not_ok,
        k,
        known,
      )

  -- What an encoded error consists of.
  encode_error-eq-ok :
      (version : ℕ) (e : SftpError) (enc : List ℕ)
      → encode_error version e ≡ ok enc
      → (b1 : List ℕ) × (b2 : List ℕ) × (b3 : List ℕ) × (b4 : List ℕ) × (uint32
            (wire_code version e.code)
          ≡ ok b1)
        × (string e.reason ≡ ok b2)
        × (string e.lang ≡ ok b3)
        × ((elim e.unknown_names as (λ _. Result (List ℕ)) [
          | none ↦ ok []
          | some names ↦ encode_names names
        ])
            ≡ ok b4)
        × (b1 ++ ((b2 ++ b3) ++ b4) ≡ enc)
  unfolding encode_error
  encode_error-eq-ok version e enc h =
      let (b1, r1, first, q1, all1) = pair-eq-ok _ _ enc h in
      let (b2, r2, second, q2, all2) = pair-eq-ok _ _ r1 q1 in
      let (b3, b4, third, fourth, all3) = pair-eq-ok _ _ r2 q2 in
      (
        b1,
        b2,
        b3,
        b4,
        first,
        second,
        third,
        fourth,
        ap (λ t. b1 ++ t) (append_assoc b2 b3 b4 ∙ ap (λ t. b2 ++ t) all3 ∙ all2) ∙ all1,
      )

  -- The end of `_process_status`.
  abbrev checked : ℕ → Option SftpError → Decoder (Option SftpError)
  checked version exc = if ltb version 6 then fmap (λ u. exc) check_end else (λ p. (ok exc, p))

  checked_at_end :
      (version : ℕ) (exc : Option SftpError) (front : List ℕ)
      → (checked version exc (cursor front [])).0 ≡ ok exc
  unfolding check_end
  checked_at_end version exc front = elim (Bool-cases (ltb version 6)) [
    | inl e ↦ rw (e, at_end front)
    | inr e ↦ rw (e)
  ]

  checked_before_end :
      (version : ℕ) (exc : Option SftpError) (front rest : List ℕ)
      → version < 6
      → 1 ≤ length rest
      → (checked version exc (cursor front rest)).0 ≡ err Error.packet_decode_error
  unfolding check_end
  checked_before_end version exc front rest l h =
      let old : ltb version 6 ≡ true = ground arith in rw (old, before_end front rest h)

  -- An error with a code from 1 to 31, not about unknown principals, is read from the response that it is encoded to,
  -- with the code that the version has for it, if its texts are UTF-8 and ASCII.
  pub process_status-encode_error :
      (version code : ℕ) (reason lang enc front : List ℕ)
      → 1 ≤ code
      → code ≤ 31
      → (code == 16) ≡ false
      → is_utf8 reason ≡ true
      → is_ascii lang ≡ true
      → encode_error version
          (record { code = code; reason = reason; lang = lang; unknown_names = none })
        ≡ ok enc
      → (process_status is_utf8 version (cursor front enc)).0
        ≡ ok (
            some (record {
              code = wire_code version code;
              reason = reason;
              lang = lang;
              unknown_names = none;
            }))
  unfolding process_status
  process_status-encode_error version code reason lang enc front l h k u a made =
      let e : SftpError = record {
        code = code;
        reason = reason;
        lang = lang;
        unknown_names = none;
      } in
      let (b1, b2, b3, b4, first, second, third, fourth, all) =
        encode_error-eq-ok version e enc made in
      let (lo, hi, other) = wire_code_cases version code l h k in
      let last : [] ≡ b4 = cc in
      let whole : b1 ++ ((b2 ++ b3) ++ []) ≡ enc = ap (λ t. b1 ++ ((b2 ++ b3) ++ t)) last ∙ all in
      rw
        (
          ← whole,
          construct-read (wire_code version code) reason lang b1 b2 b3 front [] lo hi other u a
              first second third,
        )
        (checked_at_end version _ ((front ++ b1) ++ (b2 ++ b3)))

  -- Before version 5 the response to an error that names unknown principals is refused: the names follow a code that
  -- has none. Its texts are UTF-8 and ASCII.
  pub unknown_principal_refused :
      (version : ℕ) (reason lang name : List ℕ) (names : List (List ℕ)) (enc front : List ℕ)
      → version < 5
      → is_utf8 reason ≡ true
      → is_ascii lang ≡ true
      → encode_error version
          (record { code = 16; reason = reason; lang = lang; unknown_names = some (name ∷ names) })
        ≡ ok enc
      → (process_status is_utf8 version (cursor front enc)).0 ≡ err Error.packet_decode_error
  unfolding process_status encode_names
  unknown_principal_refused version reason lang name names enc front old u a made =
      let e : SftpError = record {
        code = 16;
        reason = reason;
        lang = lang;
        unknown_names = some (name ∷ names);
      } in
      let (b1, b2, b3, b4, first, second, third, fourth, all) =
        encode_error-eq-ok version e enc made in
      let (c1, c2, head, tail, split) = pair-eq-ok (string name) (encode_names names) b4 fourth in
      let four : wire_code version 16 ≡ 4 = unfold wire_code in ground arith in
      let more : 1 ≤ length b4 =
        omega (arith, ap length split, length-append c1 c2, length-string name c1 head) in
      let coded : uint32 4 ≡ ok b1 = ap uint32 (sym four) ∙ first in
      rw
        (
          ← all,
          construct-read 4 reason lang b1 b2 b3 front b4 (omega arith) (omega arith) refl u a coded
              second third,
        )
        (checked_before_end version _ ((front ++ b1) ++ (b2 ++ b3)) b4 (omega arith) more)
