-- ===== src/Sftp/Status.antt =====
-- Errors of SFTP as status responses: SFTPError and SFTPUnknownPrincipal with _process_status of SFTPClientHandler, in
-- asyncssh/sftp.py. Texts are given as the bytes of their encodings; which bytes are UTF-8 is a parameter.
pub mod Answers
pub mod Ending
mod Runs
use asyncssh.Base.{
  ℕ, zero, suc, Bool, true, false, not, ◌&&◌, ◌||◌, Option, none, some, List, [], ◌∷◌, ◌++◌, ltb,
  leb, ◌==◌, if◌then◌else◌, Result, ok, err, Error,
}
use asyncssh.Packet.{
  SshPacket, Decoder, and_then, fmap, has_more, check_end, get_uint32, uint32, string,
}
use asyncssh.Connection.Receive.{is_ascii}
use asyncssh.Sftp.Attrs.{pair, decimal}
use asyncssh.Sftp.Attrs.Decode.{get_text, get_pair}

-- An SFTPError; `unknown_names` is a field of the subclass SFTPUnknownPrincipal, with code 16.
pub record SftpError : Type 0 where
  pub code : ℕ
  pub reason : List ℕ
  pub lang : List ℕ
  pub unknown_names : Option (List (List ℕ))

-- The code that a version has for an error.
unfoldable pub wire_code : ℕ → ℕ → ℕ
wire_code version code =
    if code == 19 && ltb version 6
    then 2
    else if leb code 31
        && (ltb 8 code && leb version 3
            || (ltb 13 code && leb version 4 || ltb 17 code && leb version 5))
    then 4
    else code

unfoldable pub encode_names : List (List ℕ) → Result (List ℕ)
unfolding string pair
encode_names [] = ok []
encode_names (name ∷ names) = pair (string name) (encode_names names)

-- `encode`, of both classes
unfoldable pub encode_error : ℕ → SftpError → Result (List ℕ)
unfolding wire_code encode_names uint32 string pair
encode_error version e = pair (uint32 (wire_code version e.code)) (
    pair (string e.reason) (
      pair (string e.lang) (elim e.unknown_names as (λ _. Result (List ℕ)) [
        | none ↦ ok []
        | some names ↦ encode_names names
      ])))

-- `decode` of SFTPUnknownPrincipal, on fuel
unfoldable pub get_names : (List ℕ → Bool) → ℕ → Decoder (List (List ℕ))
unfolding get_text has_more
get_names is_utf8 zero p = (err Error.out_of_fuel, p)
get_names is_utf8 (suc n) p =
    let rest =
      and_then (get_text is_utf8 Error.sftp_bad_message)
        (λ name. fmap (λ names. name ∷ names) (get_names is_utf8 n)) p in
    if has_more p then rest else (ok [], p)

unfoldable pub get_reason : (List ℕ → Bool) → Decoder (List ℕ × List ℕ)
unfolding get_text has_more is_ascii
get_reason is_utf8 p =
    let read =
      get_pair (get_text is_utf8 Error.sftp_bad_message) (get_text is_ascii Error.sftp_bad_message)
        p in
    if has_more p then read else (ok ([], []), p)

-- The error of a code that is not FX_OK; `_sftp_error_map` has the codes from 1 to 31.
unfoldable pub make_error : (List ℕ → Bool) → ℕ → List ℕ → List ℕ → Decoder SftpError
unfolding get_names decimal
make_error is_utf8 code reason lang p =
    let names =
      fmap
        (λ names. record { code = code; reason = reason; lang = lang; unknown_names = some names })
        (get_names is_utf8 (suc p.len)) p in
    if code == 16
    then names
    else if leb code 31
    then (ok (record { code = code; reason = reason; lang = lang; unknown_names = none }), p)
    else (
      ok (record {
        code = code;
        reason =
            reason
            ++ (b' ' ∷ b'(' ∷ b'e' ∷ b'r' ∷ b'r' ∷ b'o' ∷ b'r' ∷ b' ' ∷ decimal code)
            ++ b')' ∷ [];
        lang = lang;
        unknown_names = none;
      }),
      p,
    )

unfoldable pub construct : (List ℕ → Bool) → Decoder (Option SftpError)
unfolding get_uint32 get_reason make_error
construct is_utf8 = and_then get_uint32 (λ code. and_then (get_reason is_utf8) (λ (reason, lang).
    if code == 0 then (λ p. (ok none, p)) else fmap some (make_error is_utf8 code reason lang)))

-- `_process_status`: what it raises as an SFTPError, if anything.
unfoldable pub process_status : (List ℕ → Bool) → ℕ → Decoder (Option SftpError)
unfolding construct check_end
process_status is_utf8 version =
    and_then (construct is_utf8)
      (λ exc. if ltb version 6 then fmap (λ u. exc) check_end else (λ p. (ok exc, p)))
