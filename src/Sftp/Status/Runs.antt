-- ===== src/Sftp/Status/Runs.antt =====
-- Status responses.
use asyncssh.Base.{ℕ, none, some, List, [], ◌∷◌, ◌≡◌, ◌≢◌, refl, arith, ok, err, Error}
use asyncssh.Base.Bytes.{to_bytes, big_endian, from_bytes, from_bytes_acc}
use asyncssh.Packet.{uint32, string, has_more, get_bytes, get_uint32, get_string, check_end}
use asyncssh.Packet.RoundTrip.{cursor}
use asyncssh.Connection.Receive.{is_ascii}
use asyncssh.Sftp.Attrs.{pair}
use asyncssh.Sftp.Attrs.Decode.{get_text}
use asyncssh.Sftp.Status.{
  wire_code, encode_names, encode_error, get_names, get_reason, make_error, construct,
  process_status,
}
use asyncssh.Sftp.Status.Ending.{process_status_ends}
use asyncssh.Sftp.Status.Answers.{process_status-encode_error, unknown_principal_refused}

-- A link loop, for version 4; an unknown principal, for version 3; and one for version 6.
abbrev loop_bytes : List ℕ
loop_bytes = 0 ∷ 0 ∷ 0 ∷ 4 ∷ 0 ∷ 0 ∷ 0 ∷ 1 ∷ b'l' ∷ 0 ∷ 0 ∷ 0 ∷ 2 ∷ b'e' ∷ b'n' ∷ []

abbrev principal_bytes : List ℕ
principal_bytes = 0 ∷ 0 ∷ 0 ∷ 4 ∷ 0 ∷ 0 ∷ 0 ∷ 1 ∷ b'p' ∷ 0 ∷ 0 ∷ 0 ∷ 0 ∷ 0 ∷ 0 ∷ 0 ∷ 1 ∷ b'x' ∷ []

abbrev named_bytes : List ℕ
named_bytes =
    0 ∷ 0 ∷ 0 ∷ 16 ∷ 0 ∷ 0 ∷ 0 ∷ 1 ∷ b'p' ∷ 0 ∷ 0 ∷ 0 ∷ 0 ∷ 0 ∷ 0 ∷ 0 ∷ 1 ∷ b'x' ∷ 0 ∷ 0 ∷ 0 ∷ 1
    ∷ b'y' ∷ []

encoded :
    (encode_error 4
        (record { code = 21; reason = b'l' ∷ []; lang = b'e' ∷ b'n' ∷ []; unknown_names = none })
      ≡ ok loop_bytes)
    × (encode_error 3 (record {
      code = 16;
      reason = b'p' ∷ [];
      lang = [];
      unknown_names = some ((b'x' ∷ []) ∷ []);
    })
        ≡ ok principal_bytes)
unfolding encode_error wire_code encode_names uint32 string pair to_bytes big_endian
encoded = (refl, refl)

names_read :
    (process_status is_ascii 6 (cursor [] named_bytes)).0
    ≡ ok (
        some (record {
          code = 16;
          reason = b'p' ∷ [];
          lang = [];
          unknown_names = some ((b'x' ∷ []) ∷ (b'y' ∷ []) ∷ []);
        }))
unfolding process_status construct get_reason make_error get_names get_text cursor has_more
    get_bytes get_uint32 get_string check_end is_ascii from_bytes from_bytes_acc
names_read = refl

process_status-encode_error_example :
    (process_status is_ascii 4 (cursor (101 ∷ []) loop_bytes)).0
    ≡ ok (
        some (record {
          code = wire_code 4 21;
          reason = b'l' ∷ [];
          lang = b'e' ∷ b'n' ∷ [];
          unknown_names = none;
        }))
unfolding is_ascii
process_status-encode_error_example =
    process_status-encode_error is_ascii 4 21 (b'l' ∷ []) (b'e' ∷ b'n' ∷ []) loop_bytes (101 ∷ [])
      (omega arith) (omega arith) refl refl refl encoded.0

unknown_principal_refused_example :
    (process_status is_ascii 3 (cursor (101 ∷ []) principal_bytes)).0
    ≡ err Error.packet_decode_error
unfolding is_ascii
unknown_principal_refused_example =
    unknown_principal_refused is_ascii 3 (b'p' ∷ []) [] (b'x' ∷ []) [] principal_bytes (101 ∷ [])
      (omega arith) refl refl encoded.1

process_status_ends_example :
    (process_status is_ascii 6 (cursor [] named_bytes)).0 ≢ err Error.out_of_fuel
unfolding cursor
process_status_ends_example = process_status_ends is_ascii 6 (cursor [] named_bytes) (omega arith)
