-- ===== src/Sftp/Attrs/Runs.antt =====
-- Attributes that are sent and read.
use asyncssh.Base.{ℕ, none, some, List, [], ◌∷◌, ◌++◌, ◌≡◌, refl, arith, ok, err, Error}
use asyncssh.Base.Bytes.{to_bytes, big_endian}
use asyncssh.Packet.{byte, uint32, uint64, string}
use asyncssh.Packet.RoundTrip.{cursor}
use asyncssh.Connection.Receive.{is_ascii}
use asyncssh.Sftp.Attrs.{
  Version, Attrs, join, pair, digits, decimal, encode_type, owner_names, encode_owner, subsecond,
  encode_time, encode_times, encode_pairs, encode_extended, draft, encode,
}
use asyncssh.Sftp.Attrs.Decode.{decode}
use asyncssh.Sftp.Attrs.Slots.{carried}
use asyncssh.Sftp.Attrs.RoundTrip.{decode-encode, alloc_size_refused}

-- A socket with an owner that has a number only, times of which one has nanoseconds, and an extension.
abbrev socket : Attrs
socket = record {
  type_ = 6;
  size = some 258;
  alloc_size = none;
  uid = some 10;
  gid = some 7;
  owner = none;
  group = none;
  permissions = some 420;
  atime = some 5;
  atime_ns = none;
  crtime = none;
  crtime_ns = none;
  mtime = some 6;
  mtime_ns = some 9;
  ctime = none;
  ctime_ns = none;
  acl = none;
  attrib_bits = some 1;
  attrib_valid = some 3;
  text_hint = some 2;
  mime_type = some (b'a' ∷ b'/' ∷ b'b' ∷ []);
  nlink = some 1;
  untrans_name = none;
  extended = (b'x' ∷ [], 4 ∷ []) ∷ [];
}

-- The same with an allocation size.
abbrev allocated : Attrs
allocated = record socket { alloc_size = some 512 }

abbrev v4_bytes : List ℕ
v4_bytes =
    128 ∷ 0 ∷ 1 ∷ 173 ∷ 4 ∷ 0 ∷ 0 ∷ 0 ∷ 0 ∷ 0 ∷ 0 ∷ 1 ∷ 2 ∷ 0 ∷ 0 ∷ 0 ∷ 2 ∷ 49 ∷ 48 ∷ 0 ∷ 0 ∷ 0 ∷ 1
    ∷ 55 ∷ 0 ∷ 0 ∷ 1 ∷ 164 ∷ 0 ∷ 0 ∷ 0 ∷ 0 ∷ 0 ∷ 0 ∷ 0 ∷ 5 ∷ 0 ∷ 0 ∷ 0 ∷ 0 ∷ 0 ∷ 0 ∷ 0 ∷ 0 ∷ 0 ∷ 0
    ∷ 0 ∷ 6 ∷ 0 ∷ 0 ∷ 0 ∷ 9 ∷ 0 ∷ 0 ∷ 0 ∷ 1 ∷ 0 ∷ 0 ∷ 0 ∷ 1 ∷ 120 ∷ 0 ∷ 0 ∷ 0 ∷ 1 ∷ 4 ∷ []

abbrev v5_bytes : List ℕ
v5_bytes =
    128 ∷ 0 ∷ 7 ∷ 173 ∷ 6 ∷ 0 ∷ 0 ∷ 0 ∷ 0 ∷ 0 ∷ 0 ∷ 1 ∷ 2 ∷ 0 ∷ 0 ∷ 0 ∷ 0 ∷ 0 ∷ 0 ∷ 2 ∷ 0 ∷ 0 ∷ 0
    ∷ 0 ∷ 2 ∷ 49 ∷ 48 ∷ 0 ∷ 0 ∷ 0 ∷ 1 ∷ 55 ∷ 0 ∷ 0 ∷ 1 ∷ 164 ∷ 0 ∷ 0 ∷ 0 ∷ 0 ∷ 0 ∷ 0 ∷ 0 ∷ 5 ∷ 0 ∷ 0
    ∷ 0 ∷ 0 ∷ 0 ∷ 0 ∷ 0 ∷ 0 ∷ 0 ∷ 0 ∷ 0 ∷ 6 ∷ 0 ∷ 0 ∷ 0 ∷ 9 ∷ 0 ∷ 0 ∷ 0 ∷ 1 ∷ 0 ∷ 0 ∷ 0 ∷ 3 ∷ 0 ∷ 0
    ∷ 0 ∷ 1 ∷ 0 ∷ 0 ∷ 0 ∷ 1 ∷ 120 ∷ 0 ∷ 0 ∷ 0 ∷ 1 ∷ 4 ∷ []

v4_encoded : encode Version.v4 socket ≡ ok v4_bytes
unfolding encode draft encode_type encode_owner encode_times encode_extended encode_pairs
    encode_time subsecond owner_names decimal digits join pair byte uint32 uint64 string to_bytes
    big_endian
v4_encoded = refl

v5_encoded : encode Version.v5 allocated ≡ ok v5_bytes
unfolding encode draft encode_type encode_owner encode_times encode_extended encode_pairs
    encode_time subsecond owner_names decimal digits join pair byte uint32 uint64 string to_bytes
    big_endian
v5_encoded = refl

-- Before version 5 a socket is sent as a special file, and ids are sent as names.
run_of_socket :
    ((carried Version.v4 socket).type_ ≡ 4)
    × ((carried Version.v4 socket).owner ≡ some (b'1' ∷ b'0' ∷ []))
    × ((carried Version.v4 socket).atime_ns ≡ some 0)
unfolding carried owner_names decimal digits subsecond
run_of_socket = (refl, refl, refl)

decode-encode_example :
    decode is_ascii Version.v4 (cursor (1 ∷ []) (v4_bytes ++ 2 ∷ []))
    ≡ (ok (carried Version.v4 socket), cursor (1 ∷ v4_bytes) (2 ∷ []))
unfolding owner_names decimal digits is_ascii
decode-encode_example =
    decode-encode is_ascii Version.v4 socket v4_bytes (1 ∷ []) (2 ∷ []) refl (refl, refl) tt
      v4_encoded

alloc_size_refused_example :
    (decode is_ascii Version.v5 (cursor [] (v5_bytes ++ []))).0 ≡ err Error.sftp_bad_message
unfolding owner_names decimal digits is_ascii
alloc_size_refused_example =
    alloc_size_refused is_ascii Version.v5 allocated 512 v5_bytes [] [] (omega arith) refl
      (refl, refl) v5_encoded
