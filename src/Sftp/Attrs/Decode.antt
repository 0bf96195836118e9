-- ===== src/Sftp/Attrs/Decode.antt =====
-- Attributes that are decoded: the method decode of SFTPAttrs in asyncssh/sftp.py. Which bytes are UTF-8 is a parameter.
use asyncssh.Base.{
  ℕ, zero, suc, ◌-◌, ◌/◌, ◌%◌, Bool, true, false, not, ◌&&◌, ◌||◌, Option, none, some, List, [],
  ◌∷◌, ◌==◌, if◌then◌else◌, ok, err, Error,
}
use asyncssh.Packet.{Decoder, and_then, fmap, get_byte, get_uint32, get_uint64, get_string}
use asyncssh.Sftp.Attrs.{Version, Attrs}

-- `flags & flag`, for a power of 2
abbrev pub has : ℕ → ℕ → Bool
has flags flag = flags / flag % 2 == 1

-- Whether one of the lowest `n` bits of `flags` is not in `valid`.
unfoldable pub exceeds : ℕ → ℕ → ℕ → Bool
exceeds zero flags valid = false
exceeds (suc n) flags valid =
    let rest = exceeds n (flags / 2) (valid / 2) in has flags 1 && not (has valid 1) || rest

abbrev pub valid_attr_flags : Version → ℕ
valid_attr_flags Version.v3 = 2147483663
valid_attr_flags Version.v4 = 2147484157
valid_attr_flags Version.v5 = 2147484669
valid_attr_flags Version.v6 = 2147549181

-- `flags &= ~FILEXFER_ATTR_MODIFYTIME`, in version 3
unfoldable pub mend_flags : Version → ℕ → ℕ
mend_flags Version.v3 flags = if has flags 32 then flags - 32 else flags
mend_flags v flags = flags

-- `if flag: value = get()`
abbrev pub optional : {A : Type 0} → Bool → Decoder A → Decoder (Option A)
optional true get = fmap some get
optional false get = λ p. (ok none, p)

-- The type that `stat` tells of a mode.
unfoldable pub stat_mode_to_filetype : ℕ → ℕ
stat_mode_to_filetype mode =
    let kind = mode / 4096 % 16 in
    if kind == 8
    then 1
    else if kind == 4
    then 2
    else if kind == 10
    then 3
    else if kind == 12
    then 6
    else if kind == 2
    then 7
    else if kind == 6
    then 8
    else if kind == 1
    then 9
    else if kind == 0
    then 5
    else 4

-- A text, if its bytes are UTF-8.
unfoldable pub get_text : (List ℕ → Bool) → Error → Decoder (List ℕ)
unfolding get_string
get_text is_utf8 e = and_then get_string (λ text p. (if is_utf8 text then ok text else err e, p))

-- The uid and gid, and the names of owner and group.
abbrev pub Ids : Type 0
Ids = Option (ℕ × ℕ) × Option (List ℕ × List ℕ)

abbrev pub get_pair : {A B : Type 0} → Decoder A → Decoder B → Decoder (A × B)
get_pair first second = and_then first (λ x. and_then second (λ y p. (ok (x, y), p)))

unfoldable pub decode_type : Version → Decoder ℕ
unfolding get_byte
decode_type Version.v3 = λ p. (ok 5, p)
decode_type v = get_byte

unfoldable pub decode_owner : (List ℕ → Bool) → Version → ℕ → Decoder Ids
unfolding get_uint32 get_text
decode_owner is_utf8 Version.v3 flags =
    fmap (λ ids. (ids, none)) (optional (has flags 2) (get_pair get_uint32 get_uint32))
decode_owner is_utf8 v flags =
    fmap (λ names. (none, names))
      (optional (has flags 128) (
        get_pair (get_text is_utf8 Error.sftp_owner_invalid)
          (get_text is_utf8 Error.sftp_group_invalid)))

-- A time, and its nanoseconds.
abbrev pub Time : Type 0
Time = ℕ × Option ℕ

unfoldable pub decode_time : Bool → Decoder Time
unfolding get_uint64 get_uint32
decode_time fine = get_pair get_uint64 (optional fine get_uint32)

-- The four times, in the order of the packet.
abbrev pub Times : Type 0
Times = Option Time × (Option Time × (Option Time × Option Time))

abbrev pub whole_seconds : Option (ℕ × ℕ) → Times
whole_seconds none = (none, (none, (none, none)))
whole_seconds (some (atime, mtime)) = (some (atime, none), (none, (some (mtime, none), none)))

unfoldable pub decode_times : Version → ℕ → Decoder Times
unfolding decode_time get_uint32
decode_times Version.v3 flags =
    fmap whole_seconds (optional (has flags 8) (get_pair get_uint32 get_uint32))
decode_times v flags =
    let fine = has flags 256 in
    get_pair (optional (has flags 8) (decode_time fine)) (
      get_pair (optional (has flags 16) (decode_time fine)) (
        get_pair (optional (has flags 32) (decode_time fine))
          (optional (has flags 32768) (decode_time fine))))

-- The loop over the extensions.
unfoldable pub decode_pairs : ℕ → Decoder (List (List ℕ × List ℕ))
unfolding get_string
decode_pairs zero = λ p. (ok [], p)
decode_pairs (suc n) =
    and_then (get_pair get_string get_string) (λ pair. fmap (λ rest. pair ∷ rest) (decode_pairs n))

unfoldable pub decode_extended : Bool → Decoder (List (List ℕ × List ℕ))
unfolding decode_pairs get_uint32
decode_extended true = and_then get_uint32 decode_pairs
decode_extended false = λ p. (ok [], p)

abbrev pub left : {A B : Type 0} → Option (A × B) → Option A
left none = none
left (some (x, y)) = some x

abbrev pub right : {A B : Type 0} → Option (A × B) → Option B
right none = none
right (some (x, y)) = some y

-- `attrs.atime_ns`, which is set beside `attrs.atime` only
abbrev pub nanoseconds : Option Time → Option ℕ
nanoseconds none = none
nanoseconds (some (seconds, ns)) = ns

-- The permissions, and in version 3 the type, of a mode.
abbrev pub mode_type : Version → ℕ → Option ℕ → ℕ
mode_type Version.v3 type_ (some mode) = stat_mode_to_filetype mode
mode_type v type_ mode = type_

abbrev pub mode_permissions : Version → Option ℕ → Option ℕ
mode_permissions v none = none
mode_permissions Version.v3 (some mode) = some (mode % 65536)
mode_permissions v (some mode) = some (mode % 4096)

-- The fields that follow the times.
abbrev pub Rest : Type 0
Rest =
    Option (List ℕ)
    × (Option (ℕ × ℕ)
        × (Option ℕ × (Option (List ℕ) × (Option ℕ × (Option (List ℕ) × List (List ℕ × List ℕ))))))

unfoldable pub decode_rest : (List ℕ → Bool) → ℕ → Decoder Rest
unfolding get_string get_uint32 get_byte get_text decode_extended
decode_rest is_utf8 flags = get_pair (optional (has flags 64) get_string) (
    get_pair (optional (has flags 512) (get_pair get_uint32 get_uint32)) (
      get_pair (optional (has flags 2048) get_byte) (
        get_pair (optional (has flags 4096) (get_text is_utf8 Error.sftp_bad_message)) (
          get_pair (optional (has flags 8192) get_uint32) (
            get_pair (optional (has flags 16384) get_string)
              (decode_extended (has flags 2147483648)))))))

-- What is read one after the other.
abbrev pub Read : Type 0
Read = ℕ × (Option ℕ × (Option ℕ × (Ids × (Option ℕ × (Times × Rest)))))

unfoldable pub decode_fields : (List ℕ → Bool) → Version → ℕ → Decoder Read
unfolding decode_type decode_owner decode_times decode_rest get_uint64 get_uint32
decode_fields is_utf8 v flags = get_pair (decode_type v) (
    get_pair (optional (has flags 1) get_uint64) (
      get_pair (optional (has flags 1024) get_uint64) (
        get_pair (decode_owner is_utf8 v flags) (
          get_pair (optional (has flags 4) get_uint32)
            (get_pair (decode_times v flags) (decode_rest is_utf8 flags))))))

unfoldable pub attributes : Version → Read → Attrs
attributes v (type_, (size, (alloc_size, (ids, (mode, (times, rest)))))) = record {
  type_ = mode_type v type_ mode;
  size = size;
  alloc_size = alloc_size;
  uid = left ids.0;
  gid = right ids.0;
  owner = left ids.1;
  group = right ids.1;
  permissions = mode_permissions v mode;
  atime = left times.0;
  atime_ns = nanoseconds times.0;
  crtime = left times.1.0;
  crtime_ns = nanoseconds times.1.0;
  mtime = left times.1.1.0;
  mtime_ns = nanoseconds times.1.1.0;
  ctime = left times.1.1.1;
  ctime_ns = nanoseconds times.1.1.1;
  acl = rest.0;
  attrib_bits = left rest.1.0;
  attrib_valid = right rest.1.0;
  text_hint = rest.1.1.0;
  mime_type = rest.1.1.1.0;
  nlink = rest.1.1.1.1.0;
  untrans_name = rest.1.1.1.1.1.0;
  extended = rest.1.1.1.1.1.1;
}

unfoldable pub decode : (List ℕ → Bool) → Version → Decoder Attrs
unfolding mend_flags exceeds decode_fields attributes get_uint32
decode is_utf8 v = and_then get_uint32 (λ sent.
    let flags = mend_flags v sent in
    if exceeds 32 flags (valid_attr_flags v)
    then (λ p. (err Error.sftp_bad_message, p))
    else fmap (attributes v) (decode_fields is_utf8 v flags))
