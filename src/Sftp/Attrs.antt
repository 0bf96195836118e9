-- ===== src/Sftp/Attrs.antt =====
-- The attributes of files: the class SFTPAttrs of asyncssh/sftp.py, and how they are encoded.
-- A text is given as its UTF-8 bytes, and an int is not negative. Flags are sums of powers of 2, and a bitwise or of
-- flags that share none is a sum.
pub mod Decode
mod Flags
pub mod Reading
pub mod Groups
mod Times
mod Slots
pub mod RoundTrip
mod Runs
use asyncssh.Base.{
  ℕ, zero, suc, ◌+◌, ◌-◌, ◌/◌, ◌%◌, ◌^◌, Bool, true, false, not, ◌&&◌, ◌||◌, Option, none, some,
  List, [], ◌∷◌, ◌++◌, length, is_empty, ltb, leb, ◌==◌, if◌then◌else◌, Result, ok, err, ◌>>=◌,
  Error,
}
use asyncssh.Packet.{
  SshPacket, Decoder, and_then, fmap, get_byte, get_uint32, get_uint64, get_string, byte, uint32,
  uint64, string,
}

-- The versions that are spoken.
pub data Version : Type 0 where
  v3 v4 v5 v6 : Version

abbrev pub number : Version → ℕ
number Version.v3 = 3
number Version.v4 = 4
number Version.v5 = 5
number Version.v6 = 6

pub record Attrs : Type 0 where
  pub type_ : ℕ
  pub size : Option ℕ
  pub alloc_size : Option ℕ
  pub uid : Option ℕ
  pub gid : Option ℕ
  pub owner : Option (List ℕ)
  pub group : Option (List ℕ)
  pub permissions : Option ℕ
  pub atime : Option ℕ
  pub atime_ns : Option ℕ
  pub crtime : Option ℕ
  pub crtime_ns : Option ℕ
  pub mtime : Option ℕ
  pub mtime_ns : Option ℕ
  pub ctime : Option ℕ
  pub ctime_ns : Option ℕ
  pub acl : Option (List ℕ)
  pub attrib_bits : Option ℕ
  pub attrib_valid : Option ℕ
  pub text_hint : Option ℕ
  pub mime_type : Option (List ℕ)
  pub nlink : Option ℕ
  pub untrans_name : Option (List ℕ)
  pub extended : List (List ℕ × List ℕ)

abbrev pub is_given : {A : Type 0} → Option A → Bool
is_given none = false
is_given (some x) = true

abbrev pub both : {A B : Type 0} → Option A → Option B → Option (A × B)
both (some x) (some y) = some (x, y)
both (some x) none = none
both none y = none

-- `x or 0`
abbrev pub or_zero : Option ℕ → ℕ
or_zero none = 0
or_zero (some n) = n

-- A field of which a version takes no notice is not there.
abbrev pub since : {A : Type 0} → ℕ → Version → Option A → Option A
since n v o = if leb n (number v) then o else none

-- Flags and bytes that are added.
abbrev pub Draft : Type 0
Draft = Result (ℕ × List ℕ)

-- `if value is not None: flags |= flag; attrs.append(encode(value))`
abbrev pub given : {A : Type 0} → ℕ → Option A → (A → Result (List ℕ)) → Draft
given flag none encode = ok (0, [])
given flag (some x) encode = encode x >>= λ bytes. ok (flag, bytes)

unfoldable pub join : List Draft → Draft
join [] = ok (0, [])
join (d ∷ ds) = d >>= λ head. join ds >>= λ rest. ok (head.0 + rest.0, head.1 ++ rest.1)

unfoldable pub pair : Result (List ℕ) → Result (List ℕ) → Result (List ℕ)
pair r s = r >>= λ x. s >>= λ y. ok (x ++ y)

-- `str(n)`, the digits on fuel
unfoldable pub digits : ℕ → ℕ → List ℕ
digits zero n = []
digits (suc fuel) n =
    let rest = digits fuel (n / 10) in
    if ltb n 10 then (48 + n) ∷ [] else rest ++ (48 + n % 10) ∷ []

unfoldable pub decimal : ℕ → List ℕ
unfolding digits
decimal n = digits (suc n) n

abbrev pub filetype : Version → ℕ → ℕ
filetype Version.v4 t = if leb 6 t then 4 else t
filetype v t = t

unfoldable pub encode_type : Version → Attrs → Draft
unfolding byte
encode_type Version.v3 a = ok (0, [])
encode_type v a = byte (filetype v a.type_) >>= λ bytes. ok (0, bytes)

-- What names the owner and the group from version 4 on.
unfoldable pub owner_names : Attrs → Option (List ℕ × List ℕ)
unfolding decimal
owner_names a = elim (both a.owner a.group) as (λ _. Option (List ℕ × List ℕ)) [
  | some names ↦ some names
  | none ↦ elim (both a.uid a.gid) as (λ _. Option (List ℕ × List ℕ)) [
    | some ids ↦ some (decimal ids.0, decimal ids.1)
    | none ↦ none
  ]
]

unfoldable pub encode_owner : Version → Attrs → Draft
unfolding owner_names uint32 string pair
encode_owner Version.v3 a =
    if not (is_given (both a.uid a.gid)) && is_given (both a.owner a.group)
    then err Error.value_error
    else given 2 (both a.uid a.gid) (λ ids. pair (uint32 ids.0) (uint32 ids.1))
encode_owner v a = given 128 (owner_names a) (λ names. pair (string names.0) (string names.1))

unfoldable pub subsecond : Attrs → Bool
subsecond a =
    is_given a.atime_ns || is_given a.crtime_ns || is_given a.mtime_ns || is_given a.ctime_ns

unfoldable pub encode_time : Bool → Option ℕ → ℕ → Result (List ℕ)
unfolding uint64 uint32 pair
encode_time fine ns seconds = pair (uint64 seconds) (if fine then uint32 (or_zero ns) else ok [])

unfoldable pub encode_times : Version → Attrs → Draft
unfolding subsecond encode_time join uint32 pair
encode_times Version.v3 a = given 8 (both a.atime a.mtime) (λ t. pair (uint32 t.0) (uint32 t.1))
encode_times v a =
    let fine = subsecond a in
    join (
      ok (if fine then 256 else 0, [])
      ∷ given 8 a.atime (encode_time fine a.atime_ns)
      ∷ given 16 a.crtime (encode_time fine a.crtime_ns)
      ∷ given 32 a.mtime (encode_time fine a.mtime_ns)
      ∷ given 32768 (since 6 v a.ctime) (encode_time fine a.ctime_ns)
      ∷ [])

unfoldable pub encode_pairs : List (List ℕ × List ℕ) → Result (List ℕ)
unfolding string pair
encode_pairs [] = ok []
encode_pairs ((name, data_) ∷ rest) = pair (pair (string name) (string data_)) (encode_pairs rest)

unfoldable pub encode_extended : List (List ℕ × List ℕ) → Draft
unfolding encode_pairs uint32 pair
encode_extended extended =
    if is_empty extended
    then ok (0, [])
    else pair (uint32 (length extended)) (encode_pairs extended) >>= λ bytes. ok (2147483648, bytes)

unfoldable pub draft : Version → Attrs → Draft
unfolding encode_type encode_owner encode_times encode_extended join uint64 uint32 string byte pair
draft v a = join (
    encode_type v a
    ∷ given 1 a.size uint64
    ∷ given 1024 a.alloc_size uint64
    ∷ encode_owner v a
    ∷ given 4 a.permissions uint32
    ∷ encode_times v a
    ∷ given 64 (since 4 v a.acl) string
    ∷ given 512 (since 5 v (both a.attrib_bits a.attrib_valid))
        (λ b. pair (uint32 b.0) (uint32 b.1))
    ∷ given 2048 (since 6 v a.text_hint) byte
    ∷ given 4096 (since 6 v a.mime_type) string
    ∷ given 8192 (since 6 v a.nlink) uint32
    ∷ given 16384 (since 6 v a.untrans_name) string
    ∷ encode_extended a.extended
    ∷ [])

unfoldable pub encode : Version → Attrs → Result (List ℕ)
unfolding draft uint32
encode v a = draft v a >>= λ d. pair (uint32 d.0) (ok d.1)
