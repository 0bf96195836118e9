-- ===== src/Packet.antt =====
-- The encoding and decoding of SSH packet fields: asyncssh/packet.py.
-- A byte string is a list of numbers. The decoder `SSHPacket` is the record `SshPacket`; a method
-- returns its result beside the new state, since what a failing method consumed stays consumed.
pub mod Decoder
pub mod RoundTrip
pub mod Mpint
pub mod Names
mod Runs
use asyncssh.Base.{
  ℕ, zero, suc, ◌+◌, ◌*◌, ◌/◌, ◌%◌, ◌^◌, List, [], ◌∷◌, ◌++◌, Bool, true, false, not, ◌&&◌, ltb,
  ◌==◌, if◌then◌else◌, length, take, drop, is_empty, Result, ok, err, ◌>>=◌, Error, value_error,
  index_error, packet_decode_error,
}
use asyncssh.Base.Bytes.{to_bytes, from_bytes}
use asyncssh.Base.Int.{ℤ, pos, negsuc, bit_length, to_bytes_signed, from_bytes_signed}

-- `bytes((value,))`
unfoldable pub byte : ℕ → Result (List ℕ)
byte value = if ltb value 256 then ok (value ∷ []) else err value_error

unfoldable pub boolean : Bool → Result (List ℕ)
unfolding byte
boolean value = byte (if value then 1 else 0)

unfoldable pub uint16 : ℕ → Result (List ℕ)
uint16 value = to_bytes 2 value

unfoldable pub uint32 : ℕ → Result (List ℕ)
uint32 value = to_bytes 4 value

unfoldable pub uint64 : ℕ → Result (List ℕ)
uint64 value = to_bytes 8 value

unfoldable pub string : List ℕ → Result (List ℕ)
string value = do size ← to_bytes 4 (length value); ok (size ++ value)

-- `value == -1 << (l - 1)`, for an `l` that is not 0
unfoldable pub is_lowest : ℤ → ℕ → Bool
is_lowest (pos n) l = false
is_lowest (negsuc n) zero = false
is_lowest (negsuc n) (suc l) = suc n == 2 ^ l

abbrev pub is_zero : ℤ → Bool
is_zero (pos n) = n == 0
is_zero (negsuc n) = false

-- The number of bytes that `MPInt` writes for `value`.
unfoldable pub mpint_size : ℤ → ℕ
unfolding is_lowest
mpint_size value =
    let l = bit_length value in
    let bump = l % 8 == 0 && not (is_zero value) && not (is_lowest value l) in
    (l + (if bump then 1 else 0) + 7) / 8

unfoldable pub mpint : ℤ → Result (List ℕ)
mpint value = do
  let l = mpint_size value
  size ← to_bytes 4 l
  digits ← to_bytes_signed l value
  ok (size ++ digits)

-- `b','.join(value)`
unfoldable pub join : List (List ℕ) → List ℕ
join [] = []
join (name ∷ []) = name
join (name ∷ next ∷ names) = name ++ b',' ∷ join (next ∷ names)

unfoldable pub name_list : List (List ℕ) → Result (List ℕ)
unfolding string join
name_list value = string (join value)

pub record SshPacket : Type 0 where
  pub packet : List ℕ
  pub idx : ℕ
  pub len : ℕ

unfoldable pub init : List ℕ → SshPacket
init packet = record { packet = packet; idx = 0; len = length packet }

abbrev pub Decoder : Type 0 → Type 0
Decoder A = SshPacket → Result A × SshPacket

-- A method that ends in `f` of what another method returned.
abbrev pub continue : {A B : Type 0} → Result A → (A → Decoder B) → Decoder B
continue (ok a) f p = f a p
continue (err e) f p = (err e, p)

abbrev pub and_then : {A B : Type 0} → Decoder A → (A → Decoder B) → Decoder B
and_then m f p = continue (m p).0 f (m p).1

abbrev pub fmap : {A B : Type 0} → (A → B) → Decoder A → Decoder B
fmap f m = and_then m (λ a p. (ok (f a), p))

-- `__bool__`
unfoldable pub has_more : SshPacket → Bool
has_more p = not (p.idx == p.len)

unfoldable pub check_end : Decoder (Unit {0})
unfolding has_more
check_end p = (if has_more p then err packet_decode_error else ok tt, p)

unfoldable pub get_consumed_payload : SshPacket → List ℕ
get_consumed_payload p = take p.idx p.packet

unfoldable pub get_remaining_payload : SshPacket → List ℕ
get_remaining_payload p = drop p.idx p.packet

unfoldable pub get_full_payload : SshPacket → List ℕ
get_full_payload p = p.packet

unfoldable pub get_bytes : ℕ → Decoder (List ℕ)
get_bytes size p =
    if ltb p.len (p.idx + size)
    then (err packet_decode_error, p)
    else (ok (take size (drop p.idx p.packet)), record p { idx = p.idx + size })

-- `data[0]`
abbrev pub first : List ℕ → Result ℕ
first [] = err index_error
first (b ∷ bs) = ok b

unfoldable pub get_byte : Decoder ℕ
unfolding get_bytes
get_byte = and_then (get_bytes 1) (λ value p. (first value, p))

unfoldable pub get_boolean : Decoder Bool
unfolding get_byte
get_boolean = fmap (λ b. not (b == 0)) get_byte

unfoldable pub get_uint16 : Decoder ℕ
unfolding get_bytes
get_uint16 = fmap from_bytes (get_bytes 2)

unfoldable pub get_uint32 : Decoder ℕ
unfolding get_bytes
get_uint32 = fmap from_bytes (get_bytes 4)

unfoldable pub get_uint64 : Decoder ℕ
unfolding get_bytes
get_uint64 = fmap from_bytes (get_bytes 8)

unfoldable pub get_string : Decoder (List ℕ)
unfolding get_uint32 get_bytes
get_string = and_then get_uint32 get_bytes

unfoldable pub get_mpint : Decoder ℤ
unfolding get_string
get_mpint = fmap from_bytes_signed get_string

-- `data.split(b',')`, from the bytes of the part that is being read
unfoldable pub split_acc : List ℕ → List ℕ → List (List ℕ)
split_acc part [] = part ∷ []
split_acc part (b ∷ bs) =
    let cut = part ∷ split_acc [] bs in
    let rest = split_acc (part ++ b ∷ []) bs in if b == b',' then cut else rest

unfoldable pub split : List ℕ → List (List ℕ)
unfolding split_acc
split value = split_acc [] value

unfoldable pub get_namelist : Decoder (List (List ℕ))
unfolding get_string split
get_namelist = fmap (λ namelist. if is_empty namelist then [] else split namelist) get_string
