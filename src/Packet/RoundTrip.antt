-- ===== src/Packet/RoundTrip.antt =====
-- Encoders of asyncssh/packet.py against the decoder's methods.
use mathlib.Core.List.{append_assoc}
use asyncssh.Base.{
  ℕ, ◌≡◌, refl, arith, Bool, true, false, List, [], ◌∷◌, ◌++◌, length, ok, >>=-eq-ok, length-append,
  take-append, drop-append,
}
use asyncssh.Base.Bytes.{to_bytes, from_bytes, from_bytes-big_endian, length-big_endian}
use asyncssh.Packet.{
  SshPacket, fmap, get_bytes, get_byte, get_boolean, get_uint16, get_uint32, get_uint64, get_string,
  byte, boolean, uint16, uint32, uint64, string,
}

-- The decoder of `front ++ rest` that has read `front`.
unfoldable pub cursor : List ℕ → List ℕ → SshPacket
cursor front rest = record {
  packet = front ++ rest;
  idx = length front;
  len = length (front ++ rest);
}

pub get_bytes-cursor :
    (front xs rest : List ℕ)
    → get_bytes (length xs) (cursor front (xs ++ rest)) ≡ (ok xs, cursor (front ++ xs) rest)
unfolding get_bytes cursor
get_bytes-cursor front xs rest =
    rw
      (
        drop-append (length front) front (xs ++ rest) refl,
        take-append (length xs) xs rest refl,
        append_assoc front xs rest,
        length-append front xs,
      )
      (ground (arith, length-append front (xs ++ rest), length-append xs rest))

-- What `to_bytes` returns.
pub to_bytes-eq-ok :
    (n v : ℕ) (enc : List ℕ) → to_bytes n v ≡ ok enc → (length enc ≡ n) × (from_bytes enc ≡ v)
unfolding to_bytes
to_bytes-eq-ok n v enc h = ground (arith, length-big_endian n v, from_bytes-big_endian n v)

number-cursor :
    (n v : ℕ) (enc front rest : List ℕ)
    → to_bytes n v ≡ ok enc
    → fmap from_bytes (get_bytes n) (cursor front (enc ++ rest))
      ≡ (ok v, cursor (front ++ enc) rest)
number-cursor n v enc front rest h =
    let (size, value) = to_bytes-eq-ok n v enc h in
    rw (← size, get_bytes-cursor front enc rest, value)

-- A number that was encoded in four bytes is read back.
pub get_uint32-uint32 :
    (v : ℕ) (enc front rest : List ℕ)
    → uint32 v ≡ ok enc
    → get_uint32 (cursor front (enc ++ rest)) ≡ (ok v, cursor (front ++ enc) rest)
unfolding get_uint32 uint32
get_uint32-uint32 v enc front rest h = number-cursor 4 v enc front rest h

pub byte-eq-ok : (v : ℕ) (enc : List ℕ) → byte v ≡ ok enc → enc ≡ v ∷ []
unfolding byte
byte-eq-ok v enc h = ground arith

pub get_byte-byte :
    (v : ℕ) (enc front rest : List ℕ)
    → byte v ≡ ok enc
    → get_byte (cursor front (enc ++ rest)) ≡ (ok v, cursor (front ++ enc) rest)
unfolding get_byte
get_byte-byte v enc front rest h = rw (byte-eq-ok v enc h, get_bytes-cursor front (v ∷ []) rest)

pub get_boolean-boolean :
    (v : Bool) (enc front rest : List ℕ)
    → boolean v ≡ ok enc
    → get_boolean (cursor front (enc ++ rest)) ≡ (ok v, cursor (front ++ enc) rest)
unfolding get_boolean boolean
get_boolean-boolean true enc front rest h = rw (get_byte-byte 1 enc front rest h)
get_boolean-boolean false enc front rest h = rw (get_byte-byte 0 enc front rest h)

pub get_uint16-uint16 :
    (v : ℕ) (enc front rest : List ℕ)
    → uint16 v ≡ ok enc
    → get_uint16 (cursor front (enc ++ rest)) ≡ (ok v, cursor (front ++ enc) rest)
unfolding get_uint16 uint16
get_uint16-uint16 v enc front rest h = number-cursor 2 v enc front rest h

pub get_uint64-uint64 :
    (v : ℕ) (enc front rest : List ℕ)
    → uint64 v ≡ ok enc
    → get_uint64 (cursor front (enc ++ rest)) ≡ (ok v, cursor (front ++ enc) rest)
unfolding get_uint64 uint64
get_uint64-uint64 v enc front rest h = number-cursor 8 v enc front rest h

-- A byte string behind the four bytes of its length.
pub get_string-sized :
    (size value front rest : List ℕ)
    → to_bytes 4 (length value) ≡ ok size
    → get_string (cursor front ((size ++ value) ++ rest))
      ≡ (ok value, cursor (front ++ size ++ value) rest)
unfolding get_string get_uint32
get_string-sized size value front rest h = rw (
  append_assoc size value rest,
  number-cursor 4 (length value) size front (value ++ rest) h,
  get_bytes-cursor (front ++ size) value rest,
)

-- A byte string is read back.
pub get_string-string :
    (value enc front rest : List ℕ)
    → string value ≡ ok enc
    → get_string (cursor front (enc ++ rest)) ≡ (ok value, cursor (front ++ enc) rest)
unfolding string
get_string-string value enc front rest h =
    let (size, sized, e) = >>=-eq-ok (to_bytes 4 (length value)) _ h in
    let e' : enc ≡ size ++ value = cc in
    rw (e', ← append_assoc front size value) (get_string-sized size value front rest sized)
