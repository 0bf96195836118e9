-- ===== src/Connection/Readers.antt =====
-- What reads the fields of a packet ends.
use asyncssh.Base.{◌+◌, ℕ, zero, suc, refl, List, [], ◌∷◌, ltb, if_either, Result, ok, err, Error}
use asyncssh.Packet.{
  SshPacket, Decoder, continue, and_then, first, has_more, check_end, get_bytes, get_byte,
  get_boolean, get_uint32, get_string,
}
use asyncssh.Connection.Keys.{set_item}
use asyncssh.Connection.Handlers.{
  ended, disconnect_fields, debug_fields, service_field, get_extensions, ext_info_fields,
}
use asyncssh.Connection.Ends.{Ends, returned, raised, ends_bind}

-- A decoder whose bound is never exceeded.
abbrev pub Reader : {A : Type 0} → Decoder A → Type 0
Reader get = (p : SshPacket) → Ends (get p).0

pub read_then :
    {A B : Type 0} (get : Decoder A) (next : A → Decoder B)
    → Reader get
    → ((a : A) → Reader (next a))
    → Reader (and_then get next)
read_then {A} {B} get next h k p = by_result (get p).0 (h p)
  where
    by_result : (r : Result A) → Ends r → Ends (continue r next (get p).1).0
    by_result (ok a) e = k a (get p).1
    by_result (err x) e = ends_bind (err x) (λ a. (next a (get p).1).0) e (λ a. k a (get p).1)

pub read_value : {A : Type 0} (a : A) → Reader {A = A} (λ p. (ok a, p))
read_value a p = returned a

pub get_bytes-Reader : (n : ℕ) → Reader (get_bytes n)
unfolding get_bytes
get_bytes-Reader n p =
    if_either (λ (s : Result (List ℕ) × SshPacket). Ends s.0) (ltb p.len (p.idx + n))
      (λ _. raised Error.packet_decode_error refl) (λ _. returned _)

first-Ends : (bytes : List ℕ) → Ends (first bytes)
first-Ends [] = raised Error.index_error refl
first-Ends (b ∷ bs) = returned b

pub get_byte-Reader : Reader get_byte
unfolding get_byte
get_byte-Reader = read_then (get_bytes 1) _ (get_bytes-Reader 1) (λ value p. first-Ends value)

pub get_boolean-Reader : Reader get_boolean
unfolding get_boolean
get_boolean-Reader = read_then get_byte _ get_byte-Reader (λ b p. returned _)

pub get_uint32-Reader : Reader get_uint32
unfolding get_uint32
get_uint32-Reader = read_then (get_bytes 4) _ (get_bytes-Reader 4) (λ b p. returned _)

pub get_string-Reader : Reader get_string
unfolding get_string
get_string-Reader = read_then get_uint32 get_bytes get_uint32-Reader get_bytes-Reader

pub check_end-Reader : Reader check_end
unfolding check_end
check_end-Reader p =
    if_either Ends (has_more p) (λ _. raised Error.packet_decode_error refl) (λ _. returned tt)

pub ended-Reader : {A : Type 0} (a : A) → Reader (ended a)
ended-Reader a = read_then check_end _ check_end-Reader (λ u. read_value a)

pub disconnect_fields-Reader : Reader disconnect_fields
unfolding disconnect_fields
disconnect_fields-Reader = read_then get_uint32 _ get_uint32-Reader (λ code.
    read_then get_string _ get_string-Reader (λ reason.
      read_then get_string _ get_string-Reader (λ lang. ended-Reader (code, reason, lang))))

pub debug_fields-Reader : Reader debug_fields
unfolding debug_fields
debug_fields-Reader = read_then get_boolean _ get_boolean-Reader (λ always.
    read_then get_string _ get_string-Reader
      (λ msg. read_then get_string _ get_string-Reader (λ lang. ended-Reader (always, msg, lang))))

pub service_field-Reader : Reader service_field
unfolding service_field
service_field-Reader = read_then get_string _ get_string-Reader (λ service. ended-Reader service)

pub get_extensions-Reader :
    (n : ℕ) (found : List (List ℕ × List ℕ)) → Reader (get_extensions n found)
unfolding get_extensions
get_extensions-Reader zero found = read_value found
get_extensions-Reader (suc n) found = read_then get_string _ get_string-Reader (λ name.
    read_then get_string _ get_string-Reader
      (λ value. get_extensions-Reader n (set_item name value found)))

pub ext_info_fields-Reader : Reader ext_info_fields
unfolding ext_info_fields
ext_info_fields-Reader =
    read_then get_uint32 _ get_uint32-Reader (λ n.
      read_then (get_extensions n []) ended (get_extensions-Reader n []) (λ e. ended-Reader e))
