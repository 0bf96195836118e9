-- ===== src/Base/Failure.antt =====
-- Python's exceptions as values. `out_of_fuel` is no exception of the program: it is the answer of a
-- model's loop whose bound was too small, and theorems rule it out.
use mathlib.Core.Path.{◌≡◌, refl}

pub data Error : Type 0 where
  overflow_error value_error index_error unicode_error assertion_error : Error
  packet_decode_error protocol_error : Error
  asn1_encode_error asn1_decode_error : Error
  broken_pipe_error os_error : Error
  disconnect_error mac_error : Error
  sftp_bad_message sftp_owner_invalid sftp_group_invalid : Error
  out_of_fuel : Error

-- What a call that may raise comes to.
pub data Result {ℓ} (T : Type ℓ) : Type ℓ where
  ok : T → Result T
  err : Error → Result T

module _ {ℓ κ} {T : Type ℓ} {U : Type κ} where
  -- The statements `next` after a call that returned.
  infixl 5 ◌>>=◌
  abbrev pub ◌>>=◌ : Result T → (T → Result U) → Result U
  ok value >>= next = next value
  err error >>= next = err error

  -- If a sequence returned, so did its first call.
  pub >>=-eq-ok :
      (call : Result T) (next : T → Result U) {u : U}
      → (call >>= next) ≡ ok u
      → (value : T) × (call ≡ ok value) × (next value ≡ ok u)
  >>=-eq-ok (ok value) next e = (value, refl, e)
  >>=-eq-ok (err error) next e = cc
