-- ===== src/Packet/Decoder.antt =====
-- The position of the decoder: class SSHPacket of asyncssh/packet.py.
use asyncssh.Base.{
  ℕ, ◌≤◌, ◌≡◌, refl, ap, ◌∙◌, arith, List, [], ◌∷◌, ◌++◌, length, Result, ok, err, take-append-drop,
}
use asyncssh.Packet.{
  SshPacket, init, Decoder, continue, fmap, check_end, get_bytes, get_byte, get_boolean, get_uint16,
  get_uint32, get_uint64, get_string, get_mpint, get_namelist, get_consumed_payload,
  get_remaining_payload,
}

-- The position lies within the packet, and `len` is its length.
pub record IsValid (p : SshPacket) : Type 0 where
  pub measured : p.len ≡ length p.packet
  pub within : p.idx ≤ p.len

-- From `p` to `q` the decoder keeps its packet and stays valid, and does not move backwards.
pub record Advances (p q : SshPacket) : Type 0 where
  pub valid : IsValid q
  pub same : q.packet ≡ p.packet
  pub forward : p.idx ≤ q.idx

pub init-IsValid : (packet : List ℕ) → IsValid (init packet)
unfolding init
init-IsValid packet = omega arith

Advances-refl : (p : SshPacket) → IsValid p → Advances p p
Advances-refl p v = record { valid = v; same = refl; forward = omega arith }

Advances-trans : {p q r : SshPacket} → Advances p q → Advances q r → Advances p r
Advances-trans h k = record {
  valid = k.valid;
  same = k.same ∙ h.same;
  forward = omega (arith, h.forward, k.forward);
}

get_bytes-Advances : (size : ℕ) (p : SshPacket) → IsValid p → Advances p (get_bytes size p).1
unfolding get_bytes
get_bytes-Advances size p v = ground arith

module _ {A B : Type 0} where
  continue-Advances :
      (r : Result A) (f : A → Decoder B) {p : SshPacket} (q : SshPacket)
      → Advances p q
      → ((a : A) (s : SshPacket) → IsValid s → Advances s (f a s).1)
      → Advances p (continue r f q).1
  continue-Advances (ok a) f q h k = Advances-trans h (k a q h.valid)
  continue-Advances (err e) f q h k = h

  fmap-Advances :
      (f : A → B) (m : Decoder A) {p : SshPacket} → Advances p (m p).1 → Advances p (fmap f m p).1
  fmap-Advances f m {p} h = continue-Advances (m p).0 _ (m p).1 h (λ a s v. Advances-refl s v)

-- The methods that decode a field.
pub data Method : Type 0 where
  byte boolean uint16 uint32 uint64 string mpint namelist check : Method
  bytes : ℕ → Method

-- The packet after a call of the method, whether it returned or raised.
unfoldable pub after : Method → SshPacket → SshPacket
after byte p = (get_byte p).1
after boolean p = (get_boolean p).1
after uint16 p = (get_uint16 p).1
after uint32 p = (get_uint32 p).1
after uint64 p = (get_uint64 p).1
after string p = (get_string p).1
after mpint p = (get_mpint p).1
after namelist p = (get_namelist p).1
after check p = (check_end p).1
after (bytes n) p = (get_bytes n p).1

unfoldable pub after_all : List Method → SshPacket → SshPacket
after_all [] p = p
after_all (m ∷ ms) p = after_all ms (after m p)

get_byte-Advances : (p : SshPacket) → IsValid p → Advances p (get_byte p).1
unfolding get_byte
get_byte-Advances p v =
    continue-Advances (get_bytes 1 p).0 _ _ (get_bytes-Advances 1 p v) (λ a s w. Advances-refl s w)

get_uint32-Advances : (p : SshPacket) → IsValid p → Advances p (get_uint32 p).1
unfolding get_uint32
get_uint32-Advances p v = fmap-Advances _ (get_bytes 4) (get_bytes-Advances 4 p v)

get_string-Advances : (p : SshPacket) → IsValid p → Advances p (get_string p).1
unfolding get_string
get_string-Advances p v =
    continue-Advances (get_uint32 p).0 get_bytes _ (get_uint32-Advances p v) get_bytes-Advances

after-Advances : (m : Method) (p : SshPacket) → IsValid p → Advances p (after m p)
unfolding after get_boolean get_uint16 get_uint64 get_mpint get_namelist check_end
after-Advances byte p v = get_byte-Advances p v
after-Advances boolean p v = fmap-Advances _ get_byte (get_byte-Advances p v)
after-Advances uint16 p v = fmap-Advances _ (get_bytes 2) (get_bytes-Advances 2 p v)
after-Advances uint32 p v = get_uint32-Advances p v
after-Advances uint64 p v = fmap-Advances _ (get_bytes 8) (get_bytes-Advances 8 p v)
after-Advances string p v = get_string-Advances p v
after-Advances mpint p v = fmap-Advances _ get_string (get_string-Advances p v)
after-Advances namelist p v = fmap-Advances _ get_string (get_string-Advances p v)
after-Advances check p v = Advances-refl p v
after-Advances (bytes n) p v = get_bytes-Advances n p v

after_all-Advances : (ms : List Method) (p : SshPacket) → IsValid p → Advances p (after_all ms p)
unfolding after_all
after_all-Advances [] p v = Advances-refl p v
after_all-Advances (m ∷ ms) p v =
    let h = after-Advances m p v in Advances-trans h (after_all-Advances ms (after m p) h.valid)

-- Whatever methods are called on the decoder of a byte string, and whether they return or raise, the
-- position stays within the string, and the consumed bytes followed by the remaining ones are the string.
pub payload_split :
    (packet : List ℕ) (ms : List Method)
    → ((after_all ms (init packet)).idx ≤ length packet)
      × (get_consumed_payload (after_all ms (init packet))
            ++ get_remaining_payload (after_all ms (init packet))
          ≡ packet)
unfolding get_consumed_payload get_remaining_payload init
payload_split packet ms =
    let h = after_all-Advances ms (init packet) (init-IsValid packet) in
    (
      omega (arith, h.valid.measured, h.valid.within, ap length h.same),
      take-append-drop _ _ ∙ h.same,
    )
