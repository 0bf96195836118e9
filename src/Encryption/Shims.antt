-- ===== src/Encryption/Shims.antt =====
-- The classes BasicEncryption, ETMEncryption, GCMEncryption and ChachaEncryption, and the MACs that they call.
use asyncssh.Base.{
  ℕ, Bool, Option, none, some, List, [], ◌++◌, take, drop, bytes_eq, is_empty, if◌then◌else◌,
}
use asyncssh.Base.Bytes.{big_endian}

-- What the shims call: the digests of `hmac.new` and of `umac`, and the objects of BasicCipher, GCMCipher and
-- ChachaCipher, whose state may change with a call.
pub record Primitives : Type 1 where
  pub Hash : Type 0
  pub Umac : Type 0
  pub Basic : Type 0
  pub Gcm : Type 0
  pub Chacha : Type 0
  -- key and data
  pub digest : Hash → List ℕ → List ℕ → List ℕ
  -- key, packet and nonce
  pub umac_digest : Umac → List ℕ → List ℕ → List ℕ → List ℕ
  pub encrypt : Basic → List ℕ → List ℕ × Basic
  pub decrypt : Basic → List ℕ → List ℕ × Basic
  -- header and data; what is sent and the MAC
  pub gcm_seal : Gcm → List ℕ → List ℕ → (List ℕ × List ℕ) × Gcm
  -- header, data and MAC
  pub gcm_open : Gcm → List ℕ → List ℕ → List ℕ → Option (List ℕ) × Gcm
  -- header, data and nonce
  pub chacha_seal : Chacha → List ℕ → List ℕ → List ℕ → List ℕ × List ℕ
  pub chacha_header : Chacha → List ℕ → List ℕ → List ℕ
  -- header, data, nonce and MAC
  pub chacha_open : Chacha → List ℕ → List ℕ → List ℕ → List ℕ → Option (List ℕ)

module _ (p : Primitives) where
  -- `_HMAC.sign`; a sequence number is below 2 ^ 32, so `UInt32` and `UInt64` take it.
  unfoldable pub hmac_sign : p.Hash → List ℕ → ℕ → ℕ → List ℕ → List ℕ
  unfolding big_endian
  hmac_sign alg key hash_size seq packet =
      take hash_size (p.digest alg key (big_endian 4 seq ++ packet))

  -- `_UMAC.sign`
  unfoldable pub umac_sign : p.Umac → List ℕ → ℕ → List ℕ → List ℕ
  unfolding big_endian
  umac_sign alg key seq packet = p.umac_digest alg key packet (big_endian 8 seq)

  -- `_NullMAC`, and `_HMAC` and `_UMAC` with their keys; the number is `_hash_size`.
  pub data Mac : Type 0 where
    null : Mac
    hmac : p.Hash → List ℕ → ℕ → Mac
    umac : p.Umac → List ℕ → Mac

  unfoldable pub sign : Mac → ℕ → List ℕ → List ℕ
  unfolding hmac_sign umac_sign
  sign null seq packet = []
  sign (hmac alg key hash_size) seq packet = hmac_sign alg key hash_size seq packet
  sign (umac alg key) seq packet = umac_sign alg key seq packet

  unfoldable pub verify : Mac → ℕ → List ℕ → List ℕ → Bool
  unfolding sign
  verify null seq packet sig = is_empty sig
  verify (hmac alg key hash_size) seq packet sig =
      bytes_eq (sign (hmac alg key hash_size) seq packet) sig
  verify (umac alg key) seq packet sig = bytes_eq (sign (umac alg key) seq packet) sig

  -- The methods of BasicEncryption, each with the cipher after it.
  unfoldable pub basic_encrypt_packet :
      p.Basic → Mac → ℕ → List ℕ → List ℕ → (List ℕ × List ℕ) × p.Basic
  unfolding sign
  basic_encrypt_packet cipher mac seq header packet =
      let r = p.encrypt cipher (header ++ packet) in ((r.0, sign mac seq (header ++ packet)), r.1)

  unfoldable pub basic_decrypt_header : p.Basic → List ℕ → ℕ → (List ℕ × List ℕ) × p.Basic
  basic_decrypt_header cipher first_block header_len =
      let r = p.decrypt cipher first_block in ((r.0, take header_len r.0), r.1)

  unfoldable pub basic_decrypt_packet :
      p.Basic → Mac → ℕ → List ℕ → List ℕ → ℕ → List ℕ → Option (List ℕ) × p.Basic
  unfolding verify
  basic_decrypt_packet cipher mac seq first rest header_len sig =
      let r = p.decrypt cipher rest in
      (
        if verify mac seq (first ++ r.0) sig then some (drop header_len (first ++ r.0)) else none,
        r.1,
      )

  -- The methods of ETMEncryption.
  unfoldable pub etm_encrypt_packet :
      p.Basic → Mac → ℕ → List ℕ → List ℕ → (List ℕ × List ℕ) × p.Basic
  unfolding sign
  etm_encrypt_packet cipher mac seq header packet =
      let r = p.encrypt cipher packet in ((header ++ r.0, sign mac seq (header ++ r.0)), r.1)

  unfoldable pub etm_decrypt_header : List ℕ → ℕ → List ℕ × List ℕ
  etm_decrypt_header first_block header_len = (first_block, take header_len first_block)

  unfoldable pub etm_decrypt_packet :
      p.Basic → Mac → ℕ → List ℕ → List ℕ → ℕ → List ℕ → Option (List ℕ) × p.Basic
  unfolding verify
  etm_decrypt_packet cipher mac seq first rest header_len sig =
      if verify mac seq (first ++ rest) sig
      then (let r = p.decrypt cipher (drop header_len (first ++ rest)) in (some r.0, r.1))
      else (none, cipher)

  -- The methods of GCMEncryption.
  unfoldable pub gcm_encrypt_packet : p.Gcm → List ℕ → List ℕ → (List ℕ × List ℕ) × p.Gcm
  gcm_encrypt_packet cipher header packet = p.gcm_seal cipher header packet

  unfoldable pub gcm_decrypt_header : List ℕ → ℕ → List ℕ × List ℕ
  gcm_decrypt_header first_block header_len = (first_block, take header_len first_block)

  unfoldable pub gcm_decrypt_packet : p.Gcm → List ℕ → List ℕ → ℕ → List ℕ → Option (List ℕ) × p.Gcm
  gcm_decrypt_packet cipher first rest header_len sig =
      p.gcm_open cipher (take header_len first) (drop header_len first ++ rest) sig

  -- The methods of ChachaEncryption.
  unfoldable pub chacha_encrypt_packet : p.Chacha → ℕ → List ℕ → List ℕ → List ℕ × List ℕ
  chacha_encrypt_packet cipher seq header packet =
      p.chacha_seal cipher header packet (big_endian 8 seq)

  unfoldable pub chacha_decrypt_header : p.Chacha → ℕ → List ℕ → ℕ → List ℕ × List ℕ
  chacha_decrypt_header cipher seq first_block header_len =
      (first_block, p.chacha_header cipher (take header_len first_block) (big_endian 8 seq))

  unfoldable pub chacha_decrypt_packet :
      p.Chacha → ℕ → List ℕ → List ℕ → ℕ → List ℕ → Option (List ℕ)
  chacha_decrypt_packet cipher seq first rest header_len sig =
      p.chacha_open cipher (take header_len first) (drop header_len first ++ rest)
        (big_endian 8 seq) sig

  -- An object of one of the classes.
  pub data Encryption : Type 0 where
    basic : p.Basic → Mac → Encryption
    etm : p.Basic → Mac → Encryption
    gcm : p.Gcm → Encryption
    chacha : p.Chacha → Encryption

  -- The three methods, called on such an object.
  unfoldable pub encrypt_packet : Encryption → ℕ → List ℕ → List ℕ → (List ℕ × List ℕ) × Encryption
  unfolding basic_encrypt_packet etm_encrypt_packet gcm_encrypt_packet chacha_encrypt_packet
  encrypt_packet (basic cipher mac) seq header packet =
      let r = basic_encrypt_packet cipher mac seq header packet in (r.0, basic r.1 mac)
  encrypt_packet (etm cipher mac) seq header packet =
      let r = etm_encrypt_packet cipher mac seq header packet in (r.0, etm r.1 mac)
  encrypt_packet (gcm cipher) seq header packet =
      let r = gcm_encrypt_packet cipher header packet in (r.0, gcm r.1)
  encrypt_packet (chacha cipher) seq header packet =
      (chacha_encrypt_packet cipher seq header packet, chacha cipher)

  unfoldable pub decrypt_header : Encryption → ℕ → List ℕ → ℕ → (List ℕ × List ℕ) × Encryption
  unfolding basic_decrypt_header etm_decrypt_header gcm_decrypt_header chacha_decrypt_header
  decrypt_header (basic cipher mac) seq first_block header_len =
      let r = basic_decrypt_header cipher first_block header_len in (r.0, basic r.1 mac)
  decrypt_header (etm cipher mac) seq first_block header_len =
      (etm_decrypt_header first_block header_len, etm cipher mac)
  decrypt_header (gcm cipher) seq first_block header_len =
      (gcm_decrypt_header first_block header_len, gcm cipher)
  decrypt_header (chacha cipher) seq first_block header_len =
      (chacha_decrypt_header cipher seq first_block header_len, chacha cipher)

  unfoldable pub decrypt_packet :
      Encryption → ℕ → List ℕ → List ℕ → ℕ → List ℕ → Option (List ℕ) × Encryption
  unfolding basic_decrypt_packet etm_decrypt_packet gcm_decrypt_packet chacha_decrypt_packet
  decrypt_packet (basic cipher mac) seq first rest header_len sig =
      let r = basic_decrypt_packet cipher mac seq first rest header_len sig in (r.0, basic r.1 mac)
  decrypt_packet (etm cipher mac) seq first rest header_len sig =
      let r = etm_decrypt_packet cipher mac seq first rest header_len sig in (r.0, etm r.1 mac)
  decrypt_packet (gcm cipher) seq first rest header_len sig =
      let r = gcm_decrypt_packet cipher first rest header_len sig in (r.0, gcm r.1)
  decrypt_packet (chacha cipher) seq first rest header_len sig =
      (chacha_decrypt_packet cipher seq first rest header_len sig, chacha cipher)
