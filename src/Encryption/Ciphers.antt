-- ===== src/Encryption/Ciphers.antt =====
-- The classes BasicCipher and GCMCipher of asyncssh/crypto/cipher.py and ChachaCipher of asyncssh/crypto/chacha.py,
-- over the ciphers of the package `cryptography`.
use asyncssh.Base.{
  ℕ, ◌+◌, ◌-◌, ◌/◌, ◌%◌, ◌^◌, ◌==◌, Bool, Option, none, some, List, ◌∷◌, ◌++◌, length, take, drop,
  replicate, if◌then◌else◌,
}
use asyncssh.Base.Bytes.{big_endian, from_bytes}
use asyncssh.Encryption.Shims.{Primitives}

-- What the classes call of the package; `Cipher` and `Context` are its `Cipher` and `CipherContext`. The digests are
-- those of `hmac.new` and of libnettle's UMAC.
pub record Package : Type 1 where
  pub Hash : Type 0
  pub Umac : Type 0
  pub digest : Hash → List ℕ → List ℕ → List ℕ
  pub umac_digest : Umac → List ℕ → List ℕ → List ℕ → List ℕ
  pub Cipher : Type 0
  pub Context : Type 0
  pub encryptor : Cipher → Context
  pub decryptor : Cipher → Context
  pub update : Context → List ℕ → List ℕ × Context
  -- `AESGCM(key).encrypt` and `decrypt`: key, nonce, data and associated data; none for InvalidTag
  pub aesgcm_encrypt : List ℕ → List ℕ → List ℕ → List ℕ → List ℕ
  pub aesgcm_decrypt : List ℕ → List ℕ → List ℕ → List ℕ → Option (List ℕ)
  -- `Cipher(ChaCha20(key, nonce), mode=None).encryptor().update(data)`
  pub chacha20_update : List ℕ → List ℕ → List ℕ → List ℕ
  -- `Poly1305`: key, data and, to verify, tag; false for InvalidSignature
  pub generate_tag : List ℕ → List ℕ → List ℕ
  pub verify_tag : List ℕ → List ℕ → List ℕ → Bool

module _ (p : Package) where
  -- `_cipher`, `_initial_bytes`, `_encryptor` and `_decryptor`
  pub record BasicCipher : Type 0 where
    pub cipher : p.Cipher
    pub initial_bytes : ℕ
    pub encryptor : Option p.Context
    pub decryptor : Option p.Context

  -- `BasicCipher.__init__`
  unfoldable pub basic_cipher : p.Cipher → ℕ → BasicCipher
  basic_cipher cipher initial_bytes = record {
    cipher = cipher;
    initial_bytes = initial_bytes;
    encryptor = none;
    decryptor = none;
  }

  -- A context whose first output is discarded.
  unfoldable pub skip : ℕ → p.Context → p.Context
  skip initial_bytes context =
      if initial_bytes == 0 then context else (p.update context (replicate initial_bytes 0)).1

  -- The context of a call, made in the first one.
  unfoldable pub resume : ℕ → p.Context → Option p.Context → p.Context
  unfolding skip
  resume initial_bytes first none = skip initial_bytes first
  resume initial_bytes first (some context) = context

  unfoldable pub basic_encrypt : BasicCipher → List ℕ → List ℕ × BasicCipher
  unfolding resume
  basic_encrypt c bytes =
      let r = p.update (resume c.initial_bytes (p.encryptor c.cipher) c.encryptor) bytes in
      (r.0, record c { encryptor = some r.1 })

  unfoldable pub basic_decrypt : BasicCipher → List ℕ → List ℕ × BasicCipher
  unfolding resume
  basic_decrypt c bytes =
      let r = p.update (resume c.initial_bytes (p.decryptor c.cipher) c.decryptor) bytes in
      (r.0, record c { decryptor = some r.1 })

-- `_key` and `_iv`
pub record GcmCipher : Type 0 where
  pub key : List ℕ
  pub iv : List ℕ

-- `_update_iv`
unfoldable pub update_iv : GcmCipher → GcmCipher
unfolding big_endian from_bytes
update_iv c =
    let invocation = (from_bytes (drop 4 c.iv) + 1) % 2 ^ 64 in
    record c { iv = take 4 c.iv ++ big_endian 8 invocation }

-- `_key` and `_adkey`
pub record ChachaCipher : Type 0 where
  pub key : List ℕ
  pub adkey : List ℕ

-- `ChachaCipher.__init__`
unfoldable pub chacha_cipher : List ℕ → ChachaCipher
chacha_cipher key =
    let keylen = length key / 2 in record { key = take keylen key; adkey = drop keylen key }

-- `_CTR_1` or `_CTR_0`, little-endian
unfoldable pub counter : ℕ → List ℕ
counter ctr = (if ctr == 0 then 0 else 1) ∷ replicate 7 0

module _ (p : Package) where
  -- `GCMCipher.encrypt_and_sign` and `verify_and_decrypt`
  unfoldable pub gcm_encrypt_and_sign : GcmCipher → List ℕ → List ℕ → (List ℕ × List ℕ) × GcmCipher
  unfolding update_iv
  gcm_encrypt_and_sign c header bytes =
      let sealed = p.aesgcm_encrypt c.key c.iv bytes header in
      let len = length sealed - 16 in ((header ++ take len sealed, drop len sealed), update_iv c)

  unfoldable pub gcm_verify_and_decrypt :
      GcmCipher → List ℕ → List ℕ → List ℕ → Option (List ℕ) × GcmCipher
  unfolding update_iv
  gcm_verify_and_decrypt c header bytes mac =
      (p.aesgcm_decrypt c.key c.iv (bytes ++ mac) header, update_iv c)

  -- Key, data, nonce and counter.
  unfoldable pub chacha20 : List ℕ → List ℕ → List ℕ → ℕ → List ℕ
  unfolding counter
  chacha20 key bytes nonce ctr = p.chacha20_update key (counter ctr ++ nonce) bytes

  unfoldable pub poly1305_key : List ℕ → List ℕ → List ℕ
  unfolding chacha20
  poly1305_key key nonce = chacha20 key (replicate 32 0) nonce 0

  unfoldable pub poly1305 : List ℕ → List ℕ → List ℕ → List ℕ
  unfolding poly1305_key
  poly1305 key bytes nonce = p.generate_tag (poly1305_key key nonce) bytes

  unfoldable pub poly1305_verify : List ℕ → List ℕ → List ℕ → List ℕ → Bool
  unfolding poly1305_key
  poly1305_verify key bytes nonce tag = p.verify_tag (poly1305_key key nonce) bytes tag

  -- The methods of ChachaCipher.
  unfoldable pub chacha_encrypt_and_sign : ChachaCipher → List ℕ → List ℕ → List ℕ → List ℕ × List ℕ
  unfolding chacha20 poly1305
  chacha_encrypt_and_sign c header bytes nonce =
      let header' = chacha20 c.adkey header nonce 0 in
      let body = chacha20 c.key bytes nonce 1 in
      (header' ++ body, poly1305 c.key (header' ++ body) nonce)

  unfoldable pub chacha_decrypt_header : ChachaCipher → List ℕ → List ℕ → List ℕ
  unfolding chacha20
  chacha_decrypt_header c header nonce = chacha20 c.adkey header nonce 0

  unfoldable pub chacha_verify_and_decrypt :
      ChachaCipher → List ℕ → List ℕ → List ℕ → List ℕ → Option (List ℕ)
  unfolding chacha20 poly1305_verify
  chacha_verify_and_decrypt c header bytes nonce tag =
      if poly1305_verify c.key (header ++ bytes) nonce tag
      then some (chacha20 c.key bytes nonce 1)
      else none

  -- The classes, as the encryption objects call them.
  abbrev pub ciphers : Primitives
  ciphers = record {
    Hash = p.Hash;
    Umac = p.Umac;
    Basic = BasicCipher p;
    Gcm = GcmCipher;
    Chacha = ChachaCipher;
    digest = p.digest;
    umac_digest = p.umac_digest;
    encrypt = basic_encrypt p;
    decrypt = basic_decrypt p;
    gcm_seal = gcm_encrypt_and_sign;
    gcm_open = gcm_verify_and_decrypt;
    chacha_seal = chacha_encrypt_and_sign;
    chacha_header = chacha_decrypt_header;
    chacha_open = chacha_verify_and_decrypt;
  }
