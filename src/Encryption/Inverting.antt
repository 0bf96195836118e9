-- ===== src/Encryption/Inverting.antt =====
-- BasicCipher and GCMCipher decrypt what they encrypt, from what the package documents of its ciphers.
use asyncssh.Base.{
  ◌%◌, ◌^◌, subst, ℕ, suc, ◌+◌, ◌-◌, ◌*◌, ◌≡◌, sym, ap, ◌∙◌, arith, true, some, List, ◌++◌, length,
  take, drop, length-append, length-take, length-drop, take-append, drop-append, take-append-drop,
}
use asyncssh.Base.Bytes.{big_endian, from_bytes, length-big_endian}
use asyncssh.Encryption.Ciphers.{
  Package, BasicCipher, GcmCipher, ChachaCipher, resume, basic_encrypt, basic_decrypt, update_iv,
  gcm_encrypt_and_sign, gcm_verify_and_decrypt,
}

-- What is relied on of the package.
pub record PackageLaws (p : Package) : Type 1 where
  -- An encryptor and a decryptor that have seen the same whole blocks, of a size.
  pub InStep : p.Context → p.Context → ℕ → Type 0
  -- The size of a cipher's blocks, and the contexts that are made of it.
  pub block : p.Cipher → ℕ
  pub starts : (c : p.Cipher) → InStep (p.encryptor c) (p.decryptor c) (block c)
  pub inverts :
      (tx rx : p.Context) (b k : ℕ) (plain : List ℕ)
      → InStep tx rx b
      → length plain ≡ k * b
      → let c = p.update tx plain in
        (length c.0 ≡ length plain)
        × ((p.update rx c.0).0 ≡ plain)
        × InStep c.1 (p.update rx c.0).1 b
  -- What comes out of whole blocks is as long as what goes in.
  pub whole_blocks :
      (tx rx : p.Context) (b k : ℕ) (sealed : List ℕ)
      → InStep tx rx b
      → length sealed ≡ k * b
      → length (p.update rx sealed).0 ≡ length sealed
  -- A context takes its input in any pieces.
  pub streams :
      (context : p.Context) (xs ys : List ℕ)
      → let first = p.update context xs in
        let rest = p.update first.1 ys in p.update context (xs ++ ys) ≡ (first.0 ++ rest.0, rest.1)
  pub aesgcm_size :
      (key iv plain header : List ℕ)
      → length iv ≡ 12
      → length (p.aesgcm_encrypt key iv plain header) ≡ length plain + 16
  pub aesgcm_inverts :
      (key iv plain header : List ℕ)
      → length iv ≡ 12
      → p.aesgcm_decrypt key iv (p.aesgcm_encrypt key iv plain header) header ≡ some plain
  pub chacha20_size :
      (key nonce plain : List ℕ)
      → length key ≡ 32
      → length nonce ≡ 16
      → length (p.chacha20_update key nonce plain) ≡ length plain
  pub chacha20_inverts :
      (key nonce plain : List ℕ)
      → length key ≡ 32
      → length nonce ≡ 16
      → p.chacha20_update key nonce (p.chacha20_update key nonce plain) ≡ plain
  pub tag_size : (key plain : List ℕ) → length key ≡ 32 → length (p.generate_tag key plain) ≡ 16
  pub tag_verifies :
      (key plain : List ℕ)
      → length key ≡ 32
      → p.verify_tag key plain (p.generate_tag key plain) ≡ true

length-update_iv : (c : GcmCipher) → length c.iv ≡ 12 → length (update_iv c).iv ≡ 12
unfolding update_iv
length-update_iv c h =
    let front : length (take 4 c.iv) ≡ 4 = omega (arith, length-take 4 c.iv, h) in
    let invocation = (from_bytes (drop 4 c.iv) + 1) % 2 ^ 64 in
    length-append (take 4 c.iv) (big_endian 8 invocation)
    ∙ omega (arith, front, length-big_endian 8 invocation)

-- Two ciphers with the same key, whose contexts are in step.
pub record BasicTwins (p : Package) (laws : PackageLaws p) (tx rx : BasicCipher p) (b : ℕ)
    : Type 0 where
  pub step :
      laws.InStep
        (resume p tx.initial_bytes (p.encryptor tx.cipher) tx.encryptor)
        (resume p rx.initial_bytes (p.decryptor rx.cipher) rx.decryptor)
        b

-- Two objects with the same key and the same nonce, of twelve bytes.
pub record GcmTwins (tx rx : GcmCipher) : Type 0 where
  pub same : tx ≡ rx
  pub nonce_size : length rx.iv ≡ 12

pub record ChachaTwins (tx rx : ChachaCipher) : Type 0 where
  pub same : tx ≡ rx
  pub key_size : length rx.key ≡ 32
  pub adkey_size : length rx.adkey ≡ 32

module _ (p : Package) (laws : PackageLaws p) where
  -- Whole blocks are decrypted at once or the first block by itself.
  pub basic_inverts :
      (tx rx : BasicCipher p) (b k : ℕ) (plain : List ℕ)
      → BasicTwins p laws tx rx b
      → length plain ≡ suc k * b
      → let c = basic_encrypt p tx plain in
        (length c.0 ≡ length plain)
        × ((basic_decrypt p rx c.0).0 ≡ plain)
        × BasicTwins p laws c.1 (basic_decrypt p rx c.0).1 b
  unfolding basic_encrypt basic_decrypt resume
  basic_inverts tx rx b k plain twins total =
      let (same, back, step) = laws.inverts _ _ b (suc k) plain twins.step total in
      (same, back, record { step = step })

  pub basic_inverts_split :
      (tx rx : BasicCipher p) (b k : ℕ) (plain : List ℕ)
      → BasicTwins p laws tx rx b
      → length plain ≡ suc k * b
      → let c = basic_encrypt p tx plain in
        let first = basic_decrypt p rx (take b c.0) in
        let rest = basic_decrypt p first.1 (drop b c.0) in
        (first.0 ≡ take b plain) × (rest.0 ≡ drop b plain) × BasicTwins p laws c.1 rest.1 b
  unfolding basic_encrypt basic_decrypt resume
  basic_inverts_split tx rx b k plain twins total =
      let enc = resume p tx.initial_bytes (p.encryptor tx.cipher) tx.encryptor in
      let dec = resume p rx.initial_bytes (p.decryptor rx.cipher) rx.decryptor in
      let (same, back, step) = laws.inverts enc dec b (suc k) plain twins.step total in
      let c = (p.update enc plain).0 in
      let first = p.update dec (take b c) in
      let rest = p.update first.1 (drop b c) in
      let one : length (take b c) ≡ 1 * b = omega (arith, length-take b c, same, total) in
      let size : length first.0 ≡ b =
        laws.whole_blocks enc dec b 1 (take b c) twins.step one ∙ omega (arith, one) in
      let parts : p.update dec c ≡ (first.0 ++ rest.0, rest.1) =
        sym (ap (p.update dec) (take-append-drop b c)) ∙ laws.streams dec (take b c) (drop b c) in
      let whole : first.0 ++ rest.0 ≡ plain = sym (ap (λ r. r.0) parts) ∙ back in
      (
        sym (take-append b first.0 rest.0 size) ∙ ap (take b) whole,
        sym (drop-append b first.0 rest.0 size) ∙ ap (drop b) whole,
        record { step = subst (λ r. laws.InStep (p.update enc plain).1 r.1 b) parts step },
      )

  pub gcm_inverts :
      (tx rx : GcmCipher) (header packet : List ℕ)
      → GcmTwins tx rx
      → length header ≡ 4
      → let s = gcm_encrypt_and_sign p tx header packet in
        let body = drop 4 s.0.0 in
        let o = gcm_verify_and_decrypt p rx header body s.0.1 in
        (s.0.0 ≡ header ++ body)
        × (length body ≡ length packet)
        × (length s.0.1 ≡ 16)
        × (o.0 ≡ some packet)
        × GcmTwins s.1 o.1
  unfolding gcm_encrypt_and_sign gcm_verify_and_decrypt
  gcm_inverts tx rx header packet twins h =
      let n : length tx.iv ≡ 12 = ap (λ c. length c.iv) twins.same ∙ twins.nonce_size in
      let sealed = p.aesgcm_encrypt tx.key tx.iv packet header in
      let size = laws.aesgcm_size tx.key tx.iv packet header n in
      let len = length sealed - 16 in
      let body : drop 4 (header ++ take len sealed) ≡ take len sealed =
        drop-append 4 header (take len sealed) h in
      let back : p.aesgcm_decrypt rx.key rx.iv sealed header ≡ some packet =
        ap (λ c. p.aesgcm_decrypt c.key c.iv sealed header) (sym twins.same)
        ∙ laws.aesgcm_inverts tx.key tx.iv packet header n in
      (
        ap (λ x. header ++ x) (sym body),
        ap length body ∙ omega (arith, length-take len sealed, size),
        omega (arith, length-drop len sealed, size),
        ap (λ x. p.aesgcm_decrypt rx.key rx.iv (x ++ drop len sealed) header) body
            ∙ ap (λ x. p.aesgcm_decrypt rx.key rx.iv x header) (take-append-drop len sealed)
            ∙ back,
        record {
          same = ap update_iv twins.same;
          nonce_size = length-update_iv rx twins.nonce_size;
        },
      )
