-- ===== src/Encryption/Sealing.antt =====
-- ChachaCipher decrypts what it encrypts, and encryption objects over the three cipher classes open what their
-- counterparts seal.
use asyncssh.Base.{
  refl, ◌/◌, length-take, length-drop, subst, ℕ, suc, ◌+◌, ◌*◌, ◌≡◌, sym, ap, ◌∙◌, arith, true,
  some, List, ◌++◌, length, take, drop, replicate, length-append, length-replicate, take-append,
  drop-append,
}
use asyncssh.Encryption.Shims.{Encryption, encrypt_packet}
use asyncssh.Encryption.Ciphers.{
  basic_cipher, chacha_cipher, skip, resume, Package, counter, ChachaCipher, chacha20, poly1305_key,
  poly1305, poly1305_verify, chacha_encrypt_and_sign, chacha_decrypt_header,
  chacha_verify_and_decrypt, ciphers,
}
use asyncssh.Encryption.Opening.{CipherLaws, Paired, Opened, opens}
use asyncssh.Encryption.Inverting.{
  PackageLaws, BasicTwins, GcmTwins, ChachaTwins, basic_inverts, basic_inverts_split, gcm_inverts,
}

module _ (p : Package) (laws : PackageLaws p) where
  chacha20_lem :
      (key bytes nonce : List ℕ) (ctr : ℕ)
      → length key ≡ 32
      → length nonce ≡ 8
      → (length (chacha20 p key bytes nonce ctr) ≡ length bytes)
        × (chacha20 p key (chacha20 p key bytes nonce ctr) nonce ctr ≡ bytes)
  unfolding chacha20 counter
  chacha20_lem key bytes nonce ctr k h =
      let start = counter ctr ++ nonce in
      let size : length start ≡ 16 =
        length-append (counter ctr) nonce ∙ omega (arith, h, length-replicate {A = ℕ} 7 0) in
      (laws.chacha20_size key start bytes k size, laws.chacha20_inverts key start bytes k size)

  poly1305_lem :
      (key bytes nonce : List ℕ)
      → length key ≡ 32
      → length nonce ≡ 8
      → (length (poly1305 p key bytes nonce) ≡ 16)
        × (poly1305_verify p key bytes nonce (poly1305 p key bytes nonce) ≡ true)
  unfolding poly1305 poly1305_verify poly1305_key
  poly1305_lem key bytes nonce k h =
      let once = poly1305_key p key nonce in
      let size : length once ≡ 32 =
        (chacha20_lem key (replicate 32 0) nonce 0 k h).0 ∙ length-replicate {A = ℕ} 32 0 in
      (laws.tag_size once bytes size, laws.tag_verifies once bytes size)

  pub chacha_inverts :
      (c : ChachaCipher) (header packet nonce : List ℕ)
      → length c.key ≡ 32
      → length c.adkey ≡ 32
      → length header ≡ 4
      → length nonce ≡ 8
      → let s = chacha_encrypt_and_sign p c header packet nonce in
        (length s.0 ≡ 4 + length packet)
        × (length s.1 ≡ 16)
        × (chacha_decrypt_header p c (take 4 s.0) nonce ≡ header)
        × (chacha_verify_and_decrypt p c (take 4 s.0) (drop 4 s.0) nonce s.1 ≡ some packet)
  unfolding chacha_encrypt_and_sign chacha_decrypt_header chacha_verify_and_decrypt
  chacha_inverts c header packet nonce k a h n =
      let front = chacha20 p c.adkey header nonce 0 in
      let body = chacha20 p c.key packet nonce 1 in
      let (front_size, front_back) = chacha20_lem c.adkey header nonce 0 a n in
      let (body_size, body_back) = chacha20_lem c.key packet nonce 1 k n in
      let (tag_size, verified) = poly1305_lem c.key (front ++ body) nonce k n in
      let taken : take 4 (front ++ body) ≡ front = take-append 4 front body (front_size ∙ h) in
      let dropped : drop 4 (front ++ body) ≡ body = drop-append 4 front body (front_size ∙ h) in
      (
        length-append front body ∙ omega (arith, front_size, body_size, h),
        tag_size,
        rw taken front_back,
        rw (taken, dropped, verified) (ap some body_back),
      )

  -- New cipher objects with the same key are in step, if no output is discarded.
  basic_cipher-BasicTwins :
      (c : p.Cipher) → BasicTwins p laws (basic_cipher p c 0) (basic_cipher p c 0) (laws.block c)
  unfolding basic_cipher resume skip
  basic_cipher-BasicTwins c = record { step = laws.starts c }

  chacha_cipher-ChachaTwins :
      (key : List ℕ) → length key ≡ 64 → ChachaTwins (chacha_cipher key) (chacha_cipher key)
  unfolding chacha_cipher
  chacha_cipher-ChachaTwins key h = record {
    same = refl;
    key_size = omega (arith, length-take (length key / 2) key, h);
    adkey_size = omega (arith, length-drop (length key / 2) key, h);
  }

  -- The repository's cipher classes are what the encryption objects rely on.
  unfoldable pub cipher_laws : CipherLaws (ciphers p)
  cipher_laws = record {
    BasicPair = BasicTwins p laws;
    decrypts = basic_inverts p laws;
    decrypts_split = basic_inverts_split p laws;
    GcmPair = GcmTwins;
    gcm_opens = gcm_inverts p laws;
    ChachaPair = ChachaTwins;
    chacha_opens = λ tx rx header packet nonce twins h n.
        let back = chacha_inverts rx header packet nonce twins.key_size twins.adkey_size h n in
        let moved : chacha_encrypt_and_sign p rx header packet nonce
            ≡ chacha_encrypt_and_sign p tx header packet nonce =
          ap (λ c. chacha_encrypt_and_sign p c header packet nonce) (sym twins.same) in
        subst
          (λ s.
            (length s.0 ≡ 4 + length packet)
            × (length s.1 ≡ 16)
            × (chacha_decrypt_header p rx (take 4 s.0) nonce ≡ header)
            × (chacha_verify_and_decrypt p rx (take 4 s.0) (drop 4 s.0) nonce s.1 ≡ some packet))
          moved back;
  }

  -- Of two encryption objects of one class, over cipher objects with the same key and in step, and a packet whose
  -- header has four bytes and that fills whole blocks, counted with the header or, if the header is sent apart,
  -- without: what the one seals the other opens, the header from the first block and then the packet, with its
  -- MAC verified, and the two objects are in step again. The package is taken to decrypt what it encrypts.
  pub decrypt-encrypt :
      {tx rx : Encryption (ciphers p)} {b m e : ℕ} (seq k : ℕ) (hdr packet : List ℕ)
      → Paired (ciphers p) cipher_laws tx rx b m e
      → length hdr ≡ 4
      → e + length packet ≡ suc k * b + 1
      → Opened
          (ciphers p)
          cipher_laws
          b
          m
          e
          seq
          rx
          hdr
          packet
          (encrypt_packet (ciphers p) tx seq hdr packet)
  decrypt-encrypt seq k hdr packet pair h a =
      opens (ciphers p) cipher_laws seq k hdr packet pair h a
