-- ===== src/Encryption/Opening.antt =====
-- What one encryption object seals, its counterpart opens.
use asyncssh.Base.{
  ℕ, suc, ◌+◌, ◌*◌, ◌≤◌, ◌≡◌, refl, ap, ◌∙◌, arith, true, some, List, [], ◌∷◌, ◌++◌, length, take,
  drop, bytes_eq, length-append, take-append, drop-append, take-append-drop, ==_iff,
}
use asyncssh.Base.Bytes.{big_endian, length-big_endian}
use asyncssh.Base.Slices.{take-take, drop-take-append_drop}
use asyncssh.Encryption.Shims.{
  Primitives, Mac, null, hmac, umac, sign, verify, Encryption, basic, etm, gcm, chacha,
  encrypt_packet, decrypt_header, decrypt_packet, gcm_encrypt_packet, gcm_decrypt_packet,
  chacha_encrypt_packet, chacha_decrypt_packet, chacha_decrypt_header,
}

-- What is relied on of two cipher objects that were made with the same key.
pub record CipherLaws (p : Primitives) : Type 1 where
  -- in step, for blocks of a size
  pub BasicPair : p.Basic → p.Basic → ℕ → Type 0
  -- Whole blocks are decrypted to what was encrypted, at once or the first block by itself.
  pub decrypts :
      (tx rx : p.Basic) (b k : ℕ) (plain : List ℕ)
      → BasicPair tx rx b
      → length plain ≡ suc k * b
      → let c = p.encrypt tx plain in
        (length c.0 ≡ length plain)
        × ((p.decrypt rx c.0).0 ≡ plain)
        × BasicPair c.1 (p.decrypt rx c.0).1 b
  pub decrypts_split :
      (tx rx : p.Basic) (b k : ℕ) (plain : List ℕ)
      → BasicPair tx rx b
      → length plain ≡ suc k * b
      → let c = p.encrypt tx plain in
        let first = p.decrypt rx (take b c.0) in
        let rest = p.decrypt first.1 (drop b c.0) in
        (first.0 ≡ take b plain) × (rest.0 ≡ drop b plain) × BasicPair c.1 rest.1 b
  pub GcmPair : p.Gcm → p.Gcm → Type 0
  pub gcm_opens :
      (tx rx : p.Gcm) (header packet : List ℕ)
      → GcmPair tx rx
      → length header ≡ 4
      → let s = p.gcm_seal tx header packet in
        let body = drop 4 s.0.0 in
        let o = p.gcm_open rx header body s.0.1 in
        (s.0.0 ≡ header ++ body)
        × (length body ≡ length packet)
        × (length s.0.1 ≡ 16)
        × (o.0 ≡ some packet)
        × GcmPair s.1 o.1
  pub ChachaPair : p.Chacha → p.Chacha → Type 0
  pub chacha_opens :
      (tx rx : p.Chacha) (header packet nonce : List ℕ)
      → ChachaPair tx rx
      → length header ≡ 4
      → length nonce ≡ 8
      → let s = p.chacha_seal tx header packet nonce in
        (length s.0 ≡ 4 + length packet)
        × (length s.1 ≡ 16)
        × (p.chacha_header rx (take 4 s.0) nonce ≡ header)
        × (p.chacha_open rx (take 4 s.0) (drop 4 s.0) nonce s.1 ≡ some packet)

bytes_eq_refl : (bytes : List ℕ) → bytes_eq bytes bytes ≡ true
bytes_eq_refl [] = refl
bytes_eq_refl (b ∷ bytes) = rw ((==_iff b b).1 refl, bytes_eq_refl bytes) refl

module _ (p : Primitives) (laws : CipherLaws p) where
  -- A MAC accepts its own signature.
  verify-sign :
      (mac : Mac p) (seq : ℕ) (packet : List ℕ)
      → verify p mac seq packet (sign p mac seq packet) ≡ true
  unfolding verify
  verify-sign null seq packet = refl
  verify-sign (hmac alg key size) seq packet = bytes_eq_refl (sign p (hmac alg key size) seq packet)
  verify-sign (umac alg key) seq packet = bytes_eq_refl (sign p (umac alg key) seq packet)

  -- Objects of one class over a pair of ciphers, with the same MAC, for the sizes that the connection uses: of a
  -- block, of a MAC, and `_send_enchdrlen`.
  pub data Paired : Encryption p → Encryption p → ℕ → ℕ → ℕ → Type 0 where
    basic_pair :
        {tx rx : p.Basic} {mac : Mac p} {b m e : ℕ}
        → laws.BasicPair tx rx b
        → 4 ≤ b
        → e ≡ 5
        → ((seq : ℕ) (packet : List ℕ) → length (sign p mac seq packet) ≡ m)
        → Paired (basic tx mac) (basic rx mac) b m e
    etm_pair :
        {tx rx : p.Basic} {mac : Mac p} {b m e : ℕ}
        → laws.BasicPair tx rx b
        → 4 ≤ b
        → e ≡ 1
        → ((seq : ℕ) (packet : List ℕ) → length (sign p mac seq packet) ≡ m)
        → Paired (etm tx mac) (etm rx mac) b m e
    gcm_pair :
        {tx rx : p.Gcm} {b m e : ℕ}
        → laws.GcmPair tx rx
        → 4 ≤ b
        → e ≡ 1
        → m ≡ 16
        → Paired (gcm tx) (gcm rx) b m e
    chacha_pair :
        {tx rx : p.Chacha} {b m e : ℕ}
        → laws.ChachaPair tx rx
        → 4 ≤ b
        → e ≡ 1
        → m ≡ 16
        → Paired (chacha tx) (chacha rx) b m e

  -- What the receiver gets from a sealed packet.
  pub record Opened (b m e seq : ℕ) (rx : Encryption p) (hdr packet : List ℕ)
      (s : (List ℕ × List ℕ) × Encryption p) : Type 0 where
    pub size : length s.0.0 ≡ 4 + length packet
    pub mac_size : length s.0.1 ≡ m
    pub header : (decrypt_header p rx seq (take b s.0.0) 4).0.1 ≡ hdr
    pub opened :
        let h = decrypt_header p rx seq (take b s.0.0) 4 in
        (decrypt_packet p h.1 seq h.0.0 (drop b s.0.0) 4 s.0.1).0 ≡ some packet
    pub paired :
        let h = decrypt_header p rx seq (take b s.0.0) 4 in
        Paired s.1 (decrypt_packet p h.1 seq h.0.0 (drop b s.0.0) 4 s.0.1).1 b m e

  basic-Opened :
      (tx rx : p.Basic) (mac : Mac p) (b m e seq k : ℕ) (hdr packet : List ℕ)
      → laws.BasicPair tx rx b
      → 4 ≤ b
      → e ≡ 5
      → ((seq : ℕ) (packet : List ℕ) → length (sign p mac seq packet) ≡ m)
      → length hdr ≡ 4
      → e + length packet ≡ suc k * b + 1
      → Opened b m e seq (basic rx mac) hdr packet (encrypt_packet p (basic tx mac) seq hdr packet)
  unfolding encrypt_packet decrypt_header decrypt_packet
  basic-Opened tx rx mac b m e seq k hdr packet q four five sized h a =
      let plain = hdr ++ packet in
      let total : length plain ≡ suc k * b = omega (arith, length-append hdr packet, h, a, five) in
      let (same, at_once, pair1) = laws.decrypts tx rx b k plain q total in
      let (first, rest, pair) = laws.decrypts_split tx rx b k plain q total in
      let c = (p.encrypt tx plain).0 in
      let d1 = p.decrypt rx (take b c) in
      let d2 = p.decrypt d1.1 (drop b c) in
      let whole : d1.0 ++ d2.0 ≡ plain =
        ap (λ x. x ++ d2.0) first ∙ ap (λ x. take b plain ++ x) rest ∙ take-append-drop b plain in
      record {
        size = omega (arith, same, length-append hdr packet, h);
        mac_size = sized seq plain;
        header = ap (take 4) first ∙ take-take 4 b plain four ∙ take-append 4 hdr packet h;
        opened = rw (whole, verify-sign mac seq plain) (ap some (drop-append 4 hdr packet h));
        paired = basic_pair pair four five sized;
      }

  etm-Opened :
      (tx rx : p.Basic) (mac : Mac p) (b m e seq k : ℕ) (hdr packet : List ℕ)
      → laws.BasicPair tx rx b
      → 4 ≤ b
      → e ≡ 1
      → ((seq : ℕ) (packet : List ℕ) → length (sign p mac seq packet) ≡ m)
      → length hdr ≡ 4
      → e + length packet ≡ suc k * b + 1
      → Opened b m e seq (etm rx mac) hdr packet (encrypt_packet p (etm tx mac) seq hdr packet)
  unfolding encrypt_packet decrypt_header decrypt_packet
  etm-Opened tx rx mac b m e seq k hdr packet q four one sized h a =
      let (same, at_once, pair) = laws.decrypts tx rx b k packet q (omega (arith, a, one)) in
      let c = (p.encrypt tx packet).0 in
      let sent = hdr ++ c in
      let whole : take b sent ++ drop b sent ≡ sent = take-append-drop b sent in
      let verified = verify-sign mac seq sent in
      let body : drop 4 sent ≡ c = drop-append 4 hdr c h in
      record {
        size = omega (arith, same, length-append hdr c, h);
        mac_size = sized seq sent;
        header = take-take 4 b sent four ∙ take-append 4 hdr c h;
        opened = rw (whole, verified, body) (ap some at_once);
        paired = rw (whole, verified, body) (etm_pair pair four one sized);
      }

  gcm-Opened :
      (tx rx : p.Gcm) (b m e seq : ℕ) (hdr packet : List ℕ)
      → laws.GcmPair tx rx
      → 4 ≤ b
      → e ≡ 1
      → m ≡ 16
      → length hdr ≡ 4
      → Opened b m e seq (gcm rx) hdr packet (encrypt_packet p (gcm tx) seq hdr packet)
  unfolding encrypt_packet decrypt_header decrypt_packet gcm_encrypt_packet gcm_decrypt_packet
  gcm-Opened tx rx b m e seq hdr packet q four one size h =
      let (whole, long, mac_size, opened, pair) = laws.gcm_opens tx rx hdr packet q h in
      let sent = (p.gcm_seal tx hdr packet).0.0 in
      let head : take 4 (take b sent) ≡ hdr =
        take-take 4 b sent four ∙ ap (take 4) whole ∙ take-append 4 hdr (drop 4 sent) h in
      let body : drop 4 (take b sent) ++ drop b sent ≡ drop 4 sent =
        drop-take-append_drop 4 b sent four in
      record {
        size = omega (arith, ap length whole, length-append hdr (drop 4 sent), long, h);
        mac_size = omega (arith, mac_size, size);
        header = head;
        opened = rw (gcm_decrypt_packet, head, body) opened;
        paired = rw (gcm_decrypt_packet, head, body) (gcm_pair pair four one size);
      }

  chacha-Opened :
      (tx rx : p.Chacha) (b m e seq : ℕ) (hdr packet : List ℕ)
      → laws.ChachaPair tx rx
      → 4 ≤ b
      → e ≡ 1
      → m ≡ 16
      → length hdr ≡ 4
      → Opened b m e seq (chacha rx) hdr packet (encrypt_packet p (chacha tx) seq hdr packet)
  unfolding encrypt_packet decrypt_header decrypt_packet chacha_decrypt_header chacha_encrypt_packet
      chacha_decrypt_packet
  chacha-Opened tx rx b m e seq hdr packet q four one size h =
      let (long, mac_size, header, opened) =
        laws.chacha_opens tx rx hdr packet (big_endian 8 seq) q h (length-big_endian 8 seq) in
      let sent = (p.chacha_seal tx hdr packet (big_endian 8 seq)).0 in
      let head : take 4 (take b sent) ≡ take 4 sent = take-take 4 b sent four in
      let body : drop 4 (take b sent) ++ drop b sent ≡ drop 4 sent =
        drop-take-append_drop 4 b sent four in
      record {
        size = long;
        mac_size = omega (arith, mac_size, size);
        header = rw (chacha_decrypt_header, head) header;
        opened = rw (chacha_decrypt_packet, head, body) opened;
        paired = chacha_pair q four one size;
      }

  -- Of a packet whose header has four bytes and that fills whole blocks, counted with the header or, if the
  -- header is sent apart, without, the counterpart reads the header from the first block, verifies the MAC and
  -- decrypts the packet, and the two objects are a pair again.
  pub opens :
      {tx rx : Encryption p} {b m e : ℕ} (seq k : ℕ) (hdr packet : List ℕ)
      → Paired tx rx b m e
      → length hdr ≡ 4
      → e + length packet ≡ suc k * b + 1
      → Opened b m e seq rx hdr packet (encrypt_packet p tx seq hdr packet)
  opens {b = b} {m = m} {e = e} seq k hdr packet (basic_pair {tx} {rx} {mac} q four five sized) h
        a =
      basic-Opened tx rx mac b m e seq k hdr packet q four five sized h a
  opens {b = b} {m = m} {e = e} seq k hdr packet (etm_pair {tx} {rx} {mac} q four one sized) h a =
      etm-Opened tx rx mac b m e seq k hdr packet q four one sized h a
  opens {b = b} {m = m} {e = e} seq k hdr packet (gcm_pair {tx} {rx} q four one size) h a =
      gcm-Opened tx rx b m e seq hdr packet q four one size h
  opens {b = b} {m = m} {e = e} seq k hdr packet (chacha_pair {tx} {rx} q four one size) h a =
      chacha-Opened tx rx b m e seq hdr packet q four one size h
