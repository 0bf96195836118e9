-- ===== src/Connection/Framing.antt =====
-- A packet that one end seals is opened by the other.
use asyncssh.Base.{
  ℕ, zero, suc, ◌+◌, ◌*◌, ◌-◌, ◌≤◌, ◌<◌, ◌≡◌, refl, sym, ap, ◌∙◌, subst, arith, Bool, true, false,
  Option, none, some, List, [], ◌∷◌, ◌++◌, length, take, drop, if◌then◌else◌, not, ◌||◌, Result, ok,
  err, Error, >>=-eq-ok, ◌⊎◌, inl, inr, length-append, take-append, drop-append, is_empty,
}
use asyncssh.Base.Bytes.{from_bytes}
use asyncssh.Base.Int.{negsuc}
use asyncssh.Base.Slices.{diff, slice}
use asyncssh.Packet.{byte, uint32}
use asyncssh.Packet.RoundTrip.{to_bytes-eq-ok, byte-eq-ok}
use asyncssh.Connection.Types.{World, using}
use asyncssh.Connection.Send.{padding, deflate, frame, seal}
use asyncssh.Connection.Receive.{open_header, strip_padding, decrypt, inflate}
use asyncssh.Connection.Padding.{padding_bounds, padding_aligned}
use asyncssh.Base.Slices.{take-take, drop-take-append_drop}

-- A call that returned went through its first part.
pub using-eq-ok :
    {S A B : Type 0} (r : Result A) (f : A → S → Result B × S) (s : S) {b : B} {t : S}
    → using r f s ≡ (ok b, t)
    → (a : A) × (r ≡ ok a) × (f a s ≡ (ok b, t))
using-eq-ok (ok a) f s e = (a, refl, e)
using-eq-ok (err x) f s e = cc

-- What is relied on of the encryption and compression objects: those of two ends that were made for each
-- other undo each other's calls, packet by packet, and stay so.
pub record Laws (w : World) : Type 1 where
  -- the block size, the size of the MAC and `_send_enchdrlen`
  pub Paired : w.Cipher → w.Cipher → ℕ → ℕ → ℕ → Type 0
  pub opens :
      (tx rx : w.Cipher) (b m e seq : ℕ) (hdr packet : List ℕ)
      → Paired tx rx b m e
      → length hdr ≡ 4
      → (k : ℕ) (aligned : e + length packet ≡ suc k * b + 1)
      → let sealed = w.encrypt_packet tx seq hdr packet in
        let header = w.decrypt_header rx seq (take b sealed.0.0) 4 in
        let opened = w.decrypt_packet header.1 seq header.0.0 (drop b sealed.0.0) 4 sealed.0.1 in
        (length sealed.0.0 ≡ 4 + length packet)
        × (length sealed.0.1 ≡ m)
        × (header.0.1 ≡ hdr)
        × (opened.0 ≡ some packet)
        × Paired sealed.1 opened.1 b m e
  pub InStep : w.Stream → w.Stream → Type 0
  pub inflates :
      (z u : w.Stream) (plain packed : List ℕ)
      → InStep z u
      → (w.compress z plain).0 ≡ some packed
      → ((w.decompress u packed).0 ≡ some plain)
        × InStep (w.compress z plain).1 (w.decompress u packed).1
  pub random_size : (n size : ℕ) → length (w.urandom n size) ≡ size

diff_neg : (p : ℕ) → 0 < p → diff 0 p ≡ negsuc (p - 1)
unfolding diff
diff_neg p h = ground arith

strip_padding_lem :
    (p : ℕ) (payload random : List ℕ)
    → 0 < p
    → length random ≡ p
    → strip_padding (p ∷ (payload ++ random)) ≡ ok payload
unfolding strip_padding slice
strip_padding_lem p payload random h l =
    let q : suc (length (payload ++ random)) - suc (p - 1) ≡ suc (length payload) =
      omega (arith, length-append payload random, l, h) in
    rw (diff_neg p h, q) (ap ok (take-append (length payload) payload random refl))

pair_parts :
    (a b x y : List ℕ)
    → ◌≡◌ {A = Result (List ℕ × List ℕ)} (ok (a, x)) (ok (b, y))
    → (a ≡ b) × (x ≡ y)
pair_parts a b x y e = (cc, cc)

enough_blocks :
    (e b size p k total : ℕ)
    → 1 ≤ e
    → total ≡ size + p
    → e + size + p ≡ k * b
    → e + suc total ≡ suc (k - 1) * b + 1
enough_blocks e b size p zero total h t a = absurd (omega (arith, a, h))
enough_blocks e b size p (suc k) total h t a =
    let q : suc (suc k - 1) * b ≡ suc k * b = ap (λ t. suc t * b) (omega arith) in
    omega (arith, a, t, q)

module _ (w : World) (laws : Laws w) where
  -- The ciphers of a sender and of a receiver: none yet, or a pair.
  pub data MatchedKeys (b m e : ℕ) : Option w.Cipher → Option w.Cipher → Type 0 where
    plain : m ≡ 0 → e ≡ 5 → MatchedKeys b m e none none
    sealed :
        {tx rx : w.Cipher} → e ≤ 5 → laws.Paired tx rx b m e → MatchedKeys b m e (some tx) (some rx)

  pub data MatchedStreams : Option w.Stream → Option w.Stream → Type 0 where
    direct : MatchedStreams none none
    packed : {z u : w.Stream} → laws.InStep z u → MatchedStreams (some z) (some u)

  -- What `deflate` does with a compressor, whose call gave `o` and `v`.
  deflated_cases :
      (on : Bool) (o : Option (List ℕ)) (v z : w.Stream) {orig payload : List ℕ}
      {z' : Option w.Stream}
      → (if on
          then elim o as (λ p. Result (List ℕ) × Option w.Stream) [
            | none ↦ (err Error.disconnect_error, some v)
            | some p ↦ (ok p, some v)
          ]
          else (ok orig, some z))
        ≡ (ok payload, z')
      → ((on ≡ true) × (o ≡ some payload) × (z' ≡ some v))
        ⊎ ((on ≡ false) × (orig ≡ payload) × (z' ≡ some z))
  deflated_cases true none v z e = cc
  deflated_cases true (some p) v z e = inl (refl, cc, cc)
  deflated_cases false o v z e = inr (refl, cc, cc)

  -- What was deflated is inflated again, and the streams stay in step.
  pub inflate-deflate :
      (auth after : Bool) (z u : Option w.Stream) {z' : Option w.Stream} (orig payload : List ℕ)
      → MatchedStreams z u
      → deflate w auth after z orig ≡ (ok payload, z')
      → ((inflate w auth after u payload).0 ≡ ok orig)
        × MatchedStreams z' (inflate w auth after u payload).1
  unfolding deflate inflate
  inflate-deflate auth after none (some u) orig payload m e = elim m [ ]
  inflate-deflate auth after (some z) none orig payload m e = elim m [ ]
  inflate-deflate auth after none none {z'} orig payload direct e =
      (sym (ap (λ x. x.0) e), subst (λ v. MatchedStreams v none) (ap (λ x. x.1) e) direct)
  inflate-deflate auth after (some z) (some u) {z'} orig payload (packed h) e =
      elim (deflated_cases (auth || not after) (w.compress z orig).0 (w.compress z orig).1 z e) [
        | inl (on, done, same) ↦
            (let (same_plain, step) = laws.inflates z u orig payload h done in
              (rw (on, same_plain) refl, rw (on, same_plain, same) (packed step)))
        | inr (off, done, same) ↦ (rw (off, done) refl, rw (off, same) (packed h))
      ]

  -- What is known of a frame.
  pub record Frames (e b : ℕ) (payload hdr packet : List ℕ) : Type 0 where
    pub header_size : length hdr ≡ 4
    pub header_value : from_bytes hdr ≡ length packet
    pub stripped : strip_padding packet ≡ ok payload
    pub blocks : ℕ
    pub aligned : e + length packet ≡ suc blocks * b + 1

  framed :
      (e b n : ℕ) (payload hdr : List ℕ)
      → 8 ≤ b
      → 1 ≤ e
      → (let p = padding e b (length payload) in
          uint32 (length (p ∷ (payload ++ w.urandom n p))) ≡ ok hdr
          → Frames e b payload hdr (p ∷ (payload ++ w.urandom n p)))
  unfolding uint32
  framed e b n payload hdr h k q =
      let p = padding e b (length payload) in
      let (size, value) = to_bytes-eq-ok 4 (length (p ∷ (payload ++ w.urandom n p))) hdr q in
      let (blocks, a) = padding_aligned e b (length payload) h in
      let four : 4 ≤ p = (padding_bounds e b (length payload) h).0 in
      let total : length (payload ++ w.urandom n p) ≡ length payload + p =
        omega (arith, length-append payload (w.urandom n p), laws.random_size n p) in
      record {
        header_size = size;
        header_value = value;
        stripped =
            strip_padding_lem p payload (w.urandom n p) (omega (arith, four))
              (laws.random_size n p);
        blocks = blocks - 1;
        aligned =
            enough_blocks e b (length payload) p blocks (length (payload ++ w.urandom n p)) k total
              a;
      }

  pub frame-eq-ok :
      (e b n : ℕ) (payload hdr packet : List ℕ)
      → 8 ≤ b
      → 1 ≤ e
      → frame w e b n payload ≡ ok (hdr, packet)
      → Frames e b payload hdr packet
  unfolding frame
  frame-eq-ok e b n payload hdr packet h k q =
      let padlen = padding e b (length payload) in
      let (pad, qp, q') = >>=-eq-ok (byte padlen) _ q in
      let (size, qs, done) =
        >>=-eq-ok (uint32 (length (pad ++ payload ++ w.urandom n padlen))) _ q' in
      let pe : pad ≡ padlen ∷ [] = byte-eq-ok padlen pad qp in
      let whole : pad ++ payload ++ w.urandom n padlen ≡ padlen ∷ (payload ++ w.urandom n padlen) =
        ap (λ (x : List ℕ). x ++ payload ++ w.urandom n padlen) pe in
      let (same_hdr, same) = pair_parts size hdr _ packet done in
      let q'' : uint32 (length (padlen ∷ (payload ++ w.urandom n padlen))) ≡ ok hdr =
        ap (λ (x : List ℕ). uint32 (length x)) (sym whole) ∙ qs ∙ ap ok same_hdr in
      subst (λ x. Frames e b payload hdr x) (sym whole ∙ same) (framed e b n payload hdr h k q'')

  -- A sealed packet as the receiver opens it.
  pub record Opens (b m e seq : ℕ) (y : Option w.Cipher) (hdr packet : List ℕ)
      (d : (List ℕ × List ℕ) × Option w.Cipher) : Type 0 where
    pub size : length d.0.0 ≡ 4 + length packet
    pub mac_size : length d.0.1 ≡ m
    pub header : (open_header w y seq (take b d.0.0)).0.1 ≡ hdr
    pub opened :
        let h = open_header w y seq (take b d.0.0) in
        (decrypt w h.1 seq h.0.0 (drop b d.0.0) d.0.1).0 ≡ ok packet
    pub matched :
        let h = open_header w y seq (take b d.0.0) in
        MatchedKeys b m e d.1 (decrypt w h.1 seq h.0.0 (drop b d.0.0) d.0.1).1

  pub seal-Opens :
      (b m e seq blocks : ℕ) (x y : Option w.Cipher) (hdr packet : List ℕ)
      → MatchedKeys b m e x y
      → 8 ≤ b
      → length hdr ≡ 4
      → is_empty packet ≡ false
      → e + length packet ≡ suc blocks * b + 1
      → Opens b m e seq y hdr packet (seal w x seq hdr packet)
  unfolding seal open_header decrypt
  seal-Opens b m e seq k none (some rx) hdr packet y h l ne a = elim y [ ]
  seal-Opens b m e seq k (some tx) none hdr packet y h l ne a = elim y [ ]
  seal-Opens b m e seq k none none hdr packet (plain z five) h l ne a = record {
    size = omega (arith, length-append hdr packet);
    mac_size = omega (arith, z);
    header = take-take 4 b (hdr ++ packet) (omega (arith, h)) ∙ take-append 4 hdr packet l;
    opened =
        ap ok (
          drop-take-append_drop 4 b (hdr ++ packet) (omega (arith, h))
          ∙ drop-append 4 hdr packet l);
    matched = plain z five;
  }
  seal-Opens b m e seq k (some tx) (some rx) hdr packet (sealed five pair) h l ne a =
      let (size, mac_size, header, opened, paired) =
        laws.opens tx rx b m e seq hdr packet pair l k a in
      record {
        size = size;
        mac_size = mac_size;
        header = header;
        opened = rw (opened, ne) refl;
        matched = sealed five paired;
      }
