-- ===== src/Connection/RoundTrip.antt =====
-- What `send_packet` writes, the peer's `_recv_pkthdr` and `_recv_packet` read.
use mathlib.Core.List.{append_assoc}
use asyncssh.Base.{
  ℕ, suc, ◌+◌, ◌*◌, ◌%◌, ◌^◌, ◌≤◌, ◌≡◌, refl, ap, ◌∙◌, subst, arith, Bool, true, false, Option,
  some, List, [], ◌∷◌, ◌++◌, length, take, drop, ltb, ◌==◌, ◌&&◌, Bool-cases, inl, inr,
  if◌then◌else◌, not, Result, ok, err, Error, length-append, length-drop, is_empty,
}
use asyncssh.Base.Bytes.{from_bytes}
use asyncssh.Base.Int.{pos}
use asyncssh.Base.Slices.{diff}
use asyncssh.Packet.{byte}
use asyncssh.Packet.RoundTrip.{byte-eq-ok}
use asyncssh.Connection.Types.{World, Handler, Sending, Receiving, is_some}
use asyncssh.Connection.Send.{
  concat, max_seq, deflate, frame, seal, next_seq, emit_frame, emit_payload, emit,
}
use asyncssh.Connection.Receive.{
  recv_pkthdr, open_header, open_payload, strip_padding, decrypt, inflate, open_packet,
}
use asyncssh.Base.Slices.{take-append_le, drop-append_le}
use asyncssh.Connection.Cutting.{diff_pos, slice_to-body, slice-mac, slice_from-rest, shorter-none}
use asyncssh.Connection.Framing.{
  using-eq-ok, Laws, MatchedKeys, plain, sealed, MatchedStreams, inflate-deflate, Frames,
  frame-eq-ok, Opens, seal-Opens,
}

module _ (w : World) where
  -- A packet that has arrived whole is cut into its parts.
  open_packet_lem :
      (auth : Bool) (r : Receiving w) (body mac rest packet_data : List ℕ) (key : Option w.Cipher)
      → r.keys.blocksize + length body ≡ 4 + r.pktlen
      → length mac ≡ r.keys.macsize
      → r.inpbuf ≡ body ++ (mac ++ rest)
      → decrypt w r.keys.encryption r.seq r.packet body mac ≡ (ok packet_data, key)
      → open_packet w auth r
        ≡ some (
            open_payload w auth packet_data (
              let k = r.keys in
              record r { inpbuf = rest; packet = []; keys = record k { encryption = key } }))
  unfolding open_packet
  open_packet_lem auth r body mac rest pd key size m inp d =
      let n = length body in
      let e1 : diff (4 + r.pktlen) r.keys.blocksize ≡ pos n =
        diff_pos _ _ (omega (arith, size)) ∙ ap pos (omega (arith, size)) in
      let e2 : diff (4 + r.pktlen + r.keys.macsize) r.keys.blocksize ≡ pos (n + r.keys.macsize) =
        diff_pos _ _ (omega (arith, size)) ∙ ap pos (omega (arith, size)) in
      rw
        (
          inp,
          e1,
          e2,
          shorter-none body mac rest n r.keys.macsize refl m,
          slice_to-body body mac rest n r.keys.macsize refl m,
          slice-mac body mac rest n r.keys.macsize refl m,
          d,
          slice_from-rest body mac rest n r.keys.macsize refl m,
        )
        refl

  -- The header of a packet whose first block has arrived.
  recv_pkthdr_lem :
      (r : Receiving w) (d rest : List ℕ)
      → r.keys.blocksize ≤ length d
      → r.inpbuf ≡ d ++ rest
      → (let k = r.keys in
          let h = open_header w k.encryption r.seq (take k.blocksize d) in
          recv_pkthdr w r ≡ (
            true,
            record r {
              inpbuf = drop k.blocksize d ++ rest;
              packet = h.0.0;
              pktlen = from_bytes h.0.1;
              handler = Handler.packet;
              keys = record k { encryption = h.1 };
            },
          ))
  unfolding recv_pkthdr
  recv_pkthdr_lem r d rest h inp =
      let b = r.keys.blocksize in
      let e : ltb (length (d ++ rest)) b ≡ false = ground (arith, length-append d rest) in
      rw (inp, e, take-append_le b d rest h, drop-append_le b d rest h) refl

strip_padding-some :
    (packet payload : List ℕ) → strip_padding packet ≡ ok payload → is_empty packet ≡ false
unfolding strip_padding
strip_padding-some [] payload h = cc
strip_padding-some (p ∷ packet) payload h = refl

one_block : (k b : ℕ) → b ≤ suc k * b
one_block k b = grind arith

rolled :
    (b : Bool) (x y : Result (Unit {0}) × ℕ) (u : Unit {0})
    → b ≡ true
    → x.0 ≡ err Error.protocol_error
    → (if b then x else y).0 ≡ ok u
    → ⊥
rolled true x y u r p e = cc
rolled false x y u r p e = cc

module _ (w : World) (laws : Laws w) where
  -- A sending end and the end that receives from it, between two packets.
  pub record Matched (s : Sending w) (r : Receiving w) : Type 0 where
    pub block : s.blocksize ≡ r.keys.blocksize
    pub wide : 8 ≤ r.keys.blocksize
    pub hdrlen : 1 ≤ s.enchdrlen
    pub numbered : s.seq ≡ r.seq
    pub ready : r.handler ≡ Handler.pkthdr
    pub keys :
        MatchedKeys w laws r.keys.blocksize r.keys.macsize s.enchdrlen s.encryption
          r.keys.encryption
    pub streams : MatchedStreams w laws s.compressor r.keys.decompressor
    pub delayed : s.compress_after_auth ≡ r.keys.decompress_after_auth

  -- The receiving end reads `payload` from the start of its buffer, and both are matched again, up to the number
  -- and the handler, which are set once the packet has been processed.
  pub record Reads (auth : Bool) (payload rest : List ℕ) (s' : Sending w) (r : Receiving w)
      : Type 0 where
    pub after : Receiving w
    pub has_header : (recv_pkthdr w r).0 ≡ true
    pub opened : open_packet w auth (recv_pkthdr w r).1 ≡ some (ok payload, after)
    pub left : after.inpbuf ≡ rest
    pub same_seq : after.seq ≡ r.seq
    pub matched : Matched s' (record after { handler = Handler.pkthdr; seq = s'.seq })

  open_payload_lem :
      (auth : Bool) (orig payload packet : List ℕ) (r : Receiving w)
      → strip_padding packet ≡ ok payload
      → (let k = r.keys in
          let d = inflate w auth k.decompress_after_auth k.decompressor payload in
          d.0 ≡ ok orig
          → open_payload w auth packet r
            ≡ (ok orig, record r { keys = record k { decompressor = d.1 } }))
  unfolding open_payload
  open_payload_lem auth orig payload packet r p q = rw (p, q) refl

  keys_hdrlen : {b m e : ℕ} {x y : Option w.Cipher} → MatchedKeys w laws b m e x y → e ≤ 5
  keys_hdrlen (plain z five) = omega (arith, five)
  keys_hdrlen (sealed five pair) = five

  -- A sealed frame is read.
  module _ (auth : Bool) (orig payload hdr packet rest : List ℕ) (s s' : Sending w)
      (r : Receiving w) (z' : Option w.Stream) (m : Matched s r)
      (de : deflate w auth s.compress_after_auth s.compressor orig ≡ (ok payload, z'))
      (f : Frames w laws s.enchdrlen r.keys.blocksize payload hdr packet)
      (inp : (let d = seal w s.encryption r.seq hdr packet in r.inpbuf ≡ d.0.0 ++ (d.0.1 ++ rest)))
      (sk : s'.encryption ≡ (seal w s.encryption r.seq hdr packet).1)
      (sb : s'.blocksize ≡ s.blocksize) (se : s'.enchdrlen ≡ s.enchdrlen) (sz : s'.compressor ≡ z')
      (sa : s'.compress_after_auth ≡ s.compress_after_auth) where
    sealed-Reads : Reads auth orig rest s' r
    sealed-Reads =
        let k = r.keys in
        let b = k.blocksize in
        let d = seal w s.encryption r.seq hdr packet in
        let o : Opens w laws b k.macsize s.enchdrlen r.seq k.encryption hdr packet d =
          seal-Opens w laws b k.macsize s.enchdrlen r.seq f.blocks s.encryption k.encryption hdr
            packet m.keys m.wide f.header_size (strip_padding-some packet payload f.stripped)
            f.aligned in
        let h = open_header w k.encryption r.seq (take b d.0.0) in
        let fits : b ≤ length d.0.0 =
          omega (arith, o.size, f.aligned, keys_hdrlen m.keys, one_block f.blocks b) in
        let p1 = recv_pkthdr_lem w r d.0.0 (d.0.1 ++ rest) fits inp in
        let r1 : Receiving w = record r {
          inpbuf = drop b d.0.0 ++ (d.0.1 ++ rest);
          packet = h.0.0;
          pktlen = from_bytes h.0.1;
          handler = Handler.packet;
          keys = record k { encryption = h.1 };
        } in
        let key = (decrypt w h.1 r.seq h.0.0 (drop b d.0.0) d.0.1).1 in
        let size : b + length (drop b d.0.0) ≡ 4 + from_bytes h.0.1 =
          omega
            (arith, length-drop b d.0.0, o.size, ap from_bytes o.header, f.header_value, fits) in
        let p2 =
          open_packet_lem w auth r1 (drop b d.0.0) d.0.1 rest packet key size o.mac_size refl
            (ap (λ x. (x, key)) o.opened) in
        let r2 : Receiving w = record r1 {
          inpbuf = rest;
          packet = [];
          keys = record k { encryption = key };
        } in
        let i = inflate w auth k.decompress_after_auth k.decompressor payload in
        let inflated : (i.0 ≡ ok orig) × MatchedStreams w laws z' i.1 =
          subst
            (λ a.
              ((inflate w auth a k.decompressor payload).0 ≡ ok orig)
              × MatchedStreams w laws z' (inflate w auth a k.decompressor payload).1)
            m.delayed
            (inflate-deflate w laws auth s.compress_after_auth s.compressor k.decompressor orig
              payload m.streams de) in
        let p3 = open_payload_lem auth orig payload packet r2 f.stripped inflated.0 in
        record {
          after = record r2 { keys = record k { encryption = key; decompressor = i.1 } };
          has_header = ap (λ x. x.0) p1;
          opened = ap (λ x. open_packet w auth x.1) p1 ∙ p2 ∙ ap some p3;
          left = refl;
          same_seq = refl;
          matched = record {
            block = sb ∙ m.block;
            wide = m.wide;
            hdrlen = rw (se) m.hdrlen;
            numbered = refl;
            ready = refl;
            keys = rw (sk, se) o.matched;
            streams = rw (sz) inflated.1;
            delayed = sa ∙ m.delayed;
          };
        }

  -- What is known once `emit_frame` has returned.
  pub record Emitted (strict_kex : Bool) (pkttype : ℕ) (hdr packet : List ℕ) (s s' : Sending w)
      : Type 0 where
    pub bytes :
        s'.written
        ≡ s.written
          ++ ((seal w s.encryption s.seq hdr packet).0.0
              ++ (seal w s.encryption s.seq hdr packet).0.1)
    pub key : s'.encryption ≡ (seal w s.encryption s.seq hdr packet).1
    pub frame_ : s' ≡ record s { encryption = s'.encryption; written = s'.written; seq = s'.seq }
    pub number : s'.seq ≡ (if pkttype == 21 && strict_kex then 0 else (s.seq + 1) % 2 ^ 32)

  next_seq-eq-ok :
      (strict_kex : Bool) (pkttype : ℕ) (encrypted : Bool) (seq : ℕ) (u : Unit {0})
      → (next_seq w strict_kex pkttype encrypted seq).0 ≡ ok u
      → (next_seq w strict_kex pkttype encrypted seq).1
        ≡ (if pkttype == 21 && strict_kex then 0 else (seq + 1) % 2 ^ 32)
  unfolding next_seq
  next_seq-eq-ok strict_kex pkttype encrypted seq u e =
      elim (Bool-cases (seq == max_seq && not encrypted)) [
        | inl roll ↦ absurd (
            rolled (seq == max_seq && not encrypted) (err Error.protocol_error, 0)
              (ok tt, (if pkttype == 21 && strict_kex then 0 else (seq + 1) % 2 ^ 32)) u roll refl
              e)
        | inr more ↦ rw (more) refl
      ]

  emit_frame-eq-ok :
      (strict_kex : Bool) (pkttype : ℕ) (hdr packet : List ℕ) (s s' : Sending w) {n : ℕ}
      → emit_frame w true strict_kex pkttype (hdr, packet) s ≡ (ok n, s')
      → Emitted strict_kex pkttype hdr packet s s'
  unfolding emit_frame
  emit_frame-eq-ok strict_kex pkttype hdr packet s s' e =
      let d = seal w s.encryption s.seq hdr packet in
      let x = next_seq w strict_kex pkttype (is_some s.encryption) s.seq in
      let t : Sending w = record s {
        encryption = d.1;
        written = s.written ++ (d.0.0 ++ d.0.1);
        seq = x.1;
      } in
      let (u, ok_, same) = using-eq-ok x.0 (λ u s. (ok (length packet), s)) t e in
      subst (Emitted strict_kex pkttype hdr packet s) (ap (λ p. p.1) same) (record {
        bytes = refl;
        key = refl;
        frame_ = refl;
        number = next_seq-eq-ok strict_kex pkttype (is_some s.encryption) s.seq u ok_;
      })

  -- A packet that was sent is read: in full, and after it what follows it.
  pub recv-send :
      (strict_kex auth_complete : Bool) (pkttype n : ℕ) (args : List (List ℕ)) (s s' : Sending w)
      → emit w true strict_kex auth_complete pkttype args s ≡ (ok n, s')
      → (r : Receiving w) → Matched s r
      → (d : List ℕ) × (s'.written ≡ s.written ++ d)
        × (s'.seq ≡ (if pkttype == 21 && strict_kex then 0 else (s.seq + 1) % 2 ^ 32))
        × ((rest : List ℕ)
            → r.inpbuf ≡ d ++ rest
            → Reads auth_complete (pkttype ∷ concat args) rest s' r)
  unfolding emit emit_payload
  recv-send strict auth pkttype n args s s' e r m =
      let (head, be, e1) = using-eq-ok (byte pkttype) _ s e in
      let orig = head ++ concat args in
      let de = deflate w auth s.compress_after_auth s.compressor orig in
      let s1 : Sending w = record s { compressor = de.1 } in
      let (payload, pe, e2) = using-eq-ok de.0 _ s1 e1 in
      let s2 : Sending w = record s1 { draws = suc s.draws } in
      let (fr, fe, e3) =
        using-eq-ok (frame w s.enchdrlen s.blocksize s.draws payload)
          (emit_frame w true strict pkttype) s2 e2 in
      let em = emit_frame-eq-ok strict pkttype fr.0 fr.1 s2 s' e3 in
      let sealed_ = λ (q : ℕ). seal w s.encryption q fr.0 fr.1 in
      let d = (sealed_ s.seq).0.0 ++ (sealed_ s.seq).0.1 in
      let frames : Frames w laws s.enchdrlen r.keys.blocksize payload fr.0 fr.1 =
        subst (λ b. Frames w laws s.enchdrlen b payload fr.0 fr.1) m.block
          (frame-eq-ok w laws s.enchdrlen s.blocksize s.draws payload fr.0 fr.1
            (rw (m.block) m.wide) m.hdrlen fe) in
      (
        d,
        em.bytes,
        em.number,
        λ rest inp.
            subst (λ o. Reads auth o rest s' r)
              (ap (λ (x : List ℕ). x ++ concat args) (byte-eq-ok pkttype head be))
              (sealed-Reads auth orig payload fr.0 fr.1 rest s s' r de.1 m (ap (λ x. (x, de.1)) pe)
                frames
                (subst (λ q. r.inpbuf ≡ (sealed_ q).0.0 ++ ((sealed_ q).0.1 ++ rest)) m.numbered
                  (inp ∙ append_assoc (sealed_ s.seq).0.0 (sealed_ s.seq).0.1 rest))
                (subst (λ q. s'.encryption ≡ (sealed_ q).1) m.numbered em.key)
                (ap (λ t. t.blocksize) em.frame_) (ap (λ t. t.enchdrlen) em.frame_)
                (ap (λ t. t.compressor) em.frame_) (ap (λ t. t.compress_after_auth) em.frame_)),
      )
