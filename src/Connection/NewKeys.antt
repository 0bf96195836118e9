-- ===== src/Connection/NewKeys.antt =====
-- Keys that both ends derive from one key exchange match, once the receiver has processed NEWKEYS.
use asyncssh.Connection.Handlers.{Parts, Processed, process_packet, process_self}
use asyncssh.Connection.Dispatch.{
  decode_error_to_protocol, Route, route, dispatch_packet, after_process, finish_recv_packet,
  recv_packet, remainder,
}
use asyncssh.Connection.Receive.{Progress, recv_pkthdr}
use asyncssh.Connection.Send.{concat, emit}
use asyncssh.Connection.Types.{Target, using, Step, Receiving, World, Handler, Sending, Connection}
use asyncssh.Packet.{get_byte, get_bytes, has_more, init, SshPacket, check_end}
use asyncssh.Base.{
  Error, err, false, ◌+◌, ◌%◌, ◌^◌, ◌∷◌, [], true, ◌++◌, List, drop, length, sym, drop-append, ◌∙◌,
  subst, ◌≤◌, ◌≡◌, refl, ap, arith, if◌then◌else◌, ok, Bool, ℕ,
}
use asyncssh.Connection.Keys.{Direction, max8, install_send, prepare_recv, process_newkeys}
use asyncssh.Connection.Framing.{Laws, MatchedStreams, sealed}
use asyncssh.Connection.RoundTrip.{Matched, recv-send}

max8_wide : (n : ℕ) → 8 ≤ max8 n
max8_wide n = ground arith

hdrlen_bounds : (etm : Bool) → (1 ≤ (if etm then 1 else 5)) × ((if etm then 1 else 5) ≤ 5)
hdrlen_bounds etm = ground arith

-- The packet NEWKEYS, after its type.
abbrev newkeys : SshPacket
newkeys = record { packet = 21 ∷ []; idx = 1; len = 1 }

first_byte : get_byte (init (21 ∷ [])) ≡ (ok 21, newkeys)
unfolding get_byte get_bytes init
first_byte = refl

no_fields : (check_end newkeys).0 ≡ ok tt
unfolding check_end has_more
no_fields = refl

module _ (w : World) (laws : Laws w) where
  -- What two ends negotiated for one direction, with objects that were made for each other.
  pub record Agreed (d e : Direction w) : Type 0 where
    pub blocks : d.blocksize ≡ e.blocksize
    pub after_auth : d.after_auth ≡ e.after_auth
    pub keys : laws.Paired d.cipher e.cipher (max8 e.blocksize) e.hashsize (if d.etm then 1 else 5)
    pub streams : MatchedStreams w laws d.compressor e.decompressor

  route_newkeys : (p : SshPacket) (c : Connection w) → route 21 p c ≡ Route.deliver Target.self
  unfolding route
  route_newkeys newkeys c = ground arith

  -- `_process_newkeys` and `_finish_recv_packet` of a packet without fields: the keys that were prepared are in
  -- use, and the number moves on.
  install_newkeys :
      (e : Direction w) (seq : ℕ) (p : SshPacket) (c : Connection w)
      → (check_end p).0 ≡ ok tt
      → c.next_keys ≡ prepare_recv w e
      → c.has_transport ≡ true
      → let s = process_newkeys w p c in
        let r = finish_recv_packet w 21 seq s.1 in
        let v = c.recv in
        (s.0 ≡ ok tt)
        × (r.0 ≡ ok tt)
        × (r.1.recv ≡ record v {
          keys = prepare_recv w e;
          handler = Handler.pkthdr;
          seq = if c.strict_kex then 0 else (seq + 1) % 2 ^ 32;
        })
  unfolding process_newkeys finish_recv_packet prepare_recv
  install_newkeys e seq p c ended next transport =
      rw (process_newkeys, ended, next, finish_recv_packet, transport) (ground arith)

  returned_true :
      (s : Step w) (v : Receiving w)
      → s.0 ≡ ok tt
      → s.1.recv ≡ v
      → ((using s.0 (λ u c. (ok true, c)) s.1).0 ≡ ok true)
        × ((using s.0 (λ u c. (ok true, c)) s.1).1.recv ≡ v)
  returned_true (ok u, c) v done same = (refl, same)
  returned_true (err e, c) v done same = absurd (cc)

  recv_pkthdr-seq : (r : Receiving w) → (recv_pkthdr w r).1.seq ≡ r.seq
  unfolding recv_pkthdr
  recv_pkthdr-seq r = ground arith

  module _ (parts : Parts w) where
    -- A handler that returned, and then `_finish_recv_packet`.
    processed :
        (z : Step w) (seq : ℕ) (v : Receiving w)
        → z.0 ≡ ok tt
        → (finish_recv_packet w 21 seq z.1).0 ≡ ok tt
        → (finish_recv_packet w 21 seq z.1).1.recv ≡ v
        → let o = using z.0 (λ u c. (ok Processed.done, c)) z.1 in
          let r : Progress w = elim o.0 as (λ _. Progress w) [
            | err e ↦ (err (decode_error_to_protocol e), o.1)
            | ok result ↦ after_process w parts 21 seq result o.1
          ] in
          (r.0 ≡ ok true) × (r.1.recv ≡ v)
    unfolding after_process
    processed (ok u, c) seq v ran finished same =
        returned_true (finish_recv_packet w 21 seq c) v finished same
    processed (err e, c) seq v ran finished same = absurd (cc)

    dispatch_newkeys :
        (e : Direction w) (seq : ℕ) (c : Connection w)
        → c.next_keys ≡ prepare_recv w e
        → c.has_transport ≡ true
        → let r = dispatch_packet w parts seq (21 ∷ []) c in
          let v = c.recv in
          (r.0 ≡ ok true)
          × (r.1.recv ≡ record v {
            keys = prepare_recv w e;
            handler = Handler.pkthdr;
            seq = if c.strict_kex then 0 else (seq + 1) % 2 ^ 32;
          })
    unfolding dispatch_packet get_byte get_bytes init remainder process_packet process_self
        after_process
    dispatch_newkeys e seq c next transport =
        let d = record c { delivered = c.delivered ++ (Target.self, 21) ∷ [] } in
        let (ran, finished, same) = install_newkeys e seq newkeys d no_fields next transport in
        let follow : Route → Progress w = λ (x : Route). elim x as (λ _. Progress w) [
          | Route.refuse ↦ (err Error.protocol_error, c)
          | Route.skip ↦
              (let s = finish_recv_packet w 21 seq (record c { ignore_first_kex = false }) in
                using s.0 (λ u c. (ok true, c)) s.1)
          | Route.deliver target ↦
              (let r = process_packet w parts target 21 (remainder target newkeys) c in
                elim r.0 as (λ _. Progress w) [
                  | err e ↦ (err (decode_error_to_protocol e), r.1)
                  | ok result ↦ after_process w parts 21 seq result r.1
                ])
        ] in
        let routed : dispatch_packet w parts seq (21 ∷ []) c ≡ follow (Route.deliver Target.self) =
          ap follow (route_newkeys newkeys c) in
        rw routed (processed (process_newkeys w newkeys d) seq _ ran finished same)

    -- A packet NEWKEYS that was sent under the old keys is read; then the new keys of the two ends, if they were
    -- negotiated as one, match again, with the same number, which both set to 0 with strict key exchange. What
    -- follows the packet is left. Before, the ends match, have the same view of strict key exchange and of
    -- authentication, and the receiver has prepared its keys and has a transport.
    pub recv_packet-Matched :
        (d e : Direction w) (n : ℕ) (s s' : Sending w) (c : Connection w) (sent rest : List ℕ)
        → Agreed d e
        → Matched w laws s c.recv
        → c.next_keys ≡ prepare_recv w e
        → c.has_transport ≡ true
        → emit w true c.strict_kex c.auth_complete 21 [] s ≡ (ok n, s')
        → s'.written ≡ s.written ++ sent
        → c.recv.inpbuf ≡ sent ++ rest
        → let h = recv_pkthdr w c.recv in
          let r = recv_packet w parts (record c { recv = h.1 }) in
          (h.0 ≡ true)
          × (r.0 ≡ ok true)
          × (r.1.recv.inpbuf ≡ rest)
          × Matched w laws (install_send w d s') r.1.recv
    unfolding recv_packet install_send prepare_recv concat
    recv_packet-Matched d e n s s' c sent rest a m next transport emitted written arrived =
        let (bytes, wrote, number, reads) =
          recv-send w laws c.strict_kex c.auth_complete 21 n [] s s' emitted c.recv m in
        let same : sent ≡ bytes =
          sym (drop-append (length s.written) s.written sent refl)
          ∙ ap (drop (length s.written)) (sym written ∙ wrote)
          ∙ drop-append (length s.written) s.written bytes refl in
        let o = reads rest (arrived ∙ ap (λ x. x ++ rest) same) in
        let h = recv_pkthdr w c.recv in
        let (ran, after) =
          dispatch_newkeys e h.1.seq (record c { recv = o.after }) next transport in
        let seq : h.1.seq ≡ s.seq = recv_pkthdr-seq c.recv ∙ sym m.numbered in
        rw (o.has_header, recv_packet, o.opened)
          (
            refl,
            ran,
            ap (λ v. v.inpbuf) after ∙ o.left,
            subst (Matched w laws (install_send w d s')) (sym after) (record {
              block = ap max8 a.blocks;
              wide = max8_wide e.blocksize;
              hdrlen = (hdrlen_bounds d.etm).0;
              numbered = number ∙ ap (λ q. if c.strict_kex then 0 else (q + 1) % 2 ^ 32) (sym seq);
              ready = refl;
              keys = sealed (hdrlen_bounds d.etm).1 a.keys;
              streams = a.streams;
              delayed = a.after_auth;
            }),
          )
