-- ===== src/Connection/Depth.antt =====
-- The bound on the calls of `send_packet` of itself is enough.
use asyncssh.Base.{
  ℕ, zero, suc, ◌≡◌, ◌≢◌, refl, arith, Bool, true, false, not, ◌&&◌, ◌||◌, Option, none, some, List,
  [], ◌∷◌, ◌++◌, inl, inr, Bool-cases, length, if◌then◌else◌, ◌==◌, Result, ok, err, Error,
}
use asyncssh.Packet.{byte, uint32, string}
use asyncssh.Connection.Types.{World, Sending, Connection, Step, returns, is_some, ◌then_◌}
use asyncssh.Connection.Send.{
  max_seq, concat, deflate, frame, next_seq, emit_frame, emit_payload, emit, send_now, needs_rekey,
  must_wait, tail, kexinit_packet, send_kexinit_by, rekey_first, ignore_first, send_packet_fuel,
  send_packet, padding,
}
use asyncssh.Connection.Rules.{keep_using, keep_then, keep_if, keep_if_state}
use asyncssh.Connection.Ends.{
  Ends, returned, raised, ends_bind, ends_using, ends_if_step, byte-Ends, uint32-Ends, string-Ends,
  kexinit_packet-Ends,
}

module _ (w : World) where
  packed :
      (r : Option (List ℕ) × w.Stream)
      → Ends
          (elim r.0 as (λ _. Result (List ℕ) × Option w.Stream) [
            | none ↦ (err Error.disconnect_error, some r.1)
            | some payload ↦ (ok payload, some r.1)
          ]).0
  packed (none, z) = raised Error.disconnect_error refl
  packed (some payload, z) = returned payload

  deflate-Ends :
      (a b : Bool) (z : Option w.Stream) (bytes : List ℕ) → Ends (deflate w a b z bytes).0
  unfolding deflate
  deflate-Ends a b none bytes = returned bytes
  deflate-Ends a b (some z) bytes =
      ends_if_step (a || not b) _ _ (λ _. packed (w.compress z bytes)) (λ _. returned bytes)

  frame-Ends : (h b n : ℕ) (payload : List ℕ) → Ends (frame w h b n payload)
  unfolding frame
  frame-Ends h b n payload =
      ends_bind (byte (padding h b (length payload))) _ (byte-Ends _)
        (λ pad. ends_bind (uint32 _) _ (uint32-Ends _) (λ hdr. returned _))

  next_seq-Ends : (a : Bool) (t : ℕ) (b : Bool) (seq : ℕ) → Ends (next_seq w a t b seq).0
  unfolding next_seq
  next_seq-Ends a t b seq =
      ends_if_step {S = ℕ} (seq == max_seq && not b) _ _ (λ _. raised Error.protocol_error refl)
        (λ _. returned tt)

  emit-Ends :
      (a b k : Bool) (t : ℕ) (args : List (List ℕ)) (s : Sending w) → Ends (emit w a b k t args s).0
  unfolding emit emit_payload emit_frame
  emit-Ends a b k t args s = ends_using (byte t) _ s (byte-Ends t) (λ head _.
      let packed_ = deflate w k s.compress_after_auth s.compressor (head ++ concat args) in
      ends_using packed_.0 _ _ (deflate-Ends k s.compress_after_auth s.compressor _) (λ payload _.
        ends_using (frame w s.enchdrlen s.blocksize s.draws payload) _ _ (frame-Ends _ _ _ payload)
          (λ (hdr, packet) _.
            ends_using (next_seq w b t (is_some s.encryption) s.seq).0 _ _
              (next_seq-Ends b t (is_some s.encryption) s.seq) (λ u _. returned _))))

  send_now-Ends : (t : ℕ) (args : List (List ℕ)) (c : Connection w) → Ends (send_now w t args c).0
  unfolding send_now
  send_now-Ends t args c =
      let r = emit w c.has_transport c.strict_kex c.auth_complete t args c.send in
      ends_using r.0 _ (record c { send = r.1 })
        (emit-Ends c.has_transport c.strict_kex c.auth_complete t args c.send) (λ n _. returned tt)

  -- No new key exchange starts while one is under way.
  under_way : (c : Connection w) → c.kex_complete ≡ false → needs_rekey w c ≡ false
  unfolding needs_rekey
  under_way c h = ground arith

  send_now-kex :
      (t : ℕ) (args : List (List ℕ)) (c : Connection w)
      → c.kex_complete ≡ false
      → (send_now w t args c).1.kex_complete ≡ false
  unfolding send_now
  send_now-kex t args c h =
      keep_using (λ c. c.kex_complete ≡ false)
        (emit w c.has_transport c.strict_kex c.auth_complete t args c.send).0 _ _ h (λ n. h)

  send_packet_fuel-kex :
      (n t : ℕ) (args : List (List ℕ)) (c : Connection w)
      → c.kex_complete ≡ false
      → (send_packet_fuel w n t args c).1.kex_complete ≡ false
  unfolding send_packet_fuel rekey_first ignore_first
  send_packet_fuel-kex zero t args c h = h
  send_packet_fuel-kex (suc n) t args c h =
      let P : Connection w → Type 0 = λ c. c.kex_complete ≡ false in
      let e : needs_rekey w (record c { moment = suc c.moment }) ≡ false =
        under_way (record c { moment = suc c.moment }) h in
      keep_then P (rekey_first w (send_packet_fuel w n) c) _ (rw e h) (λ d k.
        keep_if P {B = Unit {0}} (must_wait w t d) _ _ (λ _. k)
          (λ _.
            keep_then P (ignore_first w (send_packet_fuel w n) t d) _
              (keep_if P {B = Unit {0}} (is_some d.send.encryption && not (t == 2 || t == 7)) _ _
                (λ _.
                  keep_using P (string []) _ d k
                    (λ empty. send_packet_fuel-kex n 2 (empty ∷ []) d k))
                (λ _. k))
              (λ e l. send_now-kex t args e l)))

  -- The rest of `send_packet` after the start of a key exchange, from what an ignore packet comes to.
  after_start :
      (n t : ℕ) (args : List (List ℕ)) (c : Connection w)
      → ((t == 2) ≡ false → (empty : List ℕ) → Ends (send_packet_fuel w n 2 (empty ∷ []) c).0)
      → Ends
          (if must_wait w t c
            then returns (record c { deferred_packets = c.deferred_packets ++ (t, args) ∷ [] })
            else ignore_first w (send_packet_fuel w n) t c then_ send_now w t args).0
  unfolding ignore_first
  after_start n t args c ignored =
      ends_if_step (must_wait w t c) _ _ (λ _. returned tt)
        (λ _.
          ends_using (ignore_first w (send_packet_fuel w n) t c).0 _ _
            (ends_if_step (is_some c.send.encryption && not (t == 2 || t == 7)) _ _
              (λ b.
                ends_using (string []) _ c (string-Ends [])
                  (λ empty _. ignored (ground arith) empty))
              (λ _. returned tt))
            (λ u _. send_now-Ends t args _))

  -- While a key exchange is under way, an ignore packet is sent at once, and any other one after it.
  quiet_ignore-Ends :
      (n : ℕ) (args : List (List ℕ)) (c : Connection w)
      → c.kex_complete ≡ false
      → Ends (send_packet_fuel w (suc n) 2 args c).0
  unfolding send_packet_fuel rekey_first
  quiet_ignore-Ends n args c h =
      let e : needs_rekey w (record c { moment = suc c.moment }) ≡ false =
        under_way (record c { moment = suc c.moment }) h in
      rw e (after_start n 2 args (record c { moment = suc c.moment }) (λ other. ground arith))

  quiet-Ends :
      (n t : ℕ) (args : List (List ℕ)) (c : Connection w)
      → c.kex_complete ≡ false
      → Ends (send_packet_fuel w (suc (suc n)) t args c).0
  unfolding send_packet_fuel rekey_first
  quiet-Ends n t args c h =
      let e : needs_rekey w (record c { moment = suc c.moment }) ≡ false =
        under_way (record c { moment = suc c.moment }) h in
      rw e (
        after_start (suc n) t args (record c { moment = suc c.moment })
          (λ other empty. quiet_ignore-Ends n (empty ∷ []) (record c { moment = suc c.moment }) h))

  -- `_send_kexinit` through two calls, and what it leaves.
  pub send_kexinit_by-Ends :
      (n : ℕ) (c : Connection w)
      → Ends (send_kexinit_by w (send_packet_fuel w (suc (suc n))) c).0
        × ((send_kexinit_by w (send_packet_fuel w (suc (suc n))) c).1.kex_complete ≡ false)
  unfolding send_kexinit_by
  send_kexinit_by-Ends n c =
      let P : Connection w → Type 0 = λ c. c.kex_complete ≡ false in
      let cookie = w.urandom c.send.draws 16 in
      let named = λ (packet : List ℕ) (d : Connection w) (h : P d).
        keep_if_state P d.is_server (record d { server_kexinit = packet })
          (record d { client_kexinit = packet }) (λ _. h) (λ _. h) in
      (
        ends_using (kexinit_packet cookie c.offer) _ _ (kexinit_packet-Ends cookie c.offer)
            (λ packet _. quiet-Ends n 20 (tail packet ∷ []) _ (named packet _ refl)),
        keep_using P (kexinit_packet cookie c.offer) _ _ refl (λ packet.
            send_packet_fuel-kex (suc (suc n)) 20 (tail packet ∷ []) _ (named packet _ refl)),
      )

  -- A packet that finds the keys too old starts a key exchange, and is then sent while this is under way.
  rekeyed-Ends :
      (n t : ℕ) (args : List (List ℕ)) (c : Connection w)
      → needs_rekey w (record c { moment = suc c.moment }) ≡ true
      → Ends (send_packet_fuel w (suc (suc (suc n))) t args c).0
  unfolding send_packet_fuel rekey_first
  rekeyed-Ends n t args c h =
      let P : Connection w → Type 0 = λ c. c.kex_complete ≡ false in
      let d = record c { moment = suc c.moment } in
      let k = send_kexinit_by-Ends n d in
      let kexinit = send_kexinit_by w (send_packet_fuel w (suc (suc n))) d in
      let started : Step w = kexinit then_ (λ c. returns (record c { kexinit_sent = true })) in
      let kept : P started.1 =
        keep_then P kexinit (λ c. returns (record c { kexinit_sent = true })) k.1 (λ d g. g) in
      rw h (
        ends_using started.0 _ started.1 (ends_using kexinit.0 _ kexinit.1 k.0 (λ u _. returned tt))
          (λ u _.
            after_start (suc (suc n)) t args started.1
              (λ other empty. quiet_ignore-Ends (suc n) (empty ∷ []) started.1 kept)))

  -- An ignore packet may find the keys too old, but has no ignore packet of its own.
  ignore-Ends :
      (n : ℕ) (args : List (List ℕ)) (c : Connection w)
      → Ends (send_packet_fuel w (suc (suc (suc n))) 2 args c).0
  unfolding send_packet_fuel rekey_first
  ignore-Ends n args c = elim (Bool-cases (needs_rekey w (record c { moment = suc c.moment }))) [
    | inl new ↦ rekeyed-Ends n 2 args c new
    | inr old ↦ rw old (
        after_start (suc (suc n)) 2 args (record c { moment = suc c.moment })
          (λ other. ground arith))
  ]

  pub send_packet-Ends :
      (t : ℕ) (args : List (List ℕ)) (c : Connection w) → Ends (send_packet w t args c).0
  unfolding send_packet send_packet_fuel rekey_first
  send_packet-Ends t args c =
      elim (Bool-cases (needs_rekey w (record c { moment = suc c.moment }))) [
        | inl new ↦ rekeyed-Ends 1 t args c new
        | inr old ↦ rw old (
            after_start 3 t args (record c { moment = suc c.moment })
              (λ other empty. ignore-Ends 0 (empty ∷ []) (record c { moment = suc c.moment })))
      ]

  -- Whatever the state, and whatever the clock reads each time, `send_packet` calls itself no deeper than its
  -- bound allows.
  pub send_packet_ends :
      (t : ℕ) (args : List (List ℕ)) (c : Connection w)
      → (send_packet w t args c).0 ≢ err Error.out_of_fuel
  send_packet_ends t args c = (send_packet-Ends t args c).apart
