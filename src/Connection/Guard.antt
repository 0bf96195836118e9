-- ===== src/Connection/Guard.antt =====
-- Before authentication is complete, no packet of the connection layer is sent or processed.
use asyncssh.Base.{
  ℕ, zero, suc, ◌≤◌, ◌≡◌, refl, ◌∙◌, arith, Bool, true, false, not, ◌&&◌, ◌||◌, some, List, [], ◌∷◌,
  ◌++◌, length, All, All-append, ◌==◌,
}
use asyncssh.Packet.{string, uint32}
use asyncssh.Connection.Types.{World, Connection, Deferred, Step, returns, is_some}
use asyncssh.Connection.Send.{
  emit, send_now, needs_rekey, must_wait, send_kexinit_by, rekey_first, ignore_first,
  send_packet_fuel, send_packet, send_kexinit, send_all, send_deferred_packets, send_disconnect,
  send_service_request, send_ext_info, kexinit_packet, encode_all,
}
use asyncssh.Connection.Rules.{keep_using, keep_then, keep_if, keep_if_state}

module _ {w : World} where
  -- `b` is `_auth_complete`, and while it is False, no type above MSG_USERAUTH_LAST was sent or processed.
  pub record Held (b : Bool) (c : Connection w) : Type 0 where
    pub complete : c.auth_complete ≡ b
    pub quiet : b ≡ false → All (λ t. t ≤ 79) c.sent
    pub heard : b ≡ false → All (λ d. d.1 ≤ 79) c.delivered

  pub same :
      {b : Bool} {c : Connection w} (d : Connection w)
      → d.auth_complete ≡ c.auth_complete
      → d.sent ≡ c.sent
      → d.delivered ≡ c.delivered
      → Held b c
      → Held b d
  same d a s l g = record {
    complete = a ∙ g.complete;
    quiet = λ e. rw (s) (g.quiet e);
    heard = λ e. rw (l) (g.heard e);
  }

module _ (w : World) (b : Bool) where
  send_now-Held :
      (pkttype : ℕ) (args : List (List ℕ)) (c : Connection w)
      → (b ≡ false → pkttype ≤ 79)
      → Held b c
      → Held b (send_now w pkttype args c).1
  unfolding send_now
  send_now-Held pkttype args c low g =
      keep_using (Held b)
        (emit w c.has_transport c.strict_kex c.auth_complete pkttype args c.send).0 _ _
        (same _ refl refl refl g)
        (λ n. record {
          complete = g.complete;
          quiet = λ e. All-append (λ t. t ≤ 79) c.sent (pkttype ∷ []) (g.quiet e) (low e, tt);
          heard = g.heard;
        })

  must_wait-false :
      (pkttype : ℕ) (c : Connection w)
      → must_wait w pkttype c ≡ false
      → c.auth_complete ≡ b
      → b ≡ false
      → pkttype ≤ 79
  unfolding must_wait
  must_wait-false pkttype c h a e = ground arith

  send_kexinit_by-Held :
      (send : ℕ → List (List ℕ) → Connection w → Step w)
      → ((t : ℕ) (args : List (List ℕ)) (c : Connection w) → Held b c → Held b (send t args c).1)
      → (c : Connection w) → Held b c
      → Held b (send_kexinit_by w send c).1
  unfolding send_kexinit_by
  send_kexinit_by-Held send keeps c g =
      keep_using (Held b) (kexinit_packet (w.urandom c.send.draws 16) c.offer) _ _
        (same _ refl refl refl g)
        (λ packet. keeps 20 _ _ (
          keep_if_state (Held b) c.is_server _ _ (λ e. same _ refl refl refl g)
            (λ e. same _ refl refl refl g)))

  rekey_first-Held :
      (send : ℕ → List (List ℕ) → Connection w → Step w)
      → ((t : ℕ) (args : List (List ℕ)) (c : Connection w) → Held b c → Held b (send t args c).1)
      → (c : Connection w) → Held b c
      → Held b (rekey_first w send c).1
  unfolding rekey_first
  rekey_first-Held send keeps c g =
      let d = record c { moment = suc c.moment } in
      let h = same d refl refl refl g in
      keep_if (Held b) {B = Unit {0}} (needs_rekey w d) _ _
        (λ e.
          keep_then (Held b) (send_kexinit_by w send d)
            (λ c. returns (record c { kexinit_sent = true })) (send_kexinit_by-Held send keeps d h)
            (λ d k. same _ refl refl refl k))
        (λ e. h)

  ignore_first-Held :
      (send : ℕ → List (List ℕ) → Connection w → Step w)
      → ((t : ℕ) (args : List (List ℕ)) (c : Connection w) → Held b c → Held b (send t args c).1)
      → (pkttype : ℕ) (c : Connection w) → Held b c
      → Held b (ignore_first w send pkttype c).1
  unfolding ignore_first
  ignore_first-Held send keeps pkttype c g =
      keep_if (Held b) {B = Unit {0}}
        (is_some c.send.encryption && not (pkttype == 2 || pkttype == 7)) _ _
        (λ f. keep_using (Held b) (string []) _ c g (λ empty. keeps 2 (empty ∷ []) c g)) (λ f. g)

  send_packet_fuel-Held :
      (n pkttype : ℕ) (args : List (List ℕ)) (c : Connection w)
      → Held b c
      → Held b (send_packet_fuel w n pkttype args c).1
  unfolding send_packet_fuel
  send_packet_fuel-Held zero pkttype args c g = g
  send_packet_fuel-Held (suc n) pkttype args c g =
      let send = send_packet_fuel w n in
      let keeps = send_packet_fuel-Held n in
      keep_then (Held b) (rekey_first w send c) _ (rekey_first-Held send keeps c g) (λ d k.
        keep_if (Held b) {B = Unit {0}} (must_wait w pkttype d) _ _ (λ e. same _ refl refl refl k)
          (λ e.
            keep_then (Held b) (ignore_first w send pkttype d) (send_now w pkttype args)
              (ignore_first-Held send keeps pkttype d k)
              (λ d' k'. send_now-Held pkttype args d' (must_wait-false pkttype d e k.complete) k')))

  pub send_packet-Held :
      (pkttype : ℕ) (args : List (List ℕ)) (c : Connection w)
      → Held b c
      → Held b (send_packet w pkttype args c).1
  unfolding send_packet
  send_packet-Held = send_packet_fuel-Held 4

  pub send_kexinit-Held : (c : Connection w) → Held b c → Held b (send_kexinit w c).1
  unfolding send_kexinit
  send_kexinit-Held = send_kexinit_by-Held (send_packet w) send_packet-Held

  pub send_all-Held :
      (ds : List Deferred) (c : Connection w) → Held b c → Held b (send_all w ds c).1
  unfolding send_all
  send_all-Held [] c g = g
  send_all-Held ((t, args) ∷ ds) c g =
      keep_then (Held b) (send_packet w t args c) _ (send_packet-Held t args c g) (send_all-Held ds)

  pub send_deferred_packets-Held :
      (c : Connection w) → Held b c → Held b (send_deferred_packets w c).1
  unfolding send_deferred_packets
  send_deferred_packets-Held c g = send_all-Held c.deferred_packets _ (same _ refl refl refl g)

  pub send_disconnect-Held :
      (code : ℕ) (reason lang : List ℕ) (c : Connection w)
      → Held b c
      → Held b (send_disconnect w code reason lang c).1
  unfolding send_disconnect
  send_disconnect-Held code reason lang c g = keep_using (Held b) (uint32 code) _ c g (λ x.
      keep_using (Held b) (string reason) _ c g (λ y.
        keep_using (Held b) (string lang) _ c g (λ z. send_packet-Held 1 (x ∷ y ∷ z ∷ []) c g)))

  pub send_service_request-Held :
      (service : List ℕ) (c : Connection w) → Held b c → Held b (send_service_request w service c).1
  unfolding send_service_request
  send_service_request-Held service c g =
      keep_using (Held b) (string service) _ _ (same _ refl refl refl g) (λ name.
        send_packet-Held 5 (name ∷ []) _
          (same (record c { next_service = some service }) refl refl refl g))

  pub send_ext_info-Held : (c : Connection w) → Held b c → Held b (send_ext_info w c).1
  unfolding send_ext_info
  send_ext_info-Held c g = keep_using (Held b) (uint32 (length c.extensions_to_send)) _ c g (λ size.
      keep_using (Held b) (encode_all c.extensions_to_send) _ c g
        (λ body. send_packet-Held 7 ((size ++ body) ∷ []) c g))
