-- ===== src/Socks/Advances.antt =====
-- Each handler of a SOCKS forwarder raises, or comes nearer to the end of the handshake.
use asyncssh.Base.{
  ℕ, ◌+◌, ◌*◌, ◌<◌, ◌≡◌, refl, ap, arith, Bool, ◌&&◌, true, false, none, some, List, [], ◌∷◌, ◌++◌,
  length, mem, ◌==◌,
}
use asyncssh.Socks.Machine.{
  Handler, idle, version, socks4_addr, socks4_user, socks4_hostname, socks5_authlist,
  socks5_command, socks5_addr, socks5_hostlen, socks5_host, socks5_port, until_nul, exactly,
  Forwarder, Step, close, socks5_addr_len, recv_version, recv_socks4_addr, recv_socks4_user,
  recv_socks5_authlist, recv_socks5_hostlen, recv_socks5_addr, recv_socks5_port, choose_address,
  recv_socks5_command, recv_socks4_hostname, recv_socks5_host, dispatch, address, hostname,
  has_host, expect,
}
use asyncssh.Socks.Receive.{is_idle}
use asyncssh.Socks.Rules.{
  rank, bit, measure, Advances, stopped, nearer, if-Advances, at-Advances, with_transport-Advances,
  expect-Advances, close-Advances, written-Advances, socks4_done, socks5_done,
}

recv_version-Advances :
    (bytes : List ℕ) (s : Forwarder)
    → rank s.recv_handler ≡ 7
    → Advances (measure s + length bytes) s.inpbuf (recv_version bytes s)
unfolding recv_version rank
recv_version-Advances [] s h = stopped (λ e. cc)
recv_version-Advances (v ∷ bytes) s h =
    if-Advances (v == 4)
      (λ e. at-Advances (v ∷ bytes) 1 s (λ cmd.
        if-Advances (cmd == 1)
          (λ e. expect-Advances (exactly 6) socks4_addr s (omega (arith, h)) refl)
          (λ e. close-Advances s (omega (arith, h)) refl)))
      (λ e.
        if-Advances (v == 5)
          (λ e.
            at-Advances (v ∷ bytes) 1 s
              (λ n. expect-Advances (exactly n) socks5_authlist s (omega (arith, h)) refl))
          (λ e. close-Advances s (omega (arith, h)) refl))

recv_socks5_authlist-Advances :
    (bytes : List ℕ) (s : Forwarder)
    → rank s.recv_handler ≡ 6
    → Advances (measure s + length bytes) s.inpbuf (recv_socks5_authlist bytes s)
unfolding recv_socks5_authlist rank bit
recv_socks5_authlist-Advances bytes s h = with_transport-Advances s (λ t.
    if-Advances (mem 0 bytes)
      (λ e. written-Advances _ (expect (exactly 4) socks5_command) s (λ t.
        expect-Advances (exactly 4) socks5_command (record s { written = s.written ++ 5 ∷ 0 ∷ [] })
          (omega (arith, h)) refl))
      (λ e. close-Advances s (omega (arith, h, ap bit t)) refl))

recv_socks4_addr-Advances :
    (bytes : List ℕ) (s : Forwarder)
    → rank s.recv_handler ≡ 4
    → Advances (measure s + length bytes) s.inpbuf (recv_socks4_addr bytes s)
unfolding recv_socks4_addr rank
recv_socks4_addr-Advances bytes s h = at-Advances bytes 0 s (λ hi.
    at-Advances bytes 1 s (λ lo. at-Advances bytes 5 s (λ last. nearer (omega (arith, h)) refl)))

recv_socks4_user-Advances :
    (bytes : List ℕ) (s : Forwarder)
    → rank s.recv_handler ≡ 3
    → Advances (measure s + length bytes) s.inpbuf (recv_socks4_user bytes s)
unfolding recv_socks4_user rank
recv_socks4_user-Advances bytes s h =
    if-Advances (has_host s.host) (λ e. socks4_done s (omega (arith, h)) refl)
      (λ e. expect-Advances until_nul socks4_hostname s (omega (arith, h)) refl)

recv_socks5_hostlen-Advances :
    (bytes : List ℕ) (s : Forwarder)
    → rank s.recv_handler ≡ 4
    → Advances (measure s + length bytes) s.inpbuf (recv_socks5_hostlen bytes s)
unfolding recv_socks5_hostlen rank
recv_socks5_hostlen-Advances bytes s h =
    at-Advances bytes 0 s (λ n. expect-Advances (exactly n) socks5_host s (omega (arith, h)) refl)

recv_socks5_addr-Advances :
    (bytes : List ℕ) (s : Forwarder)
    → rank s.recv_handler ≡ 3
    → Advances (measure s + length bytes) s.inpbuf (recv_socks5_addr bytes s)
unfolding recv_socks5_addr rank
recv_socks5_addr-Advances bytes s h =
    expect-Advances (exactly 2) socks5_port (record s { host = address bytes }) (omega (arith, h))
      refl

choose_address-Advances :
    (n t : ℕ) (s : Forwarder)
    → rank s.recv_handler ≡ 5
    → 0 < n
    → Advances (measure s + n) s.inpbuf (choose_address t s)
unfolding choose_address rank
choose_address-Advances n t s h p =
    if-Advances (t == 3)
      (λ e.
        expect-Advances (exactly 1) socks5_hostlen (record s { addrtype = 1 }) (omega (arith, h))
          refl)
      (λ e.
        elim (socks5_addr_len t)
          as (λ o. Advances (measure s + n) s.inpbuf (elim o as (λ p. Step) [
            | none ↦ close s
            | some k ↦ expect (exactly k) socks5_addr (record s { addrtype = t })
          ])) [
            | none ↦ close-Advances s (omega (arith, h, p)) refl
            | some k ↦
                expect-Advances (exactly k) socks5_addr (record s { addrtype = t })
                  (omega (arith, h)) refl
          ])

recv_socks5_command-Advances :
    (bytes : List ℕ) (s : Forwarder)
    → rank s.recv_handler ≡ 5
    → Advances (measure s + length bytes) s.inpbuf (recv_socks5_command bytes s)
unfolding recv_socks5_command
recv_socks5_command-Advances [] s h = stopped (λ e. cc)
recv_socks5_command-Advances (v ∷ bytes) s h = at-Advances (v ∷ bytes) 1 s (λ cmd.
    at-Advances (v ∷ bytes) 2 s (λ reserved. at-Advances (v ∷ bytes) 3 s (λ t.
      if-Advances (v == 5 && cmd == 1 && reserved == 0)
        (λ e. choose_address-Advances _ t s h (omega arith))
        (λ e. close-Advances s (omega (arith, h)) refl))))

recv_socks5_port-Advances :
    (bytes : List ℕ) (s : Forwarder)
    → rank s.recv_handler ≡ 2
    → Advances (measure s + length bytes) s.inpbuf (recv_socks5_port bytes s)
unfolding recv_socks5_port rank
recv_socks5_port-Advances bytes s h = at-Advances bytes 0 s (λ hi.
    at-Advances bytes 1 s
      (λ lo. socks5_done (record s { port = hi * 256 + lo }) (omega (arith, h)) refl))

-- The empty string is valid UTF-8: this is all that is used of the decoder.
module _ (is_utf8 : List ℕ → Bool) (utf8_empty : is_utf8 [] ≡ true) where
  recv_socks4_hostname-Advances :
      (bytes : List ℕ) (s : Forwarder)
      → rank s.recv_handler ≡ 2
      → Advances (measure s + length bytes) s.inpbuf (recv_socks4_hostname is_utf8 bytes s)
  unfolding recv_socks4_hostname rank
  recv_socks4_hostname-Advances [] s h =
      if-Advances (is_utf8 [])
        (λ e. socks4_done (record s { host = hostname [] }) (omega (arith, h)) refl) (λ e. cc)
  recv_socks4_hostname-Advances (b ∷ bytes) s h =
      if-Advances (is_utf8 (b ∷ bytes))
        (λ e. socks4_done (record s { host = hostname (b ∷ bytes) }) (omega (arith, h)) refl)
        (λ e. close-Advances s (omega (arith, h)) refl)

  recv_socks5_host-Advances :
      (bytes : List ℕ) (s : Forwarder)
      → rank s.recv_handler ≡ 3
      → Advances (measure s + length bytes) s.inpbuf (recv_socks5_host is_utf8 bytes s)
  unfolding recv_socks5_host rank
  recv_socks5_host-Advances [] s h =
      if-Advances (is_utf8 [])
        (λ e.
          expect-Advances (exactly 2) socks5_port (record s { host = hostname [] })
            (omega (arith, h)) refl)
        (λ e. cc)
  recv_socks5_host-Advances (b ∷ bytes) s h =
      if-Advances (is_utf8 (b ∷ bytes))
        (λ e.
          expect-Advances (exactly 2) socks5_port (record s { host = hostname (b ∷ bytes) })
            (omega (arith, h)) refl)
        (λ e. close-Advances s (omega (arith, h)) refl)

  pub dispatch-Advances :
      (h : Handler) (bytes : List ℕ) (s : Forwarder)
      → s.recv_handler ≡ h
      → is_idle h ≡ false
      → Advances (measure s + length bytes) s.inpbuf (dispatch is_utf8 h bytes s)
  unfolding dispatch rank
  dispatch-Advances idle bytes s e i = cc
  dispatch-Advances version bytes s e i = recv_version-Advances bytes s (ap rank e)
  dispatch-Advances socks4_addr bytes s e i = recv_socks4_addr-Advances bytes s (ap rank e)
  dispatch-Advances socks4_user bytes s e i = recv_socks4_user-Advances bytes s (ap rank e)
  dispatch-Advances socks4_hostname bytes s e i = recv_socks4_hostname-Advances bytes s (ap rank e)
  dispatch-Advances socks5_authlist bytes s e i = recv_socks5_authlist-Advances bytes s (ap rank e)
  dispatch-Advances socks5_command bytes s e i = recv_socks5_command-Advances bytes s (ap rank e)
  dispatch-Advances socks5_addr bytes s e i = recv_socks5_addr-Advances bytes s (ap rank e)
  dispatch-Advances socks5_hostlen bytes s e i = recv_socks5_hostlen-Advances bytes s (ap rank e)
  dispatch-Advances socks5_host bytes s e i = recv_socks5_host-Advances bytes s (ap rank e)
  dispatch-Advances socks5_port bytes s e i = recv_socks5_port-Advances bytes s (ap rank e)
