-- ===== src/Socks/Rules.antt =====
-- How far a SOCKS forwarder is from the end of its handshake, and how the pieces of which handlers are built
-- bring it nearer.
use asyncssh.Base.{
  ℕ, ◌+◌, ◌<◌, ◌≡◌, ◌≢◌, refl, ap, arith, Bool, true, false, none, some, List, [], ◌∷◌, ◌++◌,
  replicate, get_elem?, if◌then◌else◌, ok, err, Error,
}
use asyncssh.Socks.Machine.{
  Handler, idle, version, socks4_addr, socks4_user, socks4_hostname, socks5_authlist,
  socks5_command, socks5_addr, socks5_hostlen, socks5_host, socks5_port, Needed, Forwarder, Step,
  returns, raises, close, connect, socks5_addr_len, send_socks4_ok, send_socks5_ok, with_transport,
  write, expect, proceed,
}

-- How many handlers may follow.
unfoldable pub rank : Handler → ℕ
rank idle = 0
rank version = 7
rank socks4_addr = 4
rank socks4_user = 3
rank socks4_hostname = 2
rank socks5_authlist = 6
rank socks5_command = 5
rank socks5_hostlen = 4
rank socks5_host = 3
rank socks5_addr = 3
rank socks5_port = 2

unfoldable pub bit : Bool → ℕ
bit true = 1
bit false = 0

abbrev pub measure : Forwarder → ℕ
measure s = rank s.recv_handler + bit s.has_transport

-- A call raised, or it came nearer to the end by at least one and left the input alone.
pub data Advances (n : ℕ) (rest : List ℕ) : Step → Type 0 where
  stopped : {e : Error} {t : Forwarder} → e ≢ Error.out_of_fuel → Advances n rest (err e, t)
  nearer : {t : Forwarder} → measure t < n → t.inpbuf ≡ rest → Advances n rest (ok tt, t)

module _ {n : ℕ} {rest : List ℕ} where
  pub if-Advances :
      (b : Bool) {x y : Step}
      → (b ≡ true → Advances n rest x)
      → (b ≡ false → Advances n rest y)
      → Advances n rest (if b then x else y)
  if-Advances true f g = f refl
  if-Advances false f g = g refl

  pub at-Advances :
      (bytes : List ℕ) (i : ℕ) (s : Forwarder) {g : ℕ → Step}
      → ((b : ℕ) → Advances n rest (g b))
      → Advances n rest (elim (get_elem? bytes i) as (λ o. Step) [
        | none ↦ raises Error.index_error s
        | some b ↦ g b
      ])
  at-Advances bytes i s {g} h =
      elim (get_elem? bytes i)
        as (λ o.
          Advances n rest
            (elim o as (λ p. Step) [ none ↦ raises Error.index_error s | some b ↦ g b ])) [
              | none ↦ stopped (λ e. cc)
              | some b ↦ h b
            ]

  pub with_transport-Advances :
      (s : Forwarder) {x : Step}
      → (s.has_transport ≡ true → Advances n rest x)
      → Advances n rest (if s.has_transport then x else raises Error.assertion_error s)
  with_transport-Advances s h = if-Advances s.has_transport h (λ e. stopped (λ e. cc))

  pub expect-Advances :
      (k : Needed) (h : Handler) (s : Forwarder)
      → rank h + bit s.has_transport < n
      → s.inpbuf ≡ rest
      → Advances n rest (expect k h s)
  expect-Advances k h s d e = nearer d e

  pub close-Advances :
      (s : Forwarder) → rank s.recv_handler < n → s.inpbuf ≡ rest → Advances n rest (close s)
  unfolding close bit
  close-Advances s d e = nearer (omega (arith, d)) e

  pub connect-Advances : (s : Forwarder) → 1 < n → s.inpbuf ≡ rest → Advances n rest (connect s)
  unfolding connect rank bit
  connect-Advances s d e = with_transport-Advances s (λ t.
      let d' : rank idle + bit s.has_transport < n = omega (arith, ap bit t, d) in nearer d' e)

  pub proceed-Advances :
      (b : Bool) (f : Forwarder → Step) (e : Error) (s t : Forwarder)
      → e ≢ Error.out_of_fuel
      → (b ≡ true → Advances n rest (f s))
      → (let x = if b then returns s else raises e t in Advances n rest (proceed x.0 f x.1))
  proceed-Advances true f e s t h k = k refl
  proceed-Advances false f e s t h k = stopped h

  pub written-Advances :
      (w : List ℕ) (f : Forwarder → Step) (s : Forwarder)
      → (s.has_transport ≡ true → Advances n rest (f (record s { written = s.written ++ w })))
      → Advances n rest (proceed (write w s).0 f (write w s).1)
  written-Advances w f s h = proceed-Advances s.has_transport f _ _ s (λ e. cc) h

  pub socks4_done :
      (s : Forwarder)
      → 1 < n
      → s.inpbuf ≡ rest
      → Advances n rest (proceed (send_socks4_ok s).0 connect (send_socks4_ok s).1)
  unfolding send_socks4_ok
  socks4_done s d e = written-Advances _ connect s (λ t. connect-Advances _ d e)

  pub refused-Advances :
      (b : Bool) (f : Forwarder → Step) (t : Forwarder)
      → (let x = if b then raises Error.index_error t else raises Error.assertion_error t in
          Advances n rest (proceed x.0 f x.1))
  refused-Advances true f t = stopped (λ e. cc)
  refused-Advances false f t = stopped (λ e. cc)

  pub guarded-Advances :
      (b : Bool) (f : Forwarder → Step) (s t : Forwarder)
      → (b ≡ true → Advances n rest (f s))
      → (let y = if b then returns s else raises Error.assertion_error t in
          let x = if b then y else raises Error.assertion_error t in
          Advances n rest (proceed x.0 f x.1))
  guarded-Advances true f s t k = k refl
  guarded-Advances false f s t k = stopped (λ e. cc)

  pub socks5_done :
      (s : Forwarder)
      → 1 < n
      → s.inpbuf ≡ rest
      → Advances n rest (proceed (send_socks5_ok s).0 connect (send_socks5_ok s).1)
  unfolding send_socks5_ok
  socks5_done s d e =
      elim (socks5_addr_len s.addrtype)
        as (λ o.
          let x =
            with_transport
              (λ t. elim o as (λ p. Step) [
                | none ↦ raises Error.index_error t
                | some n ↦ write ((5 ∷ 0 ∷ 0 ∷ []) ++ t.addrtype ∷ replicate (n + 2) 0) t
              ])
              s in
          Advances n rest (proceed x.0 connect x.1)) [
            | none ↦ refused-Advances s.has_transport connect s
            | some k ↦ guarded-Advances s.has_transport connect _ s (λ t. connect-Advances _ d e)
          ]
