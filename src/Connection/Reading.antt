-- ===== src/Connection/Reading.antt =====
-- Receiving shortens the buffer: the version line, packet headers and packets, up to the payload.
use asyncssh.Base.{
  ℕ, suc, ◌-◌, ◌≡◌, refl, arith, Bool, true, false, not, ◌&&◌, ◌||◌, Option, none, some, List,
  length, take, drop, length-drop, ltb, leb, if◌then◌else◌, if_either, ok, err, Error,
}
use asyncssh.Connection.Types.{World, Receiving, Connection}
use asyncssh.Connection.Send.{ssh2, send_kexinit}
use asyncssh.Connection.Receive.{
  Progress, force_close, is_ascii, find_line, strip_cr, starts_with, ssh, ssh199, accept_version,
  recv_version, recv_pkthdr,
}
use asyncssh.Connection.Ends.{Ends, raised}
use asyncssh.Connection.Room.{Room, as_before, Fine, fine, fine_using, send_kexinit-Fine}

module _ {w : World} where
  pub looser : {n : ℕ} {c : Connection w} → Room (n - 1) c → Room n c
  looser g = record { short = omega (arith, g.short); block = g.block; next = g.next }

  pub refused :
      {A : Type 0} {n : ℕ} (e : Error) {c : Connection w}
      → Ends {A = A} (err e)
      → Room n c
      → Fine {A = A} n (err e, c)
  refused e h g = record { ends = h; room = g }

  -- A call that does not exceed a bound, and that has read something if it made progress.
  pub record Shrinks (n : ℕ) (s : Progress w) : Type 0 where
    pub fine_ : Fine n s
    pub less : s.0 ≡ ok true → Room (n - 1) s.1

  pub shrunk : {n : ℕ} {s : Progress w} → Fine (n - 1) s → Shrinks n s
  shrunk h = record { fine_ = record { ends = h.ends; room = looser h.room }; less = λ e. h.room }

  pub stuck : {n : ℕ} {c : Connection w} → Room n c → Shrinks n (ok false, c)
  stuck g = record { fine_ = fine false g; less = λ e. cc }

  option_step :
      {A : Type 0} {n : ℕ} (o : Option A) (x : Progress w) (f : A → Progress w)
      → Shrinks n x
      → ((a : A) → Shrinks n (f a))
      → Shrinks n (elim o as (λ _. Progress w) [ none ↦ x | some a ↦ f a ])
  option_step none x f h k = h
  option_step (some a) x f h k = k a

  pub force_close-Room :
      {n : ℕ} (e : Option Error) (c : Connection w) → Room n c → Room n (force_close e c)
  unfolding force_close
  force_close-Room {n = n} e c g =
      if_either (Room n) c.has_transport (λ _. as_before _ refl refl g) (λ _. g)

module _ (w : World) where
  accept_version-Fine :
      (n : ℕ) (version : List ℕ) (c : Connection w) → Room n c → Fine n (accept_version w version c)
  unfolding accept_version
  accept_version-Fine n version c g =
      let d = if ltb 255 (length version) then force_close (some Error.protocol_error) c else c in
      let closed : Room n d =
        if_either (Room n) (ltb 255 (length version))
          (λ _. force_close-Room (some Error.protocol_error) c g) (λ _. g) in
      let e =
        if c.is_server
        then record d { client_version = version }
        else record d { server_version = version } in
      let named : Room n e =
        if_either (Room n) c.is_server (λ _. as_before _ refl refl closed)
          (λ _. as_before _ refl refl closed) in
      if_either (λ (s : Progress w). Fine n s) (is_ascii version)
        (λ _.
          let sent = send_kexinit-Fine w n e named in
          fine_using (send_kexinit w e).0 _ _ sent.ends sent.room (λ u.
            fine true
              (record { short = sent.room.short; block = sent.room.block; next = sent.room.next })))
        (λ _. refused Error.unicode_error (raised Error.unicode_error refl) named)

  pub recv_version-Shrinks : (n : ℕ) (c : Connection w) → Room n c → Shrinks n (recv_version w c)
  unfolding recv_version
  recv_version-Shrinks n c g =
      option_step (find_line (take 8192 c.recv.inpbuf)) _ _
        (stuck (
          if_either (Room n) (leb 8192 (length c.recv.inpbuf))
            (λ _. force_close-Room (some Error.protocol_error) c g) (λ _. g)))
        (λ line.
          let r = c.recv in
          let d = record c { recv = record r { inpbuf = drop (suc (length line)) r.inpbuf } } in
          let rest : Room (n - 1) d = record {
            short = omega (arith, length-drop (suc (length line)) c.recv.inpbuf, g.short);
            block = g.block;
            next = g.next;
          } in
          let e = record d { banner_lines = suc d.banner_lines } in
          let counted : Room (n - 1) e = as_before e refl refl rest in
          let version = strip_cr line in
          shrunk (
            if_either (λ (s : Progress w). Fine (n - 1) s)
              (starts_with ssh2 version || not c.is_server && starts_with ssh199 version)
              (λ _. accept_version-Fine (n - 1) (strip_cr line) d rest)
              (λ _.
                if_either (λ (s : Progress w). Fine (n - 1) s)
                  (not c.is_server && not (starts_with ssh version))
                  (λ _.
                    if_either (λ (s : Progress w). Fine (n - 1) s) (ltb 1024 e.banner_lines)
                      (λ _. fine false (force_close-Room (some Error.protocol_error) e counted))
                      (λ _. fine true counted))
                  (λ _. fine false (force_close-Room (some Error.disconnect_error) d rest)))))

  pub recv_pkthdr-Shrinks :
      (n : ℕ) (c : Connection w)
      → Room n c
      → Shrinks n (let r = recv_pkthdr w c.recv in (ok r.0, record c { recv = r.1 }))
  unfolding recv_pkthdr
  recv_pkthdr-Shrinks n c g =
      if_either (λ (r : Bool × Receiving w). Shrinks n (ok r.0, record c { recv = r.1 }))
        (ltb (length c.recv.inpbuf) c.recv.keys.blocksize) (λ _. stuck g)
        (λ _. shrunk (
          fine true (record {
            short =
                omega (arith, length-drop c.recv.keys.blocksize c.recv.inpbuf, g.short, g.block);
            block = g.block;
            next = g.next;
          })))
