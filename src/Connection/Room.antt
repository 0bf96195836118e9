-- ===== src/Connection/Room.antt =====
-- Sending leaves what was received alone, and ends.
use asyncssh.Base.{
  ℕ, zero, suc, ◌≤◌, ◌≡◌, refl, true, not, ◌&&◌, ◌||◌, List, [], ◌∷◌, length, ◌==◌, Result, ok,
}
use asyncssh.Packet.{string, uint32}
use asyncssh.Connection.Types.{World, Connection, Deferred, Step, returns, is_some, using}
use asyncssh.Connection.Send.{
  emit, send_now, needs_rekey, must_wait, send_kexinit_by, rekey_first, ignore_first,
  send_packet_fuel, send_packet, send_kexinit, send_all, send_deferred_packets, send_disconnect,
  kexinit_packet,
}
use asyncssh.Connection.Rules.{keep_using, keep_then, keep_if, keep_if_state}
use asyncssh.Connection.Ends.{Ends, returned, ends_using, string-Ends, uint32-Ends}
use asyncssh.Connection.Depth.{send_packet-Ends, send_kexinit_by-Ends}

module _ {w : World} where
  -- At most `n` bytes wait in the buffer, and the blocks of the keys in use, and of those that come next, are not
  -- empty.
  pub record Room (n : ℕ) (c : Connection w) : Type 0 where
    pub short : length c.recv.inpbuf ≤ n
    pub block : 1 ≤ c.recv.keys.blocksize
    pub next : is_some c.next_keys.encryption ≡ true → 1 ≤ c.next_keys.blocksize

  pub as_before :
      {n : ℕ} {c : Connection w} (d : Connection w)
      → d.recv ≡ c.recv
      → d.next_keys ≡ c.next_keys
      → Room n c
      → Room n d
  as_before d r k g = record {
    short = rw (r) g.short;
    block = rw (r) g.block;
    next = rw (k) g.next;
  }

  -- A call that does not exceed a bound and leaves room.
  pub record Fine {A : Type 0} (n : ℕ) (s : Result A × Connection w) : Type 0 where
    pub ends : Ends s.0
    pub room : Room n s.1

  pub fine : {A : Type 0} {n : ℕ} (a : A) {c : Connection w} → Room n c → Fine n (ok a, c)
  fine a g = record { ends = returned a; room = g }

  pub fine_using :
      {A B : Type 0} {n : ℕ} (r : Result A) (f : A → Connection w → Result B × Connection w)
      (c : Connection w)
      → Ends r
      → Room n c
      → ((a : A) → Fine n (f a c))
      → Fine n (using r f c)
  fine_using {n = n} r f c e g k = record {
    ends = ends_using r f c e (λ a _. (k a).ends);
    room = keep_using (Room n) r f c g (λ a. (k a).room);
  }

module _ (w : World) (n : ℕ) where
  send_now-Room :
      (t : ℕ) (args : List (List ℕ)) (c : Connection w) → Room n c → Room n (send_now w t args c).1
  unfolding send_now
  send_now-Room t args c g =
      keep_using (Room n) (emit w c.has_transport c.strict_kex c.auth_complete t args c.send).0 _ _
        (as_before _ refl refl g) (λ m. as_before _ refl refl g)

  module _ (send : ℕ → List (List ℕ) → Connection w → Step w)
      (keeps : (t : ℕ) (args : List (List ℕ)) (c : Connection w)
        → Room n c
        → Room n (send t args c).1) where
    send_kexinit_by-Room : (c : Connection w) → Room n c → Room n (send_kexinit_by w send c).1
    unfolding send_kexinit_by
    send_kexinit_by-Room c g =
        keep_using (Room n) (kexinit_packet (w.urandom c.send.draws 16) c.offer) _ _
          (as_before _ refl refl g)
          (λ packet. keeps 20 _ _ (
            keep_if_state (Room n) c.is_server _ _ (λ e. as_before _ refl refl g)
              (λ e. as_before _ refl refl g)))

    rekey_first-Room : (c : Connection w) → Room n c → Room n (rekey_first w send c).1
    unfolding rekey_first
    rekey_first-Room c g =
        let d = record c { moment = suc c.moment } in
        let h : Room n d = as_before d refl refl g in
        keep_if (Room n) {B = Unit {0}} (needs_rekey w d) _ _
          (λ e.
            keep_then (Room n) (send_kexinit_by w send d)
              (λ c. returns (record c { kexinit_sent = true })) (send_kexinit_by-Room d h)
              (λ d k. as_before _ refl refl k))
          (λ e. h)

    ignore_first-Room : (t : ℕ) (c : Connection w) → Room n c → Room n (ignore_first w send t c).1
    unfolding ignore_first
    ignore_first-Room t c g =
        keep_if (Room n) {B = Unit {0}} (is_some c.send.encryption && not (t == 2 || t == 7)) _ _
          (λ f. keep_using (Room n) (string []) _ c g (λ empty. keeps 2 (empty ∷ []) c g)) (λ f. g)

  send_packet_fuel-Room :
      (m t : ℕ) (args : List (List ℕ)) (c : Connection w)
      → Room n c
      → Room n (send_packet_fuel w m t args c).1
  unfolding send_packet_fuel
  send_packet_fuel-Room zero t args c g = g
  send_packet_fuel-Room (suc m) t args c g =
      let send = send_packet_fuel w m in
      let keeps = send_packet_fuel-Room m in
      keep_then (Room n) (rekey_first w send c) _ (rekey_first-Room send keeps c g) (λ d k.
        keep_if (Room n) {B = Unit {0}} (must_wait w t d) _ _ (λ e. as_before _ refl refl k)
          (λ e.
            keep_then (Room n) (ignore_first w send t d) (send_now w t args)
              (ignore_first-Room send keeps t d k) (send_now-Room t args)))

  pub send_packet-Fine :
      (t : ℕ) (args : List (List ℕ)) (c : Connection w) → Room n c → Fine n (send_packet w t args c)
  unfolding send_packet
  send_packet-Fine t args c g = record {
    ends = send_packet-Ends w t args c;
    room = send_packet_fuel-Room 4 t args c g;
  }

  pub send_kexinit-Fine : (c : Connection w) → Room n c → Fine n (send_kexinit w c)
  unfolding send_kexinit send_packet
  send_kexinit-Fine c g = record {
    ends = (send_kexinit_by-Ends w 2 c).0;
    room = send_kexinit_by-Room (send_packet_fuel w 4) (send_packet_fuel-Room 4) c g;
  }

  send_all-Fine : (ds : List Deferred) (c : Connection w) → Room n c → Fine n (send_all w ds c)
  unfolding send_all
  send_all-Fine [] c g = fine tt g
  send_all-Fine ((t, args) ∷ ds) c g =
      let first = send_packet-Fine t args c g in
      fine_using (send_packet w t args c).0 _ _ first.ends first.room
        (λ u. send_all-Fine ds _ first.room)

  pub send_deferred_packets-Fine :
      (c : Connection w) → Room n c → Fine n (send_deferred_packets w c)
  unfolding send_deferred_packets
  send_deferred_packets-Fine c g = send_all-Fine c.deferred_packets _ (as_before _ refl refl g)

  pub send_disconnect-Fine :
      (code : ℕ) (reason lang : List ℕ) (c : Connection w)
      → Room n c
      → Fine n (send_disconnect w code reason lang c)
  unfolding send_disconnect
  send_disconnect-Fine code reason lang c g =
      fine_using (uint32 code) _ c (uint32-Ends code) g (λ x.
        fine_using (string reason) _ c (string-Ends reason) g (λ y.
          fine_using (string lang) _ c (string-Ends lang) g
            (λ z. send_packet-Fine 1 (x ∷ y ∷ z ∷ []) c g)))
