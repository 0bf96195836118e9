-- ===== src/Connection/PacketRoom.antt =====
-- Taking a packet out of the buffer ends, and does not lengthen it.
use asyncssh.Base.{
  ℕ, ◌+◌, ◌≤◌, ◌≡◌, refl, arith, Bool, not, ◌||◌, Option, none, some, List, [], ◌∷◌, length,
  length-drop, is_empty, if◌then◌else◌, if_either, Result, ok, err, Error,
}
use asyncssh.Base.Int.{ℤ}
use asyncssh.Base.Slices.{diff, slice_to, slice_from, slice, shorter, position}
use asyncssh.Connection.Types.{World, Receiving, Connection, using}
use asyncssh.Connection.Receive.{strip_padding, decrypt, inflate, open_payload, open_packet}
use asyncssh.Connection.Ends.{Ends, returned, raised, ends_using}
use asyncssh.Connection.Room.{Room}

module _ (w : World) where
  -- Room, of the receiving side of a connection.
  pub record Small (n b : ℕ) (r : Receiving w) : Type 0 where
    pub short : length r.inpbuf ≤ n
    pub block : r.keys.blocksize ≡ b

  pub record Opened {A : Type 0} (n b : ℕ) (s : Result A × Receiving w) : Type 0 where
    pub ends : Ends s.0
    pub small : Small n b s.1

  receiver_step :
      {A B : Type 0} {n b : ℕ} (r : Result A) (f : A → Receiving w → Result B × Receiving w)
      (c : Receiving w)
      → Small n b c
      → ((a : A) → Small n b (f a c).1)
      → Small n b (using r f c).1
  receiver_step (ok a) f c g k = k a
  receiver_step (err x) f c g k = g

  payload_step :
      {A B : Type 0} {n b : ℕ} (r : Result A) (f : A → Receiving w → Result B × Receiving w)
      (c : Receiving w)
      → Ends r
      → Small n b c
      → ((a : A) → Opened n b (f a c))
      → Opened n b (using r f c)
  payload_step {n = n} {b = b} r f c e g k = record {
    ends = ends_using r f c e (λ a _. (k a).ends);
    small = receiver_step r f c g (λ a. (k a).small);
  }

  strip_padding-Ends : (bytes : List ℕ) → Ends (strip_padding bytes)
  unfolding strip_padding
  strip_padding-Ends [] = raised Error.index_error refl
  strip_padding-Ends (padlen ∷ rest) = returned _

  unpacked :
      (r : Option (List ℕ) × w.Stream)
      → Ends
          (elim r.0 as (λ _. Result (List ℕ) × Option w.Stream) [
            | none ↦ (err Error.disconnect_error, some r.1)
            | some payload ↦ (ok payload, some r.1)
          ]).0
  unpacked (none, z) = raised Error.disconnect_error refl
  unpacked (some payload, z) = returned payload

  inflate-Ends :
      (a b : Bool) (z : Option w.Stream) (bytes : List ℕ) → Ends (inflate w a b z bytes).0
  unfolding inflate
  inflate-Ends a b none bytes = returned bytes
  inflate-Ends a b (some z) bytes =
      if_either (λ (s : Result (List ℕ) × Option w.Stream). Ends s.0) (a || not b)
        (λ _. unpacked (w.decompress z bytes)) (λ _. returned bytes)

  open_payload-Opened :
      (n b : ℕ) (a : Bool) (data_ : List ℕ) (r : Receiving w)
      → Small n b r
      → Opened n b (open_payload w a data_ r)
  unfolding open_payload
  open_payload-Opened n b a data_ r g =
      payload_step (strip_padding data_) _ r (strip_padding-Ends data_) g (λ orig. record {
        ends = inflate-Ends a r.keys.decompress_after_auth r.keys.decompressor orig;
        small = record { short = g.short; block = g.block };
      })

  found :
      (d : Option (List ℕ))
      → Ends (elim d as (λ _. Result (List ℕ)) [
        | none ↦ err Error.mac_error
        | some bytes ↦ if is_empty bytes then err Error.mac_error else ok bytes
      ])
  found none = raised Error.mac_error refl
  found (some bytes) =
      if_either Ends (is_empty bytes) (λ _. raised Error.mac_error refl) (λ _. returned bytes)

  decrypt-Ends :
      (key : Option w.Cipher) (seq : ℕ) (first rest mac : List ℕ)
      → Ends (decrypt w key seq first rest mac).0
  unfolding decrypt
  decrypt-Ends none seq first rest mac = returned _
  decrypt-Ends (some key) seq first rest mac = found (w.decrypt_packet key seq first rest 4 mac).0

  length-slice_from : (i : ℤ) (bytes : List ℕ) → length (slice_from i bytes) ≤ length bytes
  unfolding slice_from
  length-slice_from i bytes = omega (arith, length-drop (position (length bytes) i) bytes)

  -- What `open_packet` gives, if it gives anything.
  abbrev MaybeOpened : ℕ → ℕ → Option (Result (List ℕ) × Receiving w) → Type 0
  MaybeOpened n b none = Unit {0}
  MaybeOpened n b (some s) = Opened n b s

  open_packet-Opened :
      (n b : ℕ) (a : Bool) (r : Receiving w) → Small n b r → MaybeOpened n b (open_packet w a r)
  unfolding open_packet
  open_packet-Opened n b a r g =
      let total = 4 + r.pktlen in
      let rem = diff (total + r.keys.macsize) r.keys.blocksize in
      let end_ = diff total r.keys.blocksize in
      let plain =
        decrypt w r.keys.encryption r.seq r.packet (slice_to end_ r.inpbuf)
          (slice end_ rem r.inpbuf) in
      if_either (MaybeOpened n b) (shorter (length r.inpbuf) rem) (λ _. tt)
        (λ _.
          payload_step plain.0 _ _ (decrypt-Ends r.keys.encryption r.seq r.packet _ _)
            (record { short = g.short; block = g.block })
            (λ packet_data. open_payload-Opened n b a packet_data _ (record {
              short = omega (arith, length-slice_from rem r.inpbuf, g.short);
              block = g.block;
            })))

  abbrev pub MaybeRoom : ℕ → Connection w → Option (Result (List ℕ) × Receiving w) → Type 0
  MaybeRoom n c none = Unit {0}
  MaybeRoom n c (some s) = Ends s.0 × Room n (record c { recv = s.1 })

  -- Before the payload is dispatched.
  pub opened-Room :
      (n : ℕ) (c : Connection w) → Room n c → MaybeRoom n c (open_packet w c.auth_complete c.recv)
  opened-Room n c g = with_packet (open_packet w c.auth_complete c.recv) (
      open_packet-Opened n c.recv.keys.blocksize c.auth_complete c.recv
        (record { short = g.short; block = refl }))
    where
      with_packet :
          (o : Option (Result (List ℕ) × Receiving w))
          → MaybeOpened n c.recv.keys.blocksize o
          → MaybeRoom n c o
      with_packet none h = tt
      with_packet (some s) h = (
        h.ends,
        record {
          short = h.small.short;
          block = omega (arith, h.small.block, g.block);
          next = g.next;
        },
      )
