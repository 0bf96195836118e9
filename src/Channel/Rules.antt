-- ===== src/Channel/Rules.antt =====
-- How a predicate of channels passes through the ways in which methods are built.
use asyncssh.Base.{Bool, true, false, ◌≡◌, refl, Result, ok, err, if◌then◌else◌}
use asyncssh.Packet.{SshPacket, Decoder}
use asyncssh.Channel.Types.{Channel, Step, proceed}
use asyncssh.Channel.Handlers.{decode, decoded}

-- The rules for a predicate `P`, of the state that a method leaves, whether it returns or raises.
module _ (P : Channel → Type 0) where
  pub keep_if :
      (b : Bool) (x y : Channel) → (b ≡ true → P x) → (b ≡ false → P y) → P (if b then x else y)
  keep_if true x y h k = h refl
  keep_if false x y h k = k refl

  pub keep_if_step :
      (b : Bool) (s t : Step) → (b ≡ true → P s.1) → (b ≡ false → P t.1) → P (if b then s else t).1
  keep_if_step true s t h k = h refl
  keep_if_step false s t h k = k refl

  pub keep_proceed :
      (r : Result (Unit {0})) (f : Channel → Step) (c : Channel)
      → P c
      → P (f c).1
      → P (proceed r f c).1
  keep_proceed (ok u) f c h k = k
  keep_proceed (err e) f c h k = h

  keep_decoded :
      {A : Type 0} (r : Result A) (q : SshPacket) (f : A → SshPacket → Channel → Step) (c : Channel)
      → P c
      → ((a : A) (q : SshPacket) → P (f a q c).1)
      → P (decoded r q f c).1
  keep_decoded (ok a) q f c h k = k a q
  keep_decoded (err e) q f c h k = h

  pub keep_decode :
      {A : Type 0} (m : Decoder A) (p : SshPacket) (f : A → SshPacket → Channel → Step)
      (c : Channel)
      → P c
      → ((a : A) (q : SshPacket) → P (f a q c).1)
      → P (decode m p f c).1
  keep_decode m p f c h k = keep_decoded (m p).0 (m p).1 f c h k
