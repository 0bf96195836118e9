-- ===== src/Connection/Ends.antt =====
-- Calls that do not run out of a model's bound: the rules, and the encoders.
use asyncssh.Base.{
  ℕ, ◌≡◌, ◌≢◌, refl, arith, Bool, true, false, List, [], ◌∷◌, ◌++◌, ap, length, is_empty,
  if◌then◌else◌, Result, ok, err, Error, ◌>>=◌,
}
use asyncssh.Base.Bytes.{to_bytes}
use asyncssh.Packet.{byte, boolean, uint32, string, name_list, join}
use asyncssh.Connection.Types.{Offer, using}
use asyncssh.Connection.Send.{concat, kexinit_packet}

-- A result other than the one of a bound that was too small.
pub record Ends {A : Type 0} (r : Result A) : Type 0 where
  pub apart : r ≢ err Error.out_of_fuel

abbrev is_fuel : Error → Bool
is_fuel Error.out_of_fuel = true
is_fuel _ = false

pub returned : {A : Type 0} (a : A) → Ends (ok a)
returned a = record { apart = λ e. ground arith }

pub raised : {A : Type 0} (e : Error) → is_fuel e ≡ false → Ends {A = A} (err e)
raised e h = record { apart = λ p. ground arith }

-- The same error, as a result of another type.
ap_err :
    {A B : Type 0} {e f : Error}
    → ◌≡◌ {A = Result B} (err e) (err f)
    → ◌≡◌ {A = Result A} (err e) (err f)
ap_err p = ap err (ground arith)

pub retype : {A B : Type 0} (e : Error) → Ends {A = A} (err e) → Ends {A = B} (err e)
retype e h = record { apart = λ p. h.apart (ap_err p) }

pub ends_bind :
    {A B : Type 0} (r : Result A) (f : A → Result B)
    → Ends r
    → ((a : A) → Ends (f a))
    → Ends (r >>= f)
ends_bind (ok a) f h k = k a
ends_bind (err e) f h k = record { apart = λ p. h.apart (ap_err p) }

pub ends_using :
    {S A B : Type 0} (r : Result A) (f : A → S → Result B × S) (s : S)
    → Ends r
    → ((a : A) → r ≡ ok a → Ends (f a s).0)
    → Ends (using r f s).0
ends_using (ok a) f s h k = k a refl
ends_using (err e) f s h k = record { apart = λ p. h.apart (ap_err p) }

ends_if : {A : Type 0} (b : Bool) (x y : Result A) → Ends x → Ends y → Ends (if b then x else y)
ends_if true x y h k = h
ends_if false x y h k = k

pub ends_if_step :
    {A S : Type 0} (b : Bool) (x y : Result A × S)
    → (b ≡ true → Ends x.0)
    → (b ≡ false → Ends y.0)
    → Ends (if b then x else y).0
ends_if_step true x y h k = h refl
ends_if_step false x y h k = k refl

to_bytes-Ends : (n v : ℕ) → Ends (to_bytes n v)
unfolding to_bytes
to_bytes-Ends n v = ends_if _ _ _ (returned _) (raised _ refl)

pub byte-Ends : (v : ℕ) → Ends (byte v)
unfolding byte
byte-Ends v = ends_if _ _ _ (returned _) (raised _ refl)

pub uint32-Ends : (v : ℕ) → Ends (uint32 v)
unfolding uint32
uint32-Ends v = to_bytes-Ends 4 v

pub string-Ends : (v : List ℕ) → Ends (string v)
unfolding string
string-Ends v =
    ends_bind (to_bytes 4 (length v)) _ (to_bytes-Ends 4 (length v)) (λ size. returned _)

name_list-Ends : (names : List (List ℕ)) → Ends (name_list names)
unfolding name_list
name_list-Ends names = string-Ends (join names)

pub kexinit_packet-Ends : (cookie : List ℕ) (o : Offer) → Ends (kexinit_packet cookie o)
unfolding kexinit_packet boolean
kexinit_packet-Ends cookie o =
    ends_bind (name_list o.kex_algs) _ (name_list-Ends o.kex_algs) (λ kex.
      ends_bind
        (name_list
          (if is_empty o.host_key_algs then (110 ∷ 117 ∷ 108 ∷ 108 ∷ []) ∷ [] else o.host_key_algs))
        _ (name_list-Ends _)
        (λ host. ends_bind (name_list o.enc_algs) _ (name_list-Ends o.enc_algs) (λ enc.
          ends_bind (name_list o.mac_algs) _ (name_list-Ends o.mac_algs) (λ mac.
            ends_bind (name_list o.cmp_algs) _ (name_list-Ends o.cmp_algs) (λ cmp.
              ends_bind (name_list []) _ (name_list-Ends []) (λ langs.
                ends_bind (boolean false) _ (byte-Ends 0) (λ follows.
                  ends_bind (uint32 0) _ (uint32-Ends 0) (λ reserved. returned (
                    20 ∷ cookie
                    ++ concat (
                        kex ∷ host ∷ enc ∷ enc ∷ mac ∷ mac ∷ cmp ∷ cmp ∷ langs ∷ langs ∷ follows
                        ∷ reserved ∷ []))))))))))
