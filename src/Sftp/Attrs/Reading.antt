-- ===== src/Sftp/Attrs/Reading.antt =====
-- What a decoder reads from bytes, wherever they stand in a packet.
use mathlib.Core.List.{append_assoc, append-nil}
use asyncssh.Base.{
  ℕ, ◌+◌, ◌≡◌, refl, subst, Bool, Option, none, some, List, [], ◌∷◌, ◌++◌, if◌then◌else◌, Result,
  ok, >>=-eq-ok,
}
use asyncssh.Packet.{Decoder, and_then, fmap}
use asyncssh.Packet.RoundTrip.{cursor}
use asyncssh.Sftp.Attrs.{Draft, given, is_given, join, pair}
use asyncssh.Sftp.Attrs.Decode.{optional, get_pair}

-- From `bytes` the decoder reads `x`, and nothing of what follows.
pub record Reads {A : Type 0} (get : Decoder A) (bytes : List ℕ) (x : A) : Type 0 where
  pub reads :
      (front rest : List ℕ)
      → get (cursor front (bytes ++ rest)) ≡ (ok x, cursor (front ++ bytes) rest)

pub nothing_read : {A : Type 0} (x : A) → Reads (λ p. (ok x, p)) [] x
nothing_read x = record { reads = λ front rest. rw (append-nil front) }

pub fmap-Reads :
    {A B : Type 0} (f : A → B) (get : Decoder A) (bytes : List ℕ) (x : A)
    → Reads get bytes x
    → Reads (fmap f get) bytes (f x)
fmap-Reads f get bytes x h = record { reads = λ front rest. rw (h.reads front rest) }

pub then-Reads :
    {A B : Type 0} (get : Decoder A) (next : A → Decoder B) (bytes more : List ℕ) (x : A) (y : B)
    → Reads get bytes x
    → Reads (next x) more y
    → Reads (and_then get next) (bytes ++ more) y
then-Reads get next bytes more x y h k = record {
  reads = λ front rest. rw (
    append_assoc bytes more rest,
    h.reads front (more ++ rest),
    k.reads (front ++ bytes) rest,
    append_assoc front bytes more,
  );
}

pub pair-Reads :
    {A B : Type 0} (first : Decoder A) (second : Decoder B) (bytes more : List ℕ) (x : A) (y : B)
    → Reads first bytes x
    → Reads second more y
    → Reads (get_pair first second) (bytes ++ more) (x, y)
pair-Reads first second bytes more x y h k = record {
  reads = λ front rest. rw (
    append_assoc bytes more rest,
    h.reads front (more ++ rest),
    k.reads (front ++ bytes) rest,
    append_assoc front bytes more,
  );
}

module _ {A : Type 0} where
  pub given-flag :
      (flag : ℕ) (o : Option A) (encode : A → Result (List ℕ)) (f : ℕ) (bytes : List ℕ)
      → given flag o encode ≡ ok (f, bytes)
      → f ≡ (if is_given o then flag else 0)
  given-flag flag none encode f bytes h = cc
  given-flag flag (some x) encode f bytes h = let (enc, first, e) = >>=-eq-ok (encode x) _ h in cc

  abbrev pub through : {B : Type 0} → (A → B) → Option A → Option B
  through view none = none
  through view (some x) = some (view x)

  -- A field that is there if its flag says so.
  pub optional-Reads :
      {B : Type 0} (flag : ℕ) (o : Option A) (encode : A → Result (List ℕ)) (get : Decoder B)
      (view : A → B) (told : Bool) (f : ℕ) (bytes : List ℕ)
      → ((x : A) (enc : List ℕ) → o ≡ some x → encode x ≡ ok enc → Reads get enc (view x))
      → told ≡ is_given o
      → given flag o encode ≡ ok (f, bytes)
      → Reads (optional told get) bytes (through view o)
  optional-Reads flag none encode get view told f bytes k t h =
      let none_ : [] ≡ bytes = cc in rw (t, ← none_) (nothing_read none)
  optional-Reads flag (some x) encode get view told f bytes k t h =
      let (enc, first, e) = >>=-eq-ok (encode x) _ h in
      let all : enc ≡ bytes = cc in
      rw (t, ← all) (fmap-Reads some get enc (view x) (k x enc refl first))

  pub same_through : (o : Option A) → through (λ x. x) o ≡ o
  same_through none = refl
  same_through (some x) = refl

  -- The same, for a field that is read as it was given.
  pub given-Reads :
      (flag : ℕ) (o : Option A) (encode : A → Result (List ℕ)) (get : Decoder A) (told : Bool)
      (f : ℕ) (bytes : List ℕ)
      → ((x : A) (enc : List ℕ) → o ≡ some x → encode x ≡ ok enc → Reads get enc x)
      → told ≡ is_given o
      → given flag o encode ≡ ok (f, bytes)
      → Reads (optional told get) bytes o
  given-Reads flag o encode get told f bytes k t h =
      subst (Reads (optional told get) bytes) (same_through o)
        (optional-Reads flag o encode get (λ x. x) told f bytes k t h)

-- The parts of what `join` makes.
pub join-eq-ok :
    (d : Draft) (ds : List Draft) (f : ℕ) (bytes : List ℕ)
    → join (d ∷ ds) ≡ ok (f, bytes)
    → (f1 : ℕ) × (b1 : List ℕ) × (f2 : ℕ) × (b2 : List ℕ) × (d ≡ ok (f1, b1))
      × (join ds ≡ ok (f2, b2))
      × (f ≡ f1 + f2)
      × (b1 ++ b2 ≡ bytes)
unfolding join
join-eq-ok d ds f bytes h =
    let ((f1, b1), first, rest) = >>=-eq-ok d _ h in
    let ((f2, b2), second, e) = >>=-eq-ok (join ds) _ rest in
    (f1, b1, f2, b2, first, second, cc, cc)

pub join-nil : (f : ℕ) (bytes : List ℕ) → join [] ≡ ok (f, bytes) → (f ≡ 0) × ([] ≡ bytes)
unfolding join
join-nil f bytes h = (cc, cc)

pub pair-eq-ok :
    (r s : Result (List ℕ)) (bytes : List ℕ)
    → pair r s ≡ ok bytes
    → (b1 : List ℕ) × (b2 : List ℕ) × (r ≡ ok b1) × (s ≡ ok b2) × (b1 ++ b2 ≡ bytes)
unfolding pair
pair-eq-ok r s bytes h =
    let (b1, first, rest) = >>=-eq-ok r _ h in
    let (b2, second, e) = >>=-eq-ok s _ rest in (b1, b2, first, second, cc)
