-- ===== src/Connection/Toy.antt =====
-- Ciphers that can be followed by hand, for the tests: each byte is increased by one, a MAC has two bytes, and
-- nothing is compressed.
use asyncssh.Base.{
  ℕ, zero, suc, ◌-◌, ◌≡◌, refl, sym, ap, ◌∙◌, arith, some, List, [], ◌∷◌, ◌++◌, length, take, drop,
  replicate, length-append, length-replicate, take-append, drop-append,
}
use asyncssh.Encryption.Shims.{Primitives}
use asyncssh.Encryption.Opening.{CipherLaws}
use asyncssh.Connection.Types.{World}
use asyncssh.Connection.Framing.{Laws}
use asyncssh.Connection.Objects.{System, SystemLaws, world, world_laws}

abbrev pub raise : List ℕ → List ℕ
raise [] = []
raise (b ∷ bs) = suc b ∷ raise bs

abbrev pub lower : List ℕ → List ℕ
lower [] = []
lower (b ∷ bs) = (b - 1) ∷ lower bs

pub lower-raise : (bs : List ℕ) → lower (raise bs) ≡ bs
lower-raise [] = refl
lower-raise (b ∷ bs) = let e : suc b - 1 ≡ b = omega arith in rw (e, lower-raise bs) refl

pub length-raise : (bs : List ℕ) → length (raise bs) ≡ length bs
length-raise [] = refl
length-raise (b ∷ bs) = ap suc (length-raise bs)

pub take-raise : (n : ℕ) (bs : List ℕ) → take n (raise bs) ≡ raise (take n bs)
take-raise zero bs = refl
take-raise (suc n) [] = refl
take-raise (suc n) (b ∷ bs) = ap (λ t. suc b ∷ t) (take-raise n bs)

pub drop-raise : (n : ℕ) (bs : List ℕ) → drop n (raise bs) ≡ raise (drop n bs)
drop-raise zero bs = refl
drop-raise (suc n) [] = refl
drop-raise (suc n) (b ∷ bs) = drop-raise n bs

abbrev pub tag : List ℕ
tag = replicate 16 0

abbrev pub primitives : Primitives
primitives = record {
  Hash = Unit {0};
  Umac = Unit {0};
  Basic = Unit {0};
  Gcm = Unit {0};
  Chacha = Unit {0};
  digest = λ alg key bytes. length bytes ∷ 7 ∷ [];
  umac_digest = λ alg key packet nonce. length packet ∷ 9 ∷ [];
  encrypt = λ c bytes. (raise bytes, c);
  decrypt = λ c bytes. (lower bytes, c);
  gcm_seal = λ c header packet. ((header ++ raise packet, tag), c);
  gcm_open = λ c header packet mac. (some (lower packet), c);
  chacha_seal = λ c header packet nonce. (raise (header ++ packet), tag);
  chacha_header = λ c header nonce. lower header;
  chacha_open = λ c header packet nonce mac. some (lower packet);
}

abbrev pub cipher_laws : CipherLaws primitives
cipher_laws = record {
  BasicPair = λ tx rx b. Unit {0};
  decrypts = λ tx rx b k plain pair h. (length-raise plain, lower-raise plain, tt);
  decrypts_split = λ tx rx b k plain pair h. (
    ap lower (take-raise b plain) ∙ lower-raise (take b plain),
    ap lower (drop-raise b plain) ∙ lower-raise (drop b plain),
    tt,
  );
  GcmPair = λ tx rx. Unit {0};
  gcm_opens = λ tx rx header packet pair h.
      let body : drop 4 (header ++ raise packet) ≡ raise packet =
        drop-append 4 header (raise packet) h in
      (
        rw (body) refl,
        rw (body) (length-raise packet),
        refl,
        rw (body) (ap some (lower-raise packet)),
        tt,
      );
  ChachaPair = λ tx rx. Unit {0};
  chacha_opens = λ tx rx header packet nonce pair h n. (
    length-raise (header ++ packet) ∙ omega (arith, length-append header packet, h),
    refl,
    ap lower (take-raise 4 (header ++ packet))
        ∙ lower-raise (take 4 (header ++ packet))
        ∙ take-append 4 header packet h,
    ap some (
        ap lower (drop-raise 4 (header ++ packet))
        ∙ lower-raise (drop 4 (header ++ packet))
        ∙ drop-append 4 header packet h),
  );
}

abbrev pub system : System
system = record {
  Stream = Unit {0};
  compress = λ z bytes. (some bytes, z);
  decompress = λ z bytes. (some bytes, z);
  urandom = λ n size. replicate size 5;
}

abbrev pub system_laws : SystemLaws system
system_laws = record {
  InStep = λ z u. Unit {0};
  inflates = λ z u plain packed step e. (sym e, tt);
  random_size = λ n size. length-replicate size 5;
}

abbrev pub toy : World
toy = world primitives system

abbrev pub toy_laws : Laws toy
toy_laws = world_laws primitives system cipher_laws system_laws
