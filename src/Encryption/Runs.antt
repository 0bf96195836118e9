-- ===== src/Encryption/Runs.antt =====
-- The cipher classes over a package that can be followed by hand: a block cipher adds one to each byte, the key
-- stream of ChaCha20 is zero, and tags are zero.
use asyncssh.Base.{
  ℕ, suc, ◌+◌, ◌-◌, ◌≡◌, refl, ap, ◌∙◌, arith, Bool, true, false, some, List, [], ◌∷◌, ◌++◌, length,
  take, replicate, bytes_eq, length-append, take-append,
}
use asyncssh.Encryption.Shims.{gcm, encrypt_packet}
use asyncssh.Encryption.Opening.{gcm_pair, Opened}
use asyncssh.Encryption.Ciphers.{Package, GcmCipher, ciphers}
use asyncssh.Encryption.Inverting.{PackageLaws}
use asyncssh.Encryption.Sealing.{cipher_laws, decrypt-encrypt}
use asyncssh.Connection.Toy.{raise, lower, lower-raise, length-raise}

abbrev zeros : List ℕ
zeros = replicate 16 0

length-lower : (bs : List ℕ) → length (lower bs) ≡ length bs
length-lower [] = refl
length-lower (b ∷ bs) = ap suc (length-lower bs)

raise-append : (xs ys : List ℕ) → raise (xs ++ ys) ≡ raise xs ++ raise ys
raise-append [] ys = refl
raise-append (x ∷ xs) ys = ap (λ t. suc x ∷ t) (raise-append xs ys)

lower-append : (xs ys : List ℕ) → lower (xs ++ ys) ≡ lower xs ++ lower ys
lower-append [] ys = refl
lower-append (x ∷ xs) ys = ap (λ t. (x - 1) ∷ t) (lower-append xs ys)

abbrev toy_update : Bool → List ℕ → List ℕ × Bool
toy_update true bytes = (raise bytes, true)
toy_update false bytes = (lower bytes, false)

abbrev toy_package : Package
toy_package = record {
  Hash = Unit {0};
  Umac = Unit {0};
  digest = λ alg key bytes. 7 ∷ [];
  umac_digest = λ alg key packet nonce. 9 ∷ [];
  Cipher = Unit {0};
  Context = Bool;
  encryptor = λ c. true;
  decryptor = λ c. false;
  update = toy_update;
  aesgcm_encrypt = λ key iv plain header. raise plain ++ zeros;
  aesgcm_decrypt = λ key iv bytes header. some (lower (take (length bytes - 16) bytes));
  chacha20_update = λ key nonce bytes. bytes;
  generate_tag = λ key bytes. zeros;
  verify_tag = λ key bytes tag. bytes_eq tag zeros;
}

toy_streams :
    (context : Bool) (xs ys : List ℕ)
    → let first = toy_update context xs in
      let rest = toy_update first.1 ys in
      toy_update context (xs ++ ys) ≡ (first.0 ++ rest.0, rest.1)
toy_streams true xs ys = ap (λ t. (t, true)) (raise-append xs ys)
toy_streams false xs ys = ap (λ t. (t, false)) (lower-append xs ys)

-- One encrypts and the other decrypts.
abbrev Pair : Bool → Bool → Type 0
Pair true false = Unit {0}
Pair tx rx = ⊥

toy_inverts :
    (tx rx : Bool) (plain : List ℕ)
    → Pair tx rx
    → let c = toy_update tx plain in
      (length c.0 ≡ length plain) × ((toy_update rx c.0).0 ≡ plain) × Pair c.1 (toy_update rx c.0).1
toy_inverts true false plain pair = (length-raise plain, lower-raise plain, tt)
toy_inverts false rx plain pair = elim pair [ ]
toy_inverts true true plain pair = elim pair [ ]

toy_size :
    (tx rx : Bool) (bytes : List ℕ) → Pair tx rx → length (toy_update rx bytes).0 ≡ length bytes
toy_size true false bytes pair = length-lower bytes
toy_size false rx bytes pair = elim pair [ ]
toy_size true true bytes pair = elim pair [ ]

gcm_size : (plain : List ℕ) → length (raise plain ++ zeros) ≡ length plain + 16
gcm_size plain = omega (arith, length-append (raise plain) zeros, length-raise plain)

gcm_opens :
    (plain : List ℕ)
    → some (lower (take (length (raise plain ++ zeros) - 16) (raise plain ++ zeros))) ≡ some plain
gcm_opens plain =
    let n = length (raise plain ++ zeros) - 16 in
    let size : length (raise plain) ≡ n = omega (arith, gcm_size plain, length-raise plain) in
    ap (λ t. some (lower t)) (take-append n (raise plain) zeros size) ∙ ap some (lower-raise plain)

abbrev toy_package_laws : PackageLaws toy_package
toy_package_laws = record {
  InStep = λ tx rx b. Pair tx rx;
  block = λ c. 16;
  starts = λ c. tt;
  inverts = λ tx rx b k plain pair h. toy_inverts tx rx plain pair;
  whole_blocks = λ tx rx b k sealed pair h. toy_size tx rx sealed pair;
  streams = toy_streams;
  aesgcm_size = λ key iv plain header h. gcm_size plain;
  aesgcm_inverts = λ key iv plain header h. gcm_opens plain;
  chacha20_size = λ key nonce plain k n. refl;
  chacha20_inverts = λ key nonce plain k n. refl;
  tag_size = λ key plain k. refl;
  tag_verifies = λ key plain k. refl;
}

-- A nonce whose invocation counter is about to roll over its last byte.
abbrev cipher : GcmCipher
cipher = record { key = replicate 16 1; iv = 9 ∷ 9 ∷ 9 ∷ 9 ∷ 0 ∷ 0 ∷ 0 ∷ 0 ∷ 0 ∷ 0 ∷ 0 ∷ 255 ∷ [] }

decrypt-encrypt_example :
    Opened
      (ciphers toy_package)
      (cipher_laws toy_package toy_package_laws)
      16
      16
      1
      3
      (gcm cipher)
      (0 ∷ 0 ∷ 0 ∷ 16 ∷ [])
      (4 ∷ 9 ∷ 9 ∷ 9 ∷ 9 ∷ 9 ∷ 9 ∷ 9 ∷ 9 ∷ 9 ∷ 9 ∷ 9 ∷ 0 ∷ 0 ∷ 0 ∷ 0 ∷ [])
      (encrypt_packet
        (ciphers toy_package)
        (gcm cipher)
        3
        (0 ∷ 0 ∷ 0 ∷ 16 ∷ [])
        (4 ∷ 9 ∷ 9 ∷ 9 ∷ 9 ∷ 9 ∷ 9 ∷ 9 ∷ 9 ∷ 9 ∷ 9 ∷ 9 ∷ 0 ∷ 0 ∷ 0 ∷ 0 ∷ []))
unfolding cipher_laws
decrypt-encrypt_example =
    decrypt-encrypt toy_package toy_package_laws 3 0 (0 ∷ 0 ∷ 0 ∷ 16 ∷ [])
      (4 ∷ 9 ∷ 9 ∷ 9 ∷ 9 ∷ 9 ∷ 9 ∷ 9 ∷ 9 ∷ 9 ∷ 9 ∷ 9 ∷ 0 ∷ 0 ∷ 0 ∷ 0 ∷ [])
      (gcm_pair (record { same = refl; nonce_size = refl }) (omega arith) refl refl) refl
      (omega arith)
