-- ===== src/Sftp/Status/Ending.antt =====
-- The loop over the names of an error ends.
use asyncssh.Base.{
  leb, Option, ap, ℕ, zero, suc, ◌+◌, ◌≤◌, ◌<◌, ◌≡◌, ◌≢◌, refl, arith, Bool, List, ◌∷◌, ltb, ◌==◌,
  if_either, Result, ok, err, Error,
}
use asyncssh.Connection.Receive.{is_ascii}
use asyncssh.Packet.{
  SshPacket, Decoder, continue, fmap, has_more, check_end, get_bytes, get_uint32, get_string,
}
use asyncssh.Sftp.Attrs.Decode.{get_text}
use asyncssh.Sftp.Status.{SftpError, get_names, get_reason, make_error, construct, process_status}

-- A text takes four bytes at least.
record Eats (p : SshPacket) (s : Result (List ℕ) × SshPacket) : Type 0 where
  apart : s.0 ≢ err Error.out_of_fuel
  forward :
      (text : List ℕ)
      → s.0 ≡ ok text
      → (p.idx + 4 ≤ s.1.idx) × (s.1.idx ≤ s.1.len) × (s.1.len ≡ p.len)

module _ (is_utf8 : List ℕ → Bool) where
  get_text-Eats :
      (p : SshPacket) → p.idx ≤ p.len → Eats p (get_text is_utf8 Error.sftp_bad_message p)
  unfolding get_text get_string get_uint32 get_bytes
  get_text-Eats p h = record { apart = λ e. ground arith; forward = λ text e. ground arith }

  kept :
      (name : List ℕ) (s : Result (List (List ℕ)) × SshPacket)
      → s.0 ≢ err Error.out_of_fuel
      → (continue s.0 (λ names p. (ok (name ∷ names), p)) s.1).0 ≢ err Error.out_of_fuel
  kept name (ok names, q) h = λ e. cc
  kept name (err e, q) h = h

  more_names :
      (n : ℕ) (p : SshPacket) (s : Result (List ℕ) × SshPacket)
      → Eats p s
      → p.len < p.idx + suc n
      → ((q : SshPacket)
          → q.idx ≤ q.len
          → q.len < q.idx + n
          → (get_names is_utf8 n q).0 ≢ err Error.out_of_fuel)
      → (continue s.0 (λ name. fmap (λ names. name ∷ names) (get_names is_utf8 n)) s.1).0
        ≢ err Error.out_of_fuel
  more_names n p (ok name, q) h l next =
      let (further, inside, same) = h.forward name refl in
      kept name (get_names is_utf8 n q) (next q inside (omega arith))
  more_names n p (err e, q) h l next =
      λ x. let same : e ≡ Error.out_of_fuel = ground arith in h.apart (ap err same)

  -- As many rounds as the rest of the packet has bytes, and one more, are enough.
  pub get_names_ends :
      (n : ℕ) (p : SshPacket)
      → p.idx ≤ p.len
      → p.len < p.idx + n
      → (get_names is_utf8 n p).0 ≢ err Error.out_of_fuel
  unfolding get_names
  get_names_ends zero p h l = absurd (omega arith)
  get_names_ends (suc n) p h l =
      if_either (λ (s : Result (List (List ℕ)) × SshPacket). s.0 ≢ err Error.out_of_fuel)
        (has_more p)
        (λ _.
          more_names n p (get_text is_utf8 Error.sftp_bad_message p) (get_text-Eats p h) l
            (get_names_ends n))
        (λ _ e. cc)

-- A call that does not exceed a bound, and stays within its packet.
record Stays {A : Type 0} (s : Result A × SshPacket) : Type 0 where
  apart : s.0 ≢ err Error.out_of_fuel
  inside : s.1.idx ≤ s.1.len

abbrev Within : {A : Type 0} → Decoder A → Type 0
Within get = (p : SshPacket) → p.idx ≤ p.len → Stays (get p)

retyped :
    {A B : Type 0} (e : Error)
    → ◌≢◌ {A = Result A} (err e) (err Error.out_of_fuel)
    → ◌≢◌ {A = Result B} (err e) (err Error.out_of_fuel)
retyped e h x = let same : e ≡ Error.out_of_fuel = ground arith in h (ap err same)

stay_through :
    {A B : Type 0} (s : Result A × SshPacket) (next : A → Decoder B)
    → Stays s
    → ((a : A) → Within (next a))
    → Stays (continue s.0 next s.1)
stay_through (ok a, q) next h k = k a q h.inside
stay_through (err e, q) next h k = record { apart = retyped e h.apart; inside = h.inside }

apart_then :
    {A B : Type 0} (s : Result A × SshPacket) (next : A → Decoder B)
    → Stays s
    → ((a : A) (q : SshPacket) → q.idx ≤ q.len → (next a q).0 ≢ err Error.out_of_fuel)
    → (continue s.0 next s.1).0 ≢ err Error.out_of_fuel
apart_then (ok a, q) next h k = k a q h.inside
apart_then (err e, q) next h k = retyped e h.apart

apart_always :
    {A B : Type 0} (s : Result A × SshPacket) (next : A → Decoder B)
    → s.0 ≢ err Error.out_of_fuel
    → ((a : A) (q : SshPacket) → (next a q).0 ≢ err Error.out_of_fuel)
    → (continue s.0 next s.1).0 ≢ err Error.out_of_fuel
apart_always (ok a, q) next h k = k a q
apart_always (err e, q) next h k = retyped e h

get_uint32-Within : Within get_uint32
unfolding get_uint32 get_bytes
get_uint32-Within p h = record { apart = λ e. ground arith; inside = ground arith }

get_text-Within : (is_utf8 : List ℕ → Bool) → Within (get_text is_utf8 Error.sftp_bad_message)
unfolding get_text get_string get_uint32 get_bytes
get_text-Within is_utf8 p h = record { apart = λ e. ground arith; inside = ground arith }

get_reason-Within : (is_utf8 : List ℕ → Bool) → Within (get_reason is_utf8)
unfolding get_reason
get_reason-Within is_utf8 p h =
    if_either (λ (s : Result (List ℕ × List ℕ) × SshPacket). Stays s) (has_more p)
      (λ _.
        stay_through (get_text is_utf8 Error.sftp_bad_message p) _ (get_text-Within is_utf8 p h)
          (λ reason q k.
            stay_through (get_text is_ascii Error.sftp_bad_message q) _
              (get_text-Within is_ascii q k) (λ lang r l. record { apart = λ e. cc; inside = l })))
      (λ _. record { apart = λ e. cc; inside = h })

make_error_ends :
    (is_utf8 : List ℕ → Bool) (code : ℕ) (reason lang : List ℕ) (p : SshPacket)
    → p.idx ≤ p.len
    → (make_error is_utf8 code reason lang p).0 ≢ err Error.out_of_fuel
unfolding make_error
make_error_ends is_utf8 code reason lang p h =
    let P = λ (s : Result SftpError × SshPacket). s.0 ≢ err Error.out_of_fuel in
    if_either P (code == 16)
      (λ _.
        apart_always (get_names is_utf8 (suc p.len) p) _
          (get_names_ends is_utf8 (suc p.len) p h (omega arith)) (λ names q e. cc))
      (λ _. if_either P (leb code 31) (λ _ e. cc) (λ _ e. cc))

-- Whatever a status response holds, the bound on the loop over its names is enough.
pub process_status_ends :
    (is_utf8 : List ℕ → Bool) (version : ℕ) (p : SshPacket)
    → p.idx ≤ p.len
    → (process_status is_utf8 version p).0 ≢ err Error.out_of_fuel
unfolding process_status construct check_end
process_status_ends is_utf8 version p h =
    apart_always (construct is_utf8 p) _
      (apart_then (get_uint32 p) _ (get_uint32-Within p h) (λ code q k.
        apart_then (get_reason is_utf8 q) _ (get_reason-Within is_utf8 q k) (λ (reason, lang) r l.
          if_either (λ (d : Decoder (Option SftpError)). (d r).0 ≢ err Error.out_of_fuel)
            (code == 0) (λ _ e. cc)
            (λ _.
              apart_always (make_error is_utf8 code reason lang r) _
                (make_error_ends is_utf8 code reason lang r l) (λ made s e. cc)))))
      (λ exc q.
        if_either (λ (d : Decoder (Option SftpError)). (d q).0 ≢ err Error.out_of_fuel)
          (ltb version 6) (λ _ e. ground arith) (λ _ e. cc))
