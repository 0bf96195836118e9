-- ===== src/Sftp/Attrs/Times.antt =====
-- Times and extensions are read as they were written.
use mathlib.Core.List.{append-nil}
use asyncssh.Base.{
  ℕ, ◌+◌, ◌*◌, ◌≡◌, arith, Bool, true, false, not, Option, none, some, List, [], ◌∷◌, ◌++◌, length,
  is_empty, if◌then◌else◌, ok, >>=-eq-ok,
}
use asyncssh.Packet.{fmap, get_uint32, get_uint64, get_string, uint32, uint64, string}
use asyncssh.Sftp.Attrs.{
  Version, Attrs, Draft, given, is_given, both, since, or_zero, join, pair, subsecond, encode_time,
  encode_times, encode_pairs, encode_extended,
}
use asyncssh.Sftp.Attrs.Decode.{
  has, optional, get_pair, Time, Times, whole_seconds, decode_time, decode_times, decode_pairs,
  decode_extended,
}
use asyncssh.Sftp.Attrs.Flags.{bit}
use asyncssh.Sftp.Attrs.Reading.{
  Reads, nothing_read, fmap-Reads, then-Reads, pair-Reads, given-flag, optional-Reads, given-Reads,
  through, join-eq-ok, join-nil, pair-eq-ok,
}
use asyncssh.Sftp.Attrs.Groups.{uint32-Reads, uint64-Reads, string-Reads, two_numbers, flag_bit}

-- From version 4 on, a time and its nanoseconds.
abbrev pub sent_time : Bool → Option ℕ → Option ℕ → Option Time
sent_time fine seconds ns = through (λ s. (s, if fine then some (or_zero ns) else none)) seconds

time-Reads :
    (fine : Bool) (ns : Option ℕ) (seconds : ℕ) (enc : List ℕ)
    → encode_time fine ns seconds ≡ ok enc
    → Reads (decode_time fine) enc (seconds, if fine then some (or_zero ns) else none)
unfolding encode_time decode_time
time-Reads true ns seconds enc h =
    let (b1, b2, first, second, all) = pair-eq-ok (uint64 seconds) (uint32 (or_zero ns)) enc h in
    rw (← all) (
      pair-Reads get_uint64 (fmap some get_uint32) b1 b2 seconds (some (or_zero ns))
        (uint64-Reads seconds b1 first)
        (fmap-Reads some get_uint32 b2 (or_zero ns) (uint32-Reads (or_zero ns) b2 second)))
time-Reads false ns seconds enc h =
    let (b1, b2, first, second, all) = pair-eq-ok (uint64 seconds) (ok []) enc h in
    let none_ : [] ≡ b2 = cc in
    rw (← all, ← none_)
      (pair-Reads get_uint64 _ b1 [] seconds none (uint64-Reads seconds b1 first)
        (nothing_read none))

optional_time :
    (flag : ℕ) (fine told : Bool) (seconds ns : Option ℕ) (f : ℕ) (bytes : List ℕ)
    → given flag seconds (encode_time fine ns) ≡ ok (f, bytes)
    → told ≡ is_given seconds
    → Reads (optional told (decode_time fine)) bytes (sent_time fine seconds ns)
optional_time flag fine told seconds ns f bytes h t =
    optional-Reads flag seconds (encode_time fine ns) (decode_time fine)
      (λ s. (s, if fine then some (or_zero ns) else none)) told f bytes
      (λ s enc e w. time-Reads fine ns s enc w) t h

abbrev pub sent_times : Version → Attrs → Times
sent_times Version.v3 a = whole_seconds (both a.atime a.mtime)
sent_times v a =
    let fine = subsecond a in
    (
      sent_time fine a.atime a.atime_ns,
      (
        sent_time fine a.crtime a.crtime_ns,
        (sent_time fine a.mtime a.mtime_ns, sent_time fine (since 6 v a.ctime) a.ctime_ns),
      ),
    )

-- The flags of the times: access or both, creation, modification, change, and subseconds.
abbrev pub TimeFlags : Type 0
TimeFlags = Bool × (Bool × (Bool × (Bool × Bool)))

abbrev pub time_flags : Version → Attrs → TimeFlags
time_flags Version.v3 a = (is_given (both a.atime a.mtime), (false, (false, (false, false))))
time_flags v a = (
  is_given a.atime,
  (is_given a.crtime, (is_given a.mtime, (is_given (since 6 v a.ctime), subsecond a))),
)

abbrev pub time_word : TimeFlags → ℕ
time_word (a, (c, (m, (t, fine)))) =
    8 * bit a + 16 * bit c + 32 * bit m + 32768 * bit t + 256 * bit fine

-- What a decoder must find in the flags.
pub record Told (flags : ℕ) (t : TimeFlags) : Type 0 where
  pub atime : has flags 8 ≡ t.0
  pub crtime : has flags 16 ≡ t.1.0
  pub mtime : has flags 32 ≡ t.1.1.0
  pub ctime : has flags 32768 ≡ t.1.1.1.0
  pub fine : has flags 256 ≡ t.1.1.1.1

fine-flag :
    (fine : Bool) (f : ℕ) (bytes : List ℕ)
    → ◌≡◌ {A = Draft} (ok (if fine then 256 else 0, [])) (ok (f, bytes))
    → (f ≡ 256 * bit fine) × ([] ≡ bytes)
fine-flag true f bytes h = (cc, cc)
fine-flag false f bytes h = (cc, cc)

-- From version 4 on, with the time of the last change that the version sends.
four_times :
    (a : Attrs) (ctime : Option ℕ) (f : ℕ) (bytes : List ℕ)
    → join (
        ok (if subsecond a then 256 else 0, [])
        ∷ given 8 a.atime (encode_time (subsecond a) a.atime_ns)
        ∷ given 16 a.crtime (encode_time (subsecond a) a.crtime_ns)
        ∷ given 32 a.mtime (encode_time (subsecond a) a.mtime_ns)
        ∷ given 32768 ctime (encode_time (subsecond a) a.ctime_ns)
        ∷ [])
      ≡ ok (f, bytes)
    → let t : TimeFlags = (
      is_given a.atime,
      (is_given a.crtime, (is_given a.mtime, (is_given ctime, subsecond a))),
    ) in
      (f ≡ time_word t)
      × ((flags : ℕ)
          → Told flags t
          → Reads
              (get_pair (optional (has flags 8) (decode_time (has flags 256))) (
                get_pair (optional (has flags 16) (decode_time (has flags 256))) (
                  get_pair
                    (optional (has flags 32) (decode_time (has flags 256)))
                    (optional (has flags 32768) (decode_time (has flags 256))))))
              bytes
              (
                sent_time (subsecond a) a.atime a.atime_ns,
                (
                  sent_time (subsecond a) a.crtime a.crtime_ns,
                  (
                    sent_time (subsecond a) a.mtime a.mtime_ns,
                    sent_time (subsecond a) ctime a.ctime_ns,
                  ),
                ),
              ))
four_times a ctime f bytes h =
    let (f0, b0, g0, c0, e0, r0, s0, p0) = join-eq-ok _ _ f bytes h in
    let (f1, b1, g1, c1, e1, r1, s1, p1) = join-eq-ok _ _ g0 c0 r0 in
    let (f2, b2, g2, c2, e2, r2, s2, p2) = join-eq-ok _ _ g1 c1 r1 in
    let (f3, b3, g3, c3, e3, r3, s3, p3) = join-eq-ok _ _ g2 c2 r2 in
    let (f4, b4, g4, c4, e4, r4, s4, p4) = join-eq-ok _ _ g3 c3 r3 in
    let (s5, p5) = join-nil g4 c4 r4 in
    let (s6, p6) = fine-flag (subsecond a) f0 b0 e0 in
    let fine = subsecond a in
    (
      omega (
        arith,
        s0,
        s6,
        s1,
        flag_bit 8 a.atime (given-flag 8 a.atime _ f1 b1 e1),
        s2,
        flag_bit 16 a.crtime (given-flag 16 a.crtime _ f2 b2 e2),
        s3,
        flag_bit 32 a.mtime (given-flag 32 a.mtime _ f3 b3 e3),
        s4,
        flag_bit 32768 ctime (given-flag 32768 ctime _ f4 b4 e4),
        s5,
      ),
      λ flags told.
          rw (told.fine, ← p0, ← p1, ← p2, ← p3, ← p4, ← p5, ← p6, append-nil b4)
            (pair-Reads _ _ b1 _ _ _
              (optional_time 8 fine (has flags 8) a.atime a.atime_ns f1 b1 e1 told.atime)
              (pair-Reads _ _ b2 _ _ _
                (optional_time 16 fine (has flags 16) a.crtime a.crtime_ns f2 b2 e2 told.crtime)
                (pair-Reads _ _ b3 b4 _ _
                  (optional_time 32 fine (has flags 32) a.mtime a.mtime_ns f3 b3 e3 told.mtime)
                  (optional_time 32768 fine (has flags 32768) ctime a.ctime_ns f4 b4 e4
                    told.ctime)))),
    )

pub times-Reads :
    (v : Version) (a : Attrs) (f : ℕ) (bytes : List ℕ)
    → encode_times v a ≡ ok (f, bytes)
    → (f ≡ time_word (time_flags v a))
      × ((flags : ℕ)
          → Told flags (time_flags v a)
          → Reads (decode_times v flags) bytes (sent_times v a))
unfolding encode_times decode_times
times-Reads Version.v3 a f bytes h =
    let times = both a.atime a.mtime in
    (
      omega (arith, flag_bit 8 times (given-flag 8 times _ f bytes h)),
      λ flags told. fmap-Reads whole_seconds _ bytes times (
          given-Reads 8 times (λ t. pair (uint32 t.0) (uint32 t.1)) (get_pair get_uint32 get_uint32)
            (has flags 8) f bytes (λ t enc e w. two_numbers t enc w) told.atime h),
    )
times-Reads Version.v4 a f bytes h = four_times a none f bytes h
times-Reads Version.v5 a f bytes h = four_times a none f bytes h
times-Reads Version.v6 a f bytes h = four_times a a.ctime f bytes h

pairs-Reads :
    (ps : List (List ℕ × List ℕ)) (enc : List ℕ)
    → encode_pairs ps ≡ ok enc
    → Reads (decode_pairs (length ps)) enc ps
unfolding encode_pairs decode_pairs
pairs-Reads [] enc h = let none_ : [] ≡ enc = cc in rw (← none_) (nothing_read [])
pairs-Reads ((name, data_) ∷ ps) enc h =
    let (b1, b2, first, second, all) =
      pair-eq-ok (pair (string name) (string data_)) (encode_pairs ps) enc h in
    let (c1, c2, left_, right_, both_) = pair-eq-ok (string name) (string data_) b1 first in
    rw (← all, ← both_)
      (then-Reads (get_pair get_string get_string)
        (λ p. fmap (λ rest. p ∷ rest) (decode_pairs (length ps))) (c1 ++ c2) b2 (name, data_)
        ((name, data_) ∷ ps)
        (pair-Reads get_string get_string c1 c2 name data_ (string-Reads name c1 left_)
          (string-Reads data_ c2 right_))
        (fmap-Reads (λ rest. (name, data_) ∷ rest) (decode_pairs (length ps)) b2 ps
          (pairs-Reads ps b2 second)))

pub extended-Reads :
    (ps : List (List ℕ × List ℕ)) (f : ℕ) (bytes : List ℕ)
    → encode_extended ps ≡ ok (f, bytes)
    → (f ≡ 2147483648 * bit (not (is_empty ps)))
      × ((told : Bool) → told ≡ not (is_empty ps) → Reads (decode_extended told) bytes ps)
unfolding encode_extended decode_extended
extended-Reads [] f bytes h =
    let none_ : [] ≡ bytes = cc in (cc, λ told t. rw (t, ← none_) (nothing_read []))
extended-Reads (p ∷ ps) f bytes h =
    let (enc, first, e) = >>=-eq-ok (pair (uint32 (length (p ∷ ps))) (encode_pairs (p ∷ ps))) _ h in
    let (b1, b2, count, pairs, all) =
      pair-eq-ok (uint32 (length (p ∷ ps))) (encode_pairs (p ∷ ps)) enc first in
    let whole : b1 ++ b2 ≡ bytes = cc in
    (
      cc,
      λ told t.
          rw (t, ← whole)
            (then-Reads get_uint32 decode_pairs b1 b2 (length (p ∷ ps)) (p ∷ ps)
              (uint32-Reads (length (p ∷ ps)) b1 count) (pairs-Reads (p ∷ ps) b2 pairs)),
    )
