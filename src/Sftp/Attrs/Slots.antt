-- ===== src/Sftp/Attrs/Slots.antt =====
-- What a version sends of attributes, and its flags.
use asyncssh.Base.{
  ◌<◌, ℕ, ◌+◌, ◌*◌, ◌≡◌, refl, arith, Bool, true, false, not, Option, none, some, List, [], ◌∷◌,
  is_empty,
}
use asyncssh.Sftp.Attrs.{Version, number, Attrs, is_given, both, since}
use asyncssh.Sftp.Attrs.Decode.{
  valid_attr_flags, mend_flags, left, right, nanoseconds, mode_type, mode_permissions, Read,
}
use asyncssh.Sftp.Attrs.Flags.{bit, word, bit_at, clash, has-word}
use asyncssh.Sftp.Attrs.Groups.{sent_type, sent_ids}
use asyncssh.Sftp.Attrs.Times.{sent_times, time_flags, time_word, Told}

-- What a version sends of attributes.
abbrev pub sent : Version → Attrs → Read
sent v a = (
  sent_type v a,
  (
    a.size,
    (
      a.alloc_size,
      (
        sent_ids v a,
        (
          a.permissions,
          (
            sent_times v a,
            (
              since 4 v a.acl,
              (
                since 5 v (both a.attrib_bits a.attrib_valid),
                (
                  since 6 v a.text_hint,
                  (
                    since 6 v a.mime_type,
                    (since 6 v a.nlink, (since 6 v a.untrans_name, a.extended)),
                  ),
                ),
              ),
            ),
          ),
        ),
      ),
    ),
  ),
)

-- The flags, lowest bit first.
abbrev pub slots : Version → Attrs → List Bool
slots v a =
    let t = time_flags v a in
    is_given a.size
    ∷ is_given (sent_ids v a).0
    ∷ is_given a.permissions
    ∷ t.0
    ∷ t.1.0
    ∷ t.1.1.0
    ∷ is_given (since 4 v a.acl)
    ∷ is_given (sent_ids v a).1
    ∷ t.1.1.1.1
    ∷ is_given (since 5 v (both a.attrib_bits a.attrib_valid))
    ∷ is_given a.alloc_size
    ∷ is_given (since 6 v a.text_hint)
    ∷ is_given (since 6 v a.mime_type)
    ∷ is_given (since 6 v a.nlink)
    ∷ is_given (since 6 v a.untrans_name)
    ∷ t.1.1.1.0
    ∷ false
    ∷ false
    ∷ false
    ∷ false
    ∷ false
    ∷ false
    ∷ false
    ∷ false
    ∷ false
    ∷ false
    ∷ false
    ∷ false
    ∷ false
    ∷ false
    ∷ false
    ∷ not (is_empty a.extended)
    ∷ []

-- The size of an allocation is sent in version 6 only.
abbrev pub Sendable : Version → Attrs → Type 0
Sendable Version.v6 a = Unit {0}
Sendable v a = a.alloc_size ≡ none

abbrev pub Utf8 : (List ℕ → Bool) → Option (List ℕ) → Type 0
Utf8 is_utf8 none = Unit {0}
Utf8 is_utf8 (some text) = is_utf8 text ≡ true

pub mend_flags-slots :
    (v : Version) (a : Attrs) → mend_flags v (word (slots v a)) ≡ word (slots v a)
unfolding mend_flags bit_at
mend_flags-slots Version.v3 a = rw (has-word 5 (slots Version.v3 a))
mend_flags-slots Version.v4 a = refl
mend_flags-slots Version.v5 a = refl
mend_flags-slots Version.v6 a = refl

pub clash-slots :
    (v : Version) (a : Attrs) → Sendable v a → clash (slots v a) (valid_attr_flags v) ≡ false
unfolding clash
clash-slots Version.v3 a h = rw (h)
clash-slots Version.v4 a h = rw (h)
clash-slots Version.v5 a h = rw (h)
clash-slots Version.v6 a h = refl

pub clash-old :
    (v : Version) (a : Attrs) (n : ℕ)
    → number v < 6
    → a.alloc_size ≡ some n
    → clash (slots v a) (valid_attr_flags v) ≡ true
unfolding clash
clash-old Version.v3 a n l h = rw (h)
clash-old Version.v4 a n l h = rw (h)
clash-old Version.v5 a n l h = rw (h)
clash-old Version.v6 a n l h = absurd (omega arith)

-- What the other end learns of attributes: the type, from version 4 on or out of the mode; ids in version 3 and names
-- later; whole seconds of two times in version 3, and of up to four later, with nanoseconds if any were given.
unfoldable pub carried : Version → Attrs → Attrs
carried v a =
    let ids = sent_ids v a in
    let times = sent_times v a in
    record {
      type_ = mode_type v (sent_type v a) a.permissions;
      size = a.size;
      alloc_size = a.alloc_size;
      uid = left ids.0;
      gid = right ids.0;
      owner = left ids.1;
      group = right ids.1;
      permissions = mode_permissions v a.permissions;
      atime = left times.0;
      atime_ns = nanoseconds times.0;
      crtime = left times.1.0;
      crtime_ns = nanoseconds times.1.0;
      mtime = left times.1.1.0;
      mtime_ns = nanoseconds times.1.1.0;
      ctime = left times.1.1.1;
      ctime_ns = nanoseconds times.1.1.1;
      acl = since 4 v a.acl;
      attrib_bits = left (since 5 v (both a.attrib_bits a.attrib_valid));
      attrib_valid = right (since 5 v (both a.attrib_bits a.attrib_valid));
      text_hint = since 6 v a.text_hint;
      mime_type = since 6 v a.mime_type;
      nlink = since 6 v a.nlink;
      untrans_name = since 6 v a.untrans_name;
      extended = a.extended;
    }

pub slots-Told : (v : Version) (a : Attrs) → Told (word (slots v a)) (time_flags v a)
unfolding bit_at
slots-Told v a = record {
  atime = has-word 3 (slots v a);
  crtime = has-word 4 (slots v a);
  mtime = has-word 5 (slots v a);
  ctime = has-word 15 (slots v a);
  fine = has-word 8 (slots v a);
}

-- The flags that the parts set make up the word.
pub flags-slots :
    (v : Version) (a : Attrs)
    → 0
        + (1 * bit (is_given a.size)
            + (1024 * bit (is_given a.alloc_size)
                + ((2 * bit (is_given (sent_ids v a).0) + 128 * bit (is_given (sent_ids v a).1))
                    + (4 * bit (is_given a.permissions)
                        + (time_word (time_flags v a)
                            + (64 * bit (is_given (since 4 v a.acl))
                                + (512
                                      * bit
                                          (is_given (since 5 v (both a.attrib_bits a.attrib_valid)))
                                    + (2048 * bit (is_given (since 6 v a.text_hint))
                                        + (4096 * bit (is_given (since 6 v a.mime_type))
                                            + (8192 * bit (is_given (since 6 v a.nlink))
                                                + (16384 * bit (is_given (since 6 v a.untrans_name))
                                                    + 2147483648
                                                      * bit (not (is_empty a.extended)))))))))))))
      ≡ word (slots v a)
unfolding word
flags-slots v a = omega arith
