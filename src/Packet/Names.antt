-- ===== src/Packet/Names.antt =====
-- `NameList` and `get_namelist` of asyncssh/packet.py.
use mathlib.Core.List.{append-nil, append_assoc}
use asyncssh.Base.{
  ℕ, ◌≡◌, ◌≢◌, refl, sym, ap, ◌∙◌, arith, false, List, [], ◌∷◌, ◌++◌, ok, if◌then◌else◌, is_empty,
  All,
}
use asyncssh.Packet.{join, name_list, split, split_acc, get_namelist}
use asyncssh.Packet.RoundTrip.{cursor, get_string-string}

-- No byte of the name is a comma.
abbrev pub IsName : List ℕ → Type 0
IsName = All (λ b. b ≢ b',')

split_acc-name :
    (part name rest : List ℕ)
    → IsName name
    → split_acc part (name ++ b',' ∷ rest) ≡ (part ++ name) ∷ split_acc [] rest
unfolding split_acc
split_acc-name part [] rest h = ap (λ t. t ∷ split_acc [] rest) (sym (append-nil part))
split_acc-name part (b ∷ bs) rest h =
    ground (arith, h.0, split_acc-name (part ++ b ∷ []) bs rest h.1, append_assoc part (b ∷ []) bs)

split_acc_last : (part name : List ℕ) → IsName name → split_acc part name ≡ (part ++ name) ∷ []
unfolding split_acc
split_acc_last part [] h = rw append-nil
split_acc_last part (b ∷ bs) h =
    ground (arith, h.0, split_acc_last (part ++ b ∷ []) bs h.1, append_assoc part (b ∷ []) bs)

pub split-join :
    (name : List ℕ) (names : List (List ℕ))
    → All IsName (name ∷ names)
    → split (join (name ∷ names)) ≡ name ∷ names
unfolding split join
split-join name [] h = split_acc_last [] name h.0
split-join name (next ∷ names) h =
    split_acc-name [] name (join (next ∷ names)) h.0
    ∙ ap (λ t. name ∷ t) (split-join next names h.1)

-- The list that holds the empty name alone has the encoding of the empty list.
abbrev pub IsPlain : List (List ℕ) → Type 0
IsPlain names = All IsName names × (names ≢ [] ∷ [])

-- What `get_namelist` makes of a byte string.
unfoldable pub names_of : List ℕ → List (List ℕ)
names_of namelist = if is_empty namelist then [] else split namelist

is_empty-append : (name rest : List ℕ) (b : ℕ) → is_empty (name ++ b ∷ rest) ≡ false
is_empty-append [] rest b = refl
is_empty-append (x ∷ xs) rest b = refl

is_empty-join :
    (name : List ℕ) (names : List (List ℕ))
    → name ∷ names ≢ [] ∷ []
    → is_empty (join (name ∷ names)) ≡ false
unfolding join
is_empty-join [] [] h = absurd (h refl)
is_empty-join (b ∷ bs) [] h = refl
is_empty-join name (next ∷ names) h = is_empty-append name (join (next ∷ names)) b','

names_of-join : (names : List (List ℕ)) → IsPlain names → names_of (join names) ≡ names
unfolding names_of
names_of-join [] h = unfold join in refl
names_of-join (name ∷ names) h = rw (is_empty-join name names h.1) (split-join name names h.0)

-- A list of names without commas, other than the list of just one empty name, is read back from what NameList
-- encodes it to, and what follows is left.
pub get_namelist-name_list :
    (names : List (List ℕ)) (enc front rest : List ℕ)
    → IsPlain names
    → name_list names ≡ ok enc
    → get_namelist (cursor front (enc ++ rest)) ≡ (ok names, cursor (front ++ enc) rest)
unfolding get_namelist name_list names_of
get_namelist-name_list names enc front rest plain h =
    rw (get_string-string (join names) enc front rest h)
      (ap (λ t. (ok t, cursor (front ++ enc) rest)) (names_of-join names plain))
