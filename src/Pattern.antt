-- ===== src/Pattern.antt =====
-- Patterns of names, hosts and addresses: asyncssh/pattern.py. A text is the list of its characters.
use asyncssh.Base.{
  ℕ, Bool, true, false, not, ◌&&◌, ◌||◌, Option, none, some, List, [], ◌∷◌, ◌++◌, is_empty, ◌==◌,
  if◌then◌else◌,
}
use asyncssh.Packet.{split}
pub mod Lists
mod Runs

-- `fnmatch.fnmatch`, and addresses and networks of the package ipaddress; `ip_network` raises ValueError, or not.
pub record Matching : Type 1 where
  pub Address : Type 0
  pub Network : Type 0
  pub fnmatch : List ℕ → List ℕ → Bool
  pub ip_network : List ℕ → Option Network
  pub contains : Network → Address → Bool

-- `[` and `]` stand for themselves in the patterns of `fnmatch`.
unfoldable pub escape : List ℕ → List ℕ
escape [] = []
escape (ch ∷ chs) =
    (if ch == 91 then 91 ∷ 91 ∷ 93 ∷ [] else if ch == 93 then 91 ∷ 93 ∷ 93 ∷ [] else ch ∷ [])
    ++ escape chs

abbrev pub any : {A : Type 0} → (A → Bool) → List A → Bool
any test [] = false
any test (x ∷ xs) = test x || any test xs

-- `_PatternList`: what `build_pattern` made of the positive and the negative patterns.
pub record PatternList (A : Type 0) : Type 0 where
  pub pos_patterns : List A
  pub neg_patterns : List A

module _ {A : Type 0} where
  -- One round of the loop of `__init__`; `!` negates.
  unfoldable pub add_pattern : (List ℕ → A) → List ℕ → PatternList A → PatternList A
  add_pattern build [] l = record l { pos_patterns = l.pos_patterns ++ build [] ∷ [] }
  add_pattern build (ch ∷ chs) l =
      if ch == 33
      then record l { neg_patterns = l.neg_patterns ++ build chs ∷ [] }
      else record l { pos_patterns = l.pos_patterns ++ build (ch ∷ chs) ∷ [] }

  unfoldable pub add_patterns : (List ℕ → A) → List (List ℕ) → PatternList A → PatternList A
  unfolding add_pattern
  add_patterns build [] l = l
  add_patterns build (p ∷ ps) l = add_patterns build ps (add_pattern build p l)

  unfoldable pub pattern_list : (List ℕ → A) → List ℕ → PatternList A
  unfolding add_patterns split
  pattern_list build patterns =
      add_patterns build (split patterns) (record { pos_patterns = []; neg_patterns = [] })

  -- `matches`, for the test that the arguments make
  unfoldable pub matches : (A → Bool) → PatternList A → Bool
  matches test l = any test l.pos_patterns && not (any test l.neg_patterns)

module _ (m : Matching) where
  pub data HostPattern : Type 0 where
    wildcard : List ℕ → HostPattern
    cidr : m.Network → HostPattern

  -- `HostPatternList.build_pattern`
  unfoldable pub build_host_pattern : List ℕ → HostPattern
  unfolding escape
  build_host_pattern pattern_ = elim (m.ip_network pattern_) [
    | none ↦ wildcard (escape pattern_)
    | some network ↦ cidr network
  ]

  -- `WildcardHostPattern.matches`, for a host name and an address as text
  unfoldable pub wildcard_host_matches : List ℕ → List ℕ → List ℕ → Bool
  wildcard_host_matches host addr pattern_ =
      not (is_empty host) && m.fnmatch host pattern_
      || not (is_empty addr) && m.fnmatch addr pattern_

  -- `CIDRHostPattern.matches`, for an address if there is one
  unfoldable pub cidr_matches : Option m.Address → m.Network → Bool
  cidr_matches none network = false
  cidr_matches (some ip) network = m.contains network ip

  unfoldable pub host_pattern_matches : List ℕ → List ℕ → Option m.Address → HostPattern → Bool
  unfolding wildcard_host_matches cidr_matches
  host_pattern_matches host addr ip (wildcard pattern_) = wildcard_host_matches host addr pattern_
  host_pattern_matches host addr ip (cidr network) = cidr_matches ip network

  -- `WildcardPattern`
  unfoldable pub wildcard_pattern_matches : List ℕ → List ℕ → Bool
  wildcard_pattern_matches value pattern_ = m.fnmatch value pattern_

  -- `HostPatternList(patterns).matches(host, addr, ip)`
  unfoldable pub host_list_matches : List ℕ → List ℕ → List ℕ → Option m.Address → Bool
  unfolding pattern_list matches build_host_pattern host_pattern_matches
  host_list_matches patterns host addr ip =
      matches (host_pattern_matches host addr ip) (pattern_list build_host_pattern patterns)

  -- `WildcardPatternList(patterns).matches(value)`
  unfoldable pub wildcard_list_matches : List ℕ → List ℕ → Bool
  unfolding pattern_list matches escape wildcard_pattern_matches
  wildcard_list_matches patterns value =
      matches (wildcard_pattern_matches value) (pattern_list escape patterns)
