-- ===== src/Pattern/Runs.antt =====
-- A host list at a concrete input.
use asyncssh.Base.{ℕ, ◌≡◌, ◌&&◌, not, refl, arith, true, false, List, [], ◌∷◌, none, bytes_eq}
use asyncssh.Packet.{join, split, split_acc}
use asyncssh.Pattern.{
  Matching, host_list_matches, build_host_pattern, host_pattern_matches, wildcard_host_matches,
  pattern_list, matches, escape, add_pattern, add_patterns,
}
use asyncssh.Pattern.Lists.{hit, matches-pattern_list}

-- Texts match themselves, and no text is a network.
abbrev exact : Matching
exact = record {
  Address = Unit {0};
  Network = Unit {0};
  fnmatch = bytes_eq;
  ip_network = λ text. none;
  contains = λ n a. true;
}

-- "a,!b"
abbrev texts : List (List ℕ)
texts = (97 ∷ []) ∷ (33 ∷ 98 ∷ []) ∷ []

only_a : host_list_matches exact (97 ∷ 44 ∷ 33 ∷ 98 ∷ []) (97 ∷ []) (99 ∷ []) none ≡ true
unfolding host_list_matches build_host_pattern host_pattern_matches wildcard_host_matches
    pattern_list matches escape add_pattern add_patterns split split_acc
only_a = refl

matches-pattern_list_example :
    matches
      (host_pattern_matches exact (97 ∷ []) [] none)
      (pattern_list (build_host_pattern exact) (join ((97 ∷ []) ∷ (33 ∷ 98 ∷ []) ∷ [])))
    ≡ (hit (build_host_pattern exact) (host_pattern_matches exact (97 ∷ []) [] none) false texts
        && not (
            hit
              (build_host_pattern exact)
              (host_pattern_matches exact (97 ∷ []) [] none)
              true
              texts))
matches-pattern_list_example =
    matches-pattern_list (build_host_pattern exact) (host_pattern_matches exact (97 ∷ []) [] none)
      (97 ∷ []) ((33 ∷ 98 ∷ []) ∷ [])
      ((λ e. omega arith, tt), ((λ e. omega arith, (λ e. omega arith, tt)), tt))
