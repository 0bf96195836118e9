-- ===== src/Pattern/Lists.antt =====
-- What a list of patterns matches.
use asyncssh.Base.{
  ℕ, ◌≡◌, refl, arith, Bool, true, false, not, ◌&&◌, ◌||◌, List, [], ◌∷◌, ◌++◌, All, ◌==◌,
  if◌then◌else◌,
}
use asyncssh.Packet.{join}
use asyncssh.Packet.Names.{IsName, split-join}
use asyncssh.Pattern.{any, PatternList, add_pattern, add_patterns, pattern_list, matches}

abbrev pub is_negative : List ℕ → Bool
is_negative [] = false
is_negative (ch ∷ chs) = ch == 33

-- A negative pattern without its mark.
abbrev pub body : List ℕ → List ℕ
body [] = []
body (ch ∷ chs) = if ch == 33 then chs else ch ∷ chs

module _ {A : Type 0} (build : List ℕ → A) (test : A → Bool) where
  -- Whether one of the patterns with this sign matches.
  abbrev pub hit : Bool → List (List ℕ) → Bool
  hit negative ps =
      any (λ p. (if negative then is_negative p else not (is_negative p)) && test (build (body p)))
        ps

  any-snoc : (xs : List A) (x : A) → any test (xs ++ x ∷ []) ≡ (any test xs || test x)
  any-snoc [] x = ground arith
  any-snoc (y ∷ xs) x = ground (arith, any-snoc xs x)

  add_pattern-any :
      (p : List ℕ) (l : PatternList A)
      → (any test (add_pattern build p l).pos_patterns
          ≡ (any test l.pos_patterns || not (is_negative p) && test (build (body p))))
        × (any test (add_pattern build p l).neg_patterns
            ≡ (any test l.neg_patterns || is_negative p && test (build (body p))))
  unfolding add_pattern
  add_pattern-any [] l = ground (arith, any-snoc l.pos_patterns (build []))
  add_pattern-any (ch ∷ chs) l =
      ground
        (arith, any-snoc l.pos_patterns (build (ch ∷ chs)), any-snoc l.neg_patterns (build chs))

  add_patterns-any :
      (ps : List (List ℕ)) (l : PatternList A)
      → (any test (add_patterns build ps l).pos_patterns
          ≡ (any test l.pos_patterns || hit false ps))
        × (any test (add_patterns build ps l).neg_patterns
            ≡ (any test l.neg_patterns || hit true ps))
  unfolding add_patterns
  add_patterns-any [] l = ground arith
  add_patterns-any (p ∷ ps) l =
      ground (arith, add_patterns-any ps (add_pattern build p l), add_pattern-any p l)

  -- The texts of patterns without commas, joined by commas: the list matches and only if a positive pattern
  -- matches and no negative one does.
  pub matches-pattern_list :
      (p : List ℕ) (ps : List (List ℕ))
      → All IsName (p ∷ ps)
      → matches test (pattern_list build (join (p ∷ ps)))
        ≡ (hit false (p ∷ ps) && not (hit true (p ∷ ps)))
  unfolding matches pattern_list
  matches-pattern_list p ps h =
      let both = add_patterns-any (p ∷ ps) (record { pos_patterns = []; neg_patterns = [] }) in
      rw (split-join p ps h, both.0, both.1) refl
