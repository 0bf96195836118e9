-- ===== src/Connection/Choice.antt =====
-- Which algorithm is chosen: `_choose_alg`.
use asyncssh.Base.{
  ℕ, ◌≡◌, refl, ap, true, false, Bool-cases, inl, inr, List, [], ◌∷◌, ◌++◌, All, Result, ok, err,
  Error,
}
use asyncssh.Connection.Keys.{supports, first_common, choose_alg}

-- The outcome for a client's list and a server's.
pub data Chosen (client server : List (List ℕ)) : Result (List ℕ) → Type 0 where
  found :
      (before after : List (List ℕ)) {alg : List ℕ}
      → client ≡ before ++ alg ∷ after
      → All (λ a. supports a server ≡ false) before
      → supports alg server ≡ true
      → Chosen client server (ok alg)
  none_common :
      All (λ a. supports a server ≡ false) client
      → Chosen client server (err Error.disconnect_error)

extend-Chosen :
    (alg : List ℕ) (client server : List (List ℕ)) (r : Result (List ℕ))
    → supports alg server ≡ false
    → Chosen client server r
    → Chosen (alg ∷ client) server r
extend-Chosen alg client server r no_ (found before after e all_ yes_) =
    found (alg ∷ before) after (ap (λ t. alg ∷ t) e) (no_, all_) yes_
extend-Chosen alg client server r no_ (none_common all_) = none_common (no_, all_)

first_common-Chosen :
    (client server : List (List ℕ)) → Chosen client server (first_common client server)
unfolding first_common
first_common-Chosen [] server = none_common tt
first_common-Chosen (alg ∷ client) server = elim (Bool-cases (supports alg server)) [
  | inl yes_ ↦ rw (yes_) (found [] client refl tt yes_)
  | inr no_ ↦ rw (no_) (
      extend-Chosen alg client server (first_common client server) no_
        (first_common-Chosen client server))
]

-- Both ends choose the same: the first algorithm of the client's list that the server supports, or both fail
-- because the lists have none in common.
pub choose_alg-Chosen :
    (client server : List (List ℕ))
    → (choose_alg true client server ≡ choose_alg false server client)
      × Chosen client server (choose_alg true client server)
unfolding choose_alg
choose_alg-Chosen client server = (refl, first_common-Chosen client server)
