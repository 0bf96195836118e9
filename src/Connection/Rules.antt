-- ===== src/Connection/Rules.antt =====
-- How a predicate of connections passes through the ways in which methods are built.
use asyncssh.Base.{
  Bool, true, false, Option, none, some, ◌≡◌, refl, Result, ok, err, Error, if◌then◌else◌,
}
use asyncssh.Connection.Types.{World, Connection, Step, using, ◌then_◌}

module _ {w : World} (P : Connection w → Type 0) where
  pub keep_using :
      {A B : Type 0} (r : Result A) (f : A → Connection w → Result B × Connection w)
      (c : Connection w)
      → P c
      → ((a : A) → P (f a c).1)
      → P (using r f c).1
  keep_using (ok a) f c h k = k a
  keep_using (err e) f c h k = h

  pub keep_then :
      (s : Step w) (f : Connection w → Step w)
      → P s.1
      → ((c : Connection w) → P c → P (f c).1)
      → P (s then_ f).1
  keep_then s f h k = keep_using s.0 (λ u c. f c) s.1 h (λ u. k s.1 h)

  pub keep_if :
      {B : Type 0} (b : Bool) (x y : Result B × Connection w)
      → (b ≡ true → P x.1)
      → (b ≡ false → P y.1)
      → P (if b then x else y).1
  keep_if true x y h k = h refl
  keep_if false x y h k = k refl

  pub keep_if_state :
      (b : Bool) (x y : Connection w)
      → (b ≡ true → P x)
      → (b ≡ false → P y)
      → P (if b then x else y)
  keep_if_state true x y h k = h refl
  keep_if_state false x y h k = k refl

  pub keep_answer :
      {A B : Type 0} (b : B) (s : Result A × Connection w)
      → P s.1
      → P (using s.0 (λ u c. (ok b, c)) s.1).1
  keep_answer b s h = keep_using s.0 (λ u c. (ok b, c)) s.1 h (λ u. h)

  pub keep_result :
      {A B : Type 0} (r : Result A) (f : Error → Result B × Connection w)
      (g : A → Result B × Connection w)
      → ((e : Error) → r ≡ err e → P (f e).1)
      → ((a : A) → r ≡ ok a → P (g a).1)
      → P (elim r as (λ _. Result B × Connection w) [ err e ↦ f e | ok a ↦ g a ]).1
  keep_result (ok a) f g h k = k a refl
  keep_result (err e) f g h k = h e refl

  pub keep_option :
      {A B : Type 0} (o : Option A) (x : Result B × Connection w) (f : A → Result B × Connection w)
      → P x.1
      → ((a : A) → o ≡ some a → P (f a).1)
      → P (elim o as (λ _. Result B × Connection w) [ none ↦ x | some a ↦ f a ]).1
  keep_option none x f h k = h
  keep_option (some a) x f h k = k a refl

  pub keep_more :
      {B : Type 0} (b : Bool) (x y : Result B × Connection w)
      → P x.1
      → P y.1
      → P (elim b as (λ _. Result B × Connection w) [ true ↦ x | false ↦ y ]).1
  keep_more true x y h k = h
  keep_more false x y h k = k
