-- ===== src/Common/Does.antt =====
-- What a call does from given tables, as a relation between them and its outcome, for calls that
-- change nothing when they throw: one rule for each step before the writes.
use mathlib.Core.Path.{subst}
use inventory_pos.Common.{
  ◌≡◌, refl, sym, Bool, true, false, Option, none, some, Option-cases, inl, inr,
}
use inventory_pos.Common.Effects.{
  Result, ok, err, Error, Action, pure, gets, or_throw, throw_if, ◌>>=◌, ◌>>◌,
}

pub record Does {S A : Type 0} (Post : S → Result A × S → Type 0) (s : S) (m : Action S A)
    : Type 0 where
  pub at : Post s (m s)

module _ {S A : Type 0} (Post : S → Result A × S → Type 0)
    (throws : (s : S) (e : Error) → Post s (err e, s)) where
  pub throw_if-Does :
      (b : Bool) (e : Error) (m : Action S A) (s : S)
      → (b ≡ false → Does Post s m)
      → Does Post s (throw_if b e >> m)
  throw_if-Does true e m s h = record { at = throws s e }
  throw_if-Does false e m s h = record { at = (h refl).at }

  pub or_throw-Does :
      {B : Type 0} (e : Error) (o : Option B) (k : B → Action S A) (s : S)
      → ((b : B) → o ≡ some b → Does Post s (k b))
      → Does Post s (or_throw e o >>= k)
  or_throw-Does e none k s h = record { at = throws s e }
  or_throw-Does e (some b) k s h = record { at = (h b refl).at }

  pub gets-Does :
      {B : Type 0} (f : S → B) (k : B → Action S A) (s : S)
      → Does Post s (k (f s))
      → Does Post s (gets f >>= k)
  gets-Does f k s h = record { at = h.at }

-- A call that writes nothing, whether it returns or throws: a check.
pub record Silent {S A : Type 0} (m : Action S A) : Type 0 where
  pub at : (s : S) → (m s).1 ≡ s

module _ {S : Type 0} where
  pub Silent-throw_if : (b : Bool) (e : Error) → Silent (throw_if {S = S} b e)
  Silent-throw_if b e = record { at = λ s. refl }

  pub Silent-pure : {A : Type 0} (a : A) → Silent (pure {S = S} a)
  Silent-pure a = record { at = λ s. refl }

  Silent-after :
      {A B : Type 0} (r : Result A) (s t : S) (n : Action S B)
      → Silent n
      → s ≡ t
      → (((λ (x : S). (r, s)) >> n) t).1 ≡ t
  Silent-after (ok a) s t n k e = rw e (k.at t)
  Silent-after (err x) s t n k e = e

  pub Silent-then :
      {A B : Type 0} (m : Action S A) (n : Action S B) → Silent m → Silent n → Silent (m >> n)
  Silent-then m n k l = record { at = λ s. Silent-after (m s).0 (m s).1 s n l (k.at s) }

module _ {S : Type 0} where
  pub Silent-gets : {A : Type 0} (f : S → A) → Silent (gets f)
  Silent-gets f = record { at = λ s. refl }

  pub Silent-or_throw :
      {A : Type 0} (e : Error) (o : S → Option A) → Silent (λ s. or_throw e (o s) s)
  Silent-or_throw e o = record {
    at = λ s. elim (Option-cases (o s)) [ inl h ↦ rw h refl | inr (a, h) ↦ rw h refl ];
  }

  Silent-next :
      {A B : Type 0} (r : Result A) (s t : S) (k : A → Action S B)
      → ((a : A) → Silent (k a))
      → s ≡ t
      → (((λ (x : S). (r, s)) >>= k) t).1 ≡ t
  Silent-next (ok a) s t k l e = rw e ((l a).at t)
  Silent-next (err x) s t k l e = e

  pub Silent-bind :
      {A B : Type 0} (m : Action S A) (k : A → Action S B)
      → Silent m
      → ((a : A) → Silent (k a))
      → Silent (m >>= k)
  Silent-bind m k q l = record { at = λ s. Silent-next (m s).0 (m s).1 s k l (q.at s) }

pub ruleset silent_rules =
    (Silent-throw_if, Silent-pure, Silent-then, Silent-gets, Silent-or_throw, Silent-bind)

module _ {S A : Type 0} (Post : S → Result A × S → Type 0)
    (throws : (s : S) (e : Error) → Post s (err e, s)) where
  after_check :
      {B : Type 0} (r : Result B) (t : S) (k : Action S A) (s : S)
      → t ≡ s
      → Does Post s k
      → Post s (((λ (x : S). (r, t)) >> k) s)
  after_check (ok b) t k s e h = rw e h.at
  after_check (err x) t k s e h = rw e (throws s x)

  pub check-Does :
      {B : Type 0} (m : Action S B) (k : Action S A) (s : S)
      → Silent m
      → Does Post s k
      → Does Post s (m >> k)
  check-Does m k s quiet h = record { at = after_check (m s).0 (m s).1 k s (quiet.at s) h }

  after_query :
      {B : Type 0} (r : Result B) (t : S) (k : B → Action S A) (s : S)
      → t ≡ s
      → ((b : B) → Does Post s (k b))
      → Post s (((λ (x : S). (r, t)) >>= k) s)
  after_query (ok b) t k s e h = rw e (h b).at
  after_query (err x) t k s e h = rw e (throws s x)

  -- A query of which only that it writes nothing is needed.
  pub Silent-Does :
      {B : Type 0} (m : Action S B) (k : B → Action S A) (s : S)
      → Silent m
      → ((b : B) → Does Post s (k b))
      → Does Post s (m >>= k)
  Silent-Does m k s quiet h = record { at = after_query (m s).0 (m s).1 k s (quiet.at s) h }

-- A call in two steps, by the outcome of the first.
module _ {S A B : Type 0} (P : Result B × S → Type 0) where
  by_outcome :
      (out : Result A × S) (f : A → Action S B) (s : S)
      → ((e : Error) (t : S) → out ≡ (err e, t) → P (err e, t))
      → ((a : A) (t : S) → out ≡ (ok a, t) → P (f a t))
      → P (((λ (x : S). out) >>= f) s)
  by_outcome (err e, t) f s throws returns = throws e t refl
  by_outcome (ok a, t) f s throws returns = returns a t refl

  pub >>=-all :
      (m : Action S A) (f : A → Action S B) (s : S)
      → ((e : Error) (t : S) → m s ≡ (err e, t) → P (err e, t))
      → ((a : A) (t : S) → m s ≡ (ok a, t) → P (f a t))
      → P ((m >>= f) s)
  >>=-all m f s throws returns = by_outcome (m s) f s throws returns

  pub >>=-ok :
      (m : Action S A) (f : A → Action S B) (s : S) (a : A) (t : S)
      → m s ≡ (ok a, t)
      → P (f a t)
      → P ((m >>= f) s)
  >>=-ok m f s a t h k = subst (λ (out : Result A × S). P (((λ (x : S). out) >>= f) s)) (sym h) k

  pub >>=-err :
      (m : Action S A) (f : A → Action S B) (s : S) (e : Error) (t : S)
      → m s ≡ (err e, t)
      → P (err e, t)
      → P ((m >>= f) s)
  >>=-err m f s e t h k = subst (λ (out : Result A × S). P (((λ (x : S). out) >>= f) s)) (sym h) k
