-- ===== src/Common/Keeps.antt =====
-- An invariant of the tables that a call keeps, whether it returns or throws: one rule for each way to
-- build a call.
use inventory_pos.Common.{Bool, Option, none, some}
use inventory_pos.Common.Effects.{
  Result, ok, err, Error, Action, pure, throw, gets, or_throw, rollback, transaction, throw_if,
  modify, on_part, ◌>>=◌, ◌>>◌,
}

pub record Keeps {S A : Type 0} (I : S → Type 0) (m : Action S A) : Type 0 where
  pub at : (s : S) → I s → I (m s).1

module _ {S : Type 0} (I : S → Type 0) where
  pub Keeps-pure : {A : Type 0} (a : A) → Keeps I (pure {S = S} a)
  Keeps-pure a = record { at = λ s h. h }

  pub Keeps-throw : {A : Type 0} (e : Error) → Keeps I (throw {S = S} {A = A} e)
  Keeps-throw e = record { at = λ s h. h }

  pub Keeps-gets : {A : Type 0} (f : S → A) → Keeps I (gets f)
  Keeps-gets f = record { at = λ s h. h }

  pub Keeps-or_throw : {A : Type 0} (e : Error) (o : Option A) → Keeps I (or_throw {S = S} e o)
  Keeps-or_throw e none = record { at = λ s h. h }
  Keeps-or_throw e (some a) = record { at = λ s h. h }

  pub Keeps-throw_if : (b : Bool) (e : Error) → Keeps I (throw_if {S = S} b e)
  Keeps-throw_if b e = record { at = λ s h. h }

  pub Keeps-modify : (f : S → S) → ((s : S) → I s → I (f s)) → Keeps I (modify f)
  Keeps-modify f h = record { at = h }

  rollback-keeps :
      {A : Type 0} (s : S) (r : Result A) (s' : S) → I s → I s' → I (rollback s (r, s')).1
  rollback-keeps s (ok a) s' h h' = h'
  rollback-keeps s (err e) s' h h' = h

  pub Keeps-transaction : {A : Type 0} (m : Action S A) → Keeps I m → Keeps I (transaction m)
  Keeps-transaction m k = record { at = λ s h. rollback-keeps s (m s).0 (m s).1 h (k.at s h) }

  bind-keeps :
      {A B : Type 0} (r : Result A) (s : S) (f : A → Action S B)
      → ((a : A) → Keeps I (f a))
      → I s
      → I (((λ (x : S). (r, s)) >>= f) s).1
  bind-keeps (ok a) s f k h = (k a).at s h
  bind-keeps (err e) s f k h = h

  pub Keeps-bind :
      {A B : Type 0} (m : Action S A) (f : A → Action S B)
      → Keeps I m
      → ((a : A) → Keeps I (f a))
      → Keeps I (m >>= f)
  Keeps-bind m f k l = record { at = λ s h. bind-keeps (m s).0 (m s).1 f l (k.at s h) }

  pub Keeps-then :
      {A B : Type 0} (m : Action S A) (n : Action S B) → Keeps I m → Keeps I n → Keeps I (m >> n)
  Keeps-then m n k l = record {
    at = λ s h. bind-keeps (m s).0 (m s).1 (λ a. n) (λ a. l) (k.at s h);
  }

  pub Keeps-on_part :
      {T A : Type 0} (get : S → T) (put : T → S → S) (m : Action T A)
      → ((t : T) (s : S) → I s → I (put t s))
      → Keeps I (on_part get put m)
  Keeps-on_part get put m h = record { at = λ s k. h (m (get s)).1 s k }

pub ruleset keeps_rules = (
  Keeps-pure, Keeps-throw, Keeps-gets, Keeps-or_throw, Keeps-throw_if, Keeps-modify,
  Keeps-transaction, Keeps-bind, Keeps-then, Keeps-on_part,
)
