-- ===== src/Common/Avoids.antt =====
-- An error that a call does not throw from the given tables: one rule for each way to build a call.
use inventory_pos.Common.{Bool, true, false, Option, none, some, ◌≡◌, ◌≢◌}
use inventory_pos.Common.Effects.{
  Result, ok, err, Error, Action, pure, gets, or_throw, throw_if, modify, on_part, ◌>>=◌, ◌>>◌,
}

abbrev pub IsNot : {A : Type 0} → Error → Result A → Type 0
IsNot e (ok a) = Unit
IsNot e (err x) = x ≢ e

pub record Avoids {S A : Type 0} (e : Error) (m : Action S A) : Type 0 where
  pub at : (s : S) → IsNot e (m s).0

module _ {S : Type 0} (e : Error) where
  pub Avoids-pure : {A : Type 0} (a : A) → Avoids e (pure {S = S} a)
  Avoids-pure a = record { at = λ s. tt }

  pub Avoids-gets : {A : Type 0} (f : S → A) → Avoids e (gets f)
  Avoids-gets f = record { at = λ s. tt }

  pub Avoids-modify : (f : S → S) → Avoids e (modify f)
  Avoids-modify f = record { at = λ s. tt }

  or_throw-IsNot :
      {A : Type 0} (x : Error) (o : Option A) (s : S) → x ≢ e → IsNot e (or_throw x o s).0
  or_throw-IsNot x none s h = h
  or_throw-IsNot x (some a) s h = tt

  pub Avoids-or_throw :
      {A : Type 0} (x : Error) (o : S → Option A) → x ≢ e → Avoids e (λ s. or_throw x (o s) s)
  Avoids-or_throw x o h = record { at = λ s. or_throw-IsNot x (o s) s h }

  pub Avoids-throw_if : (b : Bool) (x : Error) → x ≢ e → Avoids e (throw_if {S = S} b x)
  Avoids-throw_if true x h = record { at = λ s. h }
  Avoids-throw_if false x h = record { at = λ s. tt }

  -- The test fails.
  pub Avoids-unless : (b : Bool) (x : Error) → b ≡ false → Avoids e (throw_if {S = S} b x)
  Avoids-unless true x h = cc
  Avoids-unless false x h = record { at = λ s. tt }

  pub next-IsNot :
      {A B : Type 0} (r : Result A) (s t : S) (f : A → Action S B)
      → IsNot e r
      → ((a : A) → Avoids e (f a))
      → IsNot e (((λ (x : S). (r, t)) >>= f) s).0
  next-IsNot (ok a) s t f h k = (k a).at t
  next-IsNot (err x) s t f h k = h

  pub Avoids-bind :
      {A B : Type 0} (m : Action S A) (f : A → Action S B)
      → Avoids e m
      → ((a : A) → Avoids e (f a))
      → Avoids e (m >>= f)
  Avoids-bind m f h k = record { at = λ s. next-IsNot (m s).0 s (m s).1 f (h.at s) k }

  pub Avoids-then :
      {A B : Type 0} (m : Action S A) (n : Action S B) → Avoids e m → Avoids e n → Avoids e (m >> n)
  Avoids-then m n h k = Avoids-bind m (λ a. n) h (λ a. k)

  pub Avoids-on_part :
      {T A : Type 0} (get : S → T) (put : T → S → S) (m : Action T A)
      → Avoids e m
      → Avoids e (on_part get put m)
  Avoids-on_part get put m h = record { at = λ s. h.at (get s) }

pub ruleset avoids_rules = (
  Avoids-pure, Avoids-gets, Avoids-modify, Avoids-or_throw, Avoids-throw_if, Avoids-unless,
  Avoids-bind, Avoids-then, Avoids-on_part,
)
