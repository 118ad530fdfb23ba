-- ===== src/Common/Effects.antt =====
-- What a service method does: it reads and writes the tables, and returns or throws. The tables come
-- back after a throw too, since what was written outside a transaction stays written.
use inventory_pos.Common.{Bool, Option, none, some, ◌≡◌, if◌then◌else◌}

-- src/common/enums/error-codes.enum.ts, as far as the modelled services throw.
pub data ErrorCode : Type 0 where
  not_found validation_error business_rule_violation period_locked insufficient_stock : ErrorCode
  forbidden conflict concurrency_error : ErrorCode

-- `business` is a BusinessRuleException with its code; `missing` and `denied` are the framework's
-- NotFoundException and ForbiddenException; `internal` is a plain Error, a schema error among them.
pub data Error : Type 0 where
  business : ErrorCode → Error
  missing denied internal : Error

pub data Result {ℓ} (A : Type ℓ) : Type ℓ where
  ok : A → Result A
  err : Error → Result A

abbrev pub Action : Type 0 → Type 0 → Type 0
Action S A = S → Result A × S

module _ {S A : Type 0} where
  abbrev pub pure : A → Action S A
  pure a s = (ok a, s)

  abbrev pub throw : Error → Action S A
  throw e s = (err e, s)

  abbrev pub gets : (S → A) → Action S A
  gets f s = (ok (f s), s)

  -- A row that must be there.
  abbrev pub or_throw : Error → Option A → Action S A
  or_throw e none s = (err e, s)
  or_throw e (some a) s = (ok a, s)

  -- `prisma.$transaction`: a throw rolls the writes back.
  abbrev pub rollback : S → Result A × S → Result A × S
  rollback s (ok a, s') = (ok a, s')
  rollback s (err e, s') = (err e, s)

  abbrev pub transaction : Action S A → Action S A
  transaction m s = rollback s (m s)

infixl 5 ◌>>=◌ ◌>>◌
abbrev pub ◌>>=◌ : {S A B : Type 0} → Action S A → (A → Action S B) → Action S B
◌>>=◌ m f s = let (r, s') = m s in elim r [ ok a ↦ f a s' | err e ↦ (err e, s') ]

abbrev pub ◌>>◌ : {S A B : Type 0} → Action S A → Action S B → Action S B
m >> k = m >>= λ _. k

module _ {S : Type 0} where
  abbrev pub throw_if : Bool → Error → Action S (Unit {0})
  throw_if c e s = (if c then err e else ok tt, s)

  abbrev pub modify : (S → S) → Action S (Unit {0})
  modify f s = (ok tt, f s)

-- An action on a part of the tables, as an action on all of them.
abbrev pub on_part : {S T A : Type 0} → (S → T) → (T → S → S) → Action T A → Action S A
on_part get put m s = let (r, t) = m (get s) in (r, put t s)

-- The call returned.
abbrev pub Returned : {S A : Type 0} → Result A × S → Type 0
Returned {A} (r, s) = (a : A) × (r ≡ ok a)

-- The call threw.
abbrev pub Threw : {S A : Type 0} → Result A × S → Type 0
Threw (r, s) = (e : Error) × (r ≡ err e)
