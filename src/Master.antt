-- ===== src/Master.antt =====
-- The master data that the services look up before they write (branches, suppliers, warehouses,
-- products, units), and the checks that they share: they stand alike in the `create` methods of
-- src/modules/purchase/services/purchase-request.service.ts and purchase-order.service.ts.
pub mod Counts
use inventory_pos.Common.{
  ℕ, Bool, false, not, ◌&&◌, Option, none, some, List, ◌==◌, length, any, keep,
}
use inventory_pos.Common.Effects.{validation_error, Error, business, Action, throw_if, ◌>>◌}
use inventory_pos.Common.Table.{Table, find_unique}

-- A row with `deleted_at` and `is_active`; `home` is the branch of a warehouse.
pub record Party : Type 0 where
  pub deleted : Bool
  pub is_active : Bool
  pub home : ℕ

pub record MasterData : Type 0 where
  pub suppliers : Table Party
  pub branches : Table Party
  pub warehouses : Table Party
  pub products : Table Party
  pub units : Table Party

-- `!row || row.deleted_at !== null || !row.is_active`, negated
abbrev pub is_live : Option Party → Bool
is_live none = false
is_live (some p) = not p.deleted && p.is_active

abbrev pub belongs : ℕ → Option Party → Bool
belongs branch none = false
belongs branch (some p) = p.home == branch

abbrev pub invalid : Error
invalid = business validation_error

-- The rows that `findMany({ id: { in: ids }, ... })` returns, as a count.
abbrev pub count_found : (Party → Bool) → List ℕ → Table Party → ℕ
count_found p ids rows = length (keep (λ (j, r). any (λ i. i == j) ids && p r) rows)

module _ {S : Type 0} where
  unfoldable pub verify_party : Table Party → ℕ → Action S (Unit {0})
  verify_party rows id = throw_if (not (is_live (find_unique id rows))) invalid

  unfoldable pub verify_warehouse : Table Party → ℕ → ℕ → Action S (Unit {0})
  unfolding verify_party
  verify_warehouse rows branch id = do
    verify_party rows id
    throw_if (not (belongs branch (find_unique id rows))) invalid

  -- `if (rows.length !== ids.length) throw`
  unfoldable pub verify_all : (Party → Bool) → Table Party → List ℕ → Action S (Unit {0})
  verify_all p rows ids = throw_if (not (count_found p ids rows == length ids)) invalid
