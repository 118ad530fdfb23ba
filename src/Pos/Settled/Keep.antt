-- ===== src/Pos/Settled/Keep.antt =====
-- Every call of pos.service.ts keeps every transaction settled.
use mathlib.Core.Option.{some-injective}
use inventory_pos.Common.{
  ℕ, ◌≡◌, sym, ◌∙◌, ap, Bool, true, false, not, Option, none, some, List, ◌∷◌, arith, ltb, ◌==◌,
  if◌then◌else◌,
}
use inventory_pos.Common.Effects.{internal, Action, pure, gets, modify, ◌>>=◌, ◌>>◌}
use inventory_pos.Inventory.{InventoryLedger}
use inventory_pos.Common.Does.{Does, throw_if-Does, or_throw-Does, gets-Does}
use inventory_pos.Common.Keeps.{Keeps}
use inventory_pos.Common.Table.{find_unique}
use inventory_pos.Common.Text.{Text}
use inventory_pos.Accounting.Store.{FiscalPeriod}
use inventory_pos.Inventory.Stock.{lock_refused}
use inventory_pos.Pos.Store.{
  open_, SaleLine, PosTransaction, PosStore, Shift, AuditEntry, status_eq,
}
use inventory_pos.Pos.{PosEnv, change_sale}
use inventory_pos.Pos.Item.{LineItem, with_line, item_attempt, add_item}
use inventory_pos.Pos.Payment.{
  Tender, total_tendered, paid_with, open_period, journal_sale, apply_payment,
}
use inventory_pos.Pos.Void.{
  voided_row, journal_void, void_writes, void_attempt, void_transaction, return_lines,
}
use inventory_pos.Pos.Kept.{retries-Keeps}
use inventory_pos.Pos.Settled.{AllSettled, Post, throws, pos_transaction-Does, change_sale-Does}
use inventory_pos.Pos.Settled.Rows.{
  open_row, with_line-IsSettled, paid_with-IsSettled, voided_row-IsSettled,
}
use inventory_pos.Pos.Settled.Shifts.{still}

when-Keeps :
    (b : Bool) (m : Action PosStore (Unit {0}))
    → Keeps AllSettled m
    → Keeps AllSettled (if b then m else pure tt)
when-Keeps true m k = k
when-Keeps false m k = search still

journal_sale-Keeps :
    (env : PosEnv) (id : ℕ) (t : PosTransaction) (o : Option (ℕ × FiscalPeriod))
    → Keeps AllSettled (journal_sale env id t o)
unfolding journal_sale
journal_sale-Keeps env id t none = search still
journal_sale-Keeps env id t (some (period, p)) = search (still, when-Keeps) depth 14

journal_void-Keeps :
    (env : PosEnv) (id : ℕ) (t : PosTransaction) (user : ℕ) (o : Option (ℕ × FiscalPeriod))
    → Keeps AllSettled (journal_void env id t user o)
unfolding journal_void
journal_void-Keeps env id t user none = search still
journal_void-Keeps env id t user (some (period, p)) = search (still, when-Keeps) depth 14

-- The writes of the three calls, after their guards.
line_added :
    (id : ℕ) (l : SaleLine) (sale : PosTransaction) (k : Action PosStore PosTransaction)
    (s : PosStore)
    → find_unique id s.sales ≡ some sale
    → not (status_eq sale.status open_) ≡ false
    → Keeps AllSettled k
    → Does Post s (change_sale id (with_line l) >> k)
line_added id l sale k s found guard =
    change_sale-Does id (with_line l) k s
      λ r e. with_line-IsSettled l r (open_row (find_unique id s.sales) sale r found guard e).1

paid :
    (id : ℕ) (ps : List Tender) (sale : PosTransaction) (k : Action PosStore PosTransaction)
    (s : PosStore)
    → find_unique id s.sales ≡ some sale
    → not (status_eq sale.status open_) ≡ false
    → ltb (total_tendered ps) sale.total_amount ≡ false
    → Keeps AllSettled k
    → Does Post s (change_sale id (paid_with ps sale) >> k)
paid id ps sale k s found guard enough = change_sale-Does id (paid_with ps sale) k s λ r e.
    let row = open_row (find_unique id s.sales) sale r found guard e in
    paid_with-IsSettled ps sale r row.0 row.1 enough

voided_by_other :
    (id now user : ℕ) (reason : Text) (sale : PosTransaction) (k : Action PosStore (Unit {0}))
    (s : PosStore)
    → find_unique id s.sales ≡ some sale
    → (sale.cashier_id == user) ≡ false
    → Keeps AllSettled k
    → Does Post s (change_sale id (voided_row now user reason) >> k)
voided_by_other id now user reason sale k s found apart =
    change_sale-Does id (voided_row now user reason) k s λ r e.
      let alike : r ≡ sale = some-injective _ _ (sym e ∙ found) in
      let cashier = ap (λ (t : PosTransaction). t.cashier_id) alike in
      voided_row-IsSettled now user reason r (ground (arith, cashier))

void_tail-Keeps :
    (env : PosEnv) (id user : ℕ) (sale : PosTransaction) (f : PosStore → InventoryLedger)
    → Keeps AllSettled (
        modify (λ (t : PosStore). record t { inventory = f t })
        >> (gets open_period >>= λ period. journal_void env id sale user period))
void_tail-Keeps env id user sale f = search (still, journal_void-Keeps) depth 10

logged :
    (a : AuditEntry) (k : Action PosStore (Unit {0})) (s : PosStore)
    → Does Post (record s { audit = a ∷ s.audit }) k
    → Does Post s (modify (λ (t : PosStore). record t { audit = a ∷ t.audit }) >> k)
logged a k s d = record { at = d.at }

item_attempt-Does :
    (env : PosEnv) (id : ℕ) (item : LineItem) (attempt : ℕ) (s : PosStore)
    → Does Post s (item_attempt env id item attempt)
item_attempt-Does env id item attempt s =
    search
      (
        pos_transaction-Does,
        gets-Does Post (throws PosTransaction),
        or_throw-Does Post (throws PosTransaction),
        throw_if-Does Post (throws PosTransaction),
        line_added,
        still,
      )
      depth 16

pub add_item-Keeps :
    (env : PosEnv) (id : ℕ) (item : LineItem) → Keeps AllSettled (add_item env id item)
unfolding add_item
add_item-Keeps env id item =
    retries-Keeps AllSettled env.stock (item_attempt env id item)
      λ attempt. record { at = λ s. (item_attempt-Does env id item attempt s).at }

pub apply_payment-Does :
    (env : PosEnv) (id : ℕ) (ps : List Tender) (s : PosStore)
    → Does Post s (apply_payment env id ps)
unfolding apply_payment
apply_payment-Does env id ps s =
    search
      (
        pos_transaction-Does,
        gets-Does Post (throws PosTransaction),
        or_throw-Does Post (throws PosTransaction),
        throw_if-Does Post (throws PosTransaction),
        paid,
        still,
        journal_sale-Keeps,
      )
      depth 16

void_writes-Does :
    (env : PosEnv) (id user : ℕ) (reason : Text) (attempt : ℕ) (sale : PosTransaction)
    (shift : Shift) (s : PosStore)
    → find_unique id s.sales ≡ some sale
    → (sale.cashier_id == user) ≡ false
    → Does Post s (void_writes env id user reason attempt sale shift)
void_writes-Does env id user reason attempt sale shift s found apart =
    let a : AuditEntry = record { user_id = user; entity_id = id; reason = reason } in
    let t : PosStore = record s { audit = a ∷ s.audit } in
    logged a _ s (
      throw_if-Does Post (throws (Unit {0})) (lock_refused env.stock attempt sale.lines) internal
        (change_sale id (voided_row env.stock.now user reason)
          >> (modify (λ (t : PosStore). record t {
            inventory =
                return_lines env.stock id sale shift.warehouse_id user sale.lines t.inventory;
          })
              >> (gets open_period >>= λ period. journal_void env id sale user period)))
        t
        λ free. voided_by_other id env.stock.now user reason sale _ t found apart (
          void_tail-Keeps env id user sale
            λ t. return_lines env.stock id sale shift.warehouse_id user sale.lines t.inventory))

void_attempt-Does :
    (env : PosEnv) (id user : ℕ) (reason : Text) (version : Option ℕ) (attempt : ℕ) (s : PosStore)
    → Does Post s (void_attempt env id user reason version attempt)
void_attempt-Does env id user reason version attempt s =
    search
      (
        pos_transaction-Does,
        gets-Does Post (throws (Unit {0})),
        or_throw-Does Post (throws (Unit {0})),
        throw_if-Does Post (throws (Unit {0})),
        void_writes-Does,
      )
      depth 18

pub void_transaction-Keeps :
    (env : PosEnv) (id user : ℕ) (reason : Text) (version : Option ℕ)
    → Keeps AllSettled (void_transaction env id user reason version)
unfolding void_transaction
void_transaction-Keeps env id user reason version =
    retries-Keeps AllSettled env.stock (void_attempt env id user reason version)
      λ attempt. record { at = λ s. (void_attempt-Does env id user reason version attempt s).at }
