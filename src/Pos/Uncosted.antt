-- ===== src/Pos/Uncosted.antt =====
-- The cost of goods that `applyPayment` of pos.service.ts looks for: entries of the stock ledger with the
-- reference type POS_TRANSACTION, where `addItem` and `voidTransaction` write POS.
use inventory_pos.Common.{
  ℕ, ◌≡◌, Bool, true, false, Option, none, some, List, [], ◌∷◌, if◌then◌else◌, arith,
}
use inventory_pos.Common.Effects.{internal, Result, Action, ok, err, pure}
use inventory_pos.Common.Int.{ℤ}
use inventory_pos.Common.Keeps.{Keeps, keeps_rules}
use inventory_pos.Common.Table.{find_unique}
use inventory_pos.Common.Text.{Text}
use inventory_pos.Numbering.{Sequences}
use inventory_pos.Inventory.{InventoryLedger}
use inventory_pos.Inventory.Stock.{StockEnv}
use inventory_pos.Accounting.Store.{FiscalPeriod, Ledger}
use inventory_pos.Pos.Store.{PosTransaction, PosStore, Shift, SaleLine}
use inventory_pos.Pos.{
  PosEnv, OpenShift, set_sequences, set_ledger, pos_transaction, is_there, insert_shift,
  insert_transaction, check_customer, open_shift, create_transaction, hold_transaction,
  resume_transaction,
}
use inventory_pos.Pos.Item.{LineItem, sale_entry, item_attempt, add_item}
use inventory_pos.Pos.Payment.{Tender, total_cogs, journal_sale, apply_payment}
use inventory_pos.Pos.Void.{
  void_entry, return_lines, journal_void, void_writes, void_attempt, void_transaction,
}
use inventory_pos.Pos.Closing.{ClosingUser, check_user, close_shift, force_close_shift}
use inventory_pos.Pos.Kept.{pos_transaction-Keeps, retries-Keeps}
use inventory_pos.Pos.Calls.{Call, perform, run}

module _ (id : ℕ) where
  abbrev Uncosted : PosStore → Type 0
  Uncosted s = total_cogs id s.inventory ≡ 0

  same : (s : PosStore) → Uncosted s → Uncosted s
  same s h = h

  books :
      (q : Sequences) (l : Ledger) (s : PosStore)
      → Uncosted s
      → Uncosted (set_sequences q (set_ledger l s))
  books q l s h = h

  uncosted_transaction :
      {A : Type 0} (m : Action PosStore A) → Keeps Uncosted m → Keeps Uncosted (pos_transaction m)
  uncosted_transaction = pos_transaction-Keeps Uncosted books

  insert_shift-Keeps : (key : ℕ) (shift : Shift) → Keeps Uncosted (insert_shift key shift)
  insert_shift-Keeps key shift = record {
    at = λ s h. by_key s (is_there (find_unique key s.shifts)) h;
  }
    where
      by_key :
          (s : PosStore) (b : Bool)
          → Uncosted s
          → let out : Result Shift × PosStore =
              if b
              then (err internal, s)
              else (ok shift, record s { shifts = (key, shift) ∷ s.shifts }) in
            Uncosted out.1
      by_key s true h = h
      by_key s false h = h

  insert_transaction-Keeps :
      (key : ℕ) (t : PosTransaction) → Keeps Uncosted (insert_transaction key t)
  insert_transaction-Keeps key t = record {
    at = λ s h. by_key s (is_there (find_unique key s.sales)) h;
  }
    where
      by_key :
          (s : PosStore) (b : Bool)
          → Uncosted s
          → let out : Result PosTransaction × PosStore =
              if b then (err internal, s) else (ok t, record s { sales = (key, t) ∷ s.sales }) in
            Uncosted out.1
      by_key s true h = h
      by_key s false h = h

  ruleset still =
      (keeps_rules, same, uncosted_transaction, insert_shift-Keeps, insert_transaction-Keeps)

  sold :
      (env : StockEnv) (key : ℕ) (t : PosTransaction) (warehouse : ℕ) (item : LineItem)
      (s : PosStore)
      → Uncosted s
      → Uncosted
          (record s { inventory = sale_entry env key t warehouse item s.inventory ∷ s.inventory })
  unfolding total_cogs sale_entry
  sold env key t warehouse item s h = omega (arith, h)

  returned :
      (env : StockEnv) (key : ℕ) (t : PosTransaction) (warehouse user : ℕ) (ls : List SaleLine)
      (es : InventoryLedger)
      → total_cogs id es ≡ 0
      → total_cogs id (return_lines env key t warehouse user ls es) ≡ 0
  unfolding total_cogs return_lines void_entry
  returned env key t warehouse user [] es h = h
  returned env key t warehouse user (l ∷ ls) es h =
      returned env key t warehouse user ls (void_entry env key t warehouse user l es ∷ es)
        (omega (arith, h))

  given_back :
      (env : StockEnv) (key : ℕ) (t : PosTransaction) (warehouse user : ℕ) (ls : List SaleLine)
      (s : PosStore)
      → Uncosted s
      → Uncosted (record s { inventory = return_lines env key t warehouse user ls s.inventory })
  given_back env key t warehouse user ls s h = returned env key t warehouse user ls s.inventory h

  when-Keeps :
      (b : Bool) (m : Action PosStore (Unit {0}))
      → Keeps Uncosted m
      → Keeps Uncosted (if b then m else pure tt)
  when-Keeps true m k = k
  when-Keeps false m k = search still

  journal_sale-Keeps :
      (env : PosEnv) (key : ℕ) (t : PosTransaction) (o : Option (ℕ × FiscalPeriod))
      → Keeps Uncosted (journal_sale env key t o)
  unfolding journal_sale
  journal_sale-Keeps env key t none = search still
  journal_sale-Keeps env key t (some (period, p)) = search (still, when-Keeps) depth 14

  journal_void-Keeps :
      (env : PosEnv) (key : ℕ) (t : PosTransaction) (user : ℕ) (o : Option (ℕ × FiscalPeriod))
      → Keeps Uncosted (journal_void env key t user o)
  unfolding journal_void
  journal_void-Keeps env key t user none = search still
  journal_void-Keeps env key t user (some (period, p)) = search (still, when-Keeps) depth 14

  check_customer-Keeps : (customer : Option ℕ) → Keeps Uncosted (check_customer customer)
  check_customer-Keeps none = search still
  check_customer-Keeps (some key) = search still depth 8

  check_user-Keeps :
      (user : Option ClosingUser) (shift : Shift) → Keeps Uncosted (check_user user shift)
  check_user-Keeps none shift = search still
  check_user-Keeps (some user) shift = search still

  item_attempt-Keeps :
      (env : PosEnv) (key : ℕ) (item : LineItem) (attempt : ℕ)
      → Keeps Uncosted (item_attempt env key item attempt)
  item_attempt-Keeps env key item attempt = search (still, sold) depth 18

  void_writes-Keeps :
      (env : PosEnv) (key user : ℕ) (reason : Text) (attempt : ℕ) (sale : PosTransaction)
      (shift : Shift)
      → Keeps Uncosted (void_writes env key user reason attempt sale shift)
  void_writes-Keeps env key user reason attempt sale shift =
      search (still, given_back, journal_void-Keeps) depth 14

  void_attempt-Keeps :
      (env : PosEnv) (key user : ℕ) (reason : Text) (version : Option ℕ) (attempt : ℕ)
      → Keeps Uncosted (void_attempt env key user reason version attempt)
  void_attempt-Keeps env key user reason version attempt =
      search (still, void_writes-Keeps) depth 16

  open_shift-Keeps : (env : PosEnv) (data_ : OpenShift) → Keeps Uncosted (open_shift env data_)
  unfolding open_shift
  open_shift-Keeps env data_ = search still depth 10

  create_transaction-Keeps :
      (env : PosEnv) (key : ℕ) (customer : Option ℕ)
      → Keeps Uncosted (create_transaction env key customer)
  unfolding create_transaction
  create_transaction-Keeps env key customer = search (still, check_customer-Keeps) depth 12

  add_item-Keeps :
      (env : PosEnv) (key : ℕ) (item : LineItem) → Keeps Uncosted (add_item env key item)
  unfolding add_item
  add_item-Keeps env key item =
      retries-Keeps Uncosted env.stock (item_attempt env key item) (item_attempt-Keeps env key item)

  hold_transaction-Keeps : (key version : ℕ) → Keeps Uncosted (hold_transaction key version)
  unfolding hold_transaction
  hold_transaction-Keeps key version = search still depth 10

  resume_transaction-Keeps : (key version : ℕ) → Keeps Uncosted (resume_transaction key version)
  unfolding resume_transaction
  resume_transaction-Keeps key version = search still depth 10

  apply_payment-Keeps :
      (env : PosEnv) (key : ℕ) (ps : List Tender) → Keeps Uncosted (apply_payment env key ps)
  unfolding apply_payment
  apply_payment-Keeps env key ps = search (still, journal_sale-Keeps) depth 14

  void_transaction-Keeps :
      (env : PosEnv) (key user : ℕ) (reason : Text) (version : Option ℕ)
      → Keeps Uncosted (void_transaction env key user reason version)
  unfolding void_transaction
  void_transaction-Keeps env key user reason version =
      retries-Keeps Uncosted env.stock (void_attempt env key user reason version)
        (void_attempt-Keeps env key user reason version)

  close_shift-Keeps :
      (now key : ℕ) (closing : ℤ) (user : Option ClosingUser)
      → Keeps Uncosted (close_shift now key closing user)
  unfolding close_shift
  close_shift-Keeps now key closing user = search (still, check_user-Keeps) depth 12

  force_close_shift-Keeps :
      (now key : ℕ) (closing : ℤ) → Keeps Uncosted (force_close_shift now key closing)
  unfolding force_close_shift
  force_close_shift-Keeps now key closing = search still depth 12

  perform-Uncosted : (c : Call) (s : PosStore) → Uncosted s → Uncosted (perform c s)
  unfolding perform
  perform-Uncosted (Call.shift_opened env data_) s = (open_shift-Keeps env data_).at s
  perform-Uncosted (Call.sale_created env key customer) s =
      (create_transaction-Keeps env key customer).at s
  perform-Uncosted (Call.item_added env key item) s = (add_item-Keeps env key item).at s
  perform-Uncosted (Call.sale_held key version) s = (hold_transaction-Keeps key version).at s
  perform-Uncosted (Call.sale_resumed key version) s = (resume_transaction-Keeps key version).at s
  perform-Uncosted (Call.sale_paid env key ps) s = (apply_payment-Keeps env key ps).at s
  perform-Uncosted (Call.sale_voided env key user reason version) s =
      (void_transaction-Keeps env key user reason version).at s
  perform-Uncosted (Call.shift_closed now key closing user) s =
      (close_shift-Keeps now key closing user).at s
  perform-Uncosted (Call.shift_forced now key closing) s =
      (force_close_shift-Keeps now key closing).at s

  -- No call of the service ever gives a transaction a cost of goods: where the stock ledger has none for
  -- it, it has none after any sequence of calls, whatever was sold in them.
  pub run-total_cogs :
      (cs : List Call) (s : PosStore)
      → total_cogs id s.inventory ≡ 0
      → total_cogs id (run cs s).inventory ≡ 0
  unfolding run
  run-total_cogs [] s h = h
  run-total_cogs (c ∷ cs) s h = run-total_cogs cs (perform c s) (perform-Uncosted c s h)
