-- ===== src/Accounting/Events/Factory.antt =====
-- JournalEventFactory of src/services/journal-engine/journal-event.builder.ts: one function for each
-- event, with the accounts in the order of the parameters. `CLOSE-${periodId}` needs the text of an id,
-- which is an argument.
use inventory_pos.Common.{ℕ, Bool, not, Option, none, some, List, [], ◌∷◌, ◌++◌, if◌then◌else◌}
use inventory_pos.Common.Effects.{Result}
use inventory_pos.Common.Int.{ℤ, pos, ◌+ℤ◌, abs, ltb_ℤ}
use inventory_pos.Common.Text.{Text, codes}
use inventory_pos.Accounting.Journal.{BusinessEvent}
use inventory_pos.Accounting.Events.{
  JournalEventBuilder, new_builder, with_event_type, with_reference, with_period, with_created_by,
  add_debit_line, add_credit_line, build,
}

-- What every event is told of its document.
pub record Document : Type 0 where
  pub id : ℕ
  pub number : Text
  pub period_id : ℕ
  pub entry_date : ℕ
  pub created_by : ℕ

abbrev pub start : Text → Text → Document → JournalEventBuilder
start event reference d = with_created_by d.created_by (
    with_period d.period_id d.entry_date
      (with_reference reference d.id d.number (with_event_type event new_builder)))

abbrev pub text_or : Text → Option Text → Text
text_or other none = other
text_or other (some s) = s

-- The document of a period's closing.
abbrev pub closing : (ℕ → Text) → (period date user : ℕ) → Document
closing uuid period date user = record {
  id = period;
  number = codes "CLOSE-" ++ uuid period;
  period_id = period;
  entry_date = date;
  created_by = user;
}

unfoldable pub create_goods_receipt_event :
    Document → (inventory gr_clearing : ℕ) → ℤ → Result BusinessEvent
create_goods_receipt_event d inventory gr_clearing total_value = build (
    add_credit_line gr_clearing total_value (some (codes "GR Clearing")) (
      add_debit_line inventory total_value (some (codes "Penerimaan barang"))
        (start (codes "GOODS_RECEIPT") (codes "GR") d)))

unfoldable pub create_supplier_invoice_event :
    Document → (gr_clearing accounts_payable : ℕ) → ℤ → Result BusinessEvent
create_supplier_invoice_event d gr_clearing accounts_payable total_amount = build (
    add_credit_line accounts_payable total_amount (some (codes "Hutang Dagang")) (
      add_debit_line gr_clearing total_amount (some (codes "GR Clearing"))
        (start (codes "SUPPLIER_INVOICE") (codes "PINV") d)))

unfoldable pub create_purchase_payment_event :
    Document → (accounts_payable cash : ℕ) → ℤ → Result BusinessEvent
create_purchase_payment_event d accounts_payable cash amount = build (
    add_credit_line cash amount (some (codes "Pembayaran supplier")) (
      add_debit_line accounts_payable amount (some (codes "Hutang Dagang"))
        (start (codes "PURCHASE_PAYMENT") (codes "PV") d)))

unfoldable pub create_sales_invoice_cogs_event :
    Document → (cogs inventory : ℕ) → ℤ → Result BusinessEvent
create_sales_invoice_cogs_event d cogs inventory cogs_value = build (
    add_credit_line inventory cogs_value (some (codes "Persediaan Barang")) (
      add_debit_line cogs cogs_value (some (codes "HPP"))
        (start (codes "SALES_INVOICE_COGS") (codes "INV") d)))

unfoldable pub create_pos_sale_cogs_event :
    Document → (cogs inventory : ℕ) → ℤ → Result BusinessEvent
create_pos_sale_cogs_event d cogs inventory cogs_value = build (
    add_credit_line inventory cogs_value (some (codes "Persediaan Barang")) (
      add_debit_line cogs cogs_value (some (codes "HPP"))
        (start (codes "POS_SALE_COGS") (codes "POS") d)))

unfoldable pub create_sales_return_stock_event :
    Document → (inventory cogs : ℕ) → ℤ → Result BusinessEvent
create_sales_return_stock_event d inventory cogs stock_value = build (
    add_credit_line cogs stock_value (some (codes "HPP")) (
      add_debit_line inventory stock_value (some (codes "Persediaan Barang"))
        (start (codes "SALES_RETURN_STOCK") (codes "SR") d)))

unfoldable pub create_payment_receipt_event :
    Document → (cash accounts_receivable : ℕ) → ℤ → Result BusinessEvent
create_payment_receipt_event d cash accounts_receivable amount = build (
    add_credit_line accounts_receivable amount (some (codes "Piutang Dagang")) (
      add_debit_line cash amount (some (codes "Penerimaan pembayaran"))
        (start (codes "PAYMENT_RECEIPT") (codes "RCV") d)))

unfoldable pub create_stock_adjustment_positive_event :
    Document → (inventory variance : ℕ) → ℤ → Option Text → Result BusinessEvent
create_stock_adjustment_positive_event d inventory variance adjustment_value text = build (
    add_credit_line variance adjustment_value (some (text_or (codes "Selisih Persediaan") text)) (
      add_debit_line inventory adjustment_value (some (codes "Persediaan Barang"))
        (start (codes "STOCK_ADJUSTMENT_POSITIVE") (codes "SA") d)))

unfoldable pub create_stock_adjustment_negative_event :
    Document → (inventory variance : ℕ) → ℤ → Option Text → Result BusinessEvent
create_stock_adjustment_negative_event d inventory variance adjustment_value text = build (
    add_credit_line inventory adjustment_value (some (codes "Persediaan Barang")) (
      add_debit_line variance adjustment_value (some (text_or (codes "Selisih Persediaan") text))
        (start (codes "STOCK_ADJUSTMENT_NEGATIVE") (codes "SA") d)))

unfoldable pub create_stock_opname_surplus_event :
    Document → (inventory opname_gain : ℕ) → ℤ → Result BusinessEvent
create_stock_opname_surplus_event d inventory opname_gain surplus_value = build (
    add_credit_line opname_gain surplus_value (some (codes "Keuntungan Opname")) (
      add_debit_line inventory surplus_value (some (codes "Persediaan Barang"))
        (start (codes "STOCK_OPNAME_SURPLUS") (codes "SO") d)))

unfoldable pub create_stock_opname_deficit_event :
    Document → (inventory opname_loss : ℕ) → ℤ → Result BusinessEvent
create_stock_opname_deficit_event d inventory opname_loss deficit_value = build (
    add_credit_line inventory deficit_value (some (codes "Persediaan Barang")) (
      add_debit_line opname_loss deficit_value (some (codes "Kerugian Opname"))
        (start (codes "STOCK_OPNAME_DEFICIT") (codes "SO") d)))

unfoldable pub create_period_closing_revenue_event :
    (ℕ → Text) → (period date user : ℕ) → (revenue income_summary : ℕ) → ℤ → Result BusinessEvent
create_period_closing_revenue_event uuid period date user revenue income_summary total_revenue =
    build (
      add_credit_line income_summary total_revenue (some (codes "Ikhtisar Laba Rugi")) (
        add_debit_line revenue total_revenue (some (codes "Penutupan Pendapatan")) (
          start (codes "PERIOD_CLOSING_REVENUE") (codes "PERIOD") (closing uuid period date user))))

unfoldable pub create_period_closing_expense_event :
    (ℕ → Text) → (period date user : ℕ) → (income_summary expense : ℕ) → ℤ → Result BusinessEvent
create_period_closing_expense_event uuid period date user income_summary expense total_expenses =
    build (
      add_credit_line expense total_expenses (some (codes "Penutupan Beban")) (
        add_debit_line income_summary total_expenses (some (codes "Ikhtisar Laba Rugi")) (
          start (codes "PERIOD_CLOSING_EXPENSE") (codes "PERIOD") (closing uuid period date user))))

unfoldable pub create_depreciation_event :
    Document → (depreciation_expense accumulated_depreciation : ℕ) → ℤ → Result BusinessEvent
create_depreciation_event d depreciation_expense accumulated_depreciation depreciation_amount =
    build (
      add_credit_line accumulated_depreciation depreciation_amount
        (some (codes "Akumulasi Penyusutan"))
        (add_debit_line depreciation_expense depreciation_amount (some (codes "Beban Penyusutan"))
          (start (codes "DEPRECIATION") (codes "ASSET") d)))

unfoldable pub create_write_off_ar_event :
    Document → (bad_debt_expense accounts_receivable : ℕ) → ℤ → Option Text → Result BusinessEvent
create_write_off_ar_event d bad_debt_expense accounts_receivable write_off_amount text = build (
    add_credit_line accounts_receivable write_off_amount
      (some (text_or (codes "Penghapusan Piutang") text))
      (add_debit_line bad_debt_expense write_off_amount (some (codes "Beban Piutang Tak Tertagih"))
        (start (codes "WRITE_OFF_AR") (codes "INV") d)))

-- The tax line is there only for a positive tax.
abbrev pub with_tax :
    Bool → (JournalEventBuilder → JournalEventBuilder) → JournalEventBuilder → JournalEventBuilder
with_tax taxed line b = if taxed then line b else b

unfoldable pub create_sales_invoice_event :
    Document
    → (accounts_receivable revenue ppn_output : ℕ) → (subtotal tax : ℤ) → Result BusinessEvent
unfolding ◌+ℤ◌
create_sales_invoice_event d accounts_receivable revenue ppn_output subtotal tax = build (
    with_tax (ltb_ℤ (pos 0) tax) (add_credit_line ppn_output tax (some (codes "PPN Keluaran"))) (
      add_credit_line revenue subtotal (some (codes "Pendapatan Penjualan")) (
        add_debit_line accounts_receivable (subtotal +ℤ tax) (some (codes "Piutang Dagang"))
          (start (codes "SALES_INVOICE") (codes "INV") d))))

pub record SalePayment : Type 0 where
  pub account_id : ℕ
  pub amount : ℤ
  pub description : Option Text

-- The loop over the payments.
unfoldable pub add_payments : List SalePayment → JournalEventBuilder → JournalEventBuilder
add_payments [] b = b
add_payments (p ∷ ps) b = add_payments ps (add_debit_line p.account_id p.amount p.description b)

unfoldable pub create_pos_sale_event :
    Document
    → List SalePayment
    → (revenue ppn_output : ℕ) → (subtotal tax : ℤ) → Result BusinessEvent
unfolding add_payments
create_pos_sale_event d payments revenue ppn_output subtotal tax = build (
    add_payments payments (
      with_tax (ltb_ℤ (pos 0) tax) (add_credit_line ppn_output tax (some (codes "PPN Keluaran"))) (
        add_credit_line revenue subtotal (some (codes "Pendapatan Penjualan"))
          (start (codes "POS_SALE") (codes "POS") d))))

unfoldable pub create_sales_return_event :
    Document
    → (sales_return ppn_output accounts_receivable : ℕ) → (subtotal tax : ℤ) → Result BusinessEvent
unfolding ◌+ℤ◌
create_sales_return_event d sales_return ppn_output accounts_receivable subtotal tax = build (
    with_tax (ltb_ℤ (pos 0) tax) (add_debit_line ppn_output tax (some (codes "PPN Keluaran"))) (
      add_credit_line accounts_receivable (subtotal +ℤ tax) (some (codes "Piutang Dagang")) (
        add_debit_line sales_return subtotal (some (codes "Retur Penjualan"))
          (start (codes "SALES_RETURN") (codes "SR") d))))

-- A profit or a loss, by the sign of the net income.
unfoldable pub create_period_closing_net_event :
    (ℕ → Text) → (period date user income_summary retained_earnings : ℕ) → ℤ → Result BusinessEvent
create_period_closing_net_event uuid period date user income_summary retained_earnings net_income =
    let amount = pos (abs net_income) in
    let b = start (codes "PERIOD_CLOSING_NET") (codes "PERIOD") (closing uuid period date user) in
    build (
      if not (ltb_ℤ net_income (pos 0))
      then add_credit_line retained_earnings amount (some (codes "Laba Ditahan"))
          (add_debit_line income_summary amount (some (codes "Ikhtisar Laba Rugi")) b)
      else add_credit_line income_summary amount (some (codes "Ikhtisar Laba Rugi"))
          (add_debit_line retained_earnings amount (some (codes "Laba Ditahan")) b))

unfoldable pub create_bank_reconciliation_adj_event :
    Document → (bank_variance bank : ℕ) → ℤ → Bool → Option Text → Result BusinessEvent
create_bank_reconciliation_adj_event d bank_variance bank amount is_bank_higher text =
    let variance = some (text_or (codes "Selisih Bank") text) in
    let b = start (codes "BANK_RECONCILIATION_ADJ") (codes "BREC") d in
    build (
      if is_bank_higher
      then add_credit_line bank_variance amount variance
          (add_debit_line bank amount (some (codes "Kas/Bank")) b)
      else add_credit_line bank amount (some (codes "Kas/Bank"))
          (add_debit_line bank_variance amount variance b))
