-- ===== src/Accounting/Events/Calls.antt =====
-- The calls of the factory of src/services/journal-engine/journal-event.builder.ts.
use inventory_pos.Common.{ℕ, Bool, Option, List}
use inventory_pos.Common.Effects.{Result}
use inventory_pos.Common.Int.{ℤ}
use inventory_pos.Common.Text.{Text}
use inventory_pos.Accounting.Journal.{BusinessEvent}
use inventory_pos.Accounting.Events.Factory.{
  Document, SalePayment, create_goods_receipt_event, create_supplier_invoice_event,
  create_purchase_payment_event, create_sales_invoice_cogs_event, create_pos_sale_cogs_event,
  create_sales_return_stock_event, create_payment_receipt_event,
  create_stock_adjustment_positive_event, create_stock_adjustment_negative_event,
  create_stock_opname_surplus_event, create_stock_opname_deficit_event,
  create_period_closing_revenue_event, create_period_closing_expense_event,
  create_depreciation_event, create_write_off_ar_event, create_sales_invoice_event,
  create_pos_sale_event, create_sales_return_event, create_period_closing_net_event,
  create_bank_reconciliation_adj_event,
}

-- A call of the factory.
pub data FactoryCall : Type 0 where
  goods_receipt : Document → (inventory gr_clearing : ℕ) → ℤ → FactoryCall
  supplier_invoice : Document → (gr_clearing accounts_payable : ℕ) → ℤ → FactoryCall
  purchase_payment : Document → (accounts_payable cash : ℕ) → ℤ → FactoryCall
  sales_invoice_cogs : Document → (cogs inventory : ℕ) → ℤ → FactoryCall
  pos_sale_cogs : Document → (cogs inventory : ℕ) → ℤ → FactoryCall
  sales_return_stock : Document → (inventory cogs : ℕ) → ℤ → FactoryCall
  payment_receipt : Document → (cash accounts_receivable : ℕ) → ℤ → FactoryCall
  stock_adjustment_positive : Document → (inventory variance : ℕ) → ℤ → Option Text → FactoryCall
  stock_adjustment_negative : Document → (inventory variance : ℕ) → ℤ → Option Text → FactoryCall
  stock_opname_surplus : Document → (inventory opname_gain : ℕ) → ℤ → FactoryCall
  stock_opname_deficit : Document → (inventory opname_loss : ℕ) → ℤ → FactoryCall
  period_closing_revenue : (period date user : ℕ) → (revenue income_summary : ℕ) → ℤ → FactoryCall
  period_closing_expense : (period date user : ℕ) → (income_summary expense : ℕ) → ℤ → FactoryCall
  depreciation : Document → (depreciation_expense accumulated_depreciation : ℕ) → ℤ → FactoryCall
  write_off_ar :
      Document → (bad_debt_expense accounts_receivable : ℕ) → ℤ → Option Text → FactoryCall
  sales_invoice :
      Document → (accounts_receivable revenue ppn_output : ℕ) → (subtotal tax : ℤ) → FactoryCall
  pos_sale :
      Document → List SalePayment → (revenue ppn_output : ℕ) → (subtotal tax : ℤ) → FactoryCall
  sales_return :
      Document
      → (sales_return ppn_output accounts_receivable : ℕ) → (subtotal tax : ℤ) → FactoryCall
  period_closing_net : (period date user income_summary retained_earnings : ℕ) → ℤ → FactoryCall
  bank_reconciliation_adj :
      Document → (bank_variance bank : ℕ) → ℤ → Bool → Option Text → FactoryCall

unfoldable pub create : (ℕ → Text) → FactoryCall → Result BusinessEvent
unfolding create_goods_receipt_event create_supplier_invoice_event create_purchase_payment_event
    create_sales_invoice_cogs_event create_pos_sale_cogs_event create_sales_return_stock_event
    create_payment_receipt_event create_stock_adjustment_positive_event
    create_stock_adjustment_negative_event create_stock_opname_surplus_event
    create_stock_opname_deficit_event create_period_closing_revenue_event
    create_period_closing_expense_event create_depreciation_event create_write_off_ar_event
    create_sales_invoice_event create_pos_sale_event create_sales_return_event
    create_period_closing_net_event create_bank_reconciliation_adj_event
create uuid (goods_receipt d inventory gr_clearing amount) =
    create_goods_receipt_event d inventory gr_clearing amount
create uuid (supplier_invoice d gr_clearing accounts_payable amount) =
    create_supplier_invoice_event d gr_clearing accounts_payable amount
create uuid (purchase_payment d accounts_payable cash amount) =
    create_purchase_payment_event d accounts_payable cash amount
create uuid (sales_invoice_cogs d cogs inventory amount) =
    create_sales_invoice_cogs_event d cogs inventory amount
create uuid (pos_sale_cogs d cogs inventory amount) =
    create_pos_sale_cogs_event d cogs inventory amount
create uuid (sales_return_stock d inventory cogs amount) =
    create_sales_return_stock_event d inventory cogs amount
create uuid (payment_receipt d cash accounts_receivable amount) =
    create_payment_receipt_event d cash accounts_receivable amount
create uuid (stock_adjustment_positive d inventory variance amount text) =
    create_stock_adjustment_positive_event d inventory variance amount text
create uuid (stock_adjustment_negative d inventory variance amount text) =
    create_stock_adjustment_negative_event d inventory variance amount text
create uuid (stock_opname_surplus d inventory opname_gain amount) =
    create_stock_opname_surplus_event d inventory opname_gain amount
create uuid (stock_opname_deficit d inventory opname_loss amount) =
    create_stock_opname_deficit_event d inventory opname_loss amount
create uuid (period_closing_revenue period date user revenue income_summary amount) =
    create_period_closing_revenue_event uuid period date user revenue income_summary amount
create uuid (period_closing_expense period date user income_summary expense amount) =
    create_period_closing_expense_event uuid period date user income_summary expense amount
create uuid (depreciation d depreciation_expense accumulated_depreciation amount) =
    create_depreciation_event d depreciation_expense accumulated_depreciation amount
create uuid (write_off_ar d bad_debt_expense accounts_receivable amount text) =
    create_write_off_ar_event d bad_debt_expense accounts_receivable amount text
create uuid (sales_invoice d accounts_receivable revenue ppn_output subtotal tax) =
    create_sales_invoice_event d accounts_receivable revenue ppn_output subtotal tax
create uuid (pos_sale d payments revenue ppn_output subtotal tax) =
    create_pos_sale_event d payments revenue ppn_output subtotal tax
create uuid (sales_return d returns ppn_output accounts_receivable subtotal tax) =
    create_sales_return_event d returns ppn_output accounts_receivable subtotal tax
create uuid (period_closing_net period date user income_summary retained_earnings amount) =
    create_period_closing_net_event uuid period date user income_summary retained_earnings amount
create uuid (bank_reconciliation_adj d bank_variance bank amount higher text) =
    create_bank_reconciliation_adj_event d bank_variance bank amount higher text
