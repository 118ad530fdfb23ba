-- ===== src/Accounting/Events/Balanced.antt =====
-- Whether the events of the factory balance.
use inventory_pos.Common.{ℕ, ◌≤◌, ◌≡◌, refl, ◌↔◌, true, not, inl, inr, Bool-cases}
use inventory_pos.Common.Effects.{ok}
use inventory_pos.Common.Int.{pos, neg_part, ◌-ℤ◌, abs, ltb_ℤ, int_laws}
use inventory_pos.Common.Text.{Text}
use inventory_pos.Accounting.Store.{JournalTemplate}
use inventory_pos.Accounting.Journal.{
  BusinessEvent, total_debit, total_credit, validate_balance, lines_of,
}
use inventory_pos.Accounting.Events.Calls.{
  FactoryCall, create, goods_receipt, supplier_invoice, purchase_payment, sales_invoice_cogs,
  pos_sale_cogs, sales_return_stock, payment_receipt, stock_adjustment_positive,
  stock_adjustment_negative, stock_opname_surplus, stock_opname_deficit, period_closing_revenue,
  period_closing_expense, depreciation, write_off_ar, sales_invoice, pos_sale, sales_return,
  period_closing_net, bank_reconciliation_adj,
}
use inventory_pos.Accounting.Events.Sums.{
  pair, paid, built_iff, settled, charged, no_neg, no_pos, tax_iff, tax_back_iff, sale_iff,
}

-- The amounts of the call belong together, to the cent.
abbrev pub IsMatched : FactoryCall → Type 0
IsMatched (sales_invoice d accounts_receivable revenue ppn_output subtotal tax) = neg_part tax ≤ 1
IsMatched (sales_return d returns ppn_output accounts_receivable subtotal tax) = neg_part tax ≤ 1
IsMatched (pos_sale d payments revenue ppn_output subtotal tax) =
    abs (paid payments -ℤ charged subtotal tax) ≤ 1
IsMatched _ = Unit

-- For every event that the factory makes, whatever the template: the test of balance that the journal
-- engine makes before it posts passes exactly when the amounts of the call are matched. These are: for a
-- sale, that the payments come to the subtotal and the tax, a negative tax left out, to the cent; for a
-- sales invoice and a sales return, that the tax is not below minus one cent; for all others, nothing.
pub create-validate_balance_iff :
    (uuid : ℕ → Text) (c : FactoryCall) (e : BusinessEvent) (template : JournalTemplate)
    → create uuid c ≡ ok e
    → (validate_balance (lines_of e template) ≡ true) ↔ IsMatched c
unfolding create total_debit total_credit
create-validate_balance_iff uuid (goods_receipt d inventory gr_clearing amount) e template h =
    settled _ e template h (pair _ _ refl refl refl)
create-validate_balance_iff uuid (supplier_invoice d gr_clearing accounts_payable amount) e template
      h =
    settled _ e template h (pair _ _ refl refl refl)
create-validate_balance_iff uuid (purchase_payment d accounts_payable cash amount) e template h =
    settled _ e template h (pair _ _ refl refl refl)
create-validate_balance_iff uuid (sales_invoice_cogs d cogs inventory amount) e template h =
    settled _ e template h (pair _ _ refl refl refl)
create-validate_balance_iff uuid (pos_sale_cogs d cogs inventory amount) e template h =
    settled _ e template h (pair _ _ refl refl refl)
create-validate_balance_iff uuid (sales_return_stock d inventory cogs amount) e template h =
    settled _ e template h (pair _ _ refl refl refl)
create-validate_balance_iff uuid (payment_receipt d cash accounts_receivable amount) e template h =
    settled _ e template h (pair _ _ refl refl refl)
create-validate_balance_iff uuid (stock_adjustment_positive d inventory variance amount text) e
      template h =
    settled _ e template h (pair _ _ refl refl refl)
create-validate_balance_iff uuid (stock_adjustment_negative d inventory variance amount text) e
      template h =
    settled _ e template h (pair _ _ refl refl refl)
create-validate_balance_iff uuid (stock_opname_surplus d inventory opname_gain amount) e template
      h =
    settled _ e template h (pair _ _ refl refl refl)
create-validate_balance_iff uuid (stock_opname_deficit d inventory opname_loss amount) e template
      h =
    settled _ e template h (pair _ _ refl refl refl)
create-validate_balance_iff uuid
      (period_closing_revenue period date user revenue income_summary amount) e template h =
    settled _ e template h (pair _ _ refl refl refl)
create-validate_balance_iff uuid
      (period_closing_expense period date user income_summary expense amount) e template h =
    settled _ e template h (pair _ _ refl refl refl)
create-validate_balance_iff uuid
      (depreciation d depreciation_expense accumulated_depreciation amount) e template h =
    settled _ e template h (pair _ _ refl refl refl)
create-validate_balance_iff uuid (write_off_ar d bad_debt_expense accounts_receivable amount text) e
      template h =
    settled _ e template h (pair _ _ refl refl refl)
create-validate_balance_iff uuid
      (sales_invoice d accounts_receivable revenue ppn_output subtotal tax) e template h =
    elim (Bool-cases (ltb_ℤ (pos 0) tax)) [
      | inl b ↦
          let z = no_neg tax b in
          built_iff _ e template (rw b at h)
            (tax_iff _ subtotal tax (omega int_laws) (omega int_laws))
      | inr b ↦
          let z = no_pos tax b in
          built_iff _ e template (rw b at h)
            (tax_iff _ subtotal tax (omega int_laws) (omega int_laws))
    ]
create-validate_balance_iff uuid (pos_sale d payments revenue ppn_output subtotal tax) e template
      h =
    elim (Bool-cases (ltb_ℤ (pos 0) tax)) [
      | inl b ↦
          let z = no_neg tax b in
          built_iff _ e template (rw b at h)
            (sale_iff payments _ subtotal tax (omega int_laws) (omega int_laws))
      | inr b ↦
          let z = no_pos tax b in
          built_iff _ e template (rw b at h)
            (sale_iff payments _ subtotal tax (omega int_laws) (omega int_laws))
    ]
create-validate_balance_iff uuid
      (sales_return d returns ppn_output accounts_receivable subtotal tax) e template h =
    elim (Bool-cases (ltb_ℤ (pos 0) tax)) [
      | inl b ↦
          let z = no_neg tax b in
          built_iff _ e template (rw b at h)
            (tax_back_iff _ subtotal tax (omega int_laws) (omega int_laws))
      | inr b ↦
          let z = no_pos tax b in
          built_iff _ e template (rw b at h)
            (tax_back_iff _ subtotal tax (omega int_laws) (omega int_laws))
    ]
create-validate_balance_iff uuid
      (period_closing_net period date user income_summary retained_earnings amount) e template h =
    elim (Bool-cases (not (ltb_ℤ amount (pos 0)))) [
      | inl b ↦ settled _ e template (rw b at h) (pair _ _ refl refl refl)
      | inr b ↦ settled _ e template (rw b at h) (pair _ _ refl refl refl)
    ]
create-validate_balance_iff uuid (bank_reconciliation_adj d bank_variance bank amount higher text) e
      template h =
    elim (Bool-cases higher) [
      | inl b ↦ settled _ e template (rw b at h) (pair _ _ refl refl refl)
      | inr b ↦ settled _ e template (rw b at h) (pair _ _ refl refl refl)
    ]
