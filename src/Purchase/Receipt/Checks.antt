-- ===== src/Purchase/Receipt/Checks.antt =====
-- The loop over the lines of a new receipt in `create` of goods-receipt.service.ts.
use inventory_pos.Common.{
  ◌+◌, ◌≤◌, ◌≡◌, refl, ◌⊎◌, Option, none, some, Bool-cases, inl, inr, List, [], ◌∷◌, ◌==◌, arith,
  All,
}
use inventory_pos.Common.Effects.{Error, ok, err}
use inventory_pos.Common.Does.{>>=-ok, >>=-err}
use inventory_pos.Master.{invalid}
use inventory_pos.Purchase.Store.{PoLine, ReceiptLine}
use inventory_pos.Purchase.Order.{violation}
use inventory_pos.Purchase.Order.Receive.{find_line}
use inventory_pos.Purchase.Receipt.{
  ReceiptStore, default_over_receipt_policy, is_over, check_row, check_lines,
}

-- A line of a receipt agrees with its line of the order and stays within what is left to receive.
abbrev pub Agrees : ReceiptLine → Option PoLine → Type 0
Agrees l none = Unit
Agrees l (some row) =
    (row.qty_received + l.qty_received ≤ row.qty_ordered)
    × (l.product_id ≡ row.product_id)
    × (l.uom_id ≡ row.uom_id)

module _ (s : ReceiptStore) where
  check_row-cases :
      (l : ReceiptLine) (o : Option PoLine)
      → (Agrees l o × (check_row l o s ≡ (ok tt, s)))
        ⊎ ((e : Error) × (check_row l o s ≡ (err e, s)))
  check_row-cases l none = inl (tt, refl)
  check_row-cases l (some row) =
      elim (Bool-cases (is_over default_over_receipt_policy l.qty_received row)) [
        | inl over ↦ inr (violation, ground arith)
        | inr fits ↦ elim (Bool-cases (l.product_id == row.product_id)) [
          | inr other ↦ inr (invalid, ground arith)
          | inl same ↦ elim (Bool-cases (l.uom_id == row.uom_id)) [
            | inr other ↦ inr (invalid, ground arith)
            | inl alike ↦ inl ((ground arith, ground arith, ground arith), ground arith)
          ]
        ]
      ]

  pub check_lines-cases :
      (rows : List PoLine) (ls : List ReceiptLine)
      → (All (λ (l : ReceiptLine). Agrees l (find_line l.po_line_id rows)) ls
          × (check_lines rows ls s ≡ (ok tt, s)))
        ⊎ ((e : Error) × (check_lines rows ls s ≡ (err e, s)))
  unfolding check_lines
  check_lines-cases rows [] = inl (tt, refl)
  check_lines-cases rows (l ∷ ls) = elim (check_row-cases l (find_line l.po_line_id rows)) [
    | inr (e, h) ↦ inr (
      e,
      >>=-err (λ out. out ≡ (err e, s)) (check_row l (find_line l.po_line_id rows))
          (λ _. check_lines rows ls) s e s h refl,
    )
    | inl (here, h) ↦ elim (check_lines-cases rows ls) [
      | inr (e, k) ↦ inr (
        e,
        >>=-ok (λ out. out ≡ (err e, s)) (check_row l (find_line l.po_line_id rows))
            (λ _. check_lines rows ls) s tt s h k,
      )
      | inl (later, k) ↦ inl (
        (here, later),
        >>=-ok (λ out. out ≡ (ok tt, s)) (check_row l (find_line l.po_line_id rows))
            (λ _. check_lines rows ls) s tt s h k,
      )
    ]
  ]
