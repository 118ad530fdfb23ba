-- ===== src/Purchase/Matching/Rules.antt =====
-- Which invoices three-way-matching.service.ts lets through.
use mathlib.Core.Option.{some-injective}
use inventory_pos.Common.{
  ℕ, ◌+◌, ◌*◌, ◌≤◌, ◌≡◌, refl, ◌∙◌, sym, ◌↔◌, false, Option, none, some, List, [], ◌∷◌, ◌++◌,
  length, arith, All, length-append,
}
use inventory_pos.Common.Effects.{ok}
use inventory_pos.Common.Table.{find_unique, find_many}
use inventory_pos.Purchase.Store.{PoLine, PurchaseOrder, GoodsReceipt, PurchaseStore}
use inventory_pos.Purchase.Matching.{
  InvoiceLine, Violation, gr_qty, po_qty, found_if, line_violations, all_violations,
  total_invoice_amount, exceeds_amount, is_confirmed_for, validate, validate_and_throw, over_amount,
}

-- The rule for one line: its product is ordered, and its quantity is within the tolerance of what is
-- ordered and of what has come in.
abbrev pub IsMatched : ℕ → List PoLine → List GoodsReceipt → InvoiceLine → Type 0
IsMatched tolerance ordered receipts line =
    (q : ℕ) × (po_qty line.product_id ordered ≡ some q)
    × (line.qty * 100 ≤ q * (100 + tolerance))
    × (line.qty * 100 ≤ gr_qty line.product_id receipts * (100 + tolerance))

line_iff :
    (tolerance : ℕ) (ordered : List PoLine) (receipts : List GoodsReceipt) (line : InvoiceLine)
    → (length (line_violations tolerance ordered receipts line) ≡ 0)
      ↔ IsMatched tolerance ordered receipts line
unfolding line_violations
line_iff tolerance ordered receipts line = by_order (po_qty line.product_id ordered) refl
  where
    none_left :
        po_qty line.product_id ordered ≡ none
        → length (line_violations tolerance ordered receipts line) ≡ 0
        → ⊥
    none_left e h = ground arith

    by_order :
        (o : Option ℕ)
        → po_qty line.product_id ordered ≡ o
        → (length (line_violations tolerance ordered receipts line) ≡ 0)
          ↔ IsMatched tolerance ordered receipts line
    by_order none e = (λ h. absurd (none_left e h), λ (q, f, a, b). cc (rw e at f))
    by_order (some q) e = (
      λ h. (q, e, ground arith, ground arith),
      λ (r, f, a, b).
          let same : q ≡ r = some-injective _ _ (sym e ∙ f) in
          let c : line.qty * 100 ≤ q * (100 + tolerance) = rw same a in ground arith,
    )

All-iff :
    (tolerance : ℕ) (ordered : List PoLine) (receipts : List GoodsReceipt)
    (lines : List InvoiceLine)
    → (length (all_violations tolerance ordered receipts lines) ≡ 0)
      ↔ All (IsMatched tolerance ordered receipts) lines
unfolding all_violations
All-iff tolerance ordered receipts [] = (λ h. tt, λ h. refl)
All-iff tolerance ordered receipts (line ∷ lines) =
    let vs = line_violations tolerance ordered receipts line in
    let ws = all_violations tolerance ordered receipts lines in
    let sum = length-append vs ws in
    (
      λ h. (
        (line_iff tolerance ordered receipts line).0 (omega (arith, sum, h)),
        (All-iff tolerance ordered receipts lines).0 (omega (arith, sum, h)),
      ),
      λ (h, hs). omega (
        arith,
        sum,
        (line_iff tolerance ordered receipts line).1 h,
        (All-iff tolerance ordered receipts lines).1 hs,
      ),
    )

-- What the matching finds at an order that is there.
module _ (tolerance id : ℕ) (lines : List InvoiceLine) (po : PurchaseOrder)
    (receipts : List GoodsReceipt) where
  abbrev lines_found : List Violation
  lines_found = all_violations tolerance po.lines receipts lines

  abbrev amount_found : List Violation
  amount_found = found_if (exceeds_amount po lines) over_amount

  amount_iff :
      (length amount_found ≡ 0) ↔ (total_invoice_amount lines * 100 ≤ po.total_amount * 10000 * 105)
  amount_iff = (λ h. ground arith, λ h. ground arith)

  nothing_iff : (length (lines_found ++ amount_found) ≡ 0) ↔ (
      All (IsMatched tolerance po.lines receipts) lines
      × (total_invoice_amount lines * 100 ≤ po.total_amount * 10000 * 105))
  nothing_iff =
      let sum = length-append lines_found amount_found in
      let rows = All-iff tolerance po.lines receipts lines in
      (
        λ h. (rows.0 (omega (arith, sum, h)), amount_iff.0 (omega (arith, sum, h))),
        λ (h, near). omega (arith, sum, rows.1 h, amount_iff.1 near),
      )

outcome :
    (tolerance id : ℕ) (lines : List InvoiceLine) (s : PurchaseStore) (po : PurchaseOrder)
    → find_unique id s.orders ≡ some po
    → po.deleted ≡ false
    → (validate_and_throw tolerance id lines s ≡ ok tt) ↔ (
        length (
          lines_found tolerance id lines po (find_many (is_confirmed_for id) s.receipts)
          ++ amount_found tolerance id lines po (find_many (is_confirmed_for id) s.receipts))
        ≡ 0)
unfolding validate_and_throw validate
outcome tolerance id lines s po found live = (λ h. ground arith, λ h. ground arith)

-- An invoice passes the matching exactly when every line is within the tolerance of what the order and
-- its confirmed receipts hold of its product, and the total is within five hundredths of the order's.
-- The order must be there and not deleted.
pub validate_and_throw-ok_iff :
    (tolerance id : ℕ) (lines : List InvoiceLine) (s : PurchaseStore) (po : PurchaseOrder)
    → find_unique id s.orders ≡ some po
    → po.deleted ≡ false
    → (validate_and_throw tolerance id lines s ≡ ok tt) ↔ (
        All (IsMatched tolerance po.lines (find_many (is_confirmed_for id) s.receipts)) lines
        × (total_invoice_amount lines * 100 ≤ po.total_amount * 10000 * 105))
validate_and_throw-ok_iff tolerance id lines s po found live =
    let seen = outcome tolerance id lines s po found live in
    let rules = nothing_iff tolerance id lines po (find_many (is_confirmed_for id) s.receipts) in
    (λ h. rules.0 (seen.0 h), λ h. seen.1 (rules.1 h))
