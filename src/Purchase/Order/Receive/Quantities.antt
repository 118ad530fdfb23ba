-- ===== src/Purchase/Order/Receive/Quantities.antt =====
-- What `receiveGoods` of purchase-order.service.ts does to the quantities of the order's lines.
use inventory_pos.Common.{
  ℕ, ◌+◌, ◌≤◌, ◌≡◌, refl, ◌≢◌, true, false, Option, none, some, List, [], ◌∷◌, ◌==◌, any, All,
  arith, ◌∙◌, if◌then◌else◌, Bool-cases, inl, inr,
}
use inventory_pos.Purchase.Store.{PoLine, ReceiptLine}
use inventory_pos.Purchase.Order.{is_found}
use inventory_pos.Purchase.Order.Receive.{
  find_line, is_too_much, exceeds, set_received, receive_line, receive_lines,
}

abbrev pub IsBounded : PoLine → Type 0
IsBounded l = l.qty_received ≤ l.qty_ordered

abbrev pub received : Option PoLine → ℕ
received none = 0
received (some l) = l.qty_received

abbrev pub ordered : Option PoLine → ℕ
ordered none = 0
ordered (some l) = l.qty_ordered

-- The quantities received and ordered on a line of the order, 0 if there is no such line.
abbrev pub received_on : ℕ → List PoLine → ℕ
received_on id lines = received (find_line id lines)

abbrev pub ordered_on : ℕ → List PoLine → ℕ
ordered_on id lines = ordered (find_line id lines)

-- What a receipt brings for a line of the order.
abbrev pub brought_for : ℕ → List ReceiptLine → ℕ
brought_for id [] = 0
brought_for id (l ∷ ls) = (if l.po_line_id == id then l.qty_received else 0) + brought_for id ls

-- No two lines of the receipt are for the same line of the order.
abbrev pub IsUnrepeated : List ReceiptLine → Type 0
IsUnrepeated [] = Unit
IsUnrepeated (l ∷ ls) = All (λ (m : ReceiptLine). m.po_line_id ≢ l.po_line_id) ls × IsUnrepeated ls

pub is_found-set_received :
    (j id qty : ℕ) (lines : List PoLine)
    → is_found (find_line j (set_received id qty lines)) ≡ is_found (find_line j lines)
is_found-set_received j id qty [] = refl
is_found-set_received j id qty (l ∷ lines) = ground (arith, is_found-set_received j id qty lines)

pub received_on-set_received_self :
    (id qty : ℕ) (lines : List PoLine)
    → is_found (find_line id lines) ≡ true
    → received_on id (set_received id qty lines) ≡ qty
received_on-set_received_self id qty [] f = cc
received_on-set_received_self id qty (l ∷ lines) f =
    ground (arith, received_on-set_received_self id qty lines)

pub received_on-set_received_ne :
    (j id qty : ℕ) (lines : List PoLine)
    → j ≢ id
    → received_on j (set_received id qty lines) ≡ received_on j lines
received_on-set_received_ne j id qty [] ne = refl
received_on-set_received_ne j id qty (l ∷ lines) ne =
    ground (arith, received_on-set_received_ne j id qty lines ne)

pub ordered_on-set_received :
    (j id qty : ℕ) (lines : List PoLine)
    → ordered_on j (set_received id qty lines) ≡ ordered_on j lines
ordered_on-set_received j id qty [] = refl
ordered_on-set_received j id qty (l ∷ lines) =
    ground (arith, ordered_on-set_received j id qty lines)

set_received-IsBounded :
    (id qty : ℕ) (lines : List PoLine)
    → qty ≤ ordered_on id lines
    → All IsBounded lines
    → All IsBounded (set_received id qty lines)
set_received-IsBounded id qty [] fits h = tt
set_received-IsBounded id qty (l ∷ lines) fits (h, hs) = elim (Bool-cases (l.id == id)) [
  | inl here ↦ rw here (simp here at fits, hs)
  | inr later ↦ rw later (h, set_received-IsBounded id qty lines (simp later at fits) hs)
]

find_line-IsBounded :
    (id : ℕ) (lines : List PoLine)
    → All IsBounded lines
    → received_on id lines ≤ ordered_on id lines
find_line-IsBounded id [] h = omega arith
find_line-IsBounded id (l ∷ lines) h = ground (arith, find_line-IsBounded id lines h.1)

receive_line-IsBounded :
    (seen : List PoLine) (l : ReceiptLine) (lines : List PoLine)
    → ordered_on l.po_line_id lines ≡ ordered_on l.po_line_id seen
    → received_on l.po_line_id seen ≤ ordered_on l.po_line_id seen
    → exceeds seen l ≡ false
    → All IsBounded lines
    → All IsBounded (receive_line (find_line l.po_line_id seen) l lines)
receive_line-IsBounded seen l lines same bounded fits h =
    by_row (find_line l.po_line_id seen) same bounded fits
  where
    by_row :
        (o : Option PoLine)
        → ordered_on l.po_line_id lines ≡ ordered o
        → received o ≤ ordered o
        → is_too_much l.qty_received o ≡ false
        → All IsBounded (receive_line o l lines)
    by_row none e b f = h
    by_row (some row) e b f =
        set_received-IsBounded l.po_line_id (row.qty_received + l.qty_received) lines (ground arith)
          h

ordered_on-receive_line :
    (j : ℕ) (o : Option PoLine) (l : ReceiptLine) (lines : List PoLine)
    → ordered_on j (receive_line o l lines) ≡ ordered_on j lines
ordered_on-receive_line j none l lines = refl
ordered_on-receive_line j (some row) l lines =
    ordered_on-set_received j l.po_line_id (row.qty_received + l.qty_received) lines

receive_lines-IsBounded' :
    (seen : List PoLine) (ls : List ReceiptLine) (lines : List PoLine)
    → ((j : ℕ) → ordered_on j lines ≡ ordered_on j seen)
    → All IsBounded seen
    → any (exceeds seen) ls ≡ false
    → All IsBounded lines
    → All IsBounded (receive_lines seen ls lines)
unfolding receive_lines
receive_lines-IsBounded' seen [] lines same bounded fits h = h
receive_lines-IsBounded' seen (l ∷ ls) lines same bounded fits h =
    receive_lines-IsBounded' seen ls (receive_line (find_line l.po_line_id seen) l lines)
      (λ j. ordered_on-receive_line j (find_line l.po_line_id seen) l lines ∙ same j) bounded
      (ground arith)
      (receive_line-IsBounded seen l lines (same l.po_line_id)
        (find_line-IsBounded l.po_line_id seen bounded) (ground arith) h)

-- If no line of the order had received more than was ordered, and the receipt passed the test for
-- every one of its lines, then no line has received more than was ordered afterwards.
pub receive_lines-IsBounded :
    (seen : List PoLine) (ls : List ReceiptLine)
    → All IsBounded seen
    → any (exceeds seen) ls ≡ false
    → All IsBounded (receive_lines seen ls seen)
receive_lines-IsBounded seen ls bounded fits =
    receive_lines-IsBounded' seen ls seen (λ j. refl) bounded fits bounded
