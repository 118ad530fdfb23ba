-- ===== src/Purchase/Order/Receive/Conserve.antt =====
-- When the loop of `receiveGoods` in purchase-order.service.ts adds up what a receipt brings, and when
-- it does not: every line of the receipt starts from the quantity that was read before the loop.
use inventory_pos.Common.{
  ℕ, ◌+◌, ◌≡◌, refl, ◌∙◌, ◌≢◌, true, false, Option, none, some, List, [], ◌∷◌, ◌==◌, All, arith,
  if◌then◌else◌, Bool-cases, inl, inr, any,
}
use inventory_pos.Purchase.Store.{PoLine, ReceiptLine}
use inventory_pos.Purchase.Order.{is_found}
use inventory_pos.Purchase.Order.Receive.{
  find_line, refers_nowhere, set_received, receive_line, receive_lines,
}
use inventory_pos.Purchase.Order.Receive.Quantities.{
  received, received_on, brought_for, IsUnrepeated, is_found-set_received,
  received_on-set_received_self, received_on-set_received_ne,
}

-- The line of the order that a line of the receipt names is there, and is still as it was read.
abbrev IsFresh : List PoLine → List PoLine → ReceiptLine → Type 0
IsFresh seen lines l =
    (is_found (find_line l.po_line_id lines) ≡ true)
    × (is_found (find_line l.po_line_id seen) ≡ true)
    × (received_on l.po_line_id lines ≡ received_on l.po_line_id seen)

received_on-receive_line :
    (j : ℕ) (o : Option PoLine) (l : ReceiptLine) (lines : List PoLine)
    → is_found o ≡ true
    → is_found (find_line l.po_line_id lines) ≡ true
    → received_on l.po_line_id lines ≡ received o
    → received_on j (receive_line o l lines)
      ≡ received_on j lines + (if l.po_line_id == j then l.qty_received else 0)
received_on-receive_line j none l lines there found same = cc
received_on-receive_line j (some row) l lines there found same =
    elim (Bool-cases (l.po_line_id == j)) [
      | inl here ↦
          let e : l.po_line_id ≡ j = ground arith in
          rw (← e) (
            omega (
              arith,
              received_on-set_received_self l.po_line_id (row.qty_received + l.qty_received) lines
                  found,
              same,
              self (l.po_line_id) l.qty_received,
            ))
      | inr other ↦ rw other (
          omega (
            arith,
            received_on-set_received_ne j l.po_line_id (row.qty_received + l.qty_received) lines
                (λ e. cc (not_self j l.po_line_id e other)),
          ))
    ]
  where
    self : (k q : ℕ) → (if k == k then q else 0) ≡ q
    self k q = ground arith

    not_self : (a b : ℕ) → a ≡ b → (b == a) ≡ false → true ≡ false
    not_self a b e h = ground arith

IsFresh-receive_line :
    (seen : List PoLine) (l : ReceiptLine) (o : Option PoLine) (lines : List PoLine)
    (ms : List ReceiptLine)
    → All (λ (m : ReceiptLine). m.po_line_id ≢ l.po_line_id) ms
    → All (IsFresh seen lines) ms
    → All (IsFresh seen (receive_line o l lines)) ms
IsFresh-receive_line seen l none lines ms apart fresh = fresh
IsFresh-receive_line seen l (some row) lines [] apart fresh = tt
IsFresh-receive_line seen l (some row) lines (m ∷ ms) (ne, apart) ((found, there, same), fresh) =
    let qty = row.qty_received + l.qty_received in
    (
      (
        is_found-set_received m.po_line_id l.po_line_id qty lines ∙ found,
        there,
        received_on-set_received_ne m.po_line_id l.po_line_id qty lines ne ∙ same,
      ),
      IsFresh-receive_line seen l (some row) lines ms apart fresh,
    )

received_on-receive_lines :
    (j : ℕ) (seen : List PoLine) (ls : List ReceiptLine) (lines : List PoLine)
    → IsUnrepeated ls
    → All (IsFresh seen lines) ls
    → received_on j (receive_lines seen ls lines) ≡ received_on j lines + brought_for j ls
unfolding receive_lines
received_on-receive_lines j seen [] lines once fresh = omega arith
received_on-receive_lines j seen (l ∷ ls) lines (apart, once) ((found, there, same), fresh) =
    let o = find_line l.po_line_id seen in
    omega (
      arith,
      received_on-receive_line j o l lines there found same,
      received_on-receive_lines j seen ls (receive_line o l lines) once
          (IsFresh-receive_line seen l o lines ls apart fresh),
    )

All-IsFresh :
    (seen : List PoLine) (ls : List ReceiptLine)
    → any (refers_nowhere seen) ls ≡ false
    → All (IsFresh seen seen) ls
All-IsFresh seen [] h = tt
All-IsFresh seen (l ∷ ls) h =
    ((ground arith, ground arith, refl), All-IsFresh seen ls (ground arith))

-- A receipt that names every line of the order at most once, and only lines that are there, adds to
-- each line exactly what it brings for it.
pub receive_lines_conserves :
    (j : ℕ) (seen : List PoLine) (ls : List ReceiptLine)
    → IsUnrepeated ls
    → any (refers_nowhere seen) ls ≡ false
    → received_on j (receive_lines seen ls seen) ≡ received_on j seen + brought_for j ls
receive_lines_conserves j seen ls once valid =
    received_on-receive_lines j seen ls seen once (All-IsFresh seen ls valid)

overwritten :
    (seen : List PoLine) (id : ℕ) (l m : ReceiptLine) (o : Option PoLine)
    → l.po_line_id ≡ id
    → m.po_line_id ≡ id
    → find_line id seen ≡ o
    → is_found o ≡ true
    → received_on id (receive_line o m (receive_line o l seen)) ≡ received o + m.qty_received
overwritten seen id l m none el em e found = cc
overwritten seen id l m (some row) el em e found =
    let first = row.qty_received + l.qty_received in
    let second = row.qty_received + m.qty_received in
    simp (el, em)
      (received_on-set_received_self id second (set_received id first seen)
        (is_found-set_received id id first seen ∙ simp e))

-- Two lines of a receipt for the same line of the order: the second overwrites the first, and what the
-- first one brought is not counted.
pub receive_lines_repeated :
    (seen : List PoLine) (l m : ReceiptLine)
    → m.po_line_id ≡ l.po_line_id
    → is_found (find_line l.po_line_id seen) ≡ true
    → received_on l.po_line_id (receive_lines seen (l ∷ m ∷ []) seen)
      ≡ received_on l.po_line_id seen + m.qty_received
unfolding receive_lines
receive_lines_repeated seen l m same found =
    simp same (overwritten seen l.po_line_id l m (find_line l.po_line_id seen) refl same refl found)
