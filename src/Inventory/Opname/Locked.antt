-- ===== src/Inventory/Opname/Locked.antt =====
-- A count of stock-opname.service.ts locks its warehouse, and the adjustment that would end it asks for
-- a warehouse that is not locked.
use inventory_pos.Common.{
  ℕ, ◌≡◌, refl, sym, ap, ◌∙◌, inl, inr, Bool, true, Option, some, List, [], ◌∷◌, any, keep,
  Bool-cases,
}
use inventory_pos.Common.Does.{
  >>=-all, >>=-ok, Silent, Silent-pure, Silent-bind, Silent-gets, Silent-or_throw,
}
use inventory_pos.Common.Effects.{Action, pure, Result, ok, err, Error, internal, ◌>>=◌, ◌>>◌}
use inventory_pos.Common.Table.{find_unique}
use inventory_pos.Numbering
use inventory_pos.Numbering.{Sequences}
use inventory_pos.Inventory.{InventoryLedger}
use inventory_pos.Inventory.Stock.{
  completed, Product, OpnameLine, StockOpname, StockStore, StockEnv, set_sequences, next_number,
  is_locked,
}
use inventory_pos.Inventory.Stock.Retry.{retry_from-all}
use inventory_pos.Inventory.Adjust.{
  AdjustmentRequest, write_adjustment, adjustment_attempt, is_empty, adjust_stock,
}
use inventory_pos.Inventory.Opname.{
  complete, finalize_opname, counting_request, existing_opname, adjusting_lines, adjust_differences,
  finalize, status_eq,
}
use inventory_pos.Inventory.CountLines.{adjusting_line, differs, is_pending}

abbrev pub IsLockedAt : ℕ → StockStore → Type 0
IsLockedAt warehouse s = is_locked (find_unique warehouse s.warehouses) ≡ true

-- Nothing but the counters has changed.
abbrev pub SameBut : StockStore → StockStore → Type 0
SameBut s s' = s' ≡ set_sequences s'.sequences s

-- The call throws, and leaves everything but the counters as it was.
abbrev pub Refused : {A : Type 0} → StockStore → Result A × StockStore → Type 0
Refused s (err e, s') = SameBut s s'
Refused s (ok a, s') = ⊥

-- That, if the warehouse is locked.
abbrev Post : {A : Type 0} → ℕ → StockStore → Result A × StockStore → Type 0
Post warehouse s out = IsLockedAt warehouse s → Refused s out

SameBut-trans : (a b c : StockStore) → SameBut a b → SameBut b c → SameBut a c
SameBut-trans a b c h k = k ∙ ap (set_sequences c.sequences) h

after :
    {A : Type 0} (warehouse : ℕ) (s t : StockStore) (e : Error) (out : Result A × StockStore)
    → Post {A = A} warehouse s (err e, t)
    → Post warehouse t out
    → Post warehouse s out
after warehouse s t e (err x, u) h k =
    λ locked. SameBut-trans s t u (h locked) (k (rw (h locked) locked))
after warehouse s t e (ok x, u) h k = λ locked. k (rw (h locked) locked)

module _ (env : StockEnv) (request : AdjustmentRequest) (user : ℕ) where
  attempt-Post :
      (attempt : ℕ) (s : StockStore)
      → Post request.warehouse_id s (adjustment_attempt env request user attempt s)
  attempt-Post attempt s =
      >>=-all (Post request.warehouse_id s)
        (next_number env attempt Numbering.DocumentType.sa request.adjustment_date)
        (write_adjustment env request user attempt) s
        (λ e t h locked. rw (ap (λ out. out.1) (sym h)) refl)
        (λ number t h locked.
          let e : t ≡ set_sequences t.sequences s = rw (ap (λ out. out.1) (sym h)) refl in
          let shut : IsLockedAt request.warehouse_id t =
            rw (ap (λ (x : StockStore). x.warehouses) e) locked in
          rw shut e)

  -- An adjustment of a locked warehouse throws.
  adjust_stock-Post :
      (s : StockStore) → Post request.warehouse_id s (adjust_stock env request user s)
  unfolding adjust_stock
  adjust_stock-Post s = elim (Bool-cases (is_empty request.reason)) [
    | inl empty ↦ λ locked. rw (◌>>◌, ◌>>=◌, empty) refl
    | inr given ↦ λ locked.
        rw (◌>>◌, ◌>>=◌, given)
          (retry_from-all (Post request.warehouse_id) (after request.warehouse_id) env
            (adjustment_attempt env request user) attempt-Post 2 1 s locked)
  ]

-- Making up the lines of an adjustment writes nothing.
adjusting_lines-Silent :
    (warehouse : ℕ) (ls : List OpnameLine) → Silent (adjusting_lines warehouse ls)
unfolding adjusting_lines
adjusting_lines-Silent warehouse [] = Silent-pure []
adjusting_lines-Silent warehouse (l ∷ ls) =
    Silent-bind {A = Option Product} _ _
      (Silent-gets λ (s : StockStore). find_unique l.product_id s.products)
      λ row. Silent-bind {A = Product} _ _ (Silent-or_throw internal (λ (s : StockStore). row)) λ p.
        Silent-bind {A = InventoryLedger} _ _ (Silent-gets λ (s : StockStore). s.ledger) λ es.
          Silent-bind _ _ (adjusting_lines-Silent warehouse ls)
            (λ rest. Silent-pure (adjusting_line warehouse l p es ∷ rest))

-- What follows a refused call is refused.
Refused-bind :
    {A B : Type 0} (m : Action StockStore A) (f : A → Action StockStore B) (s : StockStore)
    → Refused s (m s)
    → Refused s ((m >>= f) s)
Refused-bind m f s r = >>=-all (Refused s) m f s (λ e t h. rw h at r) (λ a t h. absurd (rw h at r))

adjust_differences-Refused :
    (env : StockEnv) (user : ℕ) (o : StockOpname) (l : OpnameLine) (ls : List OpnameLine)
    (s : StockStore)
    → IsLockedAt o.warehouse_id s
    → Refused s (adjust_differences env user o (l ∷ ls) s)
adjust_differences-Refused env user o l ls s locked =
    >>=-all (Refused s) (adjusting_lines o.warehouse_id (l ∷ ls))
      (λ lines. adjust_stock env (counting_request env o lines) user >>= λ a. pure (some a)) s
      (λ e t h. rw (quiet t (ap (λ out. out.1) h)) refl)
      (λ lines t h. rw (quiet t (ap (λ out. out.1) h)) (
        Refused-bind (adjust_stock env (counting_request env o lines) user) (λ a. pure (some a)) s
          (adjust_stock-Post env (counting_request env o lines) user s locked)))
  where
    quiet : (t : StockStore) → (adjusting_lines o.warehouse_id (l ∷ ls) s).1 ≡ t → t ≡ s
    quiet t h = sym h ∙ (adjusting_lines-Silent o.warehouse_id (l ∷ ls)).at s

any-keep :
    {A : Type 0} (p : A → Bool) (xs : List A)
    → any p xs ≡ true
    → (x : A) × (ys : List A) × (keep p xs ≡ x ∷ ys)
any-keep p [] h = cc
any-keep p (x ∷ xs) h = elim (Bool-cases (p x)) [
  | inl yes_ ↦ (x, keep p xs, rw yes_ refl)
  | inr no_ ↦ let (y, ys, e) = any-keep p xs (rw no_ at h) in (y, ys, rw no_ e)
]

-- While its warehouse is locked, a count in which a line differs cannot be finalized: the call throws,
-- whatever the numbering and the row locks answer, and changes nothing but the counters.
pub finalize-Refused :
    (env : StockEnv) (id user : ℕ) (s : StockStore) (o : StockOpname)
    → find_unique id s.opnames ≡ some o
    → IsLockedAt o.warehouse_id s
    → any differs o.lines ≡ true
    → Refused s (finalize env id user s)
unfolding finalize
finalize-Refused env id user s o found locked d =
    let (l, ls, some_differ) = any-keep differs o.lines d in
    >>=-ok (Refused s) (existing_opname id) (finalize_opname env id user) s o s (rw found refl)
      (elim (Bool-cases (status_eq o.status completed)) [
        | inl over ↦ rw over refl
        | inr going ↦ elim (Bool-cases (any is_pending o.lines)) [
          | inl waiting ↦ rw (going, waiting) refl
          | inr counted ↦
              rw (going, counted, some_differ)
                (Refused-bind (adjust_differences env user o (l ∷ ls)) (complete env id user o) s
                  (adjust_differences-Refused env user o l ls s locked))
        ]
      ])
