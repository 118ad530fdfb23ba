-- ===== src/Purchase/Request/Removed.antt =====
-- What purchase-request.service.ts does with a request that is deleted.
use inventory_pos.Common.{ℕ, ◌≡◌, true, some, arith}
use inventory_pos.Common.Effects.{ok}
use inventory_pos.Common.Table.{find_unique, find_unique-update_self}
use inventory_pos.Purchase.Request.{draft, submitted, PurchaseRequest, RequestStore, delete, submit}

delete_lem :
    (id user : ℕ) (s : RequestStore) (p : PurchaseRequest)
    → find_unique id s.requests ≡ some p
    → p.status ≡ draft
    → let (r, s') = delete id user s in
      (r ≡ ok (record p { deleted = true }))
      × (find_unique id s'.requests ≡ some (record p { deleted = true }))
unfolding delete
delete_lem id user s p found e = ground (
  arith,
  find_unique-update_self id (λ (pr : PurchaseRequest). record pr { deleted = true }) s.requests
      found,
)

submit_lem :
    (id user : ℕ) (s : RequestStore) (p : PurchaseRequest)
    → find_unique id s.requests ≡ some p
    → p.status ≡ draft
    → let (r, s') = submit id user s in
      (r ≡ ok (record p { status = submitted }))
      × (find_unique id s'.requests ≡ some (record p { status = submitted }))
unfolding submit
submit_lem id user s p found e = ground (
  arith,
  find_unique-update_self id (λ (pr : PurchaseRequest). record pr { status = submitted }) s.requests
      found,
)

-- A draft request that has been deleted can still be handed in: `submit` returns it with its deletion
-- mark, and it is stored so.
pub submit-delete :
    (id user other : ℕ) (s : RequestStore) (p : PurchaseRequest)
    → find_unique id s.requests ≡ some p
    → p.status ≡ draft
    → let (r, s') = submit id other (delete id user s).1 in
      (r ≡ ok (record p { deleted = true; status = submitted }))
      × (find_unique id s'.requests ≡ some (record p { deleted = true; status = submitted }))
submit-delete id user other s p found e =
    submit_lem id other (delete id user s).1 (record p { deleted = true })
      (delete_lem id user s p found e).1 e
