-- ===== src/Purchase/Request/Tests.antt =====
-- The purchase request service at concrete inputs.
use inventory_pos.Common.{◌≡◌, refl, true, false, none, some, List, [], ◌∷◌}
use inventory_pos.Common.Effects.{ok}
use inventory_pos.Common.Table.{find_unique}
use inventory_pos.Common.Text.{codes}
use inventory_pos.Purchase.Request
use inventory_pos.Purchase.Request.{PrStatus, PurchaseRequest, RequestStore, delete, submit}
use inventory_pos.Purchase.Request.Settled
use inventory_pos.Purchase.Request.Settled.{Call, run, run-Stays}
use inventory_pos.Purchase.Request.Removed.{submit-delete}

abbrev request : PurchaseRequest
request = record {
  pr_number = codes "PR-202603-00001";
  branch_id = 1;
  warehouse_id = 2;
  status = PrStatus.draft;
  requested_by = 7;
  notes = none;
  deleted = false;
  lines = record { product_id = 5; qty_requested = 30000; uom_id = 1; estimated_price = none } ∷ [];
}

abbrev store : RequestStore
store = record {
  requests = (1, record request { status = PrStatus.approved }) ∷ (2, request) ∷ [];
  sequences = [];
  audit = [];
}

abbrev calls : List Call
calls =
    Settled.submit 2 7
    ∷ Settled.cancel 1 7 (codes "no budget")
    ∷ Settled.approve 2 8 none
    ∷ Settled.delete 1 7
    ∷ []

-- The other request goes its way.
calls-run :
    find_unique 2 (run calls store).requests ≡ some (record request { status = PrStatus.approved })
unfolding run Settled.perform delete submit Request.approve Request.cancel
calls-run = refl

run-Stays_example :
    find_unique 1 (run calls store).requests ≡ some (record request { status = PrStatus.approved })
run-Stays_example =
    run-Stays 1 (record request { status = PrStatus.approved }) calls store refl refl

submit-delete_example :
    let (r, s') = submit 2 9 (delete 2 7 store).1 in
    (r ≡ ok (record request { deleted = true; status = PrStatus.submitted }))
    × (find_unique 2 s'.requests
        ≡ some (record request { deleted = true; status = PrStatus.submitted }))
submit-delete_example = submit-delete 2 7 9 store request refl refl
