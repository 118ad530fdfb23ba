-- ===== src/Purchase/Request/Steps.antt =====
-- Every call of purchase-request.service.ts on a request that is there is one step of its life.
use inventory_pos.Common.{
  ℕ, ◌≡◌, refl, ◌⊎◌, Bool, true, false, not, ◌&&◌, Option, none, some, List, ◌∷◌, inl, inr,
}
use inventory_pos.Common.Effects.{Result, ok, err, Error, missing, Action, ◌>>=◌}
use inventory_pos.Common.Does.{Does, throw_if-Does, or_throw-Does, Silent, silent_rules, check-Does}
use inventory_pos.Common.Table.{Table, find_unique, update, find_unique-update_self, update-const}
use inventory_pos.Common.Text.{Text, codes}
use inventory_pos.Master.{Party, MasterData, verify_party, verify_warehouse, verify_all}
use inventory_pos.Purchase.Store.{AuditAction, annotate}
use inventory_pos.Purchase.Request.{
  PrStatus, draft, submitted, approved, rejected, cancelled, RequestLine, PurchaseRequest,
  RequestStore, status_eq, approval_notes, existing_request, save, delete, submit, approve, reject,
  cancel,
}
use inventory_pos.Purchase.Request.Edit.{
  UpdateRequest, update_request, verify_new_warehouse, verify_new_lines, or_old, new_notes,
}

-- The state machine of one request.
pub data Step (p q : PurchaseRequest) : Type 0 where
  edited :
      (warehouse : ℕ) (text : Option Text) (lines : List RequestLine)
      → p.status ≡ draft
      → q ≡ record p { warehouse_id = warehouse; notes = text; lines = lines }
      → Step p q
  removed : p.status ≡ draft → q ≡ record p { deleted = true } → Step p q
  handed_in : p.status ≡ draft → q ≡ record p { status = submitted } → Step p q
  accepted :
      (text : Option Text)
      → p.status ≡ submitted
      → q ≡ record p { status = approved; notes = text }
      → Step p q
  turned_down :
      (text : Option Text)
      → p.status ≡ submitted
      → q ≡ record p { status = rejected; notes = text }
      → Step p q
  called_off :
      (text : Option Text)
      → (p.status ≡ draft) ⊎ (p.status ≡ submitted)
      → q ≡ record p { status = cancelled; notes = text }
      → Step p q

-- What a call did: it threw and changed nothing; or it made one step with the row that it found and
-- wrote one audit entry about it.
abbrev pub Changes : RequestStore → Result PurchaseRequest × RequestStore → Type 0
Changes s (err e, s') = s' ≡ s
Changes s (ok q, s') =
    (id : ℕ) × (p : PurchaseRequest) × (user : ℕ) × (action : AuditAction) × (find_unique id
        s.requests
      ≡ some p)
    × Step p q
    × (s' ≡ record s {
      requests = update id (λ _. q) s.requests;
      audit = record { user_id = user; action = action; entity_id = id } ∷ s.audit;
    })

abbrev throws_nothing : (s : RequestStore) (e : Error) → Changes s (err e, s)
throws_nothing s e = refl

save-Does :
    (id : ℕ) (change : PurchaseRequest → PurchaseRequest) (user : ℕ) (action : AuditAction)
    (s : RequestStore) (p : PurchaseRequest)
    → find_unique id s.requests ≡ some p
    → Step p (change p)
    → Does Changes s (save id change user action)
save-Does id change user action s p found step = record {
  at =
      rw (find_unique-update_self id change s.requests found, Changes)
        (id, p, user, action, found, step, rw (update-const id change p s.requests found));
}

existing_request-Does :
    (id : ℕ) (k : PurchaseRequest → Action RequestStore PurchaseRequest) (s : RequestStore)
    → ((p : PurchaseRequest) → find_unique id s.requests ≡ some p → Does Changes s (k p))
    → Does Changes s (existing_request id >>= k)
existing_request-Does id k s h = record {
  at = (or_throw-Does Changes throws_nothing missing (find_unique id s.requests) k s h).at;
}

in_draft : (c : PrStatus) → not (status_eq c draft) ≡ false → c ≡ draft
in_draft draft h = refl
in_draft _ h = cc

in_submitted : (c : PrStatus) → not (status_eq c submitted) ≡ false → c ≡ submitted
in_submitted draft h = cc
in_submitted submitted h = refl
in_submitted _ h = cc

open_yet :
    (c : PrStatus)
    → (not (status_eq c draft) && not (status_eq c submitted)) ≡ false
    → (c ≡ draft) ⊎ (c ≡ submitted)
open_yet draft h = inl refl
open_yet submitted h = inr refl
open_yet _ h = cc

accept-Step :
    (p : PurchaseRequest) (notes : Option Text)
    → p.status ≡ submitted
    → Step p (record p { status = approved; notes = approval_notes p.notes notes })
accept-Step p notes e = accepted (approval_notes p.notes notes) e refl

reject-Step :
    (p : PurchaseRequest) (reason : Text)
    → p.status ≡ submitted
    → Step p (record p {
      status = rejected;
      notes = some (annotate p.notes (codes "\nRejection: ") reason);
    })
reject-Step p reason e = turned_down (some (annotate p.notes (codes "\nRejection: ") reason)) e refl

cancel-Step :
    (p : PurchaseRequest) (reason : Text)
    → (p.status ≡ draft) ⊎ (p.status ≡ submitted)
    → Step p (record p {
      status = cancelled;
      notes = some (annotate p.notes (codes "\nCancellation: ") reason);
    })
cancel-Step p reason e =
    called_off (some (annotate p.notes (codes "\nCancellation: ") reason)) e refl

ruleset request_rules = (
  existing_request-Does, throw_if-Does, save-Does, throws_nothing, in_draft, in_submitted, open_yet,
)

pub delete-Does : (id user : ℕ) (s : RequestStore) → Does Changes s (delete id user)
unfolding delete
delete-Does id user s = search (request_rules, removed) depth 8

pub submit-Does : (id user : ℕ) (s : RequestStore) → Does Changes s (submit id user)
unfolding submit
submit-Does id user s = search (request_rules, handed_in) depth 8

pub approve-Does :
    (id approver : ℕ) (notes : Option Text) (s : RequestStore)
    → Does Changes s (approve id approver notes)
unfolding approve
approve-Does id approver notes s = search (request_rules, accept-Step) depth 8

pub reject-Does :
    (id approver : ℕ) (reason : Text) (s : RequestStore)
    → Does Changes s (reject id approver reason)
unfolding reject
reject-Does id approver reason s = search (request_rules, reject-Step) depth 8

pub cancel-Does :
    (id user : ℕ) (reason : Text) (s : RequestStore) → Does Changes s (cancel id user reason)
unfolding cancel
cancel-Does id user reason s = search (request_rules, cancel-Step) depth 8

verify_party-Silent :
    (rows : Table Party) (id : ℕ) → Silent (verify_party {S = RequestStore} rows id)
unfolding verify_party
verify_party-Silent rows id = search silent_rules

verify_warehouse-Silent :
    (rows : Table Party) (branch id : ℕ)
    → Silent (verify_warehouse {S = RequestStore} rows branch id)
unfolding verify_warehouse
verify_warehouse-Silent rows branch id = search silent_rules

verify_all-Silent :
    (p : Party → Bool) (rows : Table Party) (ids : List ℕ)
    → Silent (verify_all {S = RequestStore} p rows ids)
unfolding verify_all
verify_all-Silent p rows ids = search silent_rules

verify_new_warehouse-Silent :
    (master : MasterData) (branch : ℕ) (id : Option ℕ)
    → Silent (verify_new_warehouse master branch id)
verify_new_warehouse-Silent master branch none = search silent_rules
verify_new_warehouse-Silent master branch (some id) = search verify_warehouse-Silent

verify_new_lines-Silent :
    (master : MasterData) (lines : Option (List RequestLine))
    → Silent (verify_new_lines master lines)
verify_new_lines-Silent master none = search silent_rules
verify_new_lines-Silent master (some lines) = search (silent_rules, verify_all-Silent)

edit-Step :
    (p : PurchaseRequest) (request : UpdateRequest)
    → p.status ≡ draft
    → Step p (record p {
      warehouse_id = or_old p.warehouse_id request.warehouse_id;
      notes = new_notes p.notes request.notes;
      lines = or_old p.lines request.lines;
    })
edit-Step p request e =
    edited (or_old p.warehouse_id request.warehouse_id) (new_notes p.notes request.notes)
      (or_old p.lines request.lines) e refl

pub update_request-Does :
    (master : MasterData) (id : ℕ) (request : UpdateRequest) (user : ℕ) (s : RequestStore)
    → Does Changes s (update_request master id request user)
unfolding update_request
update_request-Does master id request user s =
    search
      (request_rules, check-Does, edit-Step, verify_new_warehouse-Silent, verify_new_lines-Silent)
      depth 10
