-- ===== src/Purchase/Request/Edit.antt =====
-- `create` and `update` of src/modules/purchase/services/purchase-request.service.ts.
use inventory_pos.Common.{
  ℕ, Bool, true, false, not, ◌&&◌, Option, none, some, List, ◌∷◌, ltb, every, length, map,
  if◌then◌else◌,
}
use inventory_pos.Common.Effects.{
  internal, Action, ok, err, pure, throw_if, modify, transaction, on_part, ◌>>=◌, ◌>>◌,
}
use inventory_pos.Common.Table.{find_unique}
use inventory_pos.Common.Text.{Text}
use inventory_pos.Numbering.{DocumentType, Day, Outcome, Sequences, generate}
use inventory_pos.Master.{MasterData, verify_party, verify_warehouse, verify_all}
use inventory_pos.Purchase.Store.{AuditAction}
use inventory_pos.Purchase.Order.{is_found}
use inventory_pos.Purchase.Order.Create.{is_active_product, is_active_unit}
use inventory_pos.Purchase.Request.{
  draft, RequestLine, PurchaseRequest, RequestStore, status_eq, violation, existing_request, log,
  save,
}

pub record CreateRequest : Type 0 where
  pub branch_id : ℕ
  pub warehouse_id : ℕ
  pub notes : Option Text
  pub lines : List RequestLine

pub record UpdateRequest : Type 0 where
  pub warehouse_id : Option ℕ
  pub notes : Option Text
  pub lines : Option (List RequestLine)

pub record Env : Type 0 where
  pub master : MasterData
  pub db : ℕ → Outcome
  pub today : Day
  pub new_id : ℕ

-- CreatePurchaseRequestLineSchema: a positive quantity.
abbrev pub is_valid_line : RequestLine → Bool
is_valid_line line = ltb 0 line.qty_requested

abbrev pub verify_lines : MasterData → List RequestLine → Action RequestStore (Unit {0})
verify_lines master lines = do
  verify_all is_active_product master.products (map (λ (l : RequestLine). l.product_id) lines)
  verify_all is_active_unit master.units (map (λ (l : RequestLine). l.uom_id) lines)

abbrev pub new_request : CreateRequest → ℕ → Text → PurchaseRequest
new_request request user number = record {
  pr_number = number;
  branch_id = request.branch_id;
  warehouse_id = request.warehouse_id;
  status = draft;
  requested_by = user;
  notes = request.notes;
  deleted = false;
  lines = request.lines;
}

abbrev pub insert_request : ℕ → PurchaseRequest → Action RequestStore (Unit {0})
insert_request id pr s =
    if is_found (find_unique id s.requests)
    then (err internal, s)
    else (ok tt, record s { requests = (id, pr) ∷ s.requests })

abbrev pub write_request : Env → CreateRequest → ℕ → Text → Action RequestStore PurchaseRequest
write_request env request user number = transaction do
  insert_request env.new_id (new_request request user number)
  modify (log user AuditAction.create env.new_id)
  pure (new_request request user number)

abbrev pub set_sequences : Sequences → RequestStore → RequestStore
set_sequences q s = record s { sequences = q }

unfoldable pub create : Env → CreateRequest → ℕ → Action RequestStore PurchaseRequest
unfolding verify_party verify_warehouse verify_all generate
create env request user = do
  throw_if (not (ltb 0 (length request.lines) && every is_valid_line request.lines)) internal
  verify_party env.master.branches request.branch_id
  verify_warehouse env.master.warehouses request.branch_id request.warehouse_id
  verify_lines env.master request.lines
  number ←
      on_part (λ (s : RequestStore). s.sequences) set_sequences
        (generate env.db DocumentType.pr env.today)
  write_request env request user number

abbrev pub verify_new_warehouse : MasterData → ℕ → Option ℕ → Action RequestStore (Unit {0})
verify_new_warehouse master branch none = pure tt
verify_new_warehouse master branch (some id) = verify_warehouse master.warehouses branch id

abbrev pub verify_new_lines :
    MasterData → Option (List RequestLine) → Action RequestStore (Unit {0})
verify_new_lines master none = pure tt
verify_new_lines master (some lines) = verify_lines master lines

abbrev pub or_old {ℓ} : {A : Type ℓ} → A → Option A → A
or_old old none = old
or_old old (some new) = new

abbrev pub new_notes : Option Text → Option Text → Option Text
new_notes old none = old
new_notes old (some new) = some new

abbrev pub are_valid_lines : Option (List RequestLine) → Bool
are_valid_lines none = true
are_valid_lines (some lines) = every is_valid_line lines

-- `update`; the schema lets an empty list of lines through.
unfoldable pub update_request :
    MasterData → ℕ → UpdateRequest → ℕ → Action RequestStore PurchaseRequest
unfolding verify_party verify_warehouse verify_all
update_request master id request user = do
  throw_if (not (are_valid_lines request.lines)) internal
  existing ← existing_request id
  throw_if (not (status_eq existing.status draft)) violation
  verify_new_warehouse master existing.branch_id request.warehouse_id
  verify_new_lines master request.lines
  save id
      (λ pr. record pr {
        warehouse_id = or_old pr.warehouse_id request.warehouse_id;
        notes = new_notes pr.notes request.notes;
        lines = or_old pr.lines request.lines;
      })
      user AuditAction.update
