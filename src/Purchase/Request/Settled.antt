-- ===== src/Purchase/Request/Settled.antt =====
-- Requests that purchase-request.service.ts has decided: no later call changes them.
use inventory_pos.Common.{
  ℕ, ◌≡◌, ◌≢◌, ◌∙◌, sym, Bool, true, false, Option, some, List, [], ◌∷◌, ◌==◌, arith, Bool-cases,
  inl, inr,
}
use mathlib.Core.Option.{some-injective}
use inventory_pos.Common.Effects.{Result, ok, err, Action}
use inventory_pos.Common.Does.{Does}
use inventory_pos.Common.Keeps.{Keeps, keeps_rules}
use inventory_pos.Common.Table.{Table, find_unique, find_unique-update_ne}
use inventory_pos.Common.Text.{Text}
use inventory_pos.Numbering.{Sequences}
use inventory_pos.Master.{Party, MasterData, verify_warehouse, verify_all}
use inventory_pos.Purchase.Request
use inventory_pos.Purchase.Request.{
  PrStatus, draft, submitted, approved, rejected, cancelled, RequestLine, PurchaseRequest,
  RequestStore,
}
use inventory_pos.Purchase.Request.Edit
use inventory_pos.Purchase.Request.Edit.{
  CreateRequest, UpdateRequest, verify_lines, insert_request, write_request, new_request,
  set_sequences,
}
use inventory_pos.Purchase.Request.Steps.{
  Step, edited, removed, handed_in, accepted, turned_down, called_off, Changes, delete-Does,
  submit-Does, approve-Does, reject-Does, cancel-Does, update_request-Does,
}

abbrev pub is_decided : PrStatus → Bool
is_decided approved = true
is_decided rejected = true
is_decided cancelled = true
is_decided _ = false

-- No step starts from a decided request.
not-Step : (p q : PurchaseRequest) → Step p q → is_decided p.status ≡ true → ⊥
not-Step p q (edited w t l e f) d = cc (rw e at d)
not-Step p q (removed e f) d = cc (rw e at d)
not-Step p q (handed_in e f) d = cc (rw e at d)
not-Step p q (accepted t e f) d = cc (rw e at d)
not-Step p q (turned_down t e f) d = cc (rw e at d)
not-Step p q (called_off t (inl e) f) d = cc (rw e at d)
not-Step p q (called_off t (inr e) f) d = cc (rw e at d)

module _ (k : ℕ) (p : PurchaseRequest) where
  -- The row of the request is as it was decided.
  abbrev pub Stays : RequestStore → Type 0
  Stays s = find_unique k s.requests ≡ some p

  module _ (decided : is_decided p.status ≡ true) where
    Changes-Stays :
        (s s' : RequestStore) (r : Result PurchaseRequest) → Changes s (r, s') → Stays s → Stays s'
    Changes-Stays s s' (err e) same h = rw same h
    Changes-Stays s s' (ok q) (id, old, user, action, found, step, after) h =
        elim (Bool-cases (k == id)) [
          | inl here ↦
              let e : k ≡ id = ground arith in
              let same : old ≡ p = some-injective _ _ (sym found ∙ rw (← e) h) in
              absurd (not-Step old q step (rw same decided))
          | inr there ↦
              rw after (find_unique-update_ne k id (λ _. q) s.requests (apart k id there) ∙ h)
        ]
      where
        apart : (a b : ℕ) → (a == b) ≡ false → a ≢ b
        apart a b e = ground arith

  insert_request-Keeps : (id : ℕ) (pr : PurchaseRequest) → Keeps Stays (insert_request id pr)
  insert_request-Keeps id pr = record { at = λ s h. ground arith }

  log-keeps : (s : RequestStore) → Stays s → Stays s
  log-keeps s h = h

  set_sequences-keeps : (q : Sequences) (s : RequestStore) → Stays s → Stays (set_sequences q s)
  set_sequences-keeps q s h = h

  verify_warehouse-Keeps :
      (rows : Table Party) (branch id : ℕ) → Keeps Stays (verify_warehouse rows branch id)
  unfolding verify_warehouse
  verify_warehouse-Keeps rows branch id = search keeps_rules

  verify_all-Keeps :
      (q : Party → Bool) (rows : Table Party) (ids : List ℕ) → Keeps Stays (verify_all q rows ids)
  unfolding verify_all
  verify_all-Keeps q rows ids = search keeps_rules

  verify_lines-Keeps :
      (master : MasterData) (lines : List RequestLine) → Keeps Stays (verify_lines master lines)
  verify_lines-Keeps master lines = search (keeps_rules, verify_all-Keeps)

  write_request-Keeps :
      (env : Edit.Env) (request : CreateRequest) (user : ℕ) (number : Text)
      → Keeps Stays (write_request env request user number)
  write_request-Keeps env request user number =
      search (keeps_rules, insert_request-Keeps, log-keeps) depth 8

  pub create-Keeps :
      (env : Edit.Env) (request : CreateRequest) (user : ℕ)
      → Keeps Stays (Edit.create env request user)
  unfolding Edit.create
  create-Keeps env request user =
      search
        (
          keeps_rules, verify_warehouse-Keeps, verify_lines-Keeps, write_request-Keeps,
          set_sequences-keeps,
        )
        depth 9

-- A call of the service.
pub data Call : Type 0 where
  create : Edit.Env → CreateRequest → ℕ → Call
  update_request : MasterData → ℕ → UpdateRequest → ℕ → Call
  delete submit : (id user : ℕ) → Call
  approve : (id approver : ℕ) → Option Text → Call
  reject : (id approver : ℕ) → Text → Call
  cancel : (id user : ℕ) → Text → Call

unfoldable pub perform : Call → Action RequestStore PurchaseRequest
perform (create env request user) = Edit.create env request user
perform (update_request master id request user) = Edit.update_request master id request user
perform (delete id user) = Request.delete id user
perform (submit id user) = Request.submit id user
perform (approve id approver notes) = Request.approve id approver notes
perform (reject id approver reason) = Request.reject id approver reason
perform (cancel id user reason) = Request.cancel id user reason

unfoldable pub run : List Call → RequestStore → RequestStore
unfolding perform
run [] s = s
run (c ∷ cs) s = run cs (perform c s).1

module _ (k : ℕ) (p : PurchaseRequest) (decided : is_decided p.status ≡ true) where
  Does-Stays :
      (m : Action RequestStore PurchaseRequest) (s : RequestStore)
      → Does Changes s m
      → Stays k p s
      → Stays k p (m s).1
  Does-Stays m s d h = Changes-Stays k p decided s (m s).1 (m s).0 d.at h

  perform-Stays : (c : Call) (s : RequestStore) → Stays k p s → Stays k p (perform c s).1
  unfolding perform
  perform-Stays (create env request user) s h = (create-Keeps k p env request user).at s h
  perform-Stays (update_request master id request user) s h =
      Does-Stays _ s (update_request-Does master id request user s) h
  perform-Stays (delete id user) s h = Does-Stays _ s (delete-Does id user s) h
  perform-Stays (submit id user) s h = Does-Stays _ s (submit-Does id user s) h
  perform-Stays (approve id approver notes) s h =
      Does-Stays _ s (approve-Does id approver notes s) h
  perform-Stays (reject id approver reason) s h =
      Does-Stays _ s (reject-Does id approver reason s) h
  perform-Stays (cancel id user reason) s h = Does-Stays _ s (cancel-Does id user reason s) h

-- A purchase request that is approved, rejected or cancelled is final: whatever calls of the service
-- follow, in whatever order and with whatever arguments, and whether they return or throw, its row is
-- found as it was decided.
pub run-Stays :
    (k : ℕ) (p : PurchaseRequest) (cs : List Call) (s : RequestStore)
    → is_decided p.status ≡ true
    → find_unique k s.requests ≡ some p
    → find_unique k (run cs s).requests ≡ some p
unfolding run
run-Stays k p [] s decided h = h
run-Stays k p (c ∷ cs) s decided h =
    run-Stays k p cs (perform c s).1 decided (perform-Stays k p decided c s h)
