-- ===== src/Reconciliation.antt =====
-- apps/trustee-api/src/modules/reconciliation/reconciliation.service.ts: runs that record exceptions.
-- Generated identifiers are arguments.
pub mod Blocks
use text.Mathlib.Text.{◌==◌ as str_eq}
use trustee_bank.Prelude.{
  ℕ, zero, suc, String, Bool, true, false, not, ◌&&◌, Option, none, some, List, [], ◌∷◌, ◌++◌, map,
  is_absent, ltb, if◌then◌else◌,
}
use trustee_bank.Prelude.{length}
use trustee_bank.Prelude.Int.{pos, ltb_ℤ}
use trustee_bank.Result.{not_found, Subject}
use trustee_bank.Store.Table.{Table, find_unique}
use trustee_bank.Store.Rows.{ReconciliationRun, ReconciliationException, ExceptionDetail}
use trustee_bank.Store.PaykhRows.{
  PaykhPaymentOrder, PaykhSettlement, SettlementStatus, PaymentOrderStatus,
}
use trustee_bank.Store.Db.{OutboxEvent}
use trustee_bank.Store.Action.{Action, pure, reads, asks, or_throw, writes, publish, ◌>>=◌, ◌>>◌}
use trustee_bank.Reserve.{ReservePosition}
use trustee_bank.Reserve.Snapshots.{read_position}

abbrev pub no_exceptions : List ExceptionDetail → Bool
no_exceptions [] = true
no_exceptions (_ ∷ _) = false

abbrev pub exception_row : ExceptionDetail → ReconciliationException
exception_row detail = record { detail = detail; resolved = false }

abbrev pub run_row :
    String
    → String
    → Option String
    → Option String
    → List ExceptionDetail
    → String
    → ℕ
    → ReconciliationRun
run_row id scope program_id tenant_id details actor now = record {
  id = id;
  scope = scope;
  program_id = program_id;
  tenant_id = tenant_id;
  status = if no_exceptions details then "OK" else "EXCEPTIONS";
  created_by = actor;
  created_at = now;
  exceptions = map exception_row details;
}

-- `record`
abbrev pub record_run :
    String
    → String
    → Option String
    → Option String
    → List ExceptionDetail
    → String
    → Action ReconciliationRun
record_run id scope program_id tenant_id details actor = do
  now ← asks (λ env. env.now)
  let row = run_row id scope program_id tenant_id details actor now
  writes λ db. record db { reconciliation_runs = row ∷ db.reconciliation_runs }
  pure row

abbrev pub shortfall_of : ReservePosition → List ExceptionDetail
shortfall_of p =
    if ltb_ℤ p.surplus.minor (pos 0)
    then ExceptionDetail.reserve_shortfall p.eligible_reserve.minor p.required_reserve.minor
        p.surplus.minor
      ∷ []
    else []

abbrev pub missing_feed_of : String → ReservePosition → List ExceptionDetail
missing_feed_of program_id p =
    if is_absent p.liability_age_seconds
    then ExceptionDetail.missing_liability_feed program_id ∷ []
    else []

unfoldable pub reconcile_reserve : String → String → String → Action ReconciliationRun
reconcile_reserve id program_id actor = do
  p ← read_position program_id
  let details = shortfall_of p ++ missing_feed_of program_id p
  run ← record_run id "RESERVE" (some program_id) none details actor
  (if no_exceptions details
      then pure tt
      else publish (OutboxEvent.reconciliation_exception_created id program_id details))
  pure run

-- A column that is set to a text that is not empty.
abbrev pub transaction_of : PaykhPaymentOrder → Option String
transaction_of o = elim o.matched_bank_transaction_id [
  | none ↦ none
  | some txn ↦ if str_eq txn "" then none else some txn
]

abbrev pub is_confirmed_order : PaymentOrderStatus → Bool
is_confirmed_order PaymentOrderStatus.confirmed = true
is_confirmed_order _ = false

unfoldable pub orders_of : String → Table PaykhPaymentOrder → Table PaykhPaymentOrder
orders_of tenant_id [] = []
orders_of tenant_id ((id, o) ∷ t) =
    let rest = orders_of tenant_id t in
    if str_eq o.tenant_id tenant_id then (id, o) ∷ rest else rest

unfoldable pub unpaid_confirmed : Table PaykhPaymentOrder → List ExceptionDetail
unpaid_confirmed [] = []
unpaid_confirmed ((id, o) ∷ t) =
    let rest = unpaid_confirmed t in
    if is_confirmed_order o.status && is_absent (transaction_of o)
    then ExceptionDetail.confirmed_without_bank_txn id ∷ rest
    else rest

-- `byTxn`, in the order of its insertions.
unfoldable pub add_order : String → String → Table (List String) → Table (List String)
add_order txn id [] = (txn, id ∷ []) ∷ []
add_order txn id ((other, ids) ∷ groups) =
    let rest = add_order txn id groups in
    if str_eq other txn then (other, ids ++ (id ∷ [])) ∷ groups else (other, ids) ∷ rest

abbrev pub add_transaction : Option String → String → Table (List String) → Table (List String)
add_transaction none id groups = groups
add_transaction (some txn) id groups = add_order txn id groups

unfoldable pub by_txn : Table PaykhPaymentOrder → Table (List String) → Table (List String)
by_txn [] groups = groups
by_txn ((id, o) ∷ t) groups = by_txn t (add_transaction (transaction_of o) id groups)

unfoldable pub duplicates : Table (List String) → List ExceptionDetail
duplicates [] = []
duplicates ((txn, ids) ∷ groups) =
    let rest = duplicates groups in
    if ltb 1 (length ids) then ExceptionDetail.duplicate_bank_txn txn ids ∷ rest else rest

unfoldable pub reconcile_payment_orders : String → String → String → Action ReconciliationRun
reconcile_payment_orders id tenant_id actor = do
  orders ← reads (λ db. orders_of tenant_id db.payment_orders)
  record_run id "PAYMENT_ORDERS" none (some tenant_id)
      (unpaid_confirmed orders ++ duplicates (by_txn orders [])) actor

abbrev pub is_confirmed_settlement : SettlementStatus → Bool
is_confirmed_settlement SettlementStatus.confirmed = true
is_confirmed_settlement _ = false

unfoldable pub untimed : String → Table PaykhSettlement → List ExceptionDetail
untimed tenant_id [] = []
untimed tenant_id ((id, s) ∷ t) =
    let rest = untimed tenant_id t in
    if str_eq s.tenant_id tenant_id
      && (is_confirmed_settlement s.status && is_absent s.confirmed_at)
    then ExceptionDetail.confirmed_without_timestamp id ∷ rest
    else rest

unfoldable pub reconcile_settlements : String → String → String → Action ReconciliationRun
reconcile_settlements id tenant_id actor = do
  details ← reads (λ db. untimed tenant_id db.settlements)
  record_run id "MERCHANT_SETTLEMENTS" none (some tenant_id) details actor

unfoldable pub find_run : String → List ReconciliationRun → Option ReconciliationRun
find_run id [] = none
find_run id (r ∷ rs) = if str_eq r.id id then some r else find_run id rs

unfoldable pub get : String → Action ReconciliationRun
get id = do
  found ← reads (λ db. find_run id db.reconciliation_runs)
  or_throw found (not_found Subject.reconciliation_run)

abbrev pub has_state : Bool → ReconciliationException → Bool
has_state resolved e = if e.resolved then resolved else not resolved

unfoldable pub keep_state : Bool → List ReconciliationException → List ReconciliationException
keep_state resolved [] = []
keep_state resolved (e ∷ es) =
    let rest = keep_state resolved es in if has_state resolved e then e ∷ rest else rest

unfoldable pub exceptions_of : Bool → List ReconciliationRun → List ReconciliationException
unfolding keep_state
exceptions_of resolved [] = []
exceptions_of resolved (r ∷ rs) = keep_state resolved r.exceptions ++ exceptions_of resolved rs

unfoldable pub take : ℕ → List ReconciliationException → List ReconciliationException
take n [] = []
take zero (e ∷ es) = []
take (suc n) (e ∷ es) = e ∷ take n es

-- The newest run stands first.
unfoldable pub list_exceptions : Bool → Action (List ReconciliationException)
list_exceptions resolved = reads (λ db. take 200 (exceptions_of resolved db.reconciliation_runs))
