-- ===== src/Paykh/PaymentOrders.antt =====
-- payment-orders.service.ts: orders, their match with a bank transaction, refunds and cancellation.
-- Generated identifiers and the generated part of the reference are arguments.
pub mod Single
pub mod History
use Prim.Native.String.{◌++◌ as concat}
use text.Mathlib.Text.{◌==◌ as str_eq}
use trustee_bank.Prelude.{
  ℕ, ◌+◌, ◌*◌, String, Bool, true, false, not, ◌&&◌, ◌||◌, Option, none, some, List, [], ◌∷◌, ◌++◌,
  ltb, if◌then◌else◌, is_present, or_default,
}
use trustee_bank.Prelude.Int.{ℤ, eqb_ℤ}
use trustee_bank.Prelude.Text.{same_text}
use trustee_bank.Money.{CurrencyCode, money}
use trustee_bank.Result.{
  not_found, bad_request, conflict, unique_violation, Subject, wrong_status, currency_mismatch,
  order_expired, payment_mismatch,
}
use trustee_bank.Ledger.Journal.{JournalReferences, reverse}
use trustee_bank.Ledger.Entries.{paykh_payment_collection_entry}
use trustee_bank.Store.Table.{Table, find_unique, update, exists_row}
use trustee_bank.Store.PaykhRows.{
  PaykhPaymentProfile, PaymentProfileStatus, PaykhPaymentOrder, PaymentOrderStatus,
}
use trustee_bank.Store.Db.{Db, PaykhEvent}
use trustee_bank.Store.Action.{
  Env, Action, pure, throw, reads, asks, lift, or_throw, throw_when, writes, record_audit,
  publish_to_paykh, ◌>>=◌, ◌>>◌,
}
use trustee_bank.ReserveLedger.{post}
use trustee_bank.Paykh.{audit_row, references_of}

-- `amount_text` is the amount as it was written, which the KHQR string repeats.
pub record CreatePaymentOrder : Type 0 where
  pub tenant_id : String
  pub profile_id : String
  pub amount_text : String
  pub amount_minor : ℤ
  pub currency : CurrencyCode
  pub ttl_seconds : Option ℕ
  pub actor : String

pub record CheckPaymentInput : Type 0 where
  pub bank_transaction_id : String
  pub amount_minor : ℤ
  pub currency : CurrencyCode
  pub payment_reference : String
  pub recipient_account_masked : String
  pub reserve_account_id : String
  pub actor : String

abbrev pub Reply : Type 0
Reply = String × PaymentOrderStatus

-- `require`
abbrev pub require : String → Action PaykhPaymentOrder
require id = do
  found ← reads (λ db. find_unique id db.payment_orders)
  or_throw found (not_found Subject.payment_order)

abbrev pub patch : String → (PaykhPaymentOrder → PaykhPaymentOrder) → Action (Unit {0})
patch id f = writes λ db. record db { payment_orders = update id f db.payment_orders }

abbrev pub audit : String → String → String → Option String → Action (Unit {0})
audit actor action id reason = record_audit (audit_row actor action "PAYKH_PAYMENT_ORDER" id reason)

abbrev pub is_active : PaymentProfileStatus → Bool
is_active PaymentProfileStatus.active = true
is_active _ = false

-- The unique columns of a new row; it names no bank transaction.
abbrev pub is_taken : String → String → Table PaykhPaymentOrder → Bool
is_taken id reference table =
    exists_row (λ o. str_eq o.payment_reference reference) table
    || is_present (find_unique id table)

-- `buildKhqr`
abbrev pub build_khqr : String → String → String → String
build_khqr base_payload amount reference =
    concat base_payload (concat "|amt=" (concat amount (concat "|ref=" reference)))

abbrev pub awaiting_row : CreatePaymentOrder → PaykhPaymentProfile → String → ℕ → PaykhPaymentOrder
awaiting_row input profile reference expires_at = record {
  tenant_id = input.tenant_id;
  profile_id = input.profile_id;
  amount_minor = input.amount_minor;
  currency = input.currency;
  payment_reference = reference;
  khqr_string = some (build_khqr profile.khqr_payload input.amount_text reference);
  status = PaymentOrderStatus.awaiting_payment;
  matched_bank_transaction_id = none;
  confirmed_at = none;
  expires_at = expires_at;
}

unfoldable pub create : String → String → CreatePaymentOrder → Action (String × PaykhPaymentOrder)
create id suffix input = do
  found ← reads (λ db. find_unique input.profile_id db.payment_profiles)
  profile ← or_throw found (not_found Subject.payment_profile)
  throw_when (not (is_active profile.status)) (bad_request wrong_status)
  throw_when (not (same_text profile.currency input.currency)) (bad_request currency_mismatch)
  let reference = concat "KHQR-" suffix
  now ← asks (λ env. env.now)
  let row = awaiting_row input profile reference (now + or_default input.ttl_seconds 900 * 1000)
  taken ← reads (λ db. is_taken id reference db.payment_orders)
  throw_when taken unique_violation
  writes λ db. record db { payment_orders = (id, row) ∷ db.payment_orders }
  audit input.actor "paykh.payment_order.created" id none
  pure (id, row)

abbrev pub is_confirmed : PaymentOrderStatus → Bool
is_confirmed PaymentOrderStatus.confirmed = true
is_confirmed _ = false

abbrev pub is_payable : PaymentOrderStatus → Bool
is_payable PaymentOrderStatus.awaiting_payment = true
is_payable PaymentOrderStatus.payment_detected = true
is_payable _ = false

abbrev pub names : String → Option String → Bool
names transaction none = false
names transaction (some t) = str_eq t transaction

abbrev pub is_paid_by : String → PaykhPaymentOrder → Bool
is_paid_by transaction o = names transaction o.matched_bank_transaction_id

-- `findUnique({ where: { matchedBankTransactionId } })`
unfoldable pub order_of : String → Table PaykhPaymentOrder → Option String
order_of transaction [] = none
order_of transaction ((id, o) ∷ t) =
    if is_paid_by transaction o then some id else order_of transaction t

-- `priorUse && priorUse.id !== orderId`
abbrev pub other_order : Option String → String → Option String
other_order none id = none
other_order (some prior) id = if str_eq prior id then none else some prior

abbrev pub wrong_recipient : Option PaykhPaymentProfile → String → Bool
wrong_recipient none recipient = false
wrong_recipient (some p) recipient = not (str_eq recipient p.recipient_account_masked)

abbrev pub when : Bool → String → List String
when b what = if b then what ∷ [] else []

abbrev pub mismatches_of :
    CheckPaymentInput → PaykhPaymentOrder → Option PaykhPaymentProfile → List String
mismatches_of input o profile =
    when (not (eqb_ℤ input.amount_minor o.amount_minor)) "amount"
    ++ (when (not (same_text input.currency o.currency)) "currency"
        ++ (when (not (str_eq input.payment_reference o.payment_reference)) "reference"
            ++ when (wrong_recipient profile input.recipient_account_masked) "recipient"))

abbrev pub is_empty : List String → Bool
is_empty [] = true
is_empty (m ∷ ms) = false

abbrev pub collection_references : String → PaykhPaymentOrder → String → JournalReferences
collection_references id o actor = references_of (concat "paykh-order:" id) o.tenant_id "FIAT" actor

abbrev pub confirmed_with : String → ℕ → PaykhPaymentOrder → PaykhPaymentOrder
confirmed_with transaction now o = record o {
  status = PaymentOrderStatus.confirmed;
  matched_bank_transaction_id = some transaction;
  confirmed_at = some now;
}

abbrev pub with_status : PaymentOrderStatus → PaykhPaymentOrder → PaykhPaymentOrder
with_status status o = record o { status = status }

-- A payment that matches: its entry, and the order's confirmation.
unfoldable pub take_payment : String → CheckPaymentInput → PaykhPaymentOrder → Action Reply
take_payment id input o = do
  entry ← lift (
      paykh_payment_collection_entry (money o.amount_minor o.currency)
        (collection_references id o input.actor))
  post entry
  now ← asks (λ env. env.now)
  patch id (confirmed_with input.bank_transaction_id now)
  audit input.actor "paykh.payment.confirmed" id none
  publish_to_paykh (
      PaykhEvent.payment_confirmed id o.tenant_id o.amount_minor o.currency
        input.bank_transaction_id)
  pure (id, PaymentOrderStatus.confirmed)

unfoldable pub reject_payment : String → List String → Action Reply
reject_payment id mismatches = do
  publish_to_paykh (PaykhEvent.payment_rejected id mismatches)
  throw (bad_request payment_mismatch)

unfoldable pub compare_payment : String → CheckPaymentInput → PaykhPaymentOrder → Action Reply
unfolding take_payment reject_payment
compare_payment id input o = do
  profile ← reads (λ db. find_unique o.profile_id db.payment_profiles)
  let mismatches = mismatches_of input o profile
  (if is_empty mismatches then take_payment id input o else reject_payment id mismatches)

unfoldable pub refuse_duplicate : String → String → String → Action Reply
refuse_duplicate id transaction conflicting = do
  publish_to_paykh (PaykhEvent.payment_duplicate id transaction conflicting)
  throw conflict

-- An order that a bank transaction may still confirm.
unfoldable pub settle_payment : String → CheckPaymentInput → PaykhPaymentOrder → Action Reply
unfolding refuse_duplicate compare_payment
settle_payment id input o = do
  prior ← reads (λ db. other_order (order_of input.bank_transaction_id db.payment_orders) id)
  elim prior [
    | some conflicting ↦ refuse_duplicate id input.bank_transaction_id conflicting
    | none ↦ compare_payment id input o
  ]

unfoldable pub expire_order : String → Action Reply
expire_order id = do
  patch id (with_status PaymentOrderStatus.expired)
  throw (bad_request order_expired)

-- A confirmed order: the same transaction again is no error.
abbrev pub check_confirmed : String → CheckPaymentInput → PaykhPaymentOrder → Action Reply
check_confirmed id input o =
    if is_paid_by input.bank_transaction_id o
    then pure (id, PaymentOrderStatus.confirmed)
    else throw conflict

abbrev pub check_open : String → CheckPaymentInput → PaykhPaymentOrder → Action Reply
check_open id input o = do
  throw_when (not (is_payable o.status)) (bad_request wrong_status)
  now ← asks (λ env. env.now)
  (if ltb o.expires_at now then expire_order id else settle_payment id input o)

unfoldable pub check_payment : String → CheckPaymentInput → Action Reply
unfolding settle_payment expire_order
check_payment id input = do
  o ← require id
  (if is_confirmed o.status then check_confirmed id input o else check_open id input o)

unfoldable pub refund : String → String → String → Action Reply
refund id actor reason = do
  o ← require id
  throw_when (not (is_confirmed o.status)) (bad_request wrong_status)
  collection ← lift (
      paykh_payment_collection_entry (money o.amount_minor o.currency)
        (collection_references id o actor))
  entry ← lift (reverse collection (concat "paykh-refund:" id) actor reason)
  post entry
  patch id (with_status PaymentOrderStatus.refunded)
  audit actor "paykh.payment.refunded" id (some reason)
  publish_to_paykh (PaykhEvent.payment_refunded id o.tenant_id o.amount_minor)
  pure (id, PaymentOrderStatus.refunded)

-- The views of `get` and `status`.
unfoldable pub get : String → Action (String × PaykhPaymentOrder)
get id = do o ← require id; pure (id, o)

unfoldable pub status : String → Action (String × (PaymentOrderStatus × ℕ))
status id = do o ← require id; pure (id, (o.status, o.expires_at))

unfoldable pub cancel : String → String → Action Reply
cancel id actor = do
  o ← require id
  throw_when (is_confirmed o.status) (bad_request wrong_status)
  patch id (with_status PaymentOrderStatus.cancelled)
  audit actor "paykh.payment_order.cancelled" id none
  pure (id, PaymentOrderStatus.cancelled)
