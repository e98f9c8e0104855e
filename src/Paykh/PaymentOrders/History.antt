-- ===== src/Paykh/PaymentOrders/History.antt =====
-- Histories of calls of payment-orders.service.ts.
use Prim.Native.String.{◌++◌ as concat}
use trustee_bank.Prelude.{
  ◌≡◌, refl, inl, inr, Bool-cases, String, Bool, true, false, ◌||◌, Option, some, none, List, [],
  ◌∷◌, arith, ltb, is_present,
}
use trustee_bank.Prelude.Text.{same_text}
use trustee_bank.Result.{Option-cases, Result-cases}
use trustee_bank.Money.{money}
use trustee_bank.Ledger.Journal.{reverse}
use trustee_bank.Ledger.Entries.{paykh_payment_collection_entry}
use trustee_bank.Store.Table.{find_unique}
use trustee_bank.Store.PaykhRows.{PaykhPaymentOrder, PaymentOrderStatus}
use trustee_bank.Store.Db.{Db}
use trustee_bank.Store.Action.{Env}
use trustee_bank.ReserveLedger.{post_entry}
use trustee_bank.Paykh.PaymentOrders.{
  CreatePaymentOrder, CheckPaymentInput, create, check_payment, refund, cancel, order_of,
  is_paid_by, other_order, settle_payment, compare_payment, take_payment, reject_payment,
  refuse_duplicate, expire_order, mismatches_of, is_empty, is_confirmed, is_payable, is_active,
  is_taken, collection_references,
}
use trustee_bank.Paykh.PaymentOrders.Single.{
  PaysOnce, status-PaysOnce, confirm-PaysOnce, new-PaysOnce,
}

free_key : (taken : Bool) (m : Option PaykhPaymentOrder) → taken || is_present m ≡ false → m ≡ none
free_key taken none h = refl
free_key taken (some o) h = ground arith

create-PaysOnce :
    (id suffix : String) (input : CreatePaymentOrder) (env : Env) (db : Db)
    → PaysOnce db.payment_orders
    → PaysOnce (create id suffix input env db).1.payment_orders
unfolding create
create-PaysOnce id suffix input env db h =
    elim (Option-cases (find_unique input.profile_id db.payment_profiles)) [
      | inr missing ↦ rw missing h
      | inl (profile, found) ↦ rw found (elim (Bool-cases (is_active profile.status)) [
        | inr inactive ↦ rw inactive h
        | inl active ↦ rw active (elim (Bool-cases (same_text profile.currency input.currency)) [
          | inr differs ↦ rw differs h
          | inl same ↦
              rw same (elim (Bool-cases (is_taken id (concat "KHQR-" suffix) db.payment_orders)) [
                | inl taken ↦ rw taken h
                | inr free ↦ rw free (
                    new-PaysOnce id _ db.payment_orders
                      (free_key _ (find_unique id db.payment_orders) free) (λ transaction. refl) h)
              ])
        ])
      ])
    ]

settle-PaysOnce :
    (id : String) (input : CheckPaymentInput) (o : PaykhPaymentOrder) (env : Env) (db : Db)
    → PaysOnce db.payment_orders
    → PaysOnce (settle_payment id input o env db).1.payment_orders
unfolding settle_payment compare_payment take_payment reject_payment refuse_duplicate post_entry
settle-PaysOnce id input o env db h =
    elim (Option-cases (other_order (order_of input.bank_transaction_id db.payment_orders) id)) [
      | inl (conflicting, used) ↦ rw used h
      | inr unused ↦
          rw unused
            (elim (Bool-cases
              (is_empty (mismatches_of input o (find_unique o.profile_id db.payment_profiles)))) [
                | inr differs ↦ rw differs h
                | inl matches ↦
                    rw matches
                      (elim (Result-cases (
                        paykh_payment_collection_entry (money o.amount_minor o.currency)
                          (collection_references id o input.actor))) [
                            | inr (e, failed) ↦ rw failed h
                            | inl (entry, built) ↦ rw built (
                                confirm-PaysOnce id input.bank_transaction_id env.now
                                  db.payment_orders unused h)
                          ])
              ])
    ]

check_payment-PaysOnce :
    (id : String) (input : CheckPaymentInput) (env : Env) (db : Db)
    → PaysOnce db.payment_orders
    → PaysOnce (check_payment id input env db).1.payment_orders
unfolding check_payment expire_order
check_payment-PaysOnce id input env db h = elim (Option-cases (find_unique id db.payment_orders)) [
  | inr missing ↦ rw missing h
  | inl (o, found) ↦ rw found (elim (Bool-cases (is_confirmed o.status)) [
    | inl confirmed ↦ rw confirmed (elim (Bool-cases (is_paid_by input.bank_transaction_id o)) [
      | inl again ↦ rw again h
      | inr other ↦ rw other h
    ])
    | inr pending ↦ rw pending (elim (Bool-cases (is_payable o.status)) [
      | inr closed ↦ rw closed h
      | inl payable ↦ rw payable (elim (Bool-cases (ltb o.expires_at env.now)) [
        | inl late ↦ rw late (status-PaysOnce id PaymentOrderStatus.expired db.payment_orders h)
        | inr timely ↦ rw timely (settle-PaysOnce id input o env db h)
      ])
    ])
  ])
]

refund-PaysOnce :
    (id actor reason : String) (env : Env) (db : Db)
    → PaysOnce db.payment_orders
    → PaysOnce (refund id actor reason env db).1.payment_orders
unfolding refund post_entry
refund-PaysOnce id actor reason env db h = elim (Option-cases (find_unique id db.payment_orders)) [
  | inr missing ↦ rw missing h
  | inl (o, found) ↦ rw found (elim (Bool-cases (is_confirmed o.status)) [
    | inr other ↦ rw other h
    | inl confirmed ↦
        rw confirmed
          (elim (Result-cases (
            paykh_payment_collection_entry (money o.amount_minor o.currency)
              (collection_references id o actor))) [
                | inr (e, failed) ↦ rw failed h
                | inl (collection, built) ↦
                    rw built
                      (elim (Result-cases
                        (reverse collection (concat "paykh-refund:" id) actor reason)) [
                          | inr (e, failed) ↦ rw failed h
                          | inl (entry, reversed) ↦
                              rw reversed
                                (status-PaysOnce id PaymentOrderStatus.refunded db.payment_orders h)
                        ])
              ])
  ])
]

cancel-PaysOnce :
    (id actor : String) (env : Env) (db : Db)
    → PaysOnce db.payment_orders
    → PaysOnce (cancel id actor env db).1.payment_orders
unfolding cancel
cancel-PaysOnce id actor env db h = elim (Option-cases (find_unique id db.payment_orders)) [
  | inr missing ↦ rw missing h
  | inl (o, found) ↦ rw found (elim (Bool-cases (is_confirmed o.status)) [
    | inl confirmed ↦ rw confirmed h
    | inr other ↦ rw other (status-PaysOnce id PaymentOrderStatus.cancelled db.payment_orders h)
  ])
]

pub data Call : Type 0 where
  creating : String → String → CreatePaymentOrder → Call
  checking : String → CheckPaymentInput → Call
  refunding : String → String → String → Call
  cancelling : String → String → Call

-- The database after a call, whether it returns or throws.
unfoldable pub after : Call → Env → Db → Db
after (Call.creating id suffix input) env db = (create id suffix input env db).1
after (Call.checking id input) env db = (check_payment id input env db).1
after (Call.refunding id actor reason) env db = (refund id actor reason env db).1
after (Call.cancelling id actor) env db = (cancel id actor env db).1

unfoldable pub after_all : List (Call × Env) → Db → Db
after_all [] db = db
after_all ((call, env) ∷ calls) db = after_all calls (after call env db)

after-PaysOnce :
    (call : Call) (env : Env) (db : Db)
    → PaysOnce db.payment_orders
    → PaysOnce (after call env db).payment_orders
unfolding after
after-PaysOnce (Call.creating id suffix input) env db h = create-PaysOnce id suffix input env db h
after-PaysOnce (Call.checking id input) env db h = check_payment-PaysOnce id input env db h
after-PaysOnce (Call.refunding id actor reason) env db h = refund-PaysOnce id actor reason env db h
after-PaysOnce (Call.cancelling id actor) env db h = cancel-PaysOnce id actor env db h

after_all-PaysOnce :
    (calls : List (Call × Env)) (db : Db)
    → PaysOnce db.payment_orders
    → PaysOnce (after_all calls db).payment_orders
unfolding after_all
after_all-PaysOnce [] db h = h
after_all-PaysOnce ((call, env) ∷ calls) db h =
    after_all-PaysOnce calls (after call env db) (after-PaysOnce call env db h)

-- From orders whose identifiers are distinct and of which no two name the same bank transaction,
-- whatever calls follow, two orders that are found and name one bank transaction are the same order.
pub transaction-PaysOnce :
    (calls : List (Call × Env)) (db : Db) (transaction a b : String) (o p : PaykhPaymentOrder)
    → PaysOnce db.payment_orders
    → find_unique a (after_all calls db).payment_orders ≡ some o
    → find_unique b (after_all calls db).payment_orders ≡ some p
    → is_paid_by transaction o ≡ true
    → is_paid_by transaction p ≡ true
    → a ≡ b
transaction-PaysOnce calls db transaction a b o p h found_o found_p pays_o pays_p =
    (after_all-PaysOnce calls db h).single transaction a b o p found_o found_p pays_o pays_p
