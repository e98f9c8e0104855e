-- ===== src/Redemption/History.antt =====
-- Histories of calls of redemption.service.ts.
use trustee_bank.Prelude.{◌≡◌, String, true, some, List, [], ◌∷◌, arith, is_present}
use trustee_bank.Store.Table.{find_unique}
use trustee_bank.Store.Rows.{Redemption, RedemptionStatus}
use trustee_bank.Store.Db.{Db}
use trustee_bank.Store.Action.{Env, Action}
use trustee_bank.Redemption.{
  Reply, RequestRedemption, request, approve, confirm_burn, submit_payout, confirm_payout,
}
use trustee_bank.Money.{CurrencyCode}
use trustee_bank.Redemption.Owed.{
  Owed, request-Owed, approve-Owed, confirm_burn-Owed, submit_payout-Owed, confirm_payout-Owed,
}
use trustee_bank.Redemption.Order.{
  Ordered, request-Ordered, approve-Ordered, confirm_burn-Ordered, submit_payout-Ordered,
  confirm_payout-Ordered,
}

pub data Call : Type 0 where
  requesting : String → RequestRedemption → Call
  approving : String → String → String → Call
  burning : String → String → String → Call
  submitting : String → String → String → Call
  paying : String → String → Call

unfoldable pub run : Call → Action Reply
run (Call.requesting id input) = request id input
run (Call.approving id approver_id reason) = approve id approver_id reason
run (Call.burning id burn_tx_hash actor) = confirm_burn id burn_tx_hash actor
run (Call.submitting payout_reference id actor) = submit_payout payout_reference id actor
run (Call.paying id actor) = confirm_payout id actor

unfoldable pub after_all : List (Call × Env) → Db → Db
after_all [] db = db
after_all ((call, env) ∷ calls) db = after_all calls (run call env db).1

run-Ordered :
    (call : Call) (env : Env) (db : Db)
    → Ordered db.redemptions
    → Ordered (run call env db).1.redemptions
unfolding run
run-Ordered (Call.requesting id input) env db h = request-Ordered id input env db h
run-Ordered (Call.approving id approver_id reason) env db h =
    approve-Ordered id approver_id reason env db h
run-Ordered (Call.burning id burn_tx_hash actor) env db h =
    confirm_burn-Ordered id burn_tx_hash actor env db h
run-Ordered (Call.submitting payout_reference id actor) env db h =
    submit_payout-Ordered payout_reference id actor env db h
run-Ordered (Call.paying id actor) env db h = confirm_payout-Ordered id actor env db h

pub after_all-Ordered :
    (calls : List (Call × Env)) (db : Db)
    → Ordered db.redemptions
    → Ordered (after_all calls db).redemptions
unfolding after_all
after_all-Ordered [] db h = h
after_all-Ordered ((call, env) ∷ calls) db h =
    after_all-Ordered calls (run call env db).1 (run-Ordered call env db h)

-- From a database in which every redemption has its milestones recorded, whatever calls follow, a
-- redemption that is found completed has a recorded approver, burn confirmation, payout submission and
-- payout confirmation.
pub completed_in_order :
    (calls : List (Call × Env)) (db : Db) (id : String) (r : Redemption)
    → Ordered db.redemptions
    → find_unique id (after_all calls db).redemptions ≡ some r
    → r.status ≡ RedemptionStatus.completed
    → (is_present r.approved_by_id ≡ true)
      × (is_present r.burn_confirmed_at ≡ true)
      × (is_present r.payout_submitted_at ≡ true)
      × (is_present r.payout_confirmed_at ≡ true)
completed_in_order calls db id r h found done =
    let ordered = after_all-Ordered calls db h id r found in ground arith

run-Owed :
    (call : Call) (env : Env) (db : Db) (program_id : String) (currency : CurrencyCode)
    → Owed program_id currency db
    → Owed program_id currency (run call env db).1
unfolding run
run-Owed (Call.requesting id input) env db p c h = request-Owed p c id input env db h
run-Owed (Call.approving id approver_id reason) env db p c h =
    approve-Owed p c id approver_id reason env db h
run-Owed (Call.burning id burn_tx_hash actor) env db p c h =
    confirm_burn-Owed p c id burn_tx_hash actor env db h
run-Owed (Call.submitting payout_reference id actor) env db p c h =
    submit_payout-Owed p c payout_reference id actor env db h
run-Owed (Call.paying id actor) env db p c h = confirm_payout-Owed p c id actor env db h

-- From a database whose PENDING_REDEMPTION balance, of a program and a currency, is the sum of the
-- redemptions that are approved and not yet paid out, any history of calls leaves it equal to that
-- sum, whichever calls throw.
pub redemptions-Owed :
    (calls : List (Call × Env)) (db : Db) (program_id : String) (currency : CurrencyCode)
    → Owed program_id currency db
    → Owed program_id currency (after_all calls db)
unfolding after_all
redemptions-Owed [] db program_id currency h = h
redemptions-Owed ((call, env) ∷ calls) db program_id currency h =
    redemptions-Owed calls (run call env db).1 program_id currency
      (run-Owed call env db program_id currency h)
