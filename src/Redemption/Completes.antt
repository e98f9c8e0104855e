-- ===== src/Redemption/Completes.antt =====
-- The path of a redemption to its payout.
use Prim.Native.String.{◌++◌ as concat}
use trustee_bank.Prelude.{◌≡◌, refl, String, true, false, some, [], ◌∷◌}
use trustee_bank.Prelude.Int.{pos, ◌<ℤ◌}
use trustee_bank.Prelude.Text.{to_upper_case_idem}
use trustee_bank.Money.{money}
use trustee_bank.Result.{ok}
use trustee_bank.Ledger.Accounts.{
  type_of_paychain_reserve_obligation, type_of_pending_redemption, type_of_trustee_bank_cash,
}
use trustee_bank.Ledger.Journal.{JournalEntry, JournalReferences}
use trustee_bank.Ledger.Journal.Build.{build_posted}
use trustee_bank.Ledger.Entries.{
  transfer_entry, redemption_obligation_entry, payout_confirmed_entry,
}
use trustee_bank.Ledger.Entries.Transfer.{transfer-IsPostable}
use trustee_bank.Store.Table.{find_unique, find_unique-update_self}
use trustee_bank.Store.Query.{is_enabled}
use trustee_bank.Store.Rows.{Redemption, RedemptionStatus}
use trustee_bank.Store.Db.{Db}
use trustee_bank.Store.Action.{Env}
use trustee_bank.ReserveLedger.{post_entry}
use trustee_bank.Redemption.{
  not_trustee_bank, references_of, approved_by, burned, submitted, paid, approve, confirm_burn,
  submit_payout, confirm_payout,
}
use trustee_bank.Redemption.History.{Call, run, after_all}

obligation_built :
    (r : Redemption) (references : JournalReferences)
    → pos 0 <ℤ r.amount_minor
    → (entry : JournalEntry) × (redemption_obligation_entry
          (money r.amount_minor r.currency)
          references
        ≡ ok entry)
unfolding redemption_obligation_entry transfer_entry money
obligation_built r references positive = (
  _,
  build_posted _ (
      transfer-IsPostable _ _ _ _ _
        (record { positive = positive; upper_case = to_upper_case_idem r.currency })
        type_of_paychain_reserve_obligation type_of_pending_redemption),
)

payout_built :
    (r : Redemption) (references : JournalReferences)
    → pos 0 <ℤ r.amount_minor
    → (entry : JournalEntry) × (payout_confirmed_entry (money r.amount_minor r.currency) references
        ≡ ok entry)
unfolding payout_confirmed_entry transfer_entry money
payout_built r references positive = (
  _,
  build_posted _ (
      transfer-IsPostable _ _ _ _ _
        (record { positive = positive; upper_case = to_upper_case_idem r.currency })
        type_of_pending_redemption type_of_trustee_bank_cash),
)

-- A redemption in a table, with the flag of payouts on.
pub record Holds (id : String) (r : Redemption) (db : Db) : Type 0 where
  pub found : find_unique id db.redemptions ≡ some r
  pub payouts_on : is_enabled "bank.payout.enabled" db.feature_flags ≡ true

approve_moves :
    (id approver_id reason : String) (env : Env) (db : Db) (r : Redemption)
    → Holds id r db
    → r.status ≡ RedemptionStatus.awaiting_approval
    → not_trustee_bank (find_unique approver_id db.users) ≡ false
    → pos 0 <ℤ r.amount_minor
    → Holds id (approved_by approver_id r) (approve id approver_id reason env db).1
unfolding approve post_entry
approve_moves id approver_id reason env db r h waiting trusted positive =
    let (entry, built) =
      obligation_built r (references_of (concat "redemption:" id) r approver_id) positive in
    simp (h.found, waiting, trusted, built)
      (record {
        found = find_unique-update_self id (approved_by approver_id) db.redemptions r h.found;
        payouts_on = h.payouts_on;
      })

confirm_burn_moves :
    (id tx actor : String) (env : Env) (db : Db) (r : Redemption)
    → Holds id r db
    → r.status ≡ RedemptionStatus.approved
    → Holds id (burned tx env.now r) (confirm_burn id tx actor env db).1
unfolding confirm_burn
confirm_burn_moves id tx actor env db r h approved =
    simp (h.found, approved)
      (record {
        found = find_unique-update_self id (burned tx env.now) db.redemptions r h.found;
        payouts_on = h.payouts_on;
      })

submit_payout_moves :
    (reference id actor : String) (env : Env) (db : Db) (r : Redemption)
    → Holds id r db
    → r.status ≡ RedemptionStatus.burn_confirmed
    → Holds id (submitted reference env.now r) (submit_payout reference id actor env db).1
unfolding submit_payout
submit_payout_moves reference id actor env db r h burnt =
    simp (h.found, burnt, h.payouts_on)
      (record {
        found = find_unique-update_self id (submitted reference env.now) db.redemptions r h.found;
        payouts_on = h.payouts_on;
      })

confirm_payout_moves :
    (id actor : String) (env : Env) (db : Db) (r : Redemption)
    → Holds id r db
    → r.status ≡ RedemptionStatus.payout_submitted
    → pos 0 <ℤ r.amount_minor
    → Holds id (paid env.now r) (confirm_payout id actor env db).1
unfolding confirm_payout post_entry
confirm_payout_moves id actor env db r h sent positive =
    let (entry, built) =
      payout_built r (references_of (concat "redemption-payout:" id) r actor) positive in
    simp (h.found, sent, built)
      (record {
        found = find_unique-update_self id (paid env.now) db.redemptions r h.found;
        payouts_on = h.payouts_on;
      })

-- A redemption that awaits approval, of a positive amount, is completed by the approval of a user of
-- the trustee bank, the confirmation of its burn, the submission of its payout and the confirmation of
-- its payout, in this order, whoever makes the last three and whenever each is made, where payouts are
-- enabled at the approval: it is found completed after the four calls, for the same amount.
pub redemption_completes :
    (id approver_id reason tx burner reference submitter payer : String)
    (at_approval at_burn at_payout at_end : Env) (db : Db) (r : Redemption)
    → Holds id r db
    → r.status ≡ RedemptionStatus.awaiting_approval
    → not_trustee_bank (find_unique approver_id db.users) ≡ false
    → pos 0 <ℤ r.amount_minor
    → (row : Redemption) × (find_unique id
          (after_all
            ((Call.approving id approver_id reason, at_approval)
              ∷ (Call.burning id tx burner, at_burn)
              ∷ (Call.submitting reference id submitter, at_payout)
              ∷ (Call.paying id payer, at_end)
              ∷ [])
            db).redemptions
        ≡ some row)
      × (row.status ≡ RedemptionStatus.completed)
      × (row.amount_minor ≡ r.amount_minor)
unfolding after_all run
redemption_completes id approver_id reason tx burner reference submitter payer at_approval at_burn
      at_payout at_end db r h waiting trusted positive =
    let approved =
      approve_moves id approver_id reason at_approval db r h waiting trusted positive in
    let burnt =
      confirm_burn_moves id tx burner at_burn _ (approved_by approver_id r) approved refl in
    let sent = submit_payout_moves reference id submitter at_payout _ _ burnt refl in
    let done = confirm_payout_moves id payer at_end _ _ sent refl positive in
    (_, done.found, refl, refl)
