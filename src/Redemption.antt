-- ===== src/Redemption.antt =====
-- apps/trustee-api/src/modules/redemption/redemption.service.ts: the workflow of a redemption, from the
-- request to the confirmed payout. Generated identifiers and payout references are arguments.
pub mod Order
pub mod Owed
pub mod History
pub mod Completes
use Prim.Native.String.{◌++◌ as concat}
use text.Mathlib.Text.{◌==◌ as str_eq}
use trustee_bank.Prelude.{
  ℕ, String, Bool, true, false, not, ◌||◌, Option, none, some, List, ◌∷◌, is_present,
}
use trustee_bank.Prelude.Int.{ℤ, pos, ltb_ℤ}
use trustee_bank.Money.{CurrencyCode, money}
use trustee_bank.Result.{
  not_found, bad_request, unique_violation, Subject, wrong_status, amount_not_positive,
  not_trustee_bank_user, feature_disabled,
}
use trustee_bank.Ledger.Journal.{JournalReferences}
use trustee_bank.Ledger.Entries.{redemption_obligation_entry, payout_confirmed_entry}
use trustee_bank.Store.Table.{Table, find_unique, update, exists_row}
use trustee_bank.Store.Query.{is_enabled}
use trustee_bank.Store.Rows.{Redemption, RedemptionStatus, User}
use trustee_bank.Store.Db.{Db, AuditLog, OutboxEvent}
use trustee_bank.Store.Action.{
  Env, Action, pure, throw, reads, asks, lift, or_throw, throw_when, writes, record_audit, publish,
  ◌>>=◌, ◌>>◌,
}
use trustee_bank.ReserveLedger.{post}

pub record RequestRedemption : Type 0 where
  pub program_id : String
  pub paychain_redemption_id : String
  pub amount_minor : ℤ
  pub beneficiary_name : String
  pub beneficiary_account_masked : String
  pub correlation_id : Option String

abbrev pub Reply : Type 0
Reply = String × RedemptionStatus

abbrev pub audit_row : String → String → String → Option String → Option String → AuditLog
audit_row actor action id reason correlation_id = record {
  actor = actor;
  actor_role = none;
  action = action;
  subject_type = "REDEMPTION";
  subject_id = some id;
  reason = reason;
  approval_ref = none;
  correlation_id = correlation_id;
}

-- `require`
abbrev pub require : String → Action Redemption
require id = do
  found ← reads (λ db. find_unique id db.redemptions)
  or_throw found (not_found Subject.redemption)

abbrev pub patch : String → (Redemption → Redemption) → Action (Unit {0})
patch id f = writes λ db. record db { redemptions = update id f db.redemptions }

abbrev pub is_awaiting : RedemptionStatus → Bool
is_awaiting RedemptionStatus.awaiting_approval = true
is_awaiting _ = false

abbrev pub is_burnable : RedemptionStatus → Bool
is_burnable RedemptionStatus.approved = true
is_burnable RedemptionStatus.asset_locked = true
is_burnable _ = false

abbrev pub is_burn_confirmed : RedemptionStatus → Bool
is_burn_confirmed RedemptionStatus.burn_confirmed = true
is_burn_confirmed _ = false

abbrev pub is_payout_submitted : RedemptionStatus → Bool
is_payout_submitted RedemptionStatus.payout_submitted = true
is_payout_submitted _ = false

-- `!approver || approver.institution !== 'TRUSTEE_BANK'`
abbrev pub not_trustee_bank : Option User → Bool
not_trustee_bank none = true
not_trustee_bank (some u) = not (str_eq u.institution "TRUSTEE_BANK")

-- The unique columns `id` and `paychainRedemptionId` of a new row.
abbrev pub is_taken : String → String → Table Redemption → Bool
is_taken id paychain_redemption_id table =
    exists_row (λ r. str_eq r.paychain_redemption_id paychain_redemption_id) table
    || is_present (find_unique id table)

abbrev pub references_of : String → Redemption → String → JournalReferences
references_of source r actor = record {
  source = source;
  program_id = r.program_id;
  asset_id = r.asset_id;
  actor = actor;
  approval_ref = none;
  correlation_id = none;
}

unfoldable pub request : String → RequestRedemption → Action Reply
request id input = do
  found ← reads (λ db. find_unique input.program_id db.programs)
  program ← or_throw found (not_found Subject.program)
  enabled ← reads (λ db. is_enabled "paychain.redemption.enabled" db.feature_flags)
  throw_when (not enabled) (bad_request feature_disabled)
  let amount = money input.amount_minor program.reference_currency
  throw_when (not (ltb_ℤ (pos 0) amount.minor)) (bad_request amount_not_positive)
  taken ← reads (λ db. is_taken id input.paychain_redemption_id db.redemptions)
  throw_when taken unique_violation
  let row : Redemption = record {
    program_id = input.program_id;
    paychain_redemption_id = input.paychain_redemption_id;
    asset_id = program.asset_id;
    amount_minor = amount.minor;
    currency = program.reference_currency;
    beneficiary_name = input.beneficiary_name;
    beneficiary_account_masked = input.beneficiary_account_masked;
    status = RedemptionStatus.awaiting_approval;
    correlation_id = input.correlation_id;
    burn_tx_hash = none;
    burn_confirmed_at = none;
    approved_by_id = none;
    payout_reference = none;
    payout_submitted_at = none;
    payout_confirmed_at = none;
    completed_at = none;
  }
  writes λ db. record db { redemptions = (id, row) ∷ db.redemptions }
  record_audit (
      audit_row (concat "paychain:" input.paychain_redemption_id) "redemption.requested" id none
        input.correlation_id)
  pure (id, RedemptionStatus.awaiting_approval)

abbrev pub approved_by : String → Redemption → Redemption
approved_by approver_id r = record r {
  status = RedemptionStatus.approved;
  approved_by_id = some approver_id;
}

unfoldable pub approve : String → String → String → Action Reply
approve id approver_id reason = do
  r ← require id
  throw_when (not (is_awaiting r.status)) (bad_request wrong_status)
  approver ← reads (λ db. find_unique approver_id db.users)
  throw_when (not_trustee_bank approver) (bad_request not_trustee_bank_user)
  entry ← lift (
      redemption_obligation_entry (money r.amount_minor r.currency)
        (references_of (concat "redemption:" id) r approver_id))
  post entry
  patch id (approved_by approver_id)
  record_audit (audit_row approver_id "redemption.approved" id (some reason) none)
  publish (OutboxEvent.redemption_approved id r.program_id)
  pure (id, RedemptionStatus.approved)

abbrev pub burned : String → ℕ → Redemption → Redemption
burned burn_tx_hash now r = record r {
  status = RedemptionStatus.burn_confirmed;
  burn_tx_hash = some burn_tx_hash;
  burn_confirmed_at = some now;
}

unfoldable pub confirm_burn : String → String → String → Action Reply
confirm_burn id burn_tx_hash actor = do
  r ← require id
  throw_when (not (is_burnable r.status)) (bad_request wrong_status)
  now ← asks (λ env. env.now)
  patch id (burned burn_tx_hash now)
  record_audit (audit_row actor "redemption.burn.confirmed" id none none)
  publish (OutboxEvent.redemption_burn_confirmed id burn_tx_hash)
  pure (id, RedemptionStatus.burn_confirmed)

abbrev pub submitted : String → ℕ → Redemption → Redemption
submitted payout_reference now r = record r {
  status = RedemptionStatus.payout_submitted;
  payout_reference = some payout_reference;
  payout_submitted_at = some now;
}

unfoldable pub submit_payout : String → String → String → Action Reply
submit_payout payout_reference id actor = do
  r ← require id
  throw_when (not (is_burn_confirmed r.status)) (bad_request wrong_status)
  enabled ← reads (λ db. is_enabled "bank.payout.enabled" db.feature_flags)
  throw_when (not enabled) (bad_request feature_disabled)
  now ← asks (λ env. env.now)
  patch id (submitted payout_reference now)
  record_audit (audit_row actor "redemption.payout.submitted" id none none)
  publish (OutboxEvent.redemption_payout_submitted id payout_reference)
  pure (id, RedemptionStatus.payout_submitted)

abbrev pub paid : ℕ → Redemption → Redemption
paid now r = record r {
  status = RedemptionStatus.completed;
  payout_confirmed_at = some now;
  completed_at = some now;
}

unfoldable pub confirm_payout : String → String → Action Reply
confirm_payout id actor = do
  r ← require id
  throw_when (not (is_payout_submitted r.status)) (bad_request wrong_status)
  entry ← lift (
      payout_confirmed_entry (money r.amount_minor r.currency)
        (references_of (concat "redemption-payout:" id) r actor))
  post entry
  now ← asks (λ env. env.now)
  patch id (paid now)
  record_audit (audit_row actor "redemption.completed" id none none)
  publish (OutboxEvent.redemption_payout_confirmed id)
  publish (OutboxEvent.redemption_completed id)
  pure (id, RedemptionStatus.completed)

pub record RedemptionView : Type 0 where
  pub id : String
  pub status : RedemptionStatus
  pub amount_minor : ℤ
  pub currency : CurrencyCode
  pub burn_tx_hash : Option String
  pub payout_reference : Option String

-- The amount is shown as text in the source.
unfoldable pub get : String → Action RedemptionView
get id = do
  r ← require id
  pure (record {
    id = id;
    status = r.status;
    amount_minor = r.amount_minor;
    currency = r.currency;
    burn_tx_hash = r.burn_tx_hash;
    payout_reference = r.payout_reference;
  })

pub record PayoutView : Type 0 where
  pub id : String
  pub status : RedemptionStatus
  pub payout_reference : Option String
  pub payout_submitted_at : Option ℕ
  pub payout_confirmed_at : Option ℕ

unfoldable pub payout_status : String → Action PayoutView
payout_status id = do
  r ← require id
  pure (record {
    id = id;
    status = r.status;
    payout_reference = r.payout_reference;
    payout_submitted_at = r.payout_submitted_at;
    payout_confirmed_at = r.payout_confirmed_at;
  })
