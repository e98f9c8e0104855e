-- ===== src/Deposits.antt =====
-- apps/trustee-api/src/modules/deposits/deposits.service.ts: detected deposits, their match with a
-- funding instruction, and their clearance. Generated identifiers are arguments.
pub mod Tracked
pub mod Backed
pub mod History
use Prim.Native.String.{◌++◌ as concat}
use text.Mathlib.Text.{◌==◌ as str_eq}
use trustee_bank.Prelude.{
  ℕ, String, Bool, true, false, not, ◌||◌, Option, none, some, [], ◌∷◌, is_present,
}
use trustee_bank.Prelude.Int.{ℤ, eqb_ℤ}
use trustee_bank.Prelude.Text.{same_text}
use trustee_bank.Money.{Money, CurrencyCode, money, zero}
use trustee_bank.Result.{
  Result, not_found, bad_request, unique_violation, foreign_key_violation, Subject, wrong_status,
  currency_mismatch, amount_mismatch,
}
use trustee_bank.Ledger.LedgerAccountCode.{
  asset_trustee_bank_cash, liability_paychain_reserve_obligation, liability_unmatched_deposit,
}
use trustee_bank.Ledger.Journal.{JournalReferences, JournalEntryInput, build_journal_entry}
use trustee_bank.Store.Table.{Table, find_unique, update, exists_row}
use trustee_bank.Store.Rows.{Deposit, DepositStatus}
use trustee_bank.Store.Db.{Db, AuditLog, OutboxEvent}
use trustee_bank.Store.Action.{
  Env, Action, pure, throw, reads, asks, lift, or_throw, throw_when, writes, record_audit, publish,
  ◌>>=◌, ◌>>◌,
}
use trustee_bank.ReserveLedger.{post}
use trustee_bank.Mint.Guard.{is_mint_eligible}

pub record RegisterDeposit : Type 0 where
  pub program_id : String
  pub trustee_account_id : String
  pub bank_transaction_id : String
  pub amount_minor : ℤ
  pub currency : CurrencyCode
  pub payer_name : Option String
  pub payment_reference : Option String
  pub transaction_date : ℕ
  pub actor : String

abbrev pub Reply : Type 0
Reply = String × DepositStatus

abbrev pub audit_row : String → String → String → AuditLog
audit_row actor action id = record {
  actor = actor;
  actor_role = none;
  action = action;
  subject_type = "DEPOSIT";
  subject_id = some id;
  reason = none;
  approval_ref = none;
  correlation_id = none;
}

-- `requireDeposit`
abbrev pub require_deposit : String → Action Deposit
require_deposit id = do
  found ← reads (λ db. find_unique id db.deposits)
  or_throw found (not_found Subject.deposit)

-- The unique columns `id` and `bankTransactionId` of a new row.
abbrev pub is_taken : String → String → Table Deposit → Bool
is_taken id bank_transaction_id table =
    exists_row (λ d. str_eq d.bank_transaction_id bank_transaction_id) table
    || is_present (find_unique id table)

abbrev pub references_of : String → String → String → String → JournalReferences
references_of source program_id asset_id actor = record {
  source = source;
  program_id = program_id;
  asset_id = asset_id;
  actor = actor;
  approval_ref = none;
  correlation_id = none;
}

-- A debit and a credit of one amount; the entry's currency is taken as it was given, while the
-- amounts carry it in upper case.
abbrev pub entry_input :
    String → String → String → ℤ → CurrencyCode → JournalReferences → JournalEntryInput
entry_input description from to minor currency references = record {
  currency = currency;
  description = description;
  postings =
      record { account = from; debit = money minor currency; credit = zero currency; memo = none }
      ∷ record { account = to; debit = zero currency; credit = money minor currency; memo = none }
      ∷ [];
  references = references;
}

abbrev pub detected_row : RegisterDeposit → Deposit
detected_row input = record {
  program_id = input.program_id;
  trustee_account_id = input.trustee_account_id;
  bank_transaction_id = input.bank_transaction_id;
  funding_instruction_id = none;
  payer_name = input.payer_name;
  payment_reference = input.payment_reference;
  transaction_date = input.transaction_date;
  amount_minor = (money input.amount_minor input.currency).minor;
  currency = input.currency;
  status = DepositStatus.detected;
  cleared_at = none;
}

abbrev pub detected_input : String → RegisterDeposit → String → JournalEntryInput
detected_input id input asset_id =
    entry_input "Detected deposit booked as unmatched" asset_trustee_bank_cash
      liability_unmatched_deposit input.amount_minor input.currency
      (references_of (concat "deposit:" id) input.program_id asset_id input.actor)

-- The row is stored before its entry is built, and `buildJournalEntry` may throw.
unfoldable pub register : String → RegisterDeposit → Action Reply
register id input = do
  found ← reads (λ db. find_unique input.trustee_account_id db.trustee_accounts)
  account ← or_throw found (not_found Subject.trustee_account)
  taken ← reads (λ db. is_taken id input.bank_transaction_id db.deposits)
  throw_when taken unique_violation
  program ← reads (λ db. find_unique input.program_id db.programs)
  throw_when (not (is_present program)) foreign_key_violation
  writes λ db. record db { deposits = (id, detected_row input) ∷ db.deposits }
  entry ← lift (build_journal_entry (detected_input id input account.supported_asset_id))
  post entry
  record_audit (audit_row input.actor "deposit.detected" id)
  publish (OutboxEvent.deposit_detected id input.program_id)
  pure (id, DepositStatus.detected)

abbrev pub is_matchable : DepositStatus → Bool
is_matchable DepositStatus.detected = true
is_matchable DepositStatus.unmatched = true
is_matchable _ = false

abbrev pub matched_to : String → Deposit → Deposit
matched_to funding_instruction_id d = record d {
  funding_instruction_id = some funding_instruction_id;
  status = DepositStatus.matched;
}

unfoldable pub match_deposit : String → String → String → Action Reply
match_deposit id funding_instruction_id actor = do
  deposit ← require_deposit id
  throw_when (not (is_matchable deposit.status)) (bad_request wrong_status)
  found ← reads (λ db. find_unique funding_instruction_id db.funding_instructions)
  fi ← or_throw found (not_found Subject.funding_instruction)
  throw_when (not (same_text fi.currency deposit.currency)) (bad_request currency_mismatch)
  throw_when (not (eqb_ℤ fi.amount_minor deposit.amount_minor)) (bad_request amount_mismatch)
  writes λ db. record db { deposits = update id (matched_to funding_instruction_id) db.deposits }
  record_audit (audit_row actor "deposit.matched" id)
  publish (OutboxEvent.deposit_matched id funding_instruction_id)
  pure (id, DepositStatus.matched)

abbrev pub is_matched : DepositStatus → Bool
is_matched DepositStatus.matched = true
is_matched _ = false

abbrev pub cleared_input : String → Deposit → String → String → JournalEntryInput
cleared_input id deposit asset_id actor =
    entry_input "Cleared deposit reclassified to reserve obligation" liability_unmatched_deposit
      liability_paychain_reserve_obligation deposit.amount_minor deposit.currency
      (references_of (concat "deposit-clear:" id) deposit.program_id asset_id actor)

abbrev pub cleared : ℕ → Deposit → Deposit
cleared now d = record d { status = DepositStatus.cleared; cleared_at = some now }

unfoldable pub clear : String → String → Action Reply
clear id actor = do
  deposit ← require_deposit id
  throw_when (not (is_matched deposit.status)) (bad_request wrong_status)
  found ← reads (λ db. find_unique deposit.trustee_account_id db.trustee_accounts)
  account ← or_throw found (not_found Subject.trustee_account)
  entry ← lift (build_journal_entry (cleared_input id deposit account.supported_asset_id actor))
  post entry
  now ← asks (λ env. env.now)
  writes λ db. record db { deposits = update id (cleared now) db.deposits }
  record_audit (audit_row actor "deposit.cleared" id)
  publish (OutboxEvent.deposit_cleared id)
  pure (id, DepositStatus.cleared)

pub record DepositView : Type 0 where
  pub id : String
  pub status : DepositStatus
  pub amount_minor : ℤ
  pub currency : CurrencyCode
  pub mint_eligible : Bool

unfoldable pub get : String → Action DepositView
get id = do
  d ← require_deposit id
  pure (record {
    id = id;
    status = d.status;
    amount_minor = d.amount_minor;
    currency = d.currency;
    mint_eligible = is_mint_eligible d.status;
  })
