-- ===== src/Funding.antt =====
-- apps/trustee-api/src/modules/funding/funding.service.ts: funding instructions. The generated
-- identifier and the generated part of the reference are arguments.
use Prim.Native.String.{◌++◌ as concat}
use text.Mathlib.Text.{◌==◌ as str_eq}
use trustee_bank.Prelude.{
  ℕ, ◌+◌, ◌*◌, String, Bool, true, false, not, ◌||◌, Option, none, some, ◌∷◌, is_absent, or_default,
}
use trustee_bank.Prelude.Int.{ℤ}
use trustee_bank.Money.{CurrencyCode}
use trustee_bank.Result.{
  not_found, bad_request, unique_violation, foreign_key_violation, Subject, wrong_status,
}
use trustee_bank.Store.Table.{Table, find_unique, update, exists_row}
use trustee_bank.Store.Rows.{FundingInstruction, FundingInstructionStatus}
use trustee_bank.Store.Db.{AuditLog, OutboxEvent}
use trustee_bank.Store.Action.{
  Action, pure, reads, asks, or_throw, throw_when, writes, record_audit, publish, ◌>>=◌, ◌>>◌,
}

pub record CreateFundingInstruction : Type 0 where
  pub program_id : String
  pub paychain_request_id : String
  pub asset_id : String
  pub depositor : String
  pub expected_payer : Option String
  pub beneficiary_account_id : String
  pub amount_minor : ℤ
  pub currency : CurrencyCode
  pub permitted_method : String
  pub ttl_seconds : Option ℕ
  pub actor : String

pub record FundingView : Type 0 where
  pub id : String
  pub unique_reference : String
  pub beneficiary_bank : String
  pub beneficiary_account_name : String
  pub masked_account_number : String
  pub currency : CurrencyCode
  pub amount_minor : ℤ
  pub expires_at : ℕ
  pub status : FundingInstructionStatus

abbrev audit_row : String → String → String → AuditLog
audit_row actor action id = record {
  actor = actor;
  actor_role = none;
  action = action;
  subject_type = "FUNDING_INSTRUCTION";
  subject_id = some id;
  reason = none;
  approval_ref = none;
  correlation_id = none;
}

-- The unique columns of a new row.
abbrev pub is_taken : String → String → String → Table FundingInstruction → Bool
is_taken id paychain_request_id reference table =
    exists_row (λ f. str_eq f.paychain_request_id paychain_request_id) table
    || (exists_row (λ f. str_eq f.unique_reference reference) table
        || not (is_absent (find_unique id table)))

abbrev pub reference_of : String → String → String
reference_of asset_id suffix = concat "PC-" (concat asset_id (concat "-" suffix))

abbrev pub issued_row : String → ℕ → CreateFundingInstruction → FundingInstruction
issued_row reference expires_at input = record {
  program_id = input.program_id;
  paychain_request_id = input.paychain_request_id;
  asset_id = input.asset_id;
  depositor = input.depositor;
  expected_payer = input.expected_payer;
  beneficiary_account_id = input.beneficiary_account_id;
  amount_minor = input.amount_minor;
  currency = input.currency;
  unique_reference = reference;
  permitted_method = input.permitted_method;
  expires_at = expires_at;
  status = FundingInstructionStatus.issued;
}

unfoldable pub create : String → String → CreateFundingInstruction → Action FundingView
create id suffix input = do
  found ← reads (λ db. find_unique input.beneficiary_account_id db.trustee_accounts)
  account ← or_throw found (not_found Subject.trustee_account)
  now ← asks (λ env. env.now)
  let expires_at = now + or_default input.ttl_seconds 3600 * 1000
  let reference = reference_of input.asset_id suffix
  taken ← reads (λ db. is_taken id input.paychain_request_id reference db.funding_instructions)
  throw_when taken unique_violation
  program ← reads (λ db. find_unique input.program_id db.programs)
  throw_when (is_absent program) foreign_key_violation
  let row = issued_row reference expires_at input
  writes λ db. record db { funding_instructions = (id, row) ∷ db.funding_instructions }
  record_audit (audit_row input.actor "funding_instruction.created" id)
  publish (OutboxEvent.funding_instruction_created id reference input.program_id)
  pure (record {
    id = id;
    unique_reference = reference;
    beneficiary_bank = account.bank_legal_entity;
    beneficiary_account_name = account.account_name;
    masked_account_number = account.masked_account_number;
    currency = input.currency;
    amount_minor = input.amount_minor;
    expires_at = expires_at;
    status = FundingInstructionStatus.issued;
  })

-- The lookup of `get`, `status` and `cancel`.
abbrev pub require : String → Action FundingInstruction
require id = do
  found ← reads (λ db. find_unique id db.funding_instructions)
  or_throw found (not_found Subject.funding_instruction)

pub record InstructionView : Type 0 where
  pub id : String
  pub status : FundingInstructionStatus
  pub unique_reference : String
  pub amount_minor : ℤ
  pub currency : CurrencyCode
  pub expires_at : ℕ

unfoldable pub get : String → Action InstructionView
get id = do
  fi ← require id
  pure (record {
    id = id;
    status = fi.status;
    unique_reference = fi.unique_reference;
    amount_minor = fi.amount_minor;
    currency = fi.currency;
    expires_at = fi.expires_at;
  })

unfoldable pub status : String → Action (String × (FundingInstructionStatus × ℕ))
status id = do fi ← require id; pure (id, (fi.status, fi.expires_at))

abbrev pub is_funded : FundingInstructionStatus → Bool
is_funded FundingInstructionStatus.funded = true
is_funded _ = false

abbrev pub cancelled : FundingInstruction → FundingInstruction
cancelled f = record f { status = FundingInstructionStatus.cancelled }

unfoldable pub cancel : String → String → Action (String × FundingInstructionStatus)
cancel id actor = do
  fi ← require id
  throw_when (is_funded fi.status) (bad_request wrong_status)
  writes λ db. record db { funding_instructions = update id cancelled db.funding_instructions }
  record_audit (audit_row actor "funding_instruction.cancelled" id)
  pure (id, FundingInstructionStatus.cancelled)
