-- ===== src/Store/Rows.antt =====
-- The rows of the tables, with the columns that the modelled services read or write.
use trustee_bank.Prelude.{ℕ, String, Bool, Option, List}
use trustee_bank.Prelude.Int.{ℤ}
use trustee_bank.Money.{CurrencyCode}

pub data ProgramStatus : Type 0 where
  draft active suspended expired closed : ProgramStatus

pub record Program : Type 0 where
  pub asset_id : String
  pub issuer_id : String
  pub reference_currency : CurrencyCode
  pub required_ratio_bps : ℤ
  pub safety_buffer_bps : ℤ
  pub status : ProgramStatus

pub record User : Type 0 where
  pub institution : String

pub data AccountStatus : Type 0 where
  pending_activation active restricted on_hold closed : AccountStatus

pub record TrusteeAccount : Type 0 where
  pub program_id : String
  pub masked_account_number : String
  pub account_name : String
  pub bank_legal_entity : String
  pub core_banking_ref : String
  pub bank_id : Option String
  pub mock_cleared_minor : ℤ
  pub supported_asset_id : String
  pub currency : CurrencyCode
  pub status : AccountStatus

pub data FundingInstructionStatus : Type 0 where
  issued partially_funded funded expired cancelled : FundingInstructionStatus

pub record FundingInstruction : Type 0 where
  pub program_id : String
  pub paychain_request_id : String
  pub asset_id : String
  pub depositor : String
  pub expected_payer : Option String
  pub beneficiary_account_id : String
  pub amount_minor : ℤ
  pub currency : CurrencyCode
  pub unique_reference : String
  pub permitted_method : String
  pub expires_at : ℕ
  pub status : FundingInstructionStatus

-- DepositStatus of packages/domain/src/enums.ts
pub data DepositStatus : Type 0 where
  expected detected unmatched matched pending_clearance cleared held rejected : DepositStatus
  returned allocated_to_reserve available_for_mint consumed_by_mint refunded : DepositStatus
  manual_review : DepositStatus

pub record Deposit : Type 0 where
  pub program_id : String
  pub trustee_account_id : String
  pub bank_transaction_id : String
  pub funding_instruction_id : Option String
  pub payer_name : Option String
  pub payment_reference : Option String
  pub transaction_date : ℕ
  pub amount_minor : ℤ
  pub currency : CurrencyCode
  pub status : DepositStatus
  pub cleared_at : Option ℕ

-- MintAuthorizationStatus of packages/domain/src/enums.ts
pub data MintAuthorizationStatus : Type 0 where
  draft pending_maker pending_checker approved issued consumed : MintAuthorizationStatus
  expired revoked rejected : MintAuthorizationStatus

pub data ApprovalDecision : Type 0 where
  pending approved rejected : ApprovalDecision

-- The approval row of an authorization; the relation is one to one.
pub record Approval : Type 0 where
  pub id : String
  pub maker_id : String
  pub checker_id : Option String
  pub checker_acted_at : Option ℕ
  pub decision : ApprovalDecision
  pub reason : Option String

-- A signature as the signing service returns it.
pub record Signature : Type 0 where
  pub key_id : String
  pub value : String

pub record MintAuthorization : Type 0 where
  pub program_id : String
  pub paychain_request_id : String
  pub asset_id : String
  pub amount_minor : ℤ
  pub currency : CurrencyCode
  pub funding_deposit_ids : List String
  pub tenant_id : Option String
  pub destination : Option String
  pub status : MintAuthorizationStatus
  pub nonce : String
  pub max_mint_amount_minor : ℤ
  pub single_use : Bool
  pub signature : Option Signature
  pub issued_at : Option ℕ
  pub expires_at : Option ℕ
  pub approval : Option Approval

pub record MintConfirmation : Type 0 where
  pub paychain_transaction_id : String
  pub blockchain_tx_hash : String
  pub amount_minor : ℤ
  pub currency : CurrencyCode
  pub destination : String
  pub ledger_height : Option ℤ
  pub confirmed_at : ℕ
  pub paychain_signature : String
  pub verified : Bool

-- What a liability snapshot reports, besides the columns that are read.
pub record SupplyReport : Type 0 where
  pub asset_id : String
  pub asset_code : String
  pub blockchain_network : String
  pub issuer_account : String
  pub treasury_held_minor : ℤ
  pub locked_minor : ℤ
  pub pending_mint_minor : ℤ
  pub pending_burn_minor : ℤ
  pub pending_redemption_minor : ℤ
  pub confirmed_burn_minor : ℤ
  pub effective_liability_minor : ℤ
  pub currency : CurrencyCode
  pub ledger_reference : String
  pub source_version : String

pub record LiabilitySnapshot : Type 0 where
  pub program_id : String
  pub report : SupplyReport
  pub circulating_minor : ℤ
  pub sequence : ℤ
  pub snapshot_timestamp : ℕ
  pub signature : Signature
  pub signature_verified : Bool

pub record ReserveAdjustment : Type 0 where
  pub program_id : String
  pub currency : CurrencyCode
  pub kind : String
  pub amount_minor : ℤ
  pub active : Bool
  pub reason : Option String
  pub created_by : String
  pub lifted_by : Option String

pub record BankConnection : Type 0 where
  pub bank_legal_name : String
  pub country : Option String
  pub integration_mode : String
  pub base_url : Option String
  pub auth_token_env : Option String
  pub status : String
  pub created_by : Option String

pub record ReserveSnapshot : Type 0 where
  pub id : String
  pub program_id : String
  pub asset_id : String
  pub reference_currency : CurrencyCode
  pub eligible_reserve_minor : ℤ
  pub excluded_amount_minor : ℤ
  pub circulating_liability_minor : ℤ
  pub pending_redemption_minor : ℤ
  pub required_reserve_minor : ℤ
  pub reserve_ratio_bps : Option ℤ
  pub surplus_minor : ℤ
  pub reconciliation_status : String
  pub data_sources : List String
  pub signature : Signature
  pub content_hash : String
  pub created_at : ℕ

-- A `type` of a reconciliation exception with its detail.
pub data ExceptionDetail : Type 0 where
  reserve_shortfall : ℤ → ℤ → ℤ → ExceptionDetail
  missing_liability_feed : String → ExceptionDetail
  confirmed_without_bank_txn : String → ExceptionDetail
  duplicate_bank_txn : String → List String → ExceptionDetail
  confirmed_without_timestamp : String → ExceptionDetail

pub record ReconciliationException : Type 0 where
  pub detail : ExceptionDetail
  pub resolved : Bool

-- A run with its exceptions; the JSON column `summary` is left out.
pub record ReconciliationRun : Type 0 where
  pub id : String
  pub scope : String
  pub program_id : Option String
  pub tenant_id : Option String
  pub status : String
  pub created_by : String
  pub created_at : ℕ
  pub exceptions : List ReconciliationException

pub record LedgerPosting : Type 0 where
  pub account : String
  pub debit_minor : ℤ
  pub credit_minor : ℤ
  pub memo : Option String

pub record LedgerEntry : Type 0 where
  pub program_id : String
  pub asset_id : String
  pub currency : CurrencyCode
  pub description : String
  pub source : String
  pub actor : String
  pub approval_ref : Option String
  pub correlation_id : Option String
  pub reversal_of : Option String
  pub total_debit_minor : ℤ
  pub total_credit_minor : ℤ
  pub postings : List LedgerPosting

-- RedemptionStatus of packages/domain/src/enums.ts
pub data RedemptionStatus : Type 0 where
  requested validating compliance_review awaiting_approval approved : RedemptionStatus
  asset_lock_pending asset_locked burn_pending burn_confirmed : RedemptionStatus
  payout_pending payout_submitted payout_confirmed completed : RedemptionStatus
  rejected failed returned manual_review : RedemptionStatus

pub record Redemption : Type 0 where
  pub program_id : String
  pub paychain_redemption_id : String
  pub asset_id : String
  pub amount_minor : ℤ
  pub currency : CurrencyCode
  pub beneficiary_name : String
  pub beneficiary_account_masked : String
  pub status : RedemptionStatus
  pub correlation_id : Option String
  pub burn_tx_hash : Option String
  pub burn_confirmed_at : Option ℕ
  pub approved_by_id : Option String
  pub payout_reference : Option String
  pub payout_submitted_at : Option ℕ
  pub payout_confirmed_at : Option ℕ
  pub completed_at : Option ℕ

pub data AttestationStatus : Type 0 where
  draft under_review approved published superseded withdrawn expired : AttestationStatus

pub record Attestation : Type 0 where
  pub program_id : Option String
  pub period : String
  pub scope : String
  pub methodology : Option String
  pub reserve_amount_minor : Option ℤ
  pub liability_amount_minor : Option ℤ
  pub currency : Option CurrencyCode
  pub opinion : Option String
  pub auditor : String
  pub document_hash : Option String
  pub status : AttestationStatus
  pub issue_date : Option ℕ
  pub created_by : String
  pub approved_by : Option String
