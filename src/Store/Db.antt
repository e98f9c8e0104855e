-- ===== src/Store/Db.antt =====
-- The database of a running trustee-api, one field for each table.
use trustee_bank.Prelude.{ℕ, String, Bool, Option, List}
use trustee_bank.Prelude.Int.{ℤ}
use trustee_bank.Money.{CurrencyCode}
use trustee_bank.Result.{MintBlockReason}
use trustee_bank.Store.Table.{Table}
use trustee_bank.Store.PaykhRows.{
  PaykhPaymentProfile, PaykhPaymentOrder, PaykhProgramFund, PaykhLoyaltyLiability,
  PaykhLoyaltyIssuance, PaykhLoyaltyRedemption, PaykhSettlement, PaykhMerchant,
}
use trustee_bank.Store.Rows.{
  Program, User, TrusteeAccount, FundingInstruction, Deposit, MintAuthorization, MintConfirmation,
  LiabilitySnapshot, ReserveAdjustment, ReserveSnapshot, BankConnection, ReconciliationRun,
  LedgerEntry, Redemption, Attestation, ExceptionDetail,
}

-- A row of `auditLog`; the JSON columns `beforeState` and `afterState` are left out.
pub record AuditLog : Type 0 where
  pub actor : String
  pub actor_role : Option String
  pub action : String
  pub subject_type : String
  pub subject_id : Option String
  pub reason : Option String
  pub approval_ref : Option String
  pub correlation_id : Option String

-- The artifact that PayChain gates a mint on.
pub record MintArtifact : Type 0 where
  pub authorization_id : String
  pub reference : String
  pub tenant_id : Option String
  pub asset_id : String
  pub amount_minor : ℤ
  pub destination : Option String
  pub expires_at : ℕ

-- The reserve evidence that PayChain corroborates minting on.
pub record ReserveArtifact : Type 0 where
  pub snapshot_id : String
  pub tenant_id : String
  pub asset_id : String
  pub reserve_balance : ℤ
  pub currency : CurrencyCode
  pub as_of : ℕ

pub data RejectionReasons : Type 0 where
  guard_reasons : List MintBlockReason → RejectionReasons
  manual_rejection : RejectionReasons

-- Who executed an operation on the chain.
pub data ExecutedBy : Type 0 where
  paychain offchain simulated : ExecutedBy

-- The events to PayKH, with their payloads.
pub data PaykhEvent : Type 0 where
  payment_duplicate : String → String → String → PaykhEvent
  payment_rejected : String → List String → PaykhEvent
  payment_confirmed : String → String → ℤ → CurrencyCode → String → PaykhEvent
  payment_refunded : String → String → ℤ → PaykhEvent
  profile_verified : String → String → PaykhEvent
  profile_suspended : String → PaykhEvent
  program_fund_cleared : String → ℤ → PaykhEvent
  program_fund_exhausted : String → PaykhEvent
  settlement_approved : String → PaykhEvent
  settlement_confirmed : String → PaykhEvent
  loyalty_issued :
      String → String → ℤ → Option ℤ → Option String → Option String → ExecutedBy → PaykhEvent
  loyalty_redeemed : String → String → String → ℤ → Option String → Option String → PaykhEvent
  loyalty_reconciled : String → ℤ → Option ℤ → PaykhEvent
  loyalty_reserve_drift : String → ℤ → Option ℤ → PaykhEvent

-- A row of `outboxEvent`: the event's type with its payload. Its signature columns are left out.
pub data OutboxEvent : Type 0 where
  mint_authorization_rejected : String → RejectionReasons → OutboxEvent
  mint_authorization_approved : String → MintArtifact → OutboxEvent
  mint_authorization_expired : String → OutboxEvent
  mint_confirmed : String → String → OutboxEvent
  redemption_approved : String → String → OutboxEvent
  redemption_burn_confirmed : String → String → OutboxEvent
  redemption_payout_submitted : String → String → OutboxEvent
  redemption_payout_confirmed : String → OutboxEvent
  redemption_completed : String → OutboxEvent
  funding_instruction_created : String → String → String → OutboxEvent
  deposit_detected : String → String → OutboxEvent
  deposit_matched : String → String → OutboxEvent
  deposit_cleared : String → OutboxEvent
  reserve_snapshot_created : String → String → Option ℤ → ReserveArtifact → OutboxEvent
  reserve_shortfall_detected : String → ℤ → OutboxEvent
  reconciliation_exception_created : String → String → List ExceptionDetail → OutboxEvent
  bank_ledger_drift : String → ℤ → ℤ → ℤ → OutboxEvent
  paykh : PaykhEvent → OutboxEvent

pub record Db : Type 0 where
  pub programs : Table Program
  pub users : Table User
  pub trustee_accounts : Table TrusteeAccount
  pub funding_instructions : Table FundingInstruction
  pub deposits : Table Deposit
  pub mint_authorizations : Table MintAuthorization
  pub mint_confirmations : Table MintConfirmation
  pub redemptions : Table Redemption
  pub liability_snapshots : List LiabilitySnapshot
  pub reserve_adjustments : Table ReserveAdjustment
  pub bank_connections : Table BankConnection
  pub reserve_snapshots : List ReserveSnapshot
  pub reconciliation_runs : List ReconciliationRun
  pub feature_flags : Table Bool
  pub platform_controls : Table Bool
  pub ledger_entries : List LedgerEntry
  pub payment_profiles : Table PaykhPaymentProfile
  pub payment_orders : Table PaykhPaymentOrder
  pub program_funds : Table PaykhProgramFund
  pub loyalty_liabilities : Table PaykhLoyaltyLiability
  pub loyalty_issuances : Table PaykhLoyaltyIssuance
  pub loyalty_redemptions : Table PaykhLoyaltyRedemption
  pub attestations : Table Attestation
  pub settlements : Table PaykhSettlement
  pub merchants : Table PaykhMerchant
  pub outbox : List OutboxEvent
  pub audit_logs : List AuditLog
