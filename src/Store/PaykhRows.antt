-- ===== src/Store/PaykhRows.antt =====
-- The rows of the tables of PayKH: profiles, orders, program funds, loyalty, settlements, merchants.
use trustee_bank.Prelude.{ℕ, String, Option}
use trustee_bank.Prelude.Int.{ℤ}
use trustee_bank.Money.{CurrencyCode}
use trustee_bank.FundClassification.{FundClassification}

pub data PaymentProfileStatus : Type 0 where
  submitted verifying approved active suspended rejected : PaymentProfileStatus

pub record PaykhPaymentProfile : Type 0 where
  pub tenant_id : String
  pub recipient_name : String
  pub recipient_account_masked : String
  pub bank_name : String
  pub currency : CurrencyCode
  pub khqr_payload : String
  pub status : PaymentProfileStatus
  pub verified_at : Option ℕ

pub data PaymentOrderStatus : Type 0 where
  created awaiting_payment payment_detected confirmed duplicate : PaymentOrderStatus
  rejected refunded expired cancelled : PaymentOrderStatus

pub record PaykhPaymentOrder : Type 0 where
  pub tenant_id : String
  pub profile_id : String
  pub amount_minor : ℤ
  pub currency : CurrencyCode
  pub payment_reference : String
  pub khqr_string : Option String
  pub status : PaymentOrderStatus
  pub matched_bank_transaction_id : Option String
  pub confirmed_at : Option ℕ
  pub expires_at : ℕ

pub record PaykhProgramFund : Type 0 where
  pub tenant_id : String
  pub paykh_program_id : String
  pub classification : FundClassification
  pub currency : CurrencyCode
  pub reserve_account_id : String
  pub funded_minor : ℤ
  pub reserved_minor : ℤ
  pub status : String

pub record PaykhLoyaltyLiability : Type 0 where
  pub tenant_id : String
  pub paykh_program_id : String
  pub program_fund_id : String
  pub classification : FundClassification
  pub currency : CurrencyCode
  pub peg_currency : CurrencyCode
  pub denomination_minor : ℤ
  pub decimals : ℕ
  pub stellar_asset_code : Option String
  pub stellar_issuer : Option String
  pub stellar_distributor : Option String
  pub outstanding_minor : ℤ
  pub issued_total_minor : ℤ
  pub redeemed_total_minor : ℤ
  pub on_chain_supply_minor : ℤ
  pub reconciliation_status : String
  pub last_reconciled_at : Option ℕ
  pub status : String

pub record PaykhLoyaltyIssuance : Type 0 where
  pub loyalty_liability_id : String
  pub customer_ref : String
  pub units : Option ℤ
  pub amount_minor : ℤ
  pub currency : CurrencyCode
  pub status : String
  pub paychain_reference : Option String
  pub on_chain_tx_hash : Option String
  pub actor : String

pub record PaykhLoyaltyRedemption : Type 0 where
  pub loyalty_liability_id : String
  pub tenant_id : String
  pub merchant_id : String
  pub customer_ref : String
  pub amount_minor : ℤ
  pub currency : CurrencyCode
  pub status : String
  pub paychain_reference : Option String
  pub on_chain_tx_hash : Option String
  pub actor : String
  pub confirmed_at : Option ℕ

pub data SettlementStatus : Type 0 where
  requested approved submitted confirmed cancelled failed : SettlementStatus

pub record PaykhSettlement : Type 0 where
  pub tenant_id : String
  pub merchant_id : String
  pub amount_minor : ℤ
  pub currency : CurrencyCode
  pub status : SettlementStatus
  pub approved_by_id : Option String
  pub submitted_at : Option ℕ
  pub confirmed_at : Option ℕ

pub record PaykhMerchant : Type 0 where
  pub tenant_id : String
  pub merchant_code : String
  pub paykh_merchant_ref : Option String
  pub legal_name : String
  pub country : Option String
  pub kyc_status : String
  pub status : String
  pub risk_level : String
  pub source : String
  pub last_reported_at : ℕ
