-- ===== src/Paykh/Loyalty.antt =====
-- loyalty.service.ts: the backed loyalty stablecoin, its issuance, redemption and reconciliation. The
-- calls of PayChain, of the ledger of the chain and of the signer are parameters; generated
-- identifiers, which are new, are arguments.
pub mod Chain
pub mod Amount
pub mod Bind
pub mod Reconcile
use text.Mathlib.Text.{◌==◌ as str_eq}
use Prim.Native.String.{◌++◌ as concat}
use trustee_bank.Prelude.{
  ℕ, String, Bool, not, Option, none, some, ◌∷◌, if◌then◌else◌, is_present, or_default,
}
use trustee_bank.Prelude.Int.{ℤ, pos, ◌+ℤ◌, ◌-ℤ◌, ltb_ℤ, eqb_ℤ}
use trustee_bank.Money.{Money, CurrencyCode, money}
use trustee_bank.Peg.{make_peg, backing_for_units}
use trustee_bank.FundClassification.{backing_policy_for}
use trustee_bank.Result.{
  Result, ok, err, feature_off, not_found, bad_request, conflict, Subject, amount_not_positive,
  amount_missing, insufficient_funding, insufficient_outstanding, not_fiat_backed,
}
use trustee_bank.Ledger.LedgerAccountCode.{liability_paykh_loyalty_stablecoin}
use trustee_bank.Ledger.Entries.{paykh_loyalty_issuance_entry, paykh_loyalty_redemption_entry}
use trustee_bank.Store.Table.{Table, find_unique, update, exists_row}
use trustee_bank.Store.Query.{is_enabled}
use trustee_bank.Store.PaykhRows.{
  PaykhProgramFund, PaykhLoyaltyLiability, PaykhLoyaltyIssuance, PaykhLoyaltyRedemption,
}
use trustee_bank.Store.Db.{Db, PaykhEvent}
use trustee_bank.Store.Action.{
  Action, pure, throw, reads, asks, lift, or_throw, throw_when, writes, record_audit,
  publish_to_paykh, ◌>>=◌, ◌>>◌,
}
use trustee_bank.ReserveLedger.{post, account_balance}
use trustee_bank.Paykh.{audit_row, references_of}
use trustee_bank.Paykh.Merchants.{require_active}
use trustee_bank.Paykh.ProgramFunds.{reserved_by}
use trustee_bank.Paykh.Loyalty.Amount.{resolve_amount}
use trustee_bank.Paykh.Loyalty.Chain.{
  Operation, Gateway, ChainResult, truthy, authorize_on_chain, read_supply,
}

pub record IssueLoyaltyInput : Type 0 where
  pub liability_id : String
  pub customer_ref : String
  pub amount_minor : Option ℤ
  pub units : Option ℤ
  pub actor : String

pub record RedeemLoyaltyInput : Type 0 where
  pub liability_id : String
  pub merchant_id : String
  pub customer_ref : String
  pub amount_minor : Option ℤ
  pub units : Option ℤ
  pub actor : String

-- `require`
abbrev pub require : String → Action PaykhLoyaltyLiability
require id = do
  found ← reads (λ db. find_unique id db.loyalty_liabilities)
  or_throw found (not_found Subject.loyalty_liability)

abbrev pub require_fund : String → Action PaykhProgramFund
require_fund id = do
  found ← reads (λ db. find_unique id db.program_funds)
  or_throw found (not_found Subject.program_fund)

-- FeatureFlagsService.requireEnabled
abbrev pub require_enabled : String → Action (Unit {0})
require_enabled key = do
  enabled ← reads (λ db. is_enabled key db.feature_flags)
  throw_when (not enabled) feature_off

-- The asset that an entry names.
abbrev pub asset_of : PaykhLoyaltyLiability → String
asset_of l = or_default l.stellar_asset_code l.paykh_program_id

abbrev pub issued_by : ℤ → PaykhLoyaltyLiability → PaykhLoyaltyLiability
issued_by minor l = record l {
  outstanding_minor = l.outstanding_minor +ℤ minor;
  issued_total_minor = l.issued_total_minor +ℤ minor;
}

abbrev pub redeemed_by : ℤ → PaykhLoyaltyLiability → PaykhLoyaltyLiability
redeemed_by minor l = record l {
  outstanding_minor = l.outstanding_minor -ℤ minor;
  redeemed_total_minor = l.redeemed_total_minor +ℤ minor;
}

abbrev pub patch_fund : String → (PaykhProgramFund → PaykhProgramFund) → Db → Db
patch_fund id f db = record db { program_funds = update id f db.program_funds }

abbrev pub patch_liability : String → (PaykhLoyaltyLiability → PaykhLoyaltyLiability) → Db → Db
patch_liability id f db = record db { loyalty_liabilities = update id f db.loyalty_liabilities }

-- A row of PaykhLoyaltyIssuance, with what the chain answered.
abbrev pub issuance_row :
    IssueLoyaltyInput
    → PaykhLoyaltyLiability
    → Money × Option ℤ
    → ChainResult
    → PaykhLoyaltyIssuance
issuance_row input l resolved chain = record {
  loyalty_liability_id = input.liability_id;
  customer_ref = input.customer_ref;
  units = resolved.1;
  amount_minor = resolved.0.minor;
  currency = l.peg_currency;
  status = chain.status;
  paychain_reference = chain.paychain_reference;
  on_chain_tx_hash = chain.on_chain_tx_hash;
  actor = input.actor;
}

abbrev pub redemption_row :
    RedeemLoyaltyInput → PaykhLoyaltyLiability → ℤ → ChainResult → ℕ → PaykhLoyaltyRedemption
redemption_row input l minor chain now = record {
  loyalty_liability_id = input.liability_id;
  tenant_id = l.tenant_id;
  merchant_id = input.merchant_id;
  customer_ref = input.customer_ref;
  amount_minor = minor;
  currency = l.peg_currency;
  status = "CONFIRMED";
  paychain_reference = chain.paychain_reference;
  on_chain_tx_hash = chain.on_chain_tx_hash;
  actor = input.actor;
  confirmed_at = some now;
}

pub record Issued : Type 0 where
  pub issuance_id : String
  pub liability_id : String
  pub amount_minor : ℤ
  pub units : Option ℤ
  pub currency : CurrencyCode
  pub on_chain : ChainResult

pub record Redeemed : Type 0 where
  pub redemption_id : String
  pub liability_id : String
  pub merchant_id : String
  pub amount_minor : ℤ
  pub units : Option ℤ
  pub on_chain : ChainResult

-- The transaction of an issuance: the fund, the liability and the new row.
abbrev pub record_issuance :
    String → IssueLoyaltyInput → PaykhLoyaltyLiability → Money × Option ℤ → ChainResult → Db → Db
record_issuance issuance_id input l resolved chain db =
    let db' =
      patch_liability input.liability_id (issued_by resolved.0.minor)
        (patch_fund l.program_fund_id (reserved_by resolved.0.minor) db) in
    record db' {
      loyalty_issuances =
          (issuance_id, issuance_row input l resolved chain) ∷ db'.loyalty_issuances;
    }

abbrev pub record_redemption :
    String → RedeemLoyaltyInput → PaykhLoyaltyLiability → ℤ → ChainResult → ℕ → Db → Db
record_redemption redemption_id input l minor chain now db =
    let db' = patch_liability input.liability_id (redeemed_by minor) db in
    record db' {
      loyalty_redemptions =
          (redemption_id, redemption_row input l minor chain now) ∷ db'.loyalty_redemptions;
    }

module _ (gateway : Gateway) where
  unfoldable pub issue : String → String → IssueLoyaltyInput → Action Issued
  issue issuance_id uuid input = do
    require_enabled "paykh.loyalty.enabled"
    l ← require input.liability_id
    fund ← require_fund l.program_fund_id
    resolved ← lift (resolve_amount l input.amount_minor input.units)
    let amount = resolved.0
    throw_when (not (ltb_ℤ (pos 0) amount.minor)) (bad_request amount_not_positive)
    let available = fund.funded_minor -ℤ fund.reserved_minor
    throw_when (ltb_ℤ available amount.minor) (bad_request insufficient_funding)
    entry ← lift (
        paykh_loyalty_issuance_entry amount (
          references_of (concat "paykh-loyalty-issue:" input.liability_id) l.tenant_id (asset_of l)
            input.actor))
    post entry
    chain ← lift (authorize_on_chain gateway Operation.issue uuid input.liability_id l amount.minor)
    writes (record_issuance issuance_id input l resolved chain)
    record_audit
        (audit_row input.actor "paykh.loyalty.issued" "PAYKH_LOYALTY_ISSUANCE" issuance_id none)
    publish_to_paykh (
        PaykhEvent.loyalty_issued input.liability_id issuance_id amount.minor resolved.1
          chain.paychain_reference chain.on_chain_tx_hash chain.executed_by)
    pure (record {
      issuance_id = issuance_id;
      liability_id = input.liability_id;
      amount_minor = amount.minor;
      units = resolved.1;
      currency = l.peg_currency;
      on_chain = chain;
    })

  unfoldable pub redeem : String → String → RedeemLoyaltyInput → Action Redeemed
  redeem redemption_id uuid input = do
    require_enabled "paykh.loyalty.enabled"
    merchant ← require_active input.merchant_id
    l ← require input.liability_id
    resolved ← lift (resolve_amount l input.amount_minor input.units)
    let amount = resolved.0
    throw_when (not (ltb_ℤ (pos 0) amount.minor)) (bad_request amount_not_positive)
    throw_when (ltb_ℤ l.outstanding_minor amount.minor) (bad_request insufficient_outstanding)
    entry ← lift (
        paykh_loyalty_redemption_entry amount (
          references_of (concat "paykh-loyalty-redeem:" input.liability_id) l.tenant_id (asset_of l)
            input.actor))
    post entry
    chain ← lift (authorize_on_chain gateway Operation.burn uuid input.liability_id l amount.minor)
    now ← asks (λ env. env.now)
    writes (record_redemption redemption_id input l amount.minor chain now)
    record_audit (
        audit_row input.actor "paykh.loyalty.redeemed" "PAYKH_LOYALTY_REDEMPTION" redemption_id
          none)
    publish_to_paykh (
        PaykhEvent.loyalty_redeemed input.liability_id redemption_id input.merchant_id amount.minor
          chain.paychain_reference chain.on_chain_tx_hash)
    pure (record {
      redemption_id = redemption_id;
      liability_id = input.liability_id;
      merchant_id = input.merchant_id;
      amount_minor = amount.minor;
      units = resolved.1;
      on_chain = chain;
    })
