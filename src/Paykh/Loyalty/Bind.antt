-- ===== src/Paykh/Loyalty/Bind.antt =====
-- `bind` of loyalty.service.ts: a program fund gets its stablecoin.
use text.Mathlib.Text.{◌==◌ as str_eq}
use trustee_bank.Prelude.{ℕ, String, Bool, not, Option, none, ◌∷◌, or_default}
use trustee_bank.Prelude.Int.{ℤ, pos, ltb_ℤ}
use trustee_bank.FundClassification.{backing_policy_for}
use trustee_bank.Result.{bad_request, conflict, amount_not_positive, not_fiat_backed}
use trustee_bank.Store.Table.{Table, exists_row}
use trustee_bank.Store.PaykhRows.{PaykhProgramFund, PaykhLoyaltyLiability}
use trustee_bank.Store.Action.{Action, pure, reads, throw_when, writes, record_audit, ◌>>=◌, ◌>>◌}
use trustee_bank.Paykh.{audit_row}
use trustee_bank.Paykh.Loyalty.{require_fund}

pub record BindLoyaltyInput : Type 0 where
  pub program_fund_id : String
  pub decimals : Option ℕ
  pub denomination_minor : Option ℤ
  pub stellar_asset_code : Option String
  pub stellar_issuer : Option String
  pub stellar_distributor : Option String
  pub actor : String

abbrev pub has_liability : String → Table PaykhLoyaltyLiability → Bool
has_liability fund_id table = exists_row (λ l. str_eq l.program_fund_id fund_id) table

abbrev pub new_liability : BindLoyaltyInput → PaykhProgramFund → ℤ → PaykhLoyaltyLiability
new_liability input fund denomination = record {
  tenant_id = fund.tenant_id;
  paykh_program_id = fund.paykh_program_id;
  program_fund_id = input.program_fund_id;
  classification = fund.classification;
  currency = fund.currency;
  peg_currency = fund.currency;
  denomination_minor = denomination;
  decimals = or_default input.decimals 2;
  stellar_asset_code = input.stellar_asset_code;
  stellar_issuer = input.stellar_issuer;
  stellar_distributor = input.stellar_distributor;
  outstanding_minor = pos 0;
  issued_total_minor = pos 0;
  redeemed_total_minor = pos 0;
  on_chain_supply_minor = pos 0;
  reconciliation_status = "PENDING";
  last_reconciled_at = none;
  status = "ACTIVE";
}

-- The view of `serialize`: the row with its identifier.
unfoldable pub bind : String → BindLoyaltyInput → Action (String × PaykhLoyaltyLiability)
bind id input = do
  fund ← require_fund input.program_fund_id
  throw_when (not (backing_policy_for fund.classification).fiat_backing_required)
      (bad_request not_fiat_backed)
  existing ← reads (λ db. has_liability input.program_fund_id db.loyalty_liabilities)
  throw_when existing conflict
  let denomination = or_default input.denomination_minor (pos 1)
  throw_when (not (ltb_ℤ (pos 0) denomination)) (bad_request amount_not_positive)
  let liability = new_liability input fund denomination
  writes λ db. record db { loyalty_liabilities = (id, liability) ∷ db.loyalty_liabilities }
  record_audit (audit_row input.actor "paykh.loyalty.bound" "PAYKH_LOYALTY_LIABILITY" id none)
  pure (id, liability)
