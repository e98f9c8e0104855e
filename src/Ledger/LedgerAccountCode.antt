-- ===== src/Ledger/LedgerAccountCode.antt =====
-- packages/ledger/src/accounts.ts, LedgerAccountCode: the canonical account codes that are posted to.
use trustee_bank.Prelude.{String}

abbrev pub asset_trustee_bank_cash : String
asset_trustee_bank_cash = "ASSET:TRUSTEE_BANK_CASH"

abbrev pub liability_paychain_reserve_obligation : String
liability_paychain_reserve_obligation = "LIABILITY:PAYCHAIN_RESERVE_OBLIGATION"

abbrev pub liability_pending_mint : String
liability_pending_mint = "LIABILITY:PENDING_MINT"

abbrev pub liability_pending_redemption : String
liability_pending_redemption = "LIABILITY:PENDING_REDEMPTION"

abbrev pub liability_unmatched_deposit : String
liability_unmatched_deposit = "LIABILITY:UNMATCHED_DEPOSIT"

abbrev pub liability_paykh_merchant_payable : String
liability_paykh_merchant_payable = "LIABILITY:PAYKH_MERCHANT_PAYABLE"

abbrev pub liability_paykh_program_fund : String
liability_paykh_program_fund = "LIABILITY:PAYKH_PROGRAM_FUND"

abbrev pub liability_paykh_loyalty_stablecoin : String
liability_paykh_loyalty_stablecoin = "LIABILITY:PAYKH_LOYALTY_STABLECOIN"
