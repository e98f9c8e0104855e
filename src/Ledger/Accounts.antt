-- ===== src/Ledger/Accounts.antt =====
-- packages/ledger/src/accounts.ts: account codes and the type that a code's prefix names.
use Prim.Native.Char.{code}
use Prim.Native.String.{[], ◌∷◌}
use text.Mathlib.Text.{◌==◌ as str_eq}
use trustee_bank.Prelude.{String, ◌==◌, ◌≡◌, refl, Bool, true, false, if◌then◌else◌}
use trustee_bank.Ledger.LedgerAccountCode.{
  asset_trustee_bank_cash, liability_paychain_reserve_obligation, liability_pending_mint,
  liability_pending_redemption, liability_unmatched_deposit, liability_paykh_merchant_payable,
  liability_paykh_program_fund, liability_paykh_loyalty_stablecoin,
}
use trustee_bank.Result.{Result, ok, err, unknown_account_prefix}

pub data LedgerAccountType : Type 0 where
  asset liability income expense suspense : LedgerAccountType

-- `code.split(':')[0]`
unfoldable pub before_colon : String → String
before_colon [] = []
before_colon (c ∷ s) = let rest = before_colon s in if code c == b':' then [] else c ∷ rest

unfoldable pub ledger_account_type_of : String → Result LedgerAccountType
unfolding before_colon
ledger_account_type_of account =
    let prefix = before_colon account in
    if str_eq prefix "ASSET"
    then ok asset
    else if str_eq prefix "LIABILITY"
    then ok liability
    else if str_eq prefix "INCOME"
    then ok income
    else if str_eq prefix "EXPENSE"
    then ok expense
    else if str_eq prefix "SUSPENSE"
    then ok suspense
    else err unknown_account_prefix

-- `type === ASSET || type === EXPENSE`: the accounts whose natural balance is a debit.
unfoldable pub debit_positive : LedgerAccountType → Bool
debit_positive asset = true
debit_positive expense = true
debit_positive _ = false

-- The types of the canonical codes.
pub type_of_trustee_bank_cash : ledger_account_type_of asset_trustee_bank_cash ≡ ok asset
unfolding ledger_account_type_of
type_of_trustee_bank_cash = refl

pub type_of_paychain_reserve_obligation :
    ledger_account_type_of liability_paychain_reserve_obligation ≡ ok liability
unfolding ledger_account_type_of
type_of_paychain_reserve_obligation = refl

pub type_of_pending_mint : ledger_account_type_of liability_pending_mint ≡ ok liability
unfolding ledger_account_type_of
type_of_pending_mint = refl

pub type_of_pending_redemption : ledger_account_type_of liability_pending_redemption ≡ ok liability
unfolding ledger_account_type_of
type_of_pending_redemption = refl

pub type_of_unmatched_deposit : ledger_account_type_of liability_unmatched_deposit ≡ ok liability
unfolding ledger_account_type_of
type_of_unmatched_deposit = refl

pub type_of_paykh_merchant_payable :
    ledger_account_type_of liability_paykh_merchant_payable ≡ ok liability
unfolding ledger_account_type_of
type_of_paykh_merchant_payable = refl

pub type_of_paykh_program_fund : ledger_account_type_of liability_paykh_program_fund ≡ ok liability
unfolding ledger_account_type_of
type_of_paykh_program_fund = refl

pub type_of_paykh_loyalty_stablecoin :
    ledger_account_type_of liability_paykh_loyalty_stablecoin ≡ ok liability
unfolding ledger_account_type_of
type_of_paykh_loyalty_stablecoin = refl
