-- ===== src/Reserves/Calculation.antt =====
-- packages/reserves/src/reserve-calculation.ts. A count of basis points is a `number` that the
-- callers take from integer columns, so it is an integer here and `Math.trunc` changes nothing.
pub mod Laws
pub mod Ratio
use trustee_bank.Prelude.{ℕ, Bool, not, Option, none, some, [], ◌∷◌, if◌then◌else◌}
use trustee_bank.Prelude.Int.{ℤ, pos, ◌*ℤ◌, quot, ltb_ℤ, eqb_ℤ}
use trustee_bank.Prelude.Text.{same_text}
use trustee_bank.Money.{Money, CurrencyCode, zero, add, subtract, sum, gte, max, is_negative}
use trustee_bank.Result.{Result, ok, err, ratio_currency, negative_buffer, ◌>>=◌, ◌>>◌, throw_if}

pub record EligibleReserveInput : Type 0 where
  pub currency : CurrencyCode
  pub cleared_bank_balance : Money
  pub restricted_funds : Money
  pub unmatched_funds : Money
  pub pending_outgoing_payouts : Money
  pub bank_charges_due : Money
  pub regulatory_holds : Money
  pub operational_funds : Money
  pub other_ineligible_amounts : Money

unfoldable pub eligible_reserve : EligibleReserveInput → Result Money
eligible_reserve input = do
  deductions ← sum (
      input.restricted_funds ∷ input.unmatched_funds ∷ input.pending_outgoing_payouts
      ∷ input.bank_charges_due ∷ input.regulatory_holds ∷ input.operational_funds
      ∷ input.other_ineligible_amounts ∷ [])
  result ← subtract input.cleared_bank_balance deductions
  ok (if is_negative result then zero input.currency else result)

pub record ReserveObligationInput : Type 0 where
  pub currency : CurrencyCode
  pub circulating_supply : Money
  pub confirmed_redemption_obligations : Money
  pub other_contractual_liabilities : Money
  pub legally_approved_exclusions : Money

unfoldable pub reserve_obligation : ReserveObligationInput → Result Money
reserve_obligation input = do
  gross ← sum (
      input.circulating_supply ∷ input.confirmed_redemption_obligations
      ∷ input.other_contractual_liabilities ∷ [])
  result ← subtract gross input.legally_approved_exclusions
  ok (if is_negative result then zero input.currency else result)

unfoldable pub reserve_ratio_bps : Money → Money → Result (Option ℤ)
reserve_ratio_bps eligible obligation = do
  throw_if (not (same_text obligation.currency eligible.currency)) ratio_currency
  ok (
      if eqb_ℤ obligation.minor (pos 0)
      then none
      else some (quot (eligible.minor *ℤ pos 10000) obligation.minor))

pub record MintCapacityInput : Type 0 where
  pub currency : CurrencyCode
  pub eligible_reserve : Money
  pub existing_reserve_obligation : Money
  pub required_safety_buffer : Money
  pub pending_mint_authorizations : Money

unfoldable pub mint_capacity : MintCapacityInput → Result Money
mint_capacity input = do
  consumed ← sum (
      input.existing_reserve_obligation ∷ input.required_safety_buffer
      ∷ input.pending_mint_authorizations ∷ [])
  result ← subtract input.eligible_reserve consumed
  max result (zero input.currency)

unfoldable pub required_safety_buffer : Money → ℤ → Result Money
required_safety_buffer obligation buffer_bps = do
  throw_if (ltb_ℤ buffer_bps (pos 0)) negative_buffer
  ok (record {
    minor = quot (obligation.minor *ℤ buffer_bps) (pos 10000);
    currency = obligation.currency;
  })

unfoldable pub is_fully_reserved : Money → Money → ℤ → Result Bool
is_fully_reserved eligible obligation required_ratio_bps =
    if eqb_ℤ obligation.minor (pos 0)
    then ok Bool.true
    else gte eligible (record {
      minor = quot (obligation.minor *ℤ required_ratio_bps) (pos 10000);
      currency = obligation.currency;
    })

unfoldable pub reserve_surplus : Money → Money → Result Money
reserve_surplus eligible obligation = subtract eligible obligation
