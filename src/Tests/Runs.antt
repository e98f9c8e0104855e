-- ===== src/Tests/Runs.antt =====
-- A run of the theorem on reconciliation runs.
use trustee_bank.Prelude.{◌≡◌, ◌↔◌, refl, true, false, some, is_present}
use trustee_bank.Prelude.Int.{pos, ◌+ℤ◌, ◌-ℤ◌, ◌*ℤ◌, ◌≤ℤ◌, quot}
use trustee_bank.Prelude.Text.{to_upper_case, same_text}
use trustee_bank.Money
use trustee_bank.Money.Laws.{of}
use trustee_bank.Result.{ok}
use trustee_bank.Ledger.Accounts.{ledger_account_type_of, before_colon, debit_positive}
use trustee_bank.Reserves.Calculation.{
  eligible_reserve, reserve_obligation, reserve_ratio_bps, mint_capacity, required_safety_buffer,
  reserve_surplus,
}
use trustee_bank.Store.Table.{find_unique}
use trustee_bank.Store.Query.{latest}
use trustee_bank.ReserveLedger.{account_balance, find_postings, net_from}
use trustee_bank.Reserve.{ReservePosition, position, latest_liability, adjusted}
use trustee_bank.Mint.Guard.{has_exceptions}
use trustee_bank.Reconciliation.{reconcile_reserve}
use trustee_bank.Reconciliation.Blocks.{reserve_run_clears}
use trustee_bank.Tests.Sample.{usd, db, env}

abbrev sample_position : ReservePosition
sample_position = record {
  program_id = "p1";
  currency = usd;
  eligible_reserve = of (pos 10000) usd;
  reserve_obligation = of (pos 2000) usd;
  required_reserve = of (pos 2000) usd;
  mint_capacity = of (pos 7500) usd;
  surplus = of (pos 8000) usd;
  reserve_ratio_bps = some (pos 50000);
  liability_age_seconds = some 10;
}

sample_position_read : position 1000000 db "p1" ≡ ok sample_position
unfolding position latest_liability adjusted account_balance find_postings net_from find_unique
    latest eligible_reserve reserve_obligation reserve_ratio_bps mint_capacity
    required_safety_buffer reserve_surplus Money.sum Money.sum_from Money.add Money.subtract
    Money.zero Money.money Money.is_negative Money.is_zero same_text to_upper_case
    ledger_account_type_of before_colon debit_positive ◌+ℤ◌ ◌-ℤ◌ ◌*ℤ◌ quot Money.max
sample_position_read = refl

reserve_run_clears_example :
    (has_exceptions "p1" (reconcile_reserve "run1" "p1" "ops" env db).1.reconciliation_runs ≡ false)
    ↔ ((pos 0 ≤ℤ pos 8000) × (is_present sample_position.liability_age_seconds ≡ true))
reserve_run_clears_example =
    reserve_run_clears "run1" "p1" "ops" env db sample_position sample_position_read tt
