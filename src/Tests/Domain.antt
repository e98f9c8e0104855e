-- ===== src/Tests/Domain.antt =====
-- Runs of the theorems on redemption.service.ts and on the rest of packages/domain.
use trustee_bank.Prelude.{◌≡◌, refl, ◌*◌, true, none, some, List, [], ◌∷◌, arith, is_present}
use trustee_bank.Prelude.Int.{pos, ◌+ℤ◌, ◌-ℤ◌}
use trustee_bank.Prelude.Text.{to_upper_case, same_text}
use trustee_bank.Money
use trustee_bank.Money.Laws.{of}
use trustee_bank.Result.{ok}
use trustee_bank.Peg.{Peg, make_peg, backing_for_units, units_for_backing}
use trustee_bank.Peg.Laws.{units_round_trip}
use trustee_bank.Ledger.Accounts.{ledger_account_type_of, before_colon}
use trustee_bank.Ledger.Journal.{build_journal_entry, add_postings, assert_posting_well_formed}
use trustee_bank.Ledger.Entries.{payout_confirmed_entry, transfer_entry}
use trustee_bank.ReserveLedger.{post_entry}
use trustee_bank.Store.Table.{find_unique, update}
use trustee_bank.Store.Rows.{Redemption, RedemptionStatus}
use trustee_bank.Store.Db.{Db}
use trustee_bank.Store.Action.{Env}
use trustee_bank.Redemption.{confirm_payout, paid}
use trustee_bank.Store.Every.{put-Every}
use trustee_bank.Redemption.Order.{IsOrdered, Ordered}
use trustee_bank.Redemption.History.{Call, run, after_all, completed_in_order}
use trustee_bank.Tests.Sample.{usd, db, env}

abbrev unit_peg : Peg
unit_peg = record { peg_currency = to_upper_case usd; denomination_minor = pos 100 }

units_round_trip_example :
    (make_peg usd (pos 100) ≡ ok unit_peg)
    × (backing_for_units (pos 7) unit_peg ≡ ok (of (pos (7 * 100)) (to_upper_case usd)))
    × (units_for_backing (of (pos (7 * 100)) (to_upper_case usd)) unit_peg ≡ ok (some (pos 7)))
units_round_trip_example = units_round_trip usd 100 7 (ground arith)

abbrev sent : Redemption
sent = record {
  program_id = "p1";
  paychain_redemption_id = "x";
  asset_id = "KHUSD";
  amount_minor = pos 300;
  currency = usd;
  beneficiary_name = "B";
  beneficiary_account_masked = "1";
  status = RedemptionStatus.payout_submitted;
  correlation_id = none;
  burn_tx_hash = some "0x02";
  burn_confirmed_at = some 1;
  approved_by_id = some "checker";
  payout_reference = some "PO-1";
  payout_submitted_at = some 2;
  payout_confirmed_at = none;
  completed_at = none;
}

abbrev redeeming : Db
redeeming = record db { redemptions = ("x1", sent) ∷ [] }

no_rows-Ordered : Ordered []
unfolding find_unique
no_rows-Ordered id r h = cc

redeeming-Ordered : Ordered redeeming.redemptions
redeeming-Ordered = put-Every IsOrdered "x1" sent [] refl no_rows-Ordered

abbrev payment : List (Call × Env)
payment = (Call.paying "x1" "ops", env) ∷ []

found_paid : find_unique "x1" (after_all payment redeeming).redemptions ≡ some (paid 1000000 sent)
unfolding after_all run confirm_payout payout_confirmed_entry transfer_entry build_journal_entry
    add_postings assert_posting_well_formed ledger_account_type_of before_colon find_unique update
    post_entry same_text to_upper_case Money.money Money.zero Money.add Money.subtract Money.is_zero
    Money.is_negative Money.is_positive ◌+ℤ◌ ◌-ℤ◌
found_paid = refl

completed_in_order_example :
    (is_present (paid 1000000 sent).approved_by_id ≡ true)
    × (is_present (paid 1000000 sent).burn_confirmed_at ≡ true)
    × (is_present (paid 1000000 sent).payout_submitted_at ≡ true)
    × (is_present (paid 1000000 sent).payout_confirmed_at ≡ true)
completed_in_order_example =
    completed_in_order payment redeeming "x1" (paid 1000000 sent) redeeming-Ordered found_paid refl
