-- ===== src/Reserve.antt =====
-- apps/trustee-api/src/modules/reserve/reserve.service.ts: the live reserve position of a program,
-- and below it the adjustments, the snapshots and the banks.
pub mod Adjustments
pub mod Snapshots
pub mod Banks
use text.Mathlib.Text.{◌==◌ as str_eq}
use mathlib.Core.Option
use trustee_bank.Prelude.{ℕ, String, ◌&&◌, Option, none, some, [], ◌∷◌, if◌then◌else◌}
use trustee_bank.Prelude.Int.{ℤ, pos, ◌+ℤ◌, ◌*ℤ◌, quot, ltb_ℤ}
use trustee_bank.Prelude.Text.{same_text}
use trustee_bank.Money.{Money, CurrencyCode, money, zero}
use trustee_bank.Result.{Result, ok, err, not_found, Subject, ◌>>=◌}
use trustee_bank.Ledger.LedgerAccountCode.{
  asset_trustee_bank_cash, liability_unmatched_deposit, liability_pending_mint,
  liability_pending_redemption,
}
use trustee_bank.Reserves.Calculation.{
  eligible_reserve, reserve_obligation, mint_capacity, required_safety_buffer, reserve_surplus,
  reserve_ratio_bps,
}
use trustee_bank.Store.Table.{Table, find_unique}
use trustee_bank.Store.Query.{latest, age_seconds}
use trustee_bank.Store.Rows.{LiabilitySnapshot, ReserveAdjustment}
use trustee_bank.Store.Db.{Db}
use trustee_bank.ReserveLedger.{account_balance}

pub record ReservePosition : Type 0 where
  pub program_id : String
  pub currency : CurrencyCode
  pub eligible_reserve : Money
  pub reserve_obligation : Money
  pub required_reserve : Money
  pub mint_capacity : Money
  pub surplus : Money
  pub reserve_ratio_bps : Option ℤ
  pub liability_age_seconds : Option ℕ

-- The verified snapshot of a program with the highest sequence.
unfoldable pub latest_liability : String → Db → Option LiabilitySnapshot
latest_liability program_id db =
    latest (λ s. str_eq s.program_id program_id && s.signature_verified)
      (λ s t. ltb_ℤ t.sequence s.sequence) db.liability_snapshots

abbrev circulating_of : Option LiabilitySnapshot → ℤ
circulating_of none = pos 0
circulating_of (some s) = s.circulating_minor

-- The sum of the active adjustments of one kind; zero if there is none.
unfoldable pub adjusted : String → CurrencyCode → String → Table ReserveAdjustment → ℤ
adjusted program_id currency kind [] = pos 0
adjusted program_id currency kind ((id, a) ∷ rest) =
    (if str_eq a.program_id program_id
        && (same_text a.currency currency && (a.active && str_eq a.kind kind))
      then a.amount_minor
      else pos 0)
    +ℤ adjusted program_id currency kind rest

abbrev or_err {ℓ} : {A : Type ℓ} → Option A → Subject → Result A
or_err none s = err (not_found s)
or_err (some a) s = ok a

unfoldable pub position : ℕ → Db → String → Result ReservePosition
position now db program_id = do
  program ← or_err (find_unique program_id db.programs) Subject.program
  let currency = program.reference_currency
  let balance = account_balance db.ledger_entries program_id
  let adj =
      λ (kind : String). money (adjusted program_id currency kind db.reserve_adjustments) currency
  cleared_bank_balance ← balance asset_trustee_bank_cash currency
  unmatched ← balance liability_unmatched_deposit currency
  pending_mint ← balance liability_pending_mint currency
  pending_redemption ← balance liability_pending_redemption currency
  let latest_snapshot = latest_liability program_id db
  eligible ← eligible_reserve (record {
    currency = currency;
    cleared_bank_balance = cleared_bank_balance;
    restricted_funds = adj "RESTRICTED";
    unmatched_funds = unmatched;
    pending_outgoing_payouts = pending_redemption;
    bank_charges_due = adj "BANK_CHARGE";
    regulatory_holds = adj "REGULATORY_HOLD";
    operational_funds = adj "OPERATIONAL";
    other_ineligible_amounts = zero currency;
  })
  obligation ← reserve_obligation (record {
    currency = currency;
    circulating_supply = money (circulating_of latest_snapshot) currency;
    confirmed_redemption_obligations = pending_redemption;
    other_contractual_liabilities = zero currency;
    legally_approved_exclusions = zero currency;
  })
  buffer ← required_safety_buffer obligation program.safety_buffer_bps
  let required = money (quot (obligation.minor *ℤ program.required_ratio_bps) (pos 10000)) currency
  capacity ← mint_capacity (record {
    currency = currency;
    eligible_reserve = eligible;
    existing_reserve_obligation = obligation;
    required_safety_buffer = buffer;
    pending_mint_authorizations = pending_mint;
  })
  surplus ← reserve_surplus eligible required
  ratio ← reserve_ratio_bps eligible obligation
  ok (record {
    program_id = program_id;
    currency = currency;
    eligible_reserve = eligible;
    reserve_obligation = obligation;
    required_reserve = required;
    mint_capacity = capacity;
    surplus = surplus;
    reserve_ratio_bps = ratio;
    liability_age_seconds =
        Option.map (λ (s : LiabilitySnapshot). age_seconds now s.snapshot_timestamp)
          latest_snapshot;
  })
