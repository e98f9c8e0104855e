-- ===== src/Tests/Desks.antt =====
-- Witnesses for deposits, the liability feed, policies, roles, redemptions and adjustments.
use trustee_bank.Prelude.{◌≡◌, refl, false, none, some, List, [], ◌∷◌, arith}
use trustee_bank.Prelude.Int.{ℤ, pos}
use trustee_bank.Prelude.Text.{to_upper_case, upper_code}
use trustee_bank.Result.{err, invalid_posting}
use trustee_bank.Store.Table.{find_unique, total_of, exists_row}
use trustee_bank.Store.Rows.{
  TrusteeAccount, AccountStatus, FundingInstruction, FundingInstructionStatus,
}
use trustee_bank.Store.Db.{Db}
use trustee_bank.Store.Action.{Env}
use trustee_bank.ReserveLedger.{find_postings}
use trustee_bank.ReserveLedger.Balance.{net}
use trustee_bank.ReserveLedger.Tracking.{Tracks}
use trustee_bank.Deposits.{is_taken, RegisterDeposit, register, detected_row}
use trustee_bank.Deposits.Tracked.{Unmatched}
use trustee_bank.Deposits.Backed.{Backed}
use trustee_bank.Deposits.History
use trustee_bank.Deposits.History.{
  Unmatched-tracks, cleared_deposits-Backed, register_stores_unbooked,
}
use trustee_bank.Tests.Sample.{usd, env, program, db as sample}

abbrev account : TrusteeAccount
account = record {
  program_id = "p1";
  masked_account_number = "***1";
  account_name = "Reserve";
  bank_legal_entity = "Bank";
  core_banking_ref = "c1";
  bank_id = none;
  mock_cleared_minor = pos 0;
  supported_asset_id = "KHUSD";
  currency = usd;
  status = AccountStatus.active;
}

abbrev instruction : FundingInstruction
instruction = record {
  program_id = "p1";
  paychain_request_id = "q1";
  asset_id = "KHUSD";
  depositor = "issuer";
  expected_payer = none;
  beneficiary_account_id = "t1";
  amount_minor = pos 700;
  currency = usd;
  unique_reference = "PC-KHUSD-1";
  permitted_method = "WIRE";
  expires_at = 2000000;
  status = FundingInstructionStatus.issued;
}

-- No deposit yet, one account and one instruction.
abbrev db : Db
db = record sample {
  trustee_accounts = ("t1", account) ∷ [];
  funding_instructions = ("f1", instruction) ∷ [];
  deposits = [];
  ledger_entries = [];
}

abbrev registration : ℤ → RegisterDeposit
registration minor = record {
  program_id = "p1";
  trustee_account_id = "t1";
  bank_transaction_id = "b7";
  amount_minor = minor;
  currency = usd;
  payer_name = none;
  payment_reference = none;
  transaction_date = 990000;
  actor = "ops";
}

abbrev deposit_calls : List (History.Call × Env)
deposit_calls =
    (History.Call.registering "d7" (registration (pos 700)), env)
    ∷ (History.Call.matching "d7" "f1" "ops", env)
    ∷ (History.Call.clearing "d7" "ops", env)
    ∷ []

db-Unmatched : Unmatched "p1" usd db
unfolding Tracks find_postings net total_of
db-Unmatched = refl

usd_upper_case : to_upper_case usd ≡ usd
unfolding to_upper_case upper_code
usd_upper_case = refl

Unmatched-tracks_example : Unmatched "p1" usd (History.after_all deposit_calls db)
Unmatched-tracks_example =
    Unmatched-tracks deposit_calls db "p1" usd ((ground arith, usd_upper_case), (tt, (tt, tt)))
      db-Unmatched

db-Backed : Backed db
unfolding find_unique
db-Backed id d h = cc

cleared_deposits-Backed_example : Backed (History.after_all deposit_calls db)
cleared_deposits-Backed_example = cleared_deposits-Backed deposit_calls db db-Backed

account_known : find_unique "t1" db.trustee_accounts ≡ some account
unfolding find_unique
account_known = refl

free : is_taken "d7" "b7" db.deposits ≡ false
unfolding find_unique exists_row
free = refl

known : find_unique "p1" db.programs ≡ some program
unfolding find_unique
known = refl

register_stores_unbooked_example :
    ((register "d7" (registration (pos 0)) env db).0 ≡ err invalid_posting)
    × (find_unique "d7" (register "d7" (registration (pos 0)) env db).1.deposits
        ≡ some (detected_row (registration (pos 0))))
    × ((register "d7" (registration (pos 0)) env db).1.ledger_entries ≡ [])
register_stores_unbooked_example =
    register_stores_unbooked "d7" (registration (pos 0)) env db account_known free known
      usd_upper_case (ground arith)
