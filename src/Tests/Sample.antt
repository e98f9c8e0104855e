-- ===== src/Tests/Sample.antt =====
-- A program with a cleared deposit, an authorization that awaits its checker and one that is issued.
use text.Mathlib.Text.{◌==◌ as str_eq}
use trustee_bank.Prelude.{if◌then◌else◌, String, Bool, true, none, some, [], ◌∷◌}
use trustee_bank.Prelude.Int.{pos}
use trustee_bank.Money.{CurrencyCode}
use trustee_bank.Money.Laws.{of}
use trustee_bank.Ledger.Journal.{JournalReferences, JournalEntryInput}
use trustee_bank.Ledger.Journal.Build.{posted}
use trustee_bank.Ledger.Entries.Transfer.{transfer_input}
use trustee_bank.Ledger.LedgerAccountCode.{
  asset_trustee_bank_cash, liability_paychain_reserve_obligation, liability_pending_mint,
}
use trustee_bank.Store.Rows.{
  Program, ProgramStatus, Deposit, DepositStatus, MintAuthorization, MintAuthorizationStatus,
  Approval, ApprovalDecision, LiabilitySnapshot, SupplyReport,
}
use trustee_bank.Store.Db.{Db}
use trustee_bank.Store.Action.{Env}
use trustee_bank.ReserveLedger.{entry_row}
use trustee_bank.Mint.{MintConfirmationInput}

-- "USD"
abbrev pub usd : CurrencyCode
usd = 85 ∷ 83 ∷ 68 ∷ []

-- "KHR"
abbrev pub khr : CurrencyCode
khr = 75 ∷ 72 ∷ 82 ∷ []

abbrev pub references : JournalReferences
references = record {
  source = "test";
  program_id = "p1";
  asset_id = "KHUSD";
  actor = "ops";
  approval_ref = none;
  correlation_id = none;
}

abbrev pub deposit_input : JournalEntryInput
deposit_input =
    transfer_input "Deposit" asset_trustee_bank_cash liability_paychain_reserve_obligation
      (of (pos 10000) usd) references

abbrev pub reservation_input : JournalEntryInput
reservation_input =
    transfer_input "Reservation" liability_paychain_reserve_obligation liability_pending_mint
      (of (pos 500) usd) references

abbrev pub program : Program
program = record {
  asset_id = "KHUSD";
  issuer_id = "i1";
  reference_currency = usd;
  required_ratio_bps = pos 10000;
  safety_buffer_bps = pos 0;
  status = ProgramStatus.active;
}

abbrev pub approval : Approval
approval = record {
  id = "ap1";
  maker_id = "maker";
  checker_id = none;
  checker_acted_at = none;
  decision = ApprovalDecision.pending;
  reason = none;
}

abbrev pub authorization : String → MintAuthorizationStatus → MintAuthorization
authorization request_id status = record {
  program_id = "p1";
  paychain_request_id = request_id;
  asset_id = "KHUSD";
  amount_minor = pos 500;
  currency = usd;
  funding_deposit_ids = "d1" ∷ [];
  tenant_id = none;
  destination = none;
  status = status;
  nonce = request_id;
  max_mint_amount_minor = pos 500;
  single_use = true;
  signature = none;
  issued_at = none;
  expires_at = some 2000000;
  approval = some approval;
}

abbrev pub waiting : MintAuthorization
waiting = authorization "r1" MintAuthorizationStatus.pending_checker

abbrev pub issued : MintAuthorization
issued = authorization "r2" MintAuthorizationStatus.issued

abbrev pub deposit : Deposit
deposit = record {
  program_id = "p1";
  trustee_account_id = "t1";
  bank_transaction_id = "b1";
  funding_instruction_id = none;
  payer_name = none;
  payment_reference = none;
  transaction_date = 900000;
  amount_minor = pos 10000;
  currency = usd;
  status = DepositStatus.cleared;
  cleared_at = none;
}

abbrev report : SupplyReport
report = record {
  asset_id = "KHUSD";
  asset_code = "KHUSD";
  blockchain_network = "stellar";
  issuer_account = "G1";
  treasury_held_minor = pos 0;
  locked_minor = pos 0;
  pending_mint_minor = pos 0;
  pending_burn_minor = pos 0;
  pending_redemption_minor = pos 0;
  confirmed_burn_minor = pos 0;
  effective_liability_minor = pos 2000;
  currency = usd;
  ledger_reference = "l1";
  source_version = "1";
}

abbrev pub snapshot : LiabilitySnapshot
snapshot = record {
  program_id = "p1";
  report = report;
  circulating_minor = pos 2000;
  sequence = pos 1;
  snapshot_timestamp = 990000;
  signature = record { key_id = "k1"; value = "s1" };
  signature_verified = true;
}

abbrev pub db_with : Bool → Db
db_with enabled = record {
  programs = ("p1", program) ∷ [];
  users =
      ("maker", record { institution = "TRUSTEE_BANK" })
      ∷ ("checker", record { institution = "TRUSTEE_BANK" })
      ∷ [];
  trustee_accounts = [];
  funding_instructions = [];
  deposits = ("d1", deposit) ∷ [];
  mint_authorizations = ("a1", waiting) ∷ ("a2", issued) ∷ [];
  mint_confirmations = [];
  redemptions = [];
  liability_snapshots = snapshot ∷ [];
  reserve_adjustments = [];
  bank_connections = [];
  reserve_snapshots = [];
  reconciliation_runs = [];
  feature_flags = ("mint.authorization.enabled", enabled) ∷ [];
  platform_controls = [];
  ledger_entries = entry_row (posted reservation_input) ∷ entry_row (posted deposit_input) ∷ [];
  payment_profiles = [];
  payment_orders = [];
  program_funds = [];
  loyalty_liabilities = [];
  loyalty_issuances = [];
  loyalty_redemptions = [];
  attestations = [];
  settlements = [];
  merchants = [];
  outbox = [];
  audit_logs = [];
}

abbrev pub db : Db
db = db_with true

abbrev pub env : Env
env = record {
  now = 1000000;
  max_reserve_snapshot_age_s = 300;
  max_bank_connectivity_age_s = 300;
  max_liability_feed_age_s = 300;
  max_proof_of_reserve_age_s = none;
  mint_auth_ttl_s = 900;
  bank_check_age_seconds = some 5;
  sign = λ payload. record { key_id = "k1"; value = payload.nonce };
  big_int = λ text. if str_eq text "1.5" then none else some (pos 7);
  date = λ text. if str_eq text "" then none else some 1000000;
}

abbrev pub confirmation : MintConfirmationInput
confirmation = record {
  paychain_transaction_id = "t1";
  blockchain_tx_hash = "0x01";
  amount_minor = pos 500;
  destination = "w1";
  ledger_height = none;
  confirmed_at = "1970-01-01T00:16:40Z";
  paychain_signature = "s1";
  actor = "paychain";
}
