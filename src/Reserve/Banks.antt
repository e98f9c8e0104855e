-- ===== src/Reserve/Banks.antt =====
-- `reconcileBank`, `registerBank` and `setAccountBank` of reserve.service.ts. The cleared balance that a
-- bank reports for an account is a parameter; it is absent for a bank that is not read.
use text.Mathlib.Text.{◌==◌ as str_eq}
use trustee_bank.Prelude.{
  ℕ, suc, ◌-◌, String, Bool, true, false, not, Option, none, some, [], ◌∷◌, ◌==◌, length,
  if◌then◌else◌, or_default, is_absent,
}
use trustee_bank.Prelude.Int.{ℤ, pos, ◌+ℤ◌, ◌-ℤ◌, eqb_ℤ}
use trustee_bank.Money.{CurrencyCode}
use trustee_bank.Result.{not_found, Subject}
use trustee_bank.Ledger.LedgerAccountCode.{asset_trustee_bank_cash}
use trustee_bank.Store.Table.{Table, find_unique, update}
use trustee_bank.Store.Query.{includes}
use trustee_bank.Store.Rows.{TrusteeAccount, BankConnection}
use trustee_bank.Store.Db.{OutboxEvent}
use trustee_bank.Store.Action.{
  Action, pure, reads, asks, lift, or_throw, throw_when, writes, publish, ◌>>=◌, ◌>>◌,
}
use trustee_bank.ReserveLedger.{account_balance}
use trustee_bank.Reserve.Snapshots.{require_program}

unfoldable pub accounts_of : String → Table TrusteeAccount → Table TrusteeAccount
accounts_of program_id [] = []
accounts_of program_id ((id, a) ∷ t) =
    let rest = accounts_of program_id t in
    if str_eq a.program_id program_id then (id, a) ∷ rest else rest

-- The loop over the accounts: the total that the banks report, and the accounts that none covers.
pub record Coverage : Type 0 where
  pub bank_total : ℤ
  pub uncovered : ℕ

abbrev pub cover : Option ℤ → Coverage → Coverage
cover none c = record c { uncovered = suc c.uncovered }
cover (some minor) c = record c { bank_total = c.bank_total +ℤ minor }

unfoldable pub cover_all :
    (String → TrusteeAccount → Option ℤ) → Table TrusteeAccount → Coverage → Coverage
cover_all cleared [] c = c
cover_all cleared ((id, a) ∷ t) c = cover_all cleared t (cover (cleared id a) c)

pub record BankReconciliation : Type 0 where
  pub program_id : String
  pub currency : CurrencyCode
  pub ledger_cash_minor : ℤ
  pub bank_total_minor : ℤ
  pub drift_minor : ℤ
  pub reconciled : Option Bool
  pub accounts_covered : ℕ
  pub accounts_uncovered : ℕ
  pub as_of : ℕ

-- `reconciled === false`
abbrev pub is_refuted : Option Bool → Bool
is_refuted (some false) = true
is_refuted _ = false

-- The list of the single banks and the note for the reader are left out of the view.
unfoldable pub reconcile_bank :
    (String → TrusteeAccount → Option ℤ) → String → Action BankReconciliation
unfolding cover_all accounts_of
reconcile_bank cleared program_id = do
  program ← require_program program_id
  let currency = program.reference_currency
  accounts ← reads (λ db. accounts_of program_id db.trustee_accounts)
  entries ← reads (λ db. db.ledger_entries)
  ledger_cash ← lift (account_balance entries program_id asset_trustee_bank_cash currency)
  let c = cover_all cleared accounts (record { bank_total = pos 0; uncovered = 0 })
  let drift = c.bank_total -ℤ ledger_cash.minor
  let reconciled = if c.uncovered == 0 then some (eqb_ℤ drift (pos 0)) else none
  (if is_refuted reconciled
      then publish (OutboxEvent.bank_ledger_drift program_id ledger_cash.minor c.bank_total drift)
      else pure tt)
  now ← asks (λ env. env.now)
  pure (record {
    program_id = program_id;
    currency = currency;
    ledger_cash_minor = ledger_cash.minor;
    bank_total_minor = c.bank_total;
    drift_minor = drift;
    reconciled = reconciled;
    accounts_covered = length accounts - c.uncovered;
    accounts_uncovered = c.uncovered;
    as_of = now;
  })

pub record RegisterBank : Type 0 where
  pub bank_id : String
  pub bank_legal_name : String
  pub country : Option String
  pub integration_mode : Option String
  pub base_url : Option String
  pub auth_token_env : Option String
  pub actor : String

abbrev pub connected : RegisterBank → String → BankConnection → BankConnection
connected input mode b = record b {
  bank_legal_name = input.bank_legal_name;
  country = input.country;
  integration_mode = mode;
  base_url = input.base_url;
  auth_token_env = input.auth_token_env;
}

abbrev pub new_connection : RegisterBank → String → BankConnection
new_connection input mode = record {
  bank_legal_name = input.bank_legal_name;
  country = input.country;
  integration_mode = mode;
  base_url = input.base_url;
  auth_token_env = input.auth_token_env;
  status = "ACTIVE";
  created_by = some input.actor;
}

-- `upsert` by the bank's identifier, the key of the table.
abbrev pub upsert : RegisterBank → String → Table BankConnection → Table BankConnection
upsert input mode table =
    if is_absent (find_unique input.bank_id table)
    then (input.bank_id, new_connection input mode) ∷ table
    else update input.bank_id (connected input mode) table

unfoldable pub register_bank : RegisterBank → Action (String × String)
register_bank input = do
  let mode = or_default input.integration_mode "MOCK"
  throw_when (not (includes ("MOCK" ∷ "API" ∷ "MANUAL" ∷ "STATEMENT" ∷ []) mode))
      (not_found Subject.bank_connection)
  writes λ db. record db { bank_connections = upsert input mode db.bank_connections }
  pure (input.bank_id, mode)

-- `if (input.bankId)` with its lookup; an empty text is no identifier.
abbrev pub unknown_bank : Option String → Table BankConnection → Bool
unknown_bank none table = false
unknown_bank (some bank_id) table =
    if str_eq bank_id "" then false else is_absent (find_unique bank_id table)

abbrev pub or_some {ℓ} : {A : Type ℓ} → Option A → Option A → Option A
or_some none fallback = fallback
or_some (some a) fallback = some a

abbrev pub banked : Option String → Option ℤ → TrusteeAccount → TrusteeAccount
banked bank_id minor a = record a {
  bank_id = or_some bank_id a.bank_id;
  mock_cleared_minor = or_default minor a.mock_cleared_minor;
}

unfoldable pub set_account_bank :
    String → Option String → Option ℤ → Action (String × TrusteeAccount)
set_account_bank id bank_id minor = do
  found ← reads (λ db. find_unique id db.trustee_accounts)
  a ← or_throw found (not_found Subject.trustee_account)
  unknown ← reads (λ db. unknown_bank bank_id db.bank_connections)
  throw_when unknown (not_found Subject.bank_connection)
  writes λ db. record db { trustee_accounts = update id (banked bank_id minor) db.trustee_accounts }
  pure (id, banked bank_id minor a)
