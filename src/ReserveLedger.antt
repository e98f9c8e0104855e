-- ===== src/ReserveLedger.antt =====
-- apps/trustee-api/src/modules/reserve/reserve-ledger.service.ts: journals in the database, and the
-- balances that are derived from them.
pub mod Balance
pub mod Tracking
use text.Mathlib.Text.{◌==◌ as str_eq}
use trustee_bank.Prelude.{String, Bool, ◌&&◌, List, [], ◌∷◌, ◌++◌, map, if◌then◌else◌}
use trustee_bank.Prelude.Int.{ℤ, pos, ◌+ℤ◌, ◌-ℤ◌, eqb_ℤ}
use trustee_bank.Prelude.Text.{same_text}
use trustee_bank.Money.{Money, CurrencyCode, money}
use trustee_bank.Result.{Result, ok, ◌>>=◌}
use trustee_bank.Ledger.Accounts.{ledger_account_type_of, debit_positive}
use trustee_bank.Ledger.Journal.{Posting, JournalEntry}
use trustee_bank.Store.Rows.{LedgerPosting, LedgerEntry}
use trustee_bank.Store.Db.{Db}
use trustee_bank.Store.Action.{Action, writes}

abbrev pub posting_row : Posting → LedgerPosting
posting_row p = record {
  account = p.account;
  debit_minor = p.debit.minor;
  credit_minor = p.credit.minor;
  memo = p.memo;
}

abbrev pub entry_row : JournalEntry → LedgerEntry
entry_row entry = record {
  program_id = entry.references.program_id;
  asset_id = entry.references.asset_id;
  currency = entry.currency;
  description = entry.description;
  source = entry.references.source;
  actor = entry.references.actor;
  approval_ref = entry.references.approval_ref;
  correlation_id = entry.references.correlation_id;
  reversal_of = entry.reversal_of;
  total_debit_minor = entry.total_debit.minor;
  total_credit_minor = entry.total_credit.minor;
  postings = map posting_row entry.postings;
}

unfoldable pub post_entry : JournalEntry → Db → Db
post_entry entry db = record db { ledger_entries = entry_row entry ∷ db.ledger_entries }

-- One transaction creates the entry with its postings.
abbrev pub post : JournalEntry → Action (Unit {0})
post entry = writes (post_entry entry)

-- The postings of one entry on an account.
unfoldable pub postings_on : String → List LedgerPosting → List LedgerPosting
postings_on account [] = []
postings_on account (p ∷ ps) =
    if str_eq p.account account then p ∷ postings_on account ps else postings_on account ps

-- `where: { account, entry: { programId, currency } }`
unfoldable pub find_postings :
    String → String → CurrencyCode → List LedgerEntry → List LedgerPosting
unfolding postings_on
find_postings program_id account currency [] = []
find_postings program_id account currency (e ∷ es) =
    let rest = find_postings program_id account currency es in
    if str_eq e.program_id program_id && same_text e.currency currency
    then postings_on account e.postings ++ rest
    else rest

-- The loop over the rows, on the running net.
unfoldable pub net_from : Bool → ℤ → List LedgerPosting → ℤ
net_from debits net [] = net
net_from debits net (r ∷ rs) =
    net_from debits
      (net +ℤ (if debits then r.debit_minor -ℤ r.credit_minor else r.credit_minor -ℤ r.debit_minor))
      rs

unfoldable pub account_balance : List LedgerEntry → String → String → CurrencyCode → Result Money
account_balance entries program_id account currency = do
  type ← ledger_account_type_of account
  ok (
      money
        (net_from (debit_positive type) (pos 0) (find_postings program_id account currency entries))
        currency)

-- `where: { entry: { programId } }`
unfoldable pub program_postings : String → List LedgerEntry → List LedgerPosting
program_postings program_id [] = []
program_postings program_id (e ∷ es) =
    let rest = program_postings program_id es in
    if str_eq e.program_id program_id then e.postings ++ rest else rest

pub record SubledgerBalance : Type 0 where
  pub balanced : Bool
  pub net : ℤ

unfoldable pub subledger_balances : List LedgerEntry → String → SubledgerBalance
subledger_balances entries program_id =
    let net = net_from Bool.true (pos 0) (program_postings program_id entries) in
    record { balanced = eqb_ℤ net (pos 0); net = net }
