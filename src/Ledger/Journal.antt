-- ===== src/Ledger/Journal.antt =====
-- packages/ledger/src/journal.ts: building, reversing and reading journal entries.
pub mod Build
pub mod Effect
pub mod Reverse
use Prim.Native.String.{◌++◌ as concat}
use text.Mathlib.Text.{◌==◌ as str_eq}
use trustee_bank.Prelude.{
  String, Bool, not, ◌&&◌, ◌||◌, Option, none, some, List, [], ◌∷◌, map, length, ltb, if◌then◌else◌,
}
use trustee_bank.Prelude.Text.{same_text}
use trustee_bank.Money.{Money, CurrencyCode, zero, add, subtract, is_zero, is_negative, is_positive}
use trustee_bank.Result.{
  Result, ok, err, invalid_posting, unbalanced_journal, ◌>>=◌, ◌>>◌, throw_if,
}
use trustee_bank.Ledger.Accounts.{ledger_account_type_of, debit_positive}

pub record Posting : Type 0 where
  pub account : String
  pub debit : Money
  pub credit : Money
  pub memo : Option String

pub record JournalReferences : Type 0 where
  pub source : String
  pub program_id : String
  pub asset_id : String
  pub actor : String
  pub approval_ref : Option String
  pub correlation_id : Option String

pub record JournalEntryInput : Type 0 where
  pub currency : CurrencyCode
  pub description : String
  pub postings : List Posting
  pub references : JournalReferences

pub record JournalEntry : Type 0 where
  pub input : JournalEntryInput
  pub open input use *
  pub total_debit : Money
  pub total_credit : Money
  pub reversal_of : Option String

unfoldable pub assert_posting_well_formed : Posting → CurrencyCode → Result (Unit {0})
assert_posting_well_formed p currency = do
  throw_if (not (same_text p.debit.currency currency) || not (same_text p.credit.currency currency))
      invalid_posting
  throw_if (is_negative p.debit || is_negative p.credit) invalid_posting
  throw_if (is_positive p.debit && is_positive p.credit) invalid_posting
  throw_if (is_zero p.debit && is_zero p.credit) invalid_posting
  known ← ledger_account_type_of p.account
  ok tt

-- The loop of `buildJournalEntry` over the postings, on the two running totals.
unfoldable pub add_postings : CurrencyCode → List Posting → Money → Money → Result (Money × Money)
add_postings currency [] total_debit total_credit = ok (total_debit, total_credit)
add_postings currency (p ∷ ps) total_debit total_credit = do
  assert_posting_well_formed p currency
  total_debit' ← add total_debit p.debit
  total_credit' ← add total_credit p.credit
  add_postings currency ps total_debit' total_credit'

unfoldable pub build_journal_entry : JournalEntryInput → Result JournalEntry
build_journal_entry input = do
  throw_if (ltb (length input.postings) 2) invalid_posting
  totals ← add_postings input.currency input.postings (zero input.currency) (zero input.currency)
  difference ← subtract totals.0 totals.1
  throw_if (not (is_zero difference)) unbalanced_journal
  ok (record { input = input; total_debit = totals.0; total_credit = totals.1; reversal_of = none })

abbrev pub swap : Posting → Posting
swap p = record { account = p.account; debit = p.credit; credit = p.debit; memo = p.memo }

-- The input that `reverse` hands to `buildJournalEntry`.
unfoldable pub reversal_input : JournalEntry → String → String → String → JournalEntryInput
reversal_input entry reversal_ref actor reason = record {
  currency = entry.currency;
  description = concat "REVERSAL: " (concat entry.description (concat " — " reason));
  postings = map swap entry.postings;
  references = record entry.references { source = reversal_ref; actor = actor };
}

unfoldable pub reverse : JournalEntry → String → String → String → Result JournalEntry
unfolding reversal_input
reverse entry reversal_ref actor reason = do
  reversed ← build_journal_entry (reversal_input entry reversal_ref actor reason)
  ok (record reversed { reversal_of = some entry.references.source })

-- The loop of `accountEffect` on the running net.
unfoldable pub add_effects : Bool → String → List Posting → Money → Result Money
add_effects debits account [] net = ok net
add_effects debits account (p ∷ ps) net =
    let rest = add_effects debits account ps in
    if str_eq p.account account
    then (do
      delta ← if debits then subtract p.debit p.credit else subtract p.credit p.debit
      net' ← add net delta
      rest net')
    else rest net

unfoldable pub account_effect : JournalEntry → String → Result Money
account_effect entry account = do
  type ← ledger_account_type_of account
  add_effects (debit_positive type) account entry.postings (zero entry.currency)
