-- ===== src/Ledger/Entries/Transfer.antt =====
-- What a template's entry does to each account.
use text.Mathlib.Text.{◌==◌ as str_eq}
use trustee_bank.Prelude.{
  String, ◌≡◌, refl, true, false, Bool, [], ◌∷◌, inl, inr, arith, if◌then◌else◌,
}
use trustee_bank.Prelude.Int.{ℤ, pos, ◌+ℤ◌, ◌<ℤ◌, ◌≤ℤ◌, neg, int_laws, +ℤ_zero_right}
use trustee_bank.Prelude.Text.{to_upper_case}
use trustee_bank.Money.{Money, zero, is_zero, is_negative, is_positive}
use trustee_bank.Result.{ok, err, invalid_posting}
use trustee_bank.Ledger.Accounts.{LedgerAccountType, ledger_account_type_of}
use trustee_bank.Ledger.Journal.{
  JournalEntryInput, JournalReferences, build_journal_entry, assert_posting_well_formed,
  add_postings,
}
use trustee_bank.Ledger.Journal.Build.{IsPostable, debits, credits}
use trustee_bank.Ledger.Journal.Effect.{effect, change}
use trustee_bank.Ledger.Entries.{transfer_entry, debit, credit}

-- The input of a template.
abbrev pub transfer_input : String → String → String → Money → JournalReferences → JournalEntryInput
transfer_input description from to amount references = record {
  currency = amount.currency;
  description = description;
  postings = debit from amount ∷ credit to amount ∷ [];
  references = references;
}

-- An amount that a template accepts: positive, in an upper-case currency.
pub record IsBookable (amount : Money) : Type 0 where
  pub positive : pos 0 <ℤ amount.minor
  pub upper_case : to_upper_case amount.currency ≡ amount.currency

module _ (from to : String) (amount : Money) where
  change-debit :
      (d : Bool) → change d (debit from amount) ≡ (if d then amount.minor else neg amount.minor)
  unfolding zero
  change-debit true = omega int_laws
  change-debit false = omega int_laws

  change-credit :
      (d : Bool) → change d (credit to amount) ≡ (if d then neg amount.minor else amount.minor)
  unfolding zero
  change-credit true = omega int_laws
  change-credit false = omega int_laws

  -- The effect on an account with a debit or a credit side.
  abbrev pub moved : Bool → String → ℤ
  moved d account =
      (if str_eq from account then (if d then amount.minor else neg amount.minor) else pos 0)
      +ℤ (if str_eq to account then (if d then neg amount.minor else amount.minor) else pos 0)

  pub transfer-effect :
      (d : Bool) (account : String)
      → effect d account (debit from amount ∷ credit to amount ∷ []) ≡ moved d account
  unfolding effect
  transfer-effect d account = rw (change-debit d, change-credit d, +ℤ_zero_right)

module _ (description from to : String) (amount : Money) (references : JournalReferences) where
  pub transfer-IsPostable :
      {s t : LedgerAccountType}
      → IsBookable amount
      → ledger_account_type_of from ≡ ok s
      → ledger_account_type_of to ≡ ok t
      → IsPostable (transfer_input description from to amount references)
  unfolding zero debits credits
  transfer-IsPostable {s} {t} h hs ht = record {
    enough = omega arith;
    upper_case = h.upper_case;
    well_formed = (
      record {
        debit_currency = refl;
        credit_currency = h.upper_case;
        one_sided = inl (h.positive, refl);
        known = (s, hs);
      },
      (
        record {
          debit_currency = h.upper_case;
          credit_currency = refl;
          one_sided = inr (refl, h.positive);
          known = (t, ht);
        },
        tt,
      ),
    );
    balanced = omega int_laws;
  }

  -- An amount of zero or less is refused.
  pub transfer_refuses :
      amount.minor ≤ℤ pos 0
      → transfer_entry description from to amount references ≡ err invalid_posting
  unfolding transfer_entry build_journal_entry add_postings assert_posting_well_formed is_zero
      is_negative is_positive zero
  transfer_refuses h = ground arith
