-- ===== src/Ledger/Journal/Reverse.antt =====
-- Reversals: the compensating entry that undoes a posted one.
use trustee_bank.Prelude.{
  String, ◌≡◌, refl, sym, ap, ◌∙◌, some, inl, inr, List, [], ◌∷◌, map, length-map, All,
}
use trustee_bank.Prelude.Int.{◌+ℤ◌}
use trustee_bank.Money.{Money, CurrencyCode, negate}
use trustee_bank.Money.Laws.{of}
use trustee_bank.Result.{ok, >>=-eq-ok}
use trustee_bank.Ledger.Accounts.{LedgerAccountType, ledger_account_type_of, debit_positive}
use trustee_bank.Ledger.Journal.{
  Posting, JournalEntry, JournalEntryInput, swap, reversal_input, build_journal_entry, reverse,
  account_effect,
}
use trustee_bank.Ledger.Journal.Build.{
  IsWellFormed, IsPostable, posted, debits, credits, build_posted, build-eq-ok_iff,
}
use trustee_bank.Ledger.Journal.Effect.{effect, effect-swap, account_effect-posted}

debits-swap : (ps : List Posting) → debits (map swap ps) ≡ credits ps
unfolding debits credits
debits-swap [] = refl
debits-swap (p ∷ ps) = ap (λ n. p.credit.minor +ℤ n) (debits-swap ps)

credits-swap : (ps : List Posting) → credits (map swap ps) ≡ debits ps
unfolding debits credits
credits-swap [] = refl
credits-swap (p ∷ ps) = ap (λ n. p.debit.minor +ℤ n) (credits-swap ps)

swap-IsWellFormed : {c : CurrencyCode} {p : Posting} → IsWellFormed c p → IsWellFormed c (swap p)
swap-IsWellFormed w = record {
  debit_currency = w.credit_currency;
  credit_currency = w.debit_currency;
  one_sided = elim w.one_sided [ inl d ↦ inr (d.1, d.0) | inr c ↦ inl (c.1, c.0) ];
  known = w.known;
}

All-swap :
    (c : CurrencyCode) (ps : List Posting)
    → All (IsWellFormed c) ps
    → All (IsWellFormed c) (map swap ps)
All-swap c [] h = tt
All-swap c (p ∷ ps) (w, ws) = (swap-IsWellFormed w, All-swap c ps ws)

pub known_of_effect :
    (entry : JournalEntry) (account : String) {m : Money}
    → account_effect entry account ≡ ok m
    → (t : LedgerAccountType) × (ledger_account_type_of account ≡ ok t)
unfolding account_effect
known_of_effect entry account h =
    let (t, known, _) = >>=-eq-ok (ledger_account_type_of account) _ h in (t, known)

module _ (input : JournalEntryInput) (reversal_ref actor reason : String) where
  -- What `reverse` makes of a posted entry.
  abbrev pub reversed : JournalEntry
  reversed = record (posted (reversal_input (posted input) reversal_ref actor reason)) {
    reversal_of = some input.references.source;
  }

  reversal_input-IsPostable :
      IsPostable input → IsPostable (reversal_input (posted input) reversal_ref actor reason)
  unfolding reversal_input
  reversal_input-IsPostable h = record {
    enough = rw length-map h.enough;
    upper_case = h.upper_case;
    well_formed = All-swap input.currency input.postings h.well_formed;
    balanced = debits-swap input.postings ∙ sym h.balanced ∙ sym (credits-swap input.postings);
  }

  pub reverse-posted :
      IsPostable input → reverse (posted input) reversal_ref actor reason ≡ ok reversed
  unfolding reverse
  reverse-posted h = rw (build_posted _ (reversal_input-IsPostable h))

  account_effect-reversed :
      (account : String) {t : LedgerAccountType}
      → IsPostable input
      → ledger_account_type_of account ≡ ok t
      → account_effect reversed account
        ≡ ok (negate (of (effect (debit_positive t) account input.postings) input.currency))
  unfolding account_effect negate reversal_input
  account_effect-reversed account {t} h known =
      account_effect-posted (reversal_input (posted input) reversal_ref actor reason) account
        (reversal_input-IsPostable h) known
      ∙ ap (λ n. ok (of n input.currency)) (effect-swap (debit_positive t) account input.postings)

  -- Reversing an entry that was built succeeds, refers to the source of the entry, and changes every
  -- account of known type by the negated amount.
  pub reverse_undoes :
      (entry : JournalEntry) (account : String) {m : Money}
      → build_journal_entry input ≡ ok entry
      → account_effect entry account ≡ ok m
      → (reverse entry reversal_ref actor reason ≡ ok reversed)
        × (reversed.reversal_of ≡ some entry.references.source)
        × (account_effect reversed account ≡ ok (negate m))
  reverse_undoes entry account {m} built effected =
      let (postable, same) = (build-eq-ok_iff input entry).0 built in
      let (t, known) = known_of_effect entry account effected in
      rw same (
        reverse-posted postable,
        refl,
        cc (
          same,
          effected,
          account_effect-reversed account postable known,
          account_effect-posted input account postable known,
        ),
      )
