-- ===== src/Ledger/Journal/Build.antt =====
-- What `buildJournalEntry` accepts, and the entry that it returns.
use trustee_bank.Prelude.{
  ◌≡◌, ◌↔◌, ◌⊎◌, refl, sym, ap, ◌∙◌, inl, inr, Bool-cases, none, List, [], ◌∷◌, ◌≤◌, length, ltb,
  All, arith,
}
use trustee_bank.Prelude.Int.{
  ℤ, pos, ◌+ℤ◌, ◌<ℤ◌, -ℤ_parts, eq_of_parts, +ℤ_zero_left, +ℤ_zero_right, +ℤ_assoc,
}
use trustee_bank.Prelude.Text.{same_text, same_text_iff, to_upper_case}
use trustee_bank.Money.{Money, CurrencyCode, zero, add, is_zero, is_negative, is_positive}
use trustee_bank.Money.Laws.{of, add_same, add_mixed, subtract_same}
use trustee_bank.Result.{ok, invalid_posting, throw_if, >>=-eq-ok}
use trustee_bank.Ledger.Accounts.{LedgerAccountType, ledger_account_type_of}
use trustee_bank.Ledger.Journal.{
  Posting, JournalEntryInput, JournalEntry, assert_posting_well_formed, add_postings,
  build_journal_entry,
}

-- One side is positive and the other zero, both in the journal's currency, on a known account.
pub record IsWellFormed (c : CurrencyCode) (p : Posting) : Type 0 where
  pub debit_currency : p.debit.currency ≡ c
  pub credit_currency : p.credit.currency ≡ c
  pub one_sided :
      ((pos 0 <ℤ p.debit.minor) × (p.credit.minor ≡ pos 0))
      ⊎ ((p.debit.minor ≡ pos 0) × (pos 0 <ℤ p.credit.minor))
  pub known : (t : LedgerAccountType) × (ledger_account_type_of p.account ≡ ok t)

unfoldable pub debits : List Posting → ℤ
debits [] = pos 0
debits (p ∷ ps) = p.debit.minor +ℤ debits ps

unfoldable pub credits : List Posting → ℤ
credits [] = pos 0
credits (p ∷ ps) = p.credit.minor +ℤ credits ps

-- The condition that `buildJournalEntry` checks, as a statement about the input.
pub record IsPostable (input : JournalEntryInput) : Type 0 where
  pub enough : 2 ≤ length input.postings
  pub upper_case : to_upper_case input.currency ≡ input.currency
  pub well_formed : All (IsWellFormed input.currency) input.postings
  pub balanced : debits input.postings ≡ credits input.postings

abbrev pub posted : JournalEntryInput → JournalEntry
posted input = record {
  input = input;
  total_debit = of (debits input.postings) input.currency;
  total_credit = of (credits input.postings) input.currency;
  reversal_of = none;
}

module _ (p : Posting) (c : CurrencyCode) where
  pub assert-IsWellFormed : assert_posting_well_formed p c ≡ ok tt → IsWellFormed c p
  unfolding assert_posting_well_formed is_zero is_negative is_positive
  assert-IsWellFormed h = record {
    debit_currency = ground (arith, same_text_iff p.debit.currency c);
    credit_currency = ground (arith, same_text_iff p.credit.currency c);
    one_sided = ground arith;
    known = ground arith;
  }

  pub IsWellFormed-assert : IsWellFormed c p → assert_posting_well_formed p c ≡ ok tt
  unfolding assert_posting_well_formed is_zero is_negative is_positive
  IsWellFormed-assert h =
      ground (arith, same_text_iff p.debit.currency c, same_text_iff p.credit.currency c)

-- Over well-formed postings the loop adds up both sides.
pub add_postings-sums :
    (c : CurrencyCode) (ps : List Posting) (d e : ℤ)
    → All (IsWellFormed c) ps
    → add_postings c ps (of d c) (of e c) ≡ ok (of (d +ℤ debits ps) c, of (e +ℤ credits ps) c)
unfolding add_postings debits credits
add_postings-sums c [] d e h = simp +ℤ_zero_right
add_postings-sums c (p ∷ ps) d e (w, ws) =
    rw
      (
        IsWellFormed-assert p c w,
        add_same (of d c) p.debit (sym w.debit_currency),
        add_same (of e c) p.credit (sym w.credit_currency),
      )
      (add_postings-sums c ps (d +ℤ p.debit.minor) (e +ℤ p.credit.minor) ws ∙ simp +ℤ_assoc)

add_postings-All :
    (c : CurrencyCode) (ps : List Posting) (d e : Money) {r : Money × Money}
    → add_postings c ps d e ≡ ok r
    → All (IsWellFormed c) ps
unfolding add_postings
add_postings-All c [] d e h = tt
add_postings-All c (p ∷ ps) d e h =
    let (u, checked, h₁) = >>=-eq-ok (assert_posting_well_formed p c) _ h in
    let (d', added, h₂) = >>=-eq-ok (add d p.debit) _ h₁ in
    let (e', added', h₃) = >>=-eq-ok (add e p.credit) _ h₂ in
    (assert-IsWellFormed p c checked, add_postings-All c ps d' e' h₃)

-- The first posting of an accepted list is added to a total in its own currency.
add_postings-currency :
    (c : CurrencyCode) (ps : List Posting) (d e : Money) {r : Money × Money}
    → add_postings c ps d e ≡ ok r
    → 2 ≤ length ps
    → d.currency ≡ c
unfolding add_postings
add_postings-currency c [] d e h l = absurd (omega arith)
add_postings-currency c (p ∷ ps) d e h l =
    let (u, checked, h₁) = >>=-eq-ok (assert_posting_well_formed p c) _ h in
    let w = assert-IsWellFormed p c checked in
    elim (Bool-cases (same_text d.currency p.debit.currency)) [
      | inl same ↦ (same_text_iff d.currency p.debit.currency).0 same ∙ w.debit_currency
      | inr differ ↦ cc (
        h₁,
        add_mixed d p.debit (λ q. cc ((same_text_iff d.currency p.debit.currency).1 q, differ)),
      )
    ]

add_postings-zero :
    (c : CurrencyCode) (ps : List Posting)
    → to_upper_case c ≡ c
    → All (IsWellFormed c) ps
    → add_postings c ps (zero c) (zero c) ≡ ok (of (debits ps) c, of (credits ps) c)
unfolding zero
add_postings-zero c ps upper h =
    rw upper (add_postings-sums c ps (pos 0) (pos 0) h ∙ simp +ℤ_zero_left)

-- A postable input is accepted, and both totals of the entry are the sums of its sides.
pub build_posted :
    (input : JournalEntryInput) → IsPostable input → build_journal_entry input ≡ ok (posted input)
unfolding build_journal_entry is_zero
build_posted input h =
    let c = input.currency in
    let ps = input.postings in
    ground (
      arith,
      add_postings-zero c ps h.upper_case h.well_formed,
      subtract_same (of (debits ps) c) (of (credits ps) c) refl,
      -ℤ_parts (debits ps) (credits ps),
    )

-- What is accepted was postable.
pub build-IsPostable :
    (input : JournalEntryInput) {entry : JournalEntry}
    → build_journal_entry input ≡ ok entry
    → IsPostable input
unfolding build_journal_entry is_zero zero
build-IsPostable input {entry} h =
    let c = input.currency in
    let ps = input.postings in
    let (u, enough, h₁) = >>=-eq-ok (throw_if (ltb (length ps) 2) invalid_posting) _ h in
    let (totals, summed, h₂) = >>=-eq-ok (add_postings c ps (zero c) (zero c)) _ h₁ in
    let long : 2 ≤ length ps = ground arith in
    let upper : to_upper_case c ≡ c = add_postings-currency c ps (zero c) (zero c) summed long in
    let w = add_postings-All c ps (zero c) (zero c) summed in
    record {
      enough = long;
      upper_case = upper;
      well_formed = w;
      balanced = ground (
        arith,
        add_postings-zero c ps upper w,
        subtract_same (of (debits ps) c) (of (credits ps) c) refl,
        -ℤ_parts (debits ps) (credits ps),
        eq_of_parts (debits ps) (credits ps),
      );
    }

-- `buildJournalEntry` returns an entry exactly for the inputs that satisfy `IsPostable`, and the
-- entry is the input with the sums of its two sides, marked as no reversal.
pub build-eq-ok_iff :
    (input : JournalEntryInput) (entry : JournalEntry)
    → (build_journal_entry input ≡ ok entry) ↔ (IsPostable input × (entry ≡ posted input))
build-eq-ok_iff input entry = (
  λ h. let p = build-IsPostable input h in (p, cc (build_posted input p, h)),
  λ h. build_posted input h.0 ∙ ap ok (sym h.1),
)
