-- ===== src/Ledger/Journal/Effect.antt =====
-- What an entry does to the balance of one account: `accountEffect`, and its effect as a plain sum.
use text.Mathlib.Text.{◌==◌ as str_eq}
use trustee_bank.Prelude.{
  String, ◌≡◌, refl, sym, ap, ◌∙◌, Bool, true, false, inl, inr, Bool-cases, List, [], ◌∷◌, map, All,
  if◌then◌else◌,
}
use trustee_bank.Prelude.Int.{
  ℤ, pos, ◌+ℤ◌, ◌-ℤ◌, neg, int_laws, +ℤ_zero_left, +ℤ_zero_right, +ℤ_assoc,
}
use trustee_bank.Money.{CurrencyCode, zero, subtract}
use trustee_bank.Money.Laws.{of, add_same, subtract_same}
use trustee_bank.Result.{ok}
use trustee_bank.Ledger.Accounts.{LedgerAccountType, ledger_account_type_of, debit_positive}
use trustee_bank.Ledger.Journal.{Posting, JournalEntryInput, swap, add_effects, account_effect}
use trustee_bank.Ledger.Journal.Build.{IsWellFormed, IsPostable, posted}

-- One posting's change of an account whose natural balance is a debit, or a credit.
abbrev pub change : Bool → Posting → ℤ
change d p = if d then p.debit.minor -ℤ p.credit.minor else p.credit.minor -ℤ p.debit.minor

-- The change of the account over all postings.
unfoldable pub effect : Bool → String → List Posting → ℤ
effect d account [] = pos 0
effect d account (p ∷ ps) =
    (if str_eq p.account account then change d p else pos 0) +ℤ effect d account ps

delta_of :
    (d : Bool) {c : CurrencyCode} (p : Posting)
    → IsWellFormed c p
    → (if d then subtract p.debit p.credit else subtract p.credit p.debit) ≡ ok (of (change d p) c)
delta_of true p w =
    rw (subtract_same p.debit p.credit (w.debit_currency ∙ sym w.credit_currency))
      (ap (λ c. ok (of (change true p) c)) w.debit_currency)
delta_of false p w =
    rw (subtract_same p.credit p.debit (w.credit_currency ∙ sym w.debit_currency))
      (ap (λ c. ok (of (change false p) c)) w.credit_currency)

add_effects-effect :
    (d : Bool) (account : String) (c : CurrencyCode) (ps : List Posting) (n : ℤ)
    → All (IsWellFormed c) ps
    → add_effects d account ps (of n c) ≡ ok (of (n +ℤ effect d account ps) c)
unfolding add_effects effect
add_effects-effect d account c [] n h = simp +ℤ_zero_right
add_effects-effect d account c (p ∷ ps) n (w, ws) = elim (Bool-cases (str_eq p.account account)) [
  | inl here ↦
      rw (here, delta_of d p w, add_same (of n c) (of (change d p) c) refl)
        (add_effects-effect d account c ps (n +ℤ change d p) ws ∙ simp +ℤ_assoc)
  | inr other ↦ rw (other, +ℤ_zero_left) (add_effects-effect d account c ps n ws)
]

-- On a posted entry and a known account `accountEffect` is the plain sum.
pub account_effect-posted :
    (input : JournalEntryInput) (account : String) {t : LedgerAccountType}
    → IsPostable input
    → ledger_account_type_of account ≡ ok t
    → account_effect (posted input) account
      ≡ ok (of (effect (debit_positive t) account input.postings) input.currency)
unfolding account_effect zero
account_effect-posted input account {t} h known =
    let d = debit_positive t in
    rw (known, h.upper_case)
      (add_effects-effect d account input.currency input.postings (pos 0) h.well_formed
        ∙ simp +ℤ_zero_left)

change-swap : (d : Bool) (p : Posting) → change d (swap p) ≡ neg (change d p)
change-swap true p = omega int_laws
change-swap false p = omega int_laws

neg_sum : {a : ℤ} (b c : ℤ) → a ≡ neg b → a +ℤ neg c ≡ neg (b +ℤ c)
neg_sum b c h = rw h (omega int_laws)

-- The two natural sides see opposite changes.
pub effect-swap :
    (d : Bool) (account : String) (ps : List Posting)
    → effect d account (map swap ps) ≡ neg (effect d account ps)
unfolding effect
effect-swap d account [] = omega int_laws
effect-swap d account (p ∷ ps) =
    rw (effect-swap d account ps) (elim (Bool-cases (str_eq p.account account)) [
      | inl here ↦ rw here (neg_sum (change d p) (effect d account ps) (change-swap d p))
      | inr other ↦ rw other (neg_sum (pos 0) (effect d account ps) (omega int_laws))
    ])
