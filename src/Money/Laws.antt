-- ===== src/Money/Laws.antt =====
-- The laws of the operations on `Money`.
use trustee_bank.Prelude.{
  ◌≡◌, ◌≢◌, ◌↔◌, sym, ap, ◌∙◌, ◌⊎◌, true, List, [], ◌∷◌, All, arith, Bool-cases, inl, inr,
}
use trustee_bank.Prelude.Int.{ℤ, pos, ◌+ℤ◌, ◌-ℤ◌, ◌≤ℤ◌, ◌<ℤ◌, int_laws}
use trustee_bank.Prelude.Text.{same_text, same_text_iff, to_upper_case, to_upper_case_idem}
use trustee_bank.Result.{Error, ok, err}
use trustee_bank.Money
use trustee_bank.Money.{Money, CurrencyCode, at_least}

-- An amount of a currency.
abbrev pub of : ℤ → CurrencyCode → Money
of n c = record { minor = n; currency = c }

-- The sum of the minor units, the currencies aside.
unfoldable pub total : List Money → ℤ
total [] = pos 0
total (m ∷ ms) = m.minor +ℤ total ms

module _ (a b : Money) where
  pub add_same : a.currency ≡ b.currency → Money.add a b ≡ ok (of (a.minor +ℤ b.minor) a.currency)
  unfolding Money.add
  add_same h = ground (arith, same_text_iff a.currency b.currency)

  pub add_mixed : a.currency ≢ b.currency → Money.add a b ≡ err Error.currency_mismatch
  unfolding Money.add
  add_mixed h = ground (arith, same_text_iff a.currency b.currency)

  pub subtract_same :
      a.currency ≡ b.currency → Money.subtract a b ≡ ok (of (a.minor -ℤ b.minor) a.currency)
  unfolding Money.subtract
  subtract_same h = ground (arith, same_text_iff a.currency b.currency)

  pub gte-iff-le : a.currency ≡ b.currency → (Money.gte a b ≡ ok true) ↔ (b.minor ≤ℤ a.minor)
  unfolding Money.gte
  gte-iff-le h = ground (arith, same_text_iff a.currency b.currency)

-- In one currency `sum` adds up; it never depends on which amount comes first.
pub sum_from-total :
    (acc : Money) (ms : List Money)
    → All (λ m. m.currency ≡ acc.currency) ms
    → Money.sum_from acc ms ≡ ok (of (acc.minor +ℤ total ms) acc.currency)
unfolding Money.sum_from total
sum_from-total acc [] h = ap ok (ap (λ n. of n acc.currency) (omega int_laws))
sum_from-total acc (m ∷ ms) (h, hs) = rw (add_same acc m (sym h)) (
    sum_from-total (of (acc.minor +ℤ m.minor) acc.currency) ms hs
    ∙ ap (λ n. ok (of n acc.currency)) (omega int_laws))

sum_from-ok-All :
    (acc : Money) (ms : List Money) {r : Money}
    → Money.sum_from acc ms ≡ ok r
    → All (λ m. m.currency ≡ acc.currency) ms
unfolding Money.sum_from
sum_from-ok-All acc [] h = tt
sum_from-ok-All acc (m ∷ ms) h = elim (Bool-cases (same_text acc.currency m.currency)) [
  | inl yes_same ↦
      let e = (same_text_iff acc.currency m.currency).0 yes_same in
      (
        sym e,
        sum_from-ok-All (of (acc.minor +ℤ m.minor) acc.currency) ms (rw (add_same acc m e) at h),
      )
  | inr differ ↦
      cc (rw (add_mixed acc m (λ e. cc ((same_text_iff acc.currency m.currency).1 e, differ))) at h)
]

-- Summing succeeds exactly when every amount has the first one's currency, and then the result is
-- the total of the minor units in that currency.
pub sum-eq-ok_iff :
    (first : Money) (rest : List Money) (r : Money)
    → (Money.sum (first ∷ rest) ≡ ok r) ↔ (
        All (λ m. m.currency ≡ first.currency) rest
        × (r ≡ of (total (first ∷ rest)) first.currency))
unfolding Money.sum total
sum-eq-ok_iff first rest r = (
  λ h. let same = sum_from-ok-All first rest h in (same, cc (sum_from-total first rest same, h)),
  λ h. sum_from-total first rest h.0 ∙ ap ok (sym h.1),
)

-- Of two amounts in one currency `max` and `min` return one each, the larger and the smaller.
max-min :
    (a b : Money)
    → a.currency ≡ b.currency
    → ((Money.max a b ≡ ok a) × (Money.min a b ≡ ok b) × (b.minor ≤ℤ a.minor))
      ⊎ ((Money.max a b ≡ ok b) × (Money.min a b ≡ ok a) × (a.minor <ℤ b.minor))
unfolding Money.max Money.min
max-min a b h = ground (arith, same_text_iff a.currency b.currency)

-- What `money` and `zero` build has an upper-case currency, so both agree on any spelling.
pub money-currency :
    (n : ℤ) (c : CurrencyCode) → to_upper_case (Money.money n c).currency ≡ (Money.zero c).currency
unfolding Money.money Money.zero
money-currency n c = to_upper_case_idem c
