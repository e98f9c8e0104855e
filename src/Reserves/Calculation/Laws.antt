-- ===== src/Reserves/Calculation/Laws.antt =====
-- What the reserve calculation computes when its amounts share one currency.
use trustee_bank.Prelude.{
  ◌≡◌, ◌↔◌, refl, sym, ap, ◌∙◌, true, List, [], ◌∷◌, All, arith, if◌then◌else◌,
}
use trustee_bank.Prelude.Int.{
  ℤ, pos, pos_part, ◌+ℤ◌, ◌-ℤ◌, ◌≤ℤ◌, ◌<ℤ◌, int_laws, parts_apart, -ℤ_parts,
}
use trustee_bank.Prelude.Text.{same_text_iff, to_upper_case}
use trustee_bank.Money.{Money, CurrencyCode, zero, is_negative, gte, max, sum, subtract}
use trustee_bank.Money.Laws.{of, total, subtract_same, gte-iff-le, sum-eq-ok_iff}
use trustee_bank.Result.{ok, ◌>>=◌}
use trustee_bank.Reserves.Calculation.{
  EligibleReserveInput, ReserveObligationInput, MintCapacityInput, eligible_reserve,
  reserve_obligation, mint_capacity,
}

-- An integer, or zero where it is negative.
abbrev pub clamp : ℤ → ℤ
clamp n = pos (pos_part n)

sum_in :
    (first : Money) (rest : List Money)
    → All (λ m. m.currency ≡ first.currency) rest
    → sum (first ∷ rest) ≡ ok (of (total (first ∷ rest)) first.currency)
sum_in first rest h =
    (sum-eq-ok_iff first rest (of (total (first ∷ rest)) first.currency)).1 (h, refl)

-- A difference that is replaced by zero where it is negative, as the three calculations end.
clamped_difference :
    (a b : Money) (c : CurrencyCode)
    → a.currency ≡ c
    → b.currency ≡ c
    → to_upper_case c ≡ c
    → (subtract a b >>= λ r. ok (if is_negative r then zero c else r))
      ≡ ok (of (clamp (a.minor -ℤ b.minor)) c)
unfolding is_negative zero
clamped_difference a b c ha hb upper =
    rw (subtract_same a b (ha ∙ sym hb)) (ground (arith, -ℤ_parts a.minor b.minor))

max-zero :
    (a : Money) (c : CurrencyCode)
    → a.currency ≡ c
    → to_upper_case c ≡ c
    → max a (zero c) ≡ ok (of (clamp a.minor) c)
unfolding max zero
max-zero a c ha upper = ground (arith, same_text_iff a.currency (to_upper_case c))

-- Every amount of the input is in the input's currency, which is in upper case.
pub record InOneCurrency (input : EligibleReserveInput) : Type 0 where
  pub upper_case : to_upper_case input.currency ≡ input.currency
  pub cleared : input.cleared_bank_balance.currency ≡ input.currency
  pub restricted : input.restricted_funds.currency ≡ input.currency
  pub unmatched : input.unmatched_funds.currency ≡ input.currency
  pub payouts : input.pending_outgoing_payouts.currency ≡ input.currency
  pub charges : input.bank_charges_due.currency ≡ input.currency
  pub holds : input.regulatory_holds.currency ≡ input.currency
  pub operational : input.operational_funds.currency ≡ input.currency
  pub other : input.other_ineligible_amounts.currency ≡ input.currency

abbrev pub deductions : EligibleReserveInput → ℤ
deductions input =
    input.restricted_funds.minor +ℤ input.unmatched_funds.minor
    +ℤ input.pending_outgoing_payouts.minor +ℤ input.bank_charges_due.minor
    +ℤ input.regulatory_holds.minor +ℤ input.operational_funds.minor
    +ℤ input.other_ineligible_amounts.minor

-- In one currency the eligible reserve is the cleared balance less every deduction, and zero where
-- the deductions are larger.
pub eligible_reserve-eq_clamp :
    (input : EligibleReserveInput)
    → InOneCurrency input
    → eligible_reserve input
      ≡ ok (of (clamp (input.cleared_bank_balance.minor -ℤ deductions input)) input.currency)
unfolding eligible_reserve total
eligible_reserve-eq_clamp input h =
    rw
      (sum_in input.restricted_funds
        (input.unmatched_funds ∷ input.pending_outgoing_payouts ∷ input.bank_charges_due
          ∷ input.regulatory_holds ∷ input.operational_funds ∷ input.other_ineligible_amounts ∷ [])
        (
          h.unmatched ∙ sym h.restricted,
          (
            h.payouts ∙ sym h.restricted,
            (
              h.charges ∙ sym h.restricted,
              (
                h.holds ∙ sym h.restricted,
                (h.operational ∙ sym h.restricted, (h.other ∙ sym h.restricted, tt)),
              ),
            ),
          ),
        ))
      (clamped_difference input.cleared_bank_balance _ input.currency h.cleared h.restricted
          h.upper_case
        ∙ ap (λ n. ok (of (clamp (input.cleared_bank_balance.minor -ℤ n)) input.currency))
            (omega int_laws))

pub record MintCapacityInOneCurrency (input : MintCapacityInput) : Type 0 where
  pub upper_case : to_upper_case input.currency ≡ input.currency
  pub eligible : input.eligible_reserve.currency ≡ input.currency
  pub obligation : input.existing_reserve_obligation.currency ≡ input.currency
  pub buffer : input.required_safety_buffer.currency ≡ input.currency
  pub pending : input.pending_mint_authorizations.currency ≡ input.currency

abbrev pub committed : MintCapacityInput → ℤ
committed input =
    input.existing_reserve_obligation.minor +ℤ input.required_safety_buffer.minor
    +ℤ input.pending_mint_authorizations.minor

pub mint_capacity-eq_clamp :
    (input : MintCapacityInput)
    → MintCapacityInOneCurrency input
    → mint_capacity input
      ≡ ok (of (clamp (input.eligible_reserve.minor -ℤ committed input)) input.currency)
unfolding mint_capacity total
mint_capacity-eq_clamp input h =
    let result = of (input.eligible_reserve.minor -ℤ committed input) input.currency in
    rw
      (
        sum_in input.existing_reserve_obligation
            (input.required_safety_buffer ∷ input.pending_mint_authorizations ∷ [])
            (h.buffer ∙ sym h.obligation, (h.pending ∙ sym h.obligation, tt)),
        subtract_same input.eligible_reserve (of _ input.existing_reserve_obligation.currency)
            (h.eligible ∙ sym h.obligation),
      )
      (max-zero (of _ input.eligible_reserve.currency) input.currency h.eligible h.upper_case
        ∙ ap (λ n. ok (of (clamp (input.eligible_reserve.minor -ℤ n)) input.currency))
            {y = committed input} (omega int_laws))

pub clamp_covers :
    (eligible used n : ℤ) → pos 0 <ℤ n → (used +ℤ n ≤ℤ eligible) ↔ (n ≤ℤ clamp (eligible -ℤ used))
clamp_covers eligible used n positive = (
  λ le. omega (int_laws, parts_apart (eligible -ℤ used)),
  λ le. omega (int_laws, parts_apart (eligible -ℤ used)),
)

-- In one currency, the capacity covers a positive request exactly when the eligible reserve holds the
-- existing obligation, the safety buffer, the pending authorizations and the request together.
pub mint_capacity_exact :
    (input : MintCapacityInput) (requested : Money)
    → MintCapacityInOneCurrency input
    → requested.currency ≡ input.currency
    → pos 0 <ℤ requested.minor
    → ((mint_capacity input >>= λ capacity. gte capacity requested) ≡ ok true)
      ↔ (committed input +ℤ requested.minor ≤ℤ input.eligible_reserve.minor)
mint_capacity_exact input requested h same positive =
    let capacity = of (clamp (input.eligible_reserve.minor -ℤ committed input)) input.currency in
    let covers = gte-iff-le capacity requested (sym same) in
    let fits =
      clamp_covers input.eligible_reserve.minor (committed input) requested.minor positive in
    rw (mint_capacity-eq_clamp input h) (λ e. fits.1 (covers.0 e), λ le. covers.1 (fits.0 le))

pub record ObligationInOneCurrency (input : ReserveObligationInput) : Type 0 where
  pub upper_case : to_upper_case input.currency ≡ input.currency
  pub circulating : input.circulating_supply.currency ≡ input.currency
  pub redemptions : input.confirmed_redemption_obligations.currency ≡ input.currency
  pub other : input.other_contractual_liabilities.currency ≡ input.currency
  pub exclusions : input.legally_approved_exclusions.currency ≡ input.currency

abbrev pub gross : ReserveObligationInput → ℤ
gross input =
    input.circulating_supply.minor +ℤ input.confirmed_redemption_obligations.minor
    +ℤ input.other_contractual_liabilities.minor

pub reserve_obligation-eq_clamp :
    (input : ReserveObligationInput)
    → ObligationInOneCurrency input
    → reserve_obligation input
      ≡ ok (of (clamp (gross input -ℤ input.legally_approved_exclusions.minor)) input.currency)
unfolding reserve_obligation total
reserve_obligation-eq_clamp input h =
    rw
      (
        sum_in input.circulating_supply
            (input.confirmed_redemption_obligations ∷ input.other_contractual_liabilities ∷ [])
            (h.redemptions ∙ sym h.circulating, (h.other ∙ sym h.circulating, tt)),
        clamped_difference (of _ input.circulating_supply.currency)
            input.legally_approved_exclusions input.currency h.circulating h.exclusions
            h.upper_case,
      )
      (ap (λ n. ok (of (clamp (n -ℤ input.legally_approved_exclusions.minor)) input.currency))
        (omega int_laws))
