-- ===== src/Reserves/MintGuard/Allowed.antt =====
-- When the guard allows a mint, and that it always decides.
use trustee_bank.Prelude.{
  ℕ, ◌≤◌, ◌≡◌, ◌↔◌, true, false, not, Option, none, some, List, [], ◌∷◌, refl, arith, if◌then◌else◌,
}
use trustee_bank.Prelude.Int.{pos, ◌<ℤ◌, ◌≤ℤ◌, ltb_ℤ}
use trustee_bank.Prelude.Text.{same_text, same_text_iff}
use trustee_bank.Money.{Money, is_positive, gte}
use trustee_bank.Result.{ok, MintBlockReason}
use trustee_bank.Reserves.Calculation.{mint_capacity}
use trustee_bank.Reserves.MintGuard.{
  MintGuardFacts, MintGuardDecision, push_if, is_empty, amount_reasons, proof_expired,
  block_reasons, evaluate_mint_guard,
}

-- The proof of reserve is young enough, or none is asked for.
abbrev pub ProofFresh : Option ℕ → Option ℕ → Type 0
ProofFresh none age = Unit
ProofFresh (some limit) none = ⊥
ProofFresh (some limit) (some age) = age ≤ limit

-- The preconditions of a mint, read as statements about the facts.
pub record IsClear (facts : MintGuardFacts) (capacity : Money) : Type 0 where
  pub enabled : facts.mint_feature_enabled ≡ true
  pub positive : pos 0 <ℤ facts.requested.minor
  pub same_currency : facts.requested.currency ≡ capacity.currency
  pub covered : facts.requested.minor ≤ℤ capacity.minor
  pub reserve_fresh : facts.reserve_snapshot_age_seconds ≤ facts.max_reserve_snapshot_age_seconds
  pub bank_fresh : facts.bank_connectivity_age_seconds ≤ facts.max_bank_connectivity_age_seconds
  pub feed_fresh : facts.liability_feed_age_seconds ≤ facts.max_liability_feed_age_seconds
  pub proof_fresh :
      ProofFresh facts.max_proof_of_reserve_age_seconds facts.proof_of_reserve_age_seconds
  pub reconciled : facts.has_unresolved_reconciliation ≡ false
  pub no_hold : facts.compliance_hold_active ≡ false
  pub asset_active : facts.asset_minting_suspended ≡ false
  pub program_active : facts.program_suspended ≡ false
  pub account_open : facts.account_restricted ≡ false
  pub deposits_cleared : facts.funding_deposits_cleared ≡ true
  pub approved : facts.maker_checker_complete ≡ true

-- The reasons that the amount gives, as a total function.
findings : Money → Money → List MintBlockReason
findings requested capacity =
    if not (is_positive requested)
    then MintBlockReason.non_positive_amount ∷ []
    else if not (same_text requested.currency capacity.currency)
    then MintBlockReason.currency_mismatch ∷ []
    else push_if (ltb_ℤ capacity.minor requested.minor) MintBlockReason.insufficient_capacity

amount_reasons-findings :
    (requested capacity : Money)
    → amount_reasons requested capacity ≡ ok (findings requested capacity)
unfolding amount_reasons findings gte
amount_reasons-findings requested capacity = ground (
  arith,
  same_text_iff requested.currency capacity.currency,
  same_text_iff capacity.currency requested.currency,
)

findings-nil_iff :
    (requested capacity : Money)
    → (is_empty (findings requested capacity) ≡ true) ↔ (
        (pos 0 <ℤ requested.minor)
        × (requested.currency ≡ capacity.currency)
        × (requested.minor ≤ℤ capacity.minor))
unfolding findings is_positive
findings-nil_iff requested capacity =
    ground (arith, same_text_iff requested.currency capacity.currency)

proof_expired-false_iff :
    (limit age : Option ℕ) → (proof_expired limit age ≡ false) ↔ ProofFresh limit age
unfolding proof_expired
proof_expired-false_iff none age = ground arith
proof_expired-false_iff (some limit) none = ground arith
proof_expired-false_iff (some limit) (some age) = ground arith

module _ (facts : MintGuardFacts) (capacity : Money) where
  unblocked-IsClear :
      is_empty (block_reasons facts (findings facts.requested capacity)) ≡ true
      → IsClear facts capacity
  unfolding block_reasons
  unblocked-IsClear h = ground (
    arith,
    findings-nil_iff facts.requested capacity,
    proof_expired-false_iff facts.max_proof_of_reserve_age_seconds
        facts.proof_of_reserve_age_seconds,
  )

  IsClear-unblocked :
      IsClear facts capacity
      → is_empty (block_reasons facts (findings facts.requested capacity)) ≡ true
  unfolding block_reasons
  IsClear-unblocked h = ground (
    arith,
    findings-nil_iff facts.requested capacity,
    proof_expired-false_iff facts.max_proof_of_reserve_age_seconds
        facts.proof_of_reserve_age_seconds,
  )

-- Whenever the capacity can be computed the guard decides, and it allows the mint exactly when every
-- precondition holds; the decision carries that capacity.
pub guard_decides :
    (facts : MintGuardFacts) {capacity : Money}
    → mint_capacity facts.capacity_input ≡ ok capacity
    → (decision : MintGuardDecision) × (evaluate_mint_guard facts ≡ ok decision)
      × (decision.capacity ≡ capacity)
      × ((decision.allowed ≡ true) ↔ IsClear facts capacity)
unfolding evaluate_mint_guard
guard_decides facts {capacity} h =
    let reasons = block_reasons facts (findings facts.requested capacity) in
    (
      record { allowed = is_empty reasons; reasons = reasons; capacity = capacity },
      rw (h, amount_reasons-findings facts.requested capacity),
      refl,
      (unblocked-IsClear facts capacity, IsClear-unblocked facts capacity),
    )
