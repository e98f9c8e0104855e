-- ===== src/Reserves/MintGuard.antt =====
-- packages/reserves/src/mint-guard.ts: the decision whether a mint may proceed, with every reason
-- that blocks it. Ages are whole seconds.
pub mod Allowed
use trustee_bank.Prelude.{
  ℕ, Bool, true, false, not, ◌||◌, Option, none, some, List, [], ◌∷◌, ◌++◌, ltb, if◌then◌else◌,
}
use trustee_bank.Prelude.Text.{same_text}
use trustee_bank.Money.{Money, is_positive, gte}
use trustee_bank.Result.{
  Result, ok, ◌>>=◌, MintBlockReason, insufficient_capacity, reserve_data_stale,
  bank_connectivity_unavailable, reconciliation_unresolved, compliance_hold,
  asset_minting_suspended, program_suspended, account_restricted, deposit_not_cleared,
  approval_incomplete, liability_feed_stale, proof_of_reserve_expired, mint_feature_disabled,
  non_positive_amount,
}
use trustee_bank.Reserves.Calculation.{MintCapacityInput, mint_capacity}

pub record MintGuardFacts : Type 0 where
  pub requested : Money
  pub capacity_input : MintCapacityInput
  pub reserve_snapshot_age_seconds : ℕ
  pub max_reserve_snapshot_age_seconds : ℕ
  pub bank_connectivity_age_seconds : ℕ
  pub max_bank_connectivity_age_seconds : ℕ
  pub liability_feed_age_seconds : ℕ
  pub max_liability_feed_age_seconds : ℕ
  pub proof_of_reserve_age_seconds : Option ℕ
  pub max_proof_of_reserve_age_seconds : Option ℕ
  pub has_unresolved_reconciliation : Bool
  pub compliance_hold_active : Bool
  pub asset_minting_suspended : Bool
  pub program_suspended : Bool
  pub account_restricted : Bool
  pub funding_deposits_cleared : Bool
  pub maker_checker_complete : Bool
  pub mint_feature_enabled : Bool

pub record MintGuardDecision : Type 0 where
  pub allowed : Bool
  pub reasons : List MintBlockReason
  pub capacity : Money

-- `if (b) reasons.push(r)`
abbrev pub push_if : Bool → MintBlockReason → List MintBlockReason
push_if true r = r ∷ []
push_if false r = []

-- `reasons.length === 0`
abbrev pub is_empty : List MintBlockReason → Bool
is_empty [] = true
is_empty (r ∷ rs) = false

-- The chain of tests on the requested amount.
unfoldable pub amount_reasons : Money → Money → Result (List MintBlockReason)
amount_reasons requested capacity =
    if not (is_positive requested)
    then ok (non_positive_amount ∷ [])
    else if not (same_text requested.currency capacity.currency)
    then ok (MintBlockReason.currency_mismatch ∷ [])
    else (gte capacity requested >>= λ covered. ok (push_if (not covered) insufficient_capacity))

-- The proof of reserve is checked only where a maximum age is set.
unfoldable pub proof_expired : Option ℕ → Option ℕ → Bool
proof_expired none age = false
proof_expired (some limit) none = true
proof_expired (some limit) (some age) = ltb limit age

-- The reasons in the order in which the guard tests for them; `amount` is what the request gives.
unfoldable pub block_reasons : MintGuardFacts → List MintBlockReason → List MintBlockReason
unfolding proof_expired
block_reasons facts amount =
    push_if (not facts.mint_feature_enabled) mint_feature_disabled
    ++ (amount
        ++ (push_if (ltb facts.max_reserve_snapshot_age_seconds facts.reserve_snapshot_age_seconds)
              reserve_data_stale
            ++ (push_if
                  (ltb facts.max_bank_connectivity_age_seconds facts.bank_connectivity_age_seconds)
                  bank_connectivity_unavailable
                ++ (push_if
                      (ltb facts.max_liability_feed_age_seconds facts.liability_feed_age_seconds)
                      liability_feed_stale
                    ++ (push_if
                          (proof_expired facts.max_proof_of_reserve_age_seconds
                            facts.proof_of_reserve_age_seconds)
                          proof_of_reserve_expired
                        ++ (push_if facts.has_unresolved_reconciliation reconciliation_unresolved
                            ++ (push_if facts.compliance_hold_active compliance_hold
                                ++ (push_if facts.asset_minting_suspended
                                      MintBlockReason.asset_minting_suspended
                                    ++ (push_if facts.program_suspended
                                          MintBlockReason.program_suspended
                                        ++ (push_if facts.account_restricted
                                              MintBlockReason.account_restricted
                                            ++ (push_if (not facts.funding_deposits_cleared)
                                                  deposit_not_cleared
                                                ++ push_if (not facts.maker_checker_complete)
                                                    approval_incomplete)))))))))))

unfoldable pub evaluate_mint_guard : MintGuardFacts → Result MintGuardDecision
evaluate_mint_guard facts = do
  capacity ← mint_capacity facts.capacity_input
  amount ← amount_reasons facts.requested capacity
  let reasons = block_reasons facts amount
  ok (record { allowed = is_empty reasons; reasons = reasons; capacity = capacity })
