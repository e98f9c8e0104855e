-- ===== src/FundClassification.antt =====
-- packages/domain/src/fund-classification.ts: the backing policy of each class of funds.
use trustee_bank.Prelude.{ℕ, ◌≡◌, ◌↔◌, Bool, true, false, not, ◌||◌, arith}

pub data FundClassification : Type 0 where
  non_monetary_promotional_point closed_loop_loyalty_value : FundClassification
  backed_loyalty_stablecoin merchant_funded_reward platform_funded_reward : FundClassification
  cashback_liability gift_card_liability customer_safeguarded_funds : FundClassification
  merchant_settlement_payable stable_value_liability : FundClassification
  fiat_backed_stablecoin_liability tokenized_deposit_liability : FundClassification

pub record FundBackingPolicy : Type 0 where
  pub classification : FundClassification
  pub fiat_backing_required : Bool
  pub required_backing_bps : ℕ
  pub redeemable : Bool
  pub transferable : Bool
  pub authorization_required : Bool

abbrev policy : FundClassification → Bool → ℕ → Bool → Bool → Bool → FundBackingPolicy
policy classification backing bps redeemable transferable authorization = record {
  classification = classification;
  fiat_backing_required = backing;
  required_backing_bps = bps;
  redeemable = redeemable;
  transferable = transferable;
  authorization_required = authorization;
}

-- The table `POLICIES`.
unfoldable pub backing_policy_for : FundClassification → FundBackingPolicy
backing_policy_for FundClassification.non_monetary_promotional_point =
    policy FundClassification.non_monetary_promotional_point false 0 false false false
backing_policy_for FundClassification.closed_loop_loyalty_value =
    policy FundClassification.closed_loop_loyalty_value false 0 true false false
backing_policy_for FundClassification.backed_loyalty_stablecoin =
    policy FundClassification.backed_loyalty_stablecoin true 10000 true true true
backing_policy_for FundClassification.merchant_funded_reward =
    policy FundClassification.merchant_funded_reward true 10000 true false true
backing_policy_for FundClassification.platform_funded_reward =
    policy FundClassification.platform_funded_reward true 10000 true false true
backing_policy_for FundClassification.cashback_liability =
    policy FundClassification.cashback_liability true 10000 true false true
backing_policy_for FundClassification.gift_card_liability =
    policy FundClassification.gift_card_liability true 10000 true true true
backing_policy_for FundClassification.customer_safeguarded_funds =
    policy FundClassification.customer_safeguarded_funds true 10000 true true true
backing_policy_for FundClassification.merchant_settlement_payable =
    policy FundClassification.merchant_settlement_payable true 10000 false false true
backing_policy_for FundClassification.stable_value_liability =
    policy FundClassification.stable_value_liability true 10000 true true true
backing_policy_for FundClassification.fiat_backed_stablecoin_liability =
    policy FundClassification.fiat_backed_stablecoin_liability true 10000 true true true
backing_policy_for FundClassification.tokenized_deposit_liability =
    policy FundClassification.tokenized_deposit_liability true 10000 true true true

unfoldable pub requires_fiat_backing : FundClassification → Bool
unfolding backing_policy_for
requires_fiat_backing classification = (backing_policy_for classification).fiat_backing_required

-- A class of funds requires fiat backing exactly where it is fully backed, and exactly where its
-- issuance needs an authorization; a transferable class requires it.
backing_policies_agree :
    (c : FundClassification)
    → ((requires_fiat_backing c ≡ true) ↔ ((backing_policy_for c).required_backing_bps ≡ 10000))
      × ((requires_fiat_backing c ≡ true) ↔ ((backing_policy_for c).authorization_required ≡ true))
      × ((not (backing_policy_for c).transferable || requires_fiat_backing c) ≡ true)
unfolding requires_fiat_backing backing_policy_for
backing_policies_agree c = ground arith
