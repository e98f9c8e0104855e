-- ===== src/Abac.antt =====
-- packages/domain/src/abac.ts: the approval policies that match a transaction, and their decision.
pub mod Best
use text.Mathlib.Text.{◌==◌ as str_eq}
use trustee_bank.Prelude.{
  ℕ, String, Bool, true, false, not, ◌&&◌, Option, none, some, List, [], ◌∷◌, if◌then◌else◌,
}
use trustee_bank.Prelude.Int.{ℤ, ltb_ℤ}

pub record AbacTransaction : Type 0 where
  pub transaction_type : String
  pub amount_minor : Option ℤ
  pub currency : Option String
  pub risk_level : Option String
  pub program_id : Option String
  pub asset_id : Option String
  pub jurisdiction : Option String

pub record AbacPolicyRule : Type 0 where
  pub id : String
  pub transaction_type : String
  pub min_amount_minor : Option ℤ
  pub max_amount_minor : Option ℤ
  pub currency : Option String
  pub risk_level : Option String
  pub program_id : Option String
  pub asset_id : Option String
  pub jurisdiction : Option String
  pub required_approvals : ℕ
  pub required_roles : List String
  pub effect : String
  pub priority : ℤ
  pub enabled : Bool

pub record AbacDecision : Type 0 where
  pub denied : Bool
  pub required_approvals : ℕ
  pub required_roles : List String
  pub matched_policy_id : Option String

abbrev pub is_text : Option String → String → Bool
is_text none wanted = false
is_text (some s) wanted = str_eq s wanted

-- `!(wanted && wanted !== actual)`: an absent or empty attribute of a policy restricts nothing.
abbrev pub allows : Option String → Option String → Bool
allows none actual = true
allows (some wanted) actual = if str_eq wanted "" then true else is_text actual wanted

-- The lower and the upper bound of an amount; a transaction without one is outside every bound.
abbrev pub above_min : Option ℤ → Option ℤ → Bool
above_min none amount = true
above_min (some bound) none = false
above_min (some bound) (some amount) = not (ltb_ℤ amount bound)

abbrev pub below_max : Option ℤ → Option ℤ → Bool
below_max none amount = true
below_max (some bound) none = false
below_max (some bound) (some amount) = not (ltb_ℤ bound amount)

unfoldable pub matches : AbacPolicyRule → AbacTransaction → Bool
matches policy tx =
    policy.enabled
    && (str_eq policy.transaction_type tx.transaction_type
        && (allows policy.currency tx.currency
            && (allows policy.risk_level tx.risk_level
                && (allows policy.program_id tx.program_id
                    && (allows policy.asset_id tx.asset_id
                        && (allows policy.jurisdiction tx.jurisdiction
                            && (above_min policy.min_amount_minor tx.amount_minor
                                && below_max policy.max_amount_minor tx.amount_minor)))))))

unfoldable pub filter : (AbacPolicyRule → Bool) → List AbacPolicyRule → List AbacPolicyRule
filter keep [] = []
filter keep (p ∷ ps) = let rest = filter keep ps in if keep p then p ∷ rest else rest

-- `sort((a, b) => b.priority - a.priority)`, which keeps the order of equal priorities.
unfoldable pub insert : AbacPolicyRule → List AbacPolicyRule → List AbacPolicyRule
insert p [] = p ∷ []
insert p (q ∷ qs) =
    let rest = insert p qs in if ltb_ℤ p.priority q.priority then q ∷ rest else p ∷ q ∷ qs

unfoldable pub sort : List AbacPolicyRule → List AbacPolicyRule
unfolding insert
sort [] = []
sort (p ∷ ps) = insert p (sort ps)

unfoldable pub find : (AbacPolicyRule → Bool) → List AbacPolicyRule → Option AbacPolicyRule
find keep [] = none
find keep (p ∷ ps) = if keep p then some p else find keep ps

abbrev pub is_deny : AbacPolicyRule → Bool
is_deny p = str_eq p.effect "DENY"

abbrev pub is_require : AbacPolicyRule → Bool
is_require p = str_eq p.effect "REQUIRE"

-- The decision on the first denying and the first requiring policy.
unfoldable pub decide : Option AbacPolicyRule → Option AbacPolicyRule → AbacDecision
decide (some deny) found = record {
  denied = true;
  required_approvals = 0;
  required_roles = [];
  matched_policy_id = some deny.id;
}
decide none (some require) = record {
  denied = false;
  required_approvals = require.required_approvals;
  required_roles = require.required_roles;
  matched_policy_id = some require.id;
}
decide none none = record {
  denied = false;
  required_approvals = 2;
  required_roles = [];
  matched_policy_id = none;
}

unfoldable pub evaluate_abac : List AbacPolicyRule → AbacTransaction → AbacDecision
unfolding filter sort insert find decide matches
evaluate_abac policies tx =
    let matched = sort (filter (λ p. matches p tx) policies) in
    decide (find is_deny matched) (find is_require matched)
