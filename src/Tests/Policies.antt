-- ===== src/Tests/Policies.antt =====
-- Witnesses for the liability feed, roles, redemptions and adjustments.
use text.Mathlib.Text.{◌==◌ as str_eq}
use trustee_bank.Prelude.{
  ℕ, ◌≡◌, ◌⊎◌, refl, inl, inr, String, Bool, true, false, ◌&&◌, none, some, List, [], ◌∷◌, arith,
}
use trustee_bank.Prelude.Int.{ℤ, pos, ◌+ℤ◌}
use trustee_bank.Store.Table.{find_unique, total_of, update}
use trustee_bank.Store.Query.{is_enabled}
use trustee_bank.Store.Rows.{Redemption, RedemptionStatus, Signature}
use trustee_bank.Store.Db.{Db}
use trustee_bank.Store.Action.{Env}
use trustee_bank.ReserveLedger.{find_postings}
use trustee_bank.ReserveLedger.Balance.{net}
use trustee_bank.ReserveLedger.Tracking.{Tracks}
use trustee_bank.Abac.{
  AbacPolicyRule, AbacTransaction, evaluate_abac, decide, matches, is_deny, is_require,
}
use trustee_bank.Abac.Best.{best, evaluate_abac-decide}
use trustee_bank.Permissions.{
  slug, mint_request, mint_approve, role_set_has_permission, trustee_operations_maker,
  trustee_operations_checker, trustee_super_admin, RoleDefinition,
}
use trustee_bank.Permissions.Separation.{OneOf, held_by, mint_needs_both}
use trustee_bank.Liability.{LiabilitySnapshotInput}
use trustee_bank.Liability.Sequence.{Increasing, ingest_all, sequences_increase}
use trustee_bank.Redemption.{not_trustee_bank}
use trustee_bank.Redemption.History
use trustee_bank.Redemption.History.{redemptions-Owed}
use trustee_bank.Redemption.Owed.{Owed}
use trustee_bank.Redemption.Completes.{Holds, redemption_completes}
use trustee_bank.Reserve.{adjusted}
use trustee_bank.Reserve.Adjustments.{
  AdjustmentInput, add_adjustment, lift_adjustment, is_kind, adjustment_lifts,
}
use trustee_bank.Tests.Sample.{usd, env, program, snapshot, db as sample}
use trustee_bank.Prelude.{is_present}
use trustee_bank.Store.Rows.{Attestation, AttestationStatus}
use trustee_bank.Attestation.{CreateAttestation, create, transition, moved, draft_row, supplied}
use trustee_bank.Attestation.Lifecycle
use trustee_bank.Attestation.Lifecycle.{published_approved}

abbrev rule : String → String → ℤ → AbacPolicyRule
rule id effect priority = record {
  id = id;
  transaction_type = "MINT";
  min_amount_minor = none;
  max_amount_minor = none;
  currency = none;
  risk_level = none;
  program_id = none;
  asset_id = none;
  jurisdiction = none;
  required_approvals = 3;
  required_roles = [];
  effect = effect;
  priority = priority;
  enabled = true;
}

abbrev rules : List AbacPolicyRule
rules = rule "r1" "REQUIRE" (pos 1) ∷ rule "r2" "REQUIRE" (pos 5) ∷ rule "r3" "DENY" (pos 0) ∷ []

abbrev mint : AbacTransaction
mint = record {
  transaction_type = "MINT";
  amount_minor = some (pos 10);
  currency = none;
  risk_level = none;
  program_id = none;
  asset_id = none;
  jurisdiction = none;
}

evaluate_abac-decide_example :
    evaluate_abac rules mint
    ≡ decide
        (best (λ p. matches p mint && is_deny p) rules)
        (best (λ p. matches p mint && is_require p) rules)
evaluate_abac-decide_example = evaluate_abac-decide rules mint

abbrev both : List RoleDefinition
both = trustee_operations_maker ∷ trustee_operations_checker ∷ []

both_request : role_set_has_permission (held_by both) mint_request ≡ true
unfolding role_set_has_permission slug
both_request = refl

both_approve : role_set_has_permission (held_by both) mint_approve ≡ true
unfolding role_set_has_permission slug
both_approve = refl

mint_needs_both_example :
    OneOf trustee_super_admin both
    ⊎ (OneOf trustee_operations_maker both × OneOf trustee_operations_checker both)
mint_needs_both_example =
    mint_needs_both both (inr (inl refl), (inr (inr (inl refl)), tt)) both_request both_approve

abbrev input : LiabilitySnapshotInput
input = record {
  program_id = "p1";
  report = snapshot.report;
  circulating_minor = pos 2500;
  sequence = pos 2;
  snapshot_timestamp = 999000;
  signature = some (record { key_id = "k1"; value = "signed" });
}

-- A verifier of a concrete signature under a concrete key.
abbrev verify : String → LiabilitySnapshotInput → Signature → Bool
verify key payload signature = str_eq signature.value "signed" && str_eq key "k1"

sequences_increase_example :
    Increasing (ingest_all (some "k1") verify (("s2", input, env) ∷ []) sample).liability_snapshots
sequences_increase_example =
    sequences_increase (some "k1") verify (("s2", input, env) ∷ []) sample (tt, tt)

abbrev redemption : Redemption
redemption = record {
  program_id = "p1";
  paychain_redemption_id = "x1";
  asset_id = "KHUSD";
  amount_minor = pos 300;
  currency = usd;
  beneficiary_name = "B";
  beneficiary_account_masked = "***9";
  status = RedemptionStatus.awaiting_approval;
  correlation_id = none;
  burn_tx_hash = none;
  burn_confirmed_at = none;
  approved_by_id = none;
  payout_reference = none;
  payout_submitted_at = none;
  payout_confirmed_at = none;
  completed_at = none;
}

abbrev db : Db
db = record sample {
  redemptions = ("x", redemption) ∷ [];
  ledger_entries = [];
  feature_flags = ("bank.payout.enabled", true) ∷ [];
}

db-Owed : Owed "p1" usd db
unfolding Tracks find_postings net total_of ◌+ℤ◌
db-Owed = refl

abbrev later : ℕ → Env
later time = record env { now = time }

abbrev completing_calls : List (History.Call × Env)
completing_calls =
    (History.Call.approving "x" "checker" "fine", env)
    ∷ (History.Call.burning "x" "0x2" "ops", later 1000060)
    ∷ (History.Call.submitting "pay1" "x" "ops", later 1000120)
    ∷ (History.Call.paying "x" "head", later 1000180)
    ∷ []

abbrev redemption_calls : List (History.Call × Env)
redemption_calls =
    (History.Call.approving "x" "checker" "fine", env)
    ∷ (History.Call.burning "x" "0x2" "ops", env)
    ∷ (History.Call.submitting "pay1" "x" "ops", env)
    ∷ (History.Call.paying "x" "ops", env)
    ∷ []

redemptions-Owed_example : Owed "p1" usd (History.after_all redemption_calls db)
redemptions-Owed_example = redemptions-Owed redemption_calls db "p1" usd db-Owed

db-Holds : Holds "x" redemption db
unfolding find_unique is_enabled
db-Holds = record { found = refl; payouts_on = refl }

checker_trusted : not_trustee_bank (find_unique "checker" db.users) ≡ false
unfolding find_unique
checker_trusted = refl

redemption_completes_example :
    (row : Redemption) × (find_unique "x" (History.after_all completing_calls db).redemptions
      ≡ some row)
    × (row.status ≡ RedemptionStatus.completed)
    × (row.amount_minor ≡ pos 300)
redemption_completes_example =
    redemption_completes "x" "checker" "fine" "0x2" "ops" "pay1" "ops" "head" env (later 1000060)
      (later 1000120) (later 1000180) db redemption db-Holds refl checker_trusted (ground arith)

abbrev hold : AdjustmentInput
hold = record {
  program_id = "p1";
  kind = "REGULATORY_HOLD";
  amount_minor = pos 40;
  reason = none;
  actor = "ops";
}

program_known : find_unique "p1" sample.programs ≡ some program
unfolding find_unique
program_known = refl

kind_known : is_kind "REGULATORY_HOLD" ≡ true
kind_known = refl

adjustment_lifts_example :
    (adjusted "p1" usd "REGULATORY_HOLD" (add_adjustment "h1" hold env sample).1.reserve_adjustments
      ≡ pos 40 +ℤ adjusted "p1" usd "REGULATORY_HOLD" [])
    × (adjusted "p1" usd "REGULATORY_HOLD"
          (lift_adjustment "h1" "ops" env
            (add_adjustment "h1" hold env sample).1).1.reserve_adjustments
        ≡ adjusted "p1" usd "REGULATORY_HOLD" [])
adjustment_lifts_example = adjustment_lifts "h1" hold "ops" env sample program_known kind_known

abbrev quarter : CreateAttestation
quarter = record {
  program_id = some "p1";
  period = "2026-Q1";
  scope = "reserves";
  methodology = none;
  reserve_amount_minor = some (pos 9000);
  liability_amount_minor = some (pos 8000);
  currency = some usd;
  opinion = none;
  auditor = "auditor";
  document_hash = none;
  actor = "ops";
}

abbrev issuance : List (Lifecycle.Call × Env)
issuance =
    (Lifecycle.Call.creating "q1" quarter, env)
    ∷ (Lifecycle.Call.moving "q1" AttestationStatus.published "ops", env)
    ∷ (Lifecycle.Call.moving "q1" AttestationStatus.under_review "ops", env)
    ∷ (Lifecycle.Call.moving "q1" AttestationStatus.approved "head", env)
    ∷ (Lifecycle.Call.moving "q1" AttestationStatus.published "ops", env)
    ∷ []

abbrev published : Attestation
published = moved AttestationStatus.published "ops" 1000000 (
    moved AttestationStatus.approved "head" 1000000
      (moved AttestationStatus.under_review "ops" 1000000 (draft_row quarter (supplied quarter))))

found_published :
    find_unique "q1" (Lifecycle.after_all issuance sample).attestations ≡ some published
unfolding Lifecycle.after_all Lifecycle.after create transition find_unique update
found_published = refl

published_approved_example :
    (is_present published.approved_by ≡ true) × (is_present published.issue_date ≡ true)
published_approved_example =
    published_approved issuance sample "q1" published refl found_published refl
