-- ===== src/Mint/Guard.antt =====
-- `gatherGuardFacts` of mint.service.ts: the live facts that the mint guard needs.
use Prim.Native.String.{◌++◌ as concat}
use text.Mathlib.Text.{◌==◌ as str_eq}
use trustee_bank.Prelude.{
  ℕ, String, Bool, true, false, ◌||◌, ◌&&◌, Option, none, some, List, length, all, ltb, ◌==◌,
}
use trustee_bank.Prelude.Int.{pos}
use trustee_bank.Money.{money}
use trustee_bank.Result.{Result, ok, err, not_found, Subject, ◌>>=◌}
use trustee_bank.Reserves.MintGuard.{MintGuardFacts}
use trustee_bank.Store.Table.{Table, find_unique, exists_row}
use trustee_bank.Store.Query.{latest, find_many, is_enabled, age_seconds}
use trustee_bank.Store.Rows.{
  ProgramStatus, Deposit, DepositStatus, MintAuthorization, AccountStatus, LiabilitySnapshot,
  ReserveSnapshot, ReconciliationRun,
}
use trustee_bank.Store.Db.{Db}
use trustee_bank.Store.Action.{Env}
use trustee_bank.Reserve.{position, latest_liability}

-- MINT_ELIGIBLE_DEPOSIT_STATUSES
unfoldable pub is_mint_eligible : DepositStatus → Bool
is_mint_eligible DepositStatus.cleared = true
is_mint_eligible DepositStatus.allocated_to_reserve = true
is_mint_eligible DepositStatus.available_for_mint = true
is_mint_eligible _ = false

-- Every named deposit is found, and each one found is eligible.
unfoldable pub funding_deposits_cleared : List String → Table Deposit → Bool
funding_deposits_cleared ids table =
    let deposits = find_many ids table in
    ltb 0 (length ids)
    && ((length deposits == length ids)
        && all (λ (d : Deposit). is_mint_eligible d.status) deposits)

abbrev is_suspended : ProgramStatus → Bool
is_suspended ProgramStatus.suspended = true
is_suspended _ = false

abbrev is_restricted : AccountStatus → Bool
is_restricted AccountStatus.restricted = true
is_restricted AccountStatus.on_hold = true
is_restricted _ = false

-- `latestRecon?.status === 'EXCEPTIONS'`
unfoldable pub has_exceptions : String → List ReconciliationRun → Bool
has_exceptions program_id runs =
    elim (latest (λ r. elim r.program_id [ none ↦ false | some p ↦ str_eq p program_id ])
      (λ r s. ltb s.created_at r.created_at) runs) [
        | none ↦ false
        | some run ↦ str_eq run.status "EXCEPTIONS"
      ]

unfoldable pub proof_age : ℕ → String → List ReserveSnapshot → Option ℕ
proof_age now program_id snapshots =
    elim (latest (λ s. str_eq s.program_id program_id) (λ s t. ltb t.created_at s.created_at)
      snapshots) [ none ↦ none | some s ↦ some (age_seconds now s.created_at) ]

-- Number.MAX_SAFE_INTEGER
abbrev pub max_safe_integer : ℕ
max_safe_integer = 9007199254740991

unfoldable pub feed_age : ℕ → Option LiabilitySnapshot → ℕ
feed_age now none = max_safe_integer
feed_age now (some s) = age_seconds now s.snapshot_timestamp

abbrev or_zero : Option ℕ → ℕ
or_zero none = 0
or_zero (some n) = n

unfoldable pub gather_guard_facts : Env → Db → MintAuthorization → Bool → Result MintGuardFacts
gather_guard_facts env db auth maker_checker_complete =
    elim (find_unique auth.program_id db.programs) [
      | none ↦ err (not_found Subject.program)
      | some program ↦ position env.now db auth.program_id >>= λ pos_now. ok (record {
        requested = money auth.amount_minor auth.currency;
        capacity_input = record {
          currency = pos_now.currency;
          eligible_reserve = pos_now.mint_capacity;
          existing_reserve_obligation = money (pos 0) pos_now.currency;
          required_safety_buffer = money (pos 0) pos_now.currency;
          pending_mint_authorizations = money (pos 0) pos_now.currency;
        };
        reserve_snapshot_age_seconds = 0;
        max_reserve_snapshot_age_seconds = env.max_reserve_snapshot_age_s;
        bank_connectivity_age_seconds = or_zero env.bank_check_age_seconds;
        max_bank_connectivity_age_seconds = env.max_bank_connectivity_age_s;
        liability_feed_age_seconds = feed_age env.now (latest_liability auth.program_id db);
        max_liability_feed_age_seconds = env.max_liability_feed_age_s;
        proof_of_reserve_age_seconds = proof_age env.now auth.program_id db.reserve_snapshots;
        max_proof_of_reserve_age_seconds = env.max_proof_of_reserve_age_s;
        has_unresolved_reconciliation = has_exceptions auth.program_id db.reconciliation_runs;
        compliance_hold_active =
            is_enabled (concat "compliance.hold.program." auth.program_id) db.platform_controls
            || is_enabled "compliance.hold.global" db.platform_controls;
        asset_minting_suspended =
            is_enabled (concat "asset.suspend." auth.asset_id) db.platform_controls
            || is_enabled "mint.global-suspend" db.platform_controls;
        program_suspended = is_suspended program.status;
        account_restricted =
            exists_row (λ a. str_eq a.program_id auth.program_id && is_restricted a.status)
              db.trustee_accounts;
        funding_deposits_cleared = funding_deposits_cleared auth.funding_deposit_ids db.deposits;
        maker_checker_complete = maker_checker_complete;
        mint_feature_enabled = is_enabled "mint.authorization.enabled" db.feature_flags;
      })
    ]
