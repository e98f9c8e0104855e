-- ===== src/Tests/Services.antt =====
-- Runs of the theorems on mint.service.ts.
use text.Mathlib.TextEquality.{eq_iff}
use trustee_bank.Prelude.{
  ◌≡◌, ◌≢◌, ◌↔◌, ◌⊎◌, refl, Bool, true, false, none, some, List, [], ◌∷◌, arith,
}
use trustee_bank.Prelude.Int.{◌<ℤ◌, pos, ◌+ℤ◌, ◌-ℤ◌, ◌*ℤ◌, quot}
use trustee_bank.Prelude.Text.{to_upper_case, same_text}
use trustee_bank.Money
use trustee_bank.Money.Laws.{of}
use trustee_bank.Result.{ok, err, bad_request, wrong_status, unreadable_argument}
use trustee_bank.Ledger.Accounts.{ledger_account_type_of, before_colon, debit_positive}
use trustee_bank.Reserves.Calculation.{
  MintCapacityInput, eligible_reserve, reserve_obligation, reserve_ratio_bps, mint_capacity,
  required_safety_buffer, reserve_surplus,
}
use trustee_bank.Reserves.MintGuard.{MintGuardFacts, MintGuardDecision, evaluate_mint_guard}
use trustee_bank.Reserves.MintGuard.Allowed.{IsClear, guard_decides}
use trustee_bank.Store.Table.{find_unique, total_of, exists_row}
use trustee_bank.Store.Query.{latest, find_many, is_enabled}
use trustee_bank.Store.Rows.{MintAuthorizationStatus, User}
use trustee_bank.Store.Action.{Env}
use trustee_bank.ReserveLedger.{account_balance, find_postings, net_from}
use trustee_bank.ReserveLedger.Balance.{net}
use trustee_bank.Reserve.{position, latest_liability, adjusted}
use trustee_bank.Mint.{MintConfirmationInput, Reply, approve, reject, confirm}
use trustee_bank.Mint.Guard.{
  gather_guard_facts, is_mint_eligible, funding_deposits_cleared, has_exceptions, proof_age,
  feed_age,
}
use trustee_bank.Mint.Desk.{desk, Step, Strands, ConfirmedEnded}
use trustee_bank.Mint.Earmark.{Earmarked, pending_mint, issued_total}
use trustee_bank.Mint.Calls.{Call, after, after_all, RejectsIssued}
use trustee_bank.Mint.Refines.{run-Step}
use trustee_bank.Mint.History.{Follows, history_moves_forward}
use trustee_bank.Mint.Reservations.{earmarks_issued, reject_strands, unreadable_slips}
use trustee_bank.Mint.Calls.{is_readable, ConfirmsUnreadable}
use trustee_bank.Mint.Desk.{Slips}
use trustee_bank.Mint.SingleUse.{IsConfirmable, confirm_accepts, confirm_consumes, single_use}
use trustee_bank.Mint.FourEyes.{IsApprovable, Issued, approve_accepts, approve_issues}
use trustee_bank.Tests.Sample.{usd, db, db_with, env, waiting, issued, approval, confirmation}

found_waiting : find_unique "a1" db.mint_authorizations ≡ some waiting
unfolding find_unique
found_waiting = refl

found_issued : find_unique "a2" db.mint_authorizations ≡ some issued
unfolding find_unique
found_issued = refl

no_confirmation : find_unique "a2" db.mint_confirmations ≡ none
unfolding find_unique
no_confirmation = refl

db-ConfirmedEnded : ConfirmedEnded (desk db)
unfolding find_unique
db-ConfirmedEnded id c h = cc

db-Earmarked : Earmarked "p1" usd (desk db)
unfolding Earmarked total_of net find_postings Money.zero same_text to_upper_case ◌+ℤ◌ ◌-ℤ◌
db-Earmarked = refl

abbrev history : List (Call × Env)
history =
    (Call.approving "a1" "checker" "fine", env)
    ∷ (Call.rejecting "a1" "maker" "own", env)
    ∷ (Call.revoking "a2" "ops" "late", env)
    ∷ []

run-Step_example :
    Step (desk db) (desk (after (Call.confirming "a2" confirmation) env db))
    ⊎ (Strands (desk db) (desk (after (Call.confirming "a2" confirmation) env db))
        × RejectsIssued (Call.confirming "a2" confirmation) db)
    ⊎ (Slips (desk db) (desk (after (Call.confirming "a2" confirmation) env db))
        × ConfirmsUnreadable (Call.confirming "a2" confirmation) env)
run-Step_example = run-Step (Call.confirming "a2" confirmation) env db db-ConfirmedEnded

history_moves_forward_example :
    ConfirmedEnded (desk (after_all history db)) × Follows "a2" issued (desk (after_all history db))
history_moves_forward_example = history_moves_forward history db "a2" db-ConfirmedEnded found_issued

-- A history that revokes and approves.
abbrev careful_history : List (Call × Env)
careful_history =
    (Call.revoking "a2" "ops" "late", env) ∷ (Call.approving "a1" "checker" "fine", env) ∷ []

earmarks_issued_example : Earmarked "p1" usd (desk (after_all careful_history db))
earmarks_issued_example =
    earmarks_issued careful_history db "p1" usd db-ConfirmedEnded
      (λ h. h, λ h. h, (λ h. h, λ h. h, tt)) db-Earmarked

usd_upper : to_upper_case usd ≡ usd
unfolding to_upper_case
usd_upper = refl

issued-Earmarked : Earmarked "p1" (to_upper_case usd) (desk db)
issued-Earmarked = rw usd_upper db-Earmarked

abbrev checker : User
checker = record { institution = "TRUSTEE_BANK" }

checker_known : find_unique "checker" db.users ≡ some checker
unfolding find_unique
checker_known = refl

reject_strands_example :
    ((reject "a2" "checker" "no" env db).0 ≡ ok ("a2", MintAuthorizationStatus.rejected))
    × (pending_mint "p1" (to_upper_case usd) (desk (reject "a2" "checker" "no" env db).1)
        ≡ issued_total "p1" (to_upper_case usd) (desk (reject "a2" "checker" "no" env db).1)
          +ℤ pos 500)
reject_strands_example =
    reject_strands "a2" "checker" "no" env db checker_known found_issued refl refl refl
      issued-Earmarked

confirm_accepts_example :
    ((r : Reply) × ((confirm "a2" confirmation env db).0 ≡ ok r))
    ↔ IsConfirmable "a2" confirmation env db
confirm_accepts_example = confirm_accepts "a2" confirmation env db

issued_positive : pos 0 <ℤ pos 500
issued_positive = ground arith

abbrev db-IsConfirmable : IsConfirmable "a2" confirmation env db
db-IsConfirmable = record {
  auth = issued;
  found = found_issued;
  issued = refl;
  in_time = refl;
  same_amount = refl;
  positive = issued_positive;
  readable = refl;
  first = no_confirmation;
}

single_use_example :
    confirm "a2" confirmation env (after_all history (confirm "a2" confirmation env db).1)
    ≡ (err (bad_request wrong_status), after_all history (confirm "a2" confirmation env db).1)
single_use_example =
    single_use "a2" confirmation confirmation env env db history db-ConfirmedEnded
      (confirm_consumes "a2" confirmation env db db-IsConfirmable).0

approve_accepts_example :
    ((r : Reply) × ((approve "a1" "checker" "fine" env db).0 ≡ ok r))
    ↔ IsApprovable "a1" "checker" env db
approve_accepts_example = approve_accepts "a1" "checker" "fine" env db

abbrev capacity_input : MintCapacityInput
capacity_input = record {
  currency = usd;
  eligible_reserve = of (pos 7500) usd;
  existing_reserve_obligation = of (pos 0) usd;
  required_safety_buffer = of (pos 0) usd;
  pending_mint_authorizations = of (pos 0) usd;
}

abbrev facts : Bool → MintGuardFacts
facts enabled = record {
  requested = of (pos 500) usd;
  capacity_input = capacity_input;
  reserve_snapshot_age_seconds = 0;
  max_reserve_snapshot_age_seconds = 300;
  bank_connectivity_age_seconds = 5;
  max_bank_connectivity_age_seconds = 300;
  liability_feed_age_seconds = 10;
  max_liability_feed_age_seconds = 300;
  proof_of_reserve_age_seconds = none;
  max_proof_of_reserve_age_seconds = none;
  has_unresolved_reconciliation = false;
  compliance_hold_active = false;
  asset_minting_suspended = false;
  program_suspended = false;
  account_restricted = false;
  funding_deposits_cleared = true;
  maker_checker_complete = true;
  mint_feature_enabled = enabled;
}

gathered :
    (enabled : Bool) → gather_guard_facts env (db_with enabled) waiting true ≡ ok (facts enabled)
unfolding gather_guard_facts position latest_liability adjusted account_balance find_postings
    net_from find_unique exists_row latest find_many is_enabled is_mint_eligible
    funding_deposits_cleared has_exceptions proof_age feed_age eligible_reserve reserve_obligation
    reserve_ratio_bps mint_capacity required_safety_buffer reserve_surplus Money.sum Money.sum_from
    Money.add Money.subtract Money.zero Money.money Money.is_negative Money.is_zero same_text
    to_upper_case ledger_account_type_of before_colon debit_positive ◌+ℤ◌ ◌-ℤ◌ ◌*ℤ◌ quot Money.max
gathered enabled = refl

capacity_computed : mint_capacity capacity_input ≡ ok (of (pos 7500) usd)
unfolding mint_capacity Money.sum Money.sum_from Money.add Money.subtract Money.max Money.compare
    Money.zero Money.is_negative same_text to_upper_case ◌+ℤ◌ ◌-ℤ◌
capacity_computed = refl

all-IsClear : IsClear (facts true) (of (pos 7500) usd)
all-IsClear = record {
  enabled = refl;
  positive = ground arith;
  same_currency = refl;
  covered = ground arith;
  reserve_fresh = ground arith;
  bank_fresh = ground arith;
  feed_fresh = ground arith;
  proof_fresh = tt;
  reconciled = refl;
  no_hold = refl;
  asset_active = refl;
  program_active = refl;
  account_open = refl;
  deposits_cleared = refl;
  approved = refl;
}

maker_differs : approval.maker_id ≢ "checker"
maker_differs h = cc ((eq_iff "maker" "checker").1 h)

abbrev db-IsApprovable : IsApprovable "a1" "checker" env db
db-IsApprovable = record {
  auth = waiting;
  found = found_waiting;
  waiting = refl;
  approval = approval;
  present = refl;
  other_maker = maker_differs;
  checker = checker;
  known = checker_known;
  facts = facts true;
  gathered = gathered true;
  capacity = of (pos 7500) usd;
  computed = capacity_computed;
  clear = all-IsClear;
  positive = issued_positive;
}

approve_issues_example :
    ((approve "a1" "checker" "fine" env db).0 ≡ ok ("a1", MintAuthorizationStatus.issued))
    × Issued "a1" "checker" env waiting (approve "a1" "checker" "fine" env db).1
approve_issues_example = approve_issues "a1" "checker" "fine" env db db-IsApprovable

guard_decides_example :
    (decision : MintGuardDecision) × (evaluate_mint_guard (facts true) ≡ ok decision)
    × (decision.capacity ≡ of (pos 7500) usd)
    × ((decision.allowed ≡ true) ↔ IsClear (facts true) (of (pos 7500) usd))
guard_decides_example = guard_decides (facts true) capacity_computed

abbrev unreadable_confirmation : MintConfirmationInput
unreadable_confirmation = record confirmation { ledger_height = some "1.5" }

not_read : is_readable env unreadable_confirmation ≡ false
not_read = refl

unreadable_slips_example :
    ((confirm "a2" unreadable_confirmation env db).0 ≡ err unreadable_argument)
    × (find_unique "a2" (confirm "a2" unreadable_confirmation env db).1.mint_authorizations
        ≡ some issued)
    × (pending_mint "p1" (to_upper_case usd) (desk (confirm "a2" unreadable_confirmation env db).1)
          +ℤ pos 500
        ≡ issued_total "p1"
            (to_upper_case usd)
            (desk (confirm "a2" unreadable_confirmation env db).1))
unreadable_slips_example =
    unreadable_slips "a2" unreadable_confirmation env db found_issued refl refl refl issued_positive
      not_read issued-Earmarked
