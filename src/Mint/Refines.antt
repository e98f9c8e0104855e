-- ===== src/Mint/Refines.antt =====
-- Each handler of mint.service.ts takes a step of the desk, strands a reservation, or slips.
pub mod Cases
pub mod Ends
pub mod Reviews
use text.Mathlib.Text.{◌==◌ as str_eq}
use trustee_bank.Prelude.{
  ℕ, ◌≤◌, ◌≡◌, ◌⊎◌, refl, sym, ap, ◌∙◌, inl, inr, Bool-cases, String, Bool, true, false, ◌==◌, List,
  ◌∷◌, Option, none, some, arith, if◌then◌else◌,
}
use trustee_bank.Prelude.Int.{ℤ, pos, eqb_ℤ, ltb_ℤ}
use trustee_bank.Money.{money}
use trustee_bank.Result.{Result, Error, ok, err}
use trustee_bank.Ledger.Entries.{mint_reservation_entry, mint_release_entry}
use trustee_bank.Store.Table.{Table, find_unique, update, update-update}
use trustee_bank.Store.Rows.{MintAuthorization, MintAuthorizationStatus, Approval, ApprovalDecision}
use trustee_bank.Store.Db.{Db}
use trustee_bank.Store.Action.{Env, Action, throw, ◌>>◌}
use trustee_bank.ReserveLedger.{entry_row, post_entry}
use Prim.Native.String.{◌++◌ as concat}
use trustee_bank.Mint.{
  check, pending_approval, not_trustee_bank, is_present, set_approval, is_status, mint_references,
  set_status, patch, acted, is_taken, Reply, RequestMintAuthorization, MintConfirmationInput,
  request, review, approve, reject, revoke, expire, confirm, issue, reject_blocked, lapse, realize,
  has_expired,
}
use trustee_bank.Reserves.MintGuard.{MintGuardDecision, evaluate_mint_guard}
use trustee_bank.Mint.Guard.{gather_guard_facts}
use trustee_bank.Mint.Calls.{Call, run, after, RejectsIssued, ConfirmsUnreadable}
use trustee_bank.Mint.Desk.{
  Desk, desk, Step, Strands, Slips, stage, Changes, SameTerms, ConfirmedEnded, amount_of,
}
use trustee_bank.Mint.Refines.Ends.{revoke-Step, expire-Step, confirm-Step}
use trustee_bank.Mint.Refines.Reviews.{request-Step, review-Step, reject-Step, approve-Step}

-- Every call from a database whose confirmed authorizations have ended is a step of the desk, but for
-- two: a rejection of an issued authorization, which ends it and keeps its reservation, and a
-- confirmation whose height or time cannot be read, which books the release of an authorization that
-- stays issued.
pub run-Step :
    (call : Call) (env : Env) (db : Db)
    → ConfirmedEnded (desk db)
    → Step (desk db) (desk (after call env db))
      ⊎ (Strands (desk db) (desk (after call env db)) × RejectsIssued call db)
      ⊎ (Slips (desk db) (desk (after call env db)) × ConfirmsUnreadable call env)
unfolding run
run-Step (Call.requesting id nonce input) env db ended = inl (request-Step id nonce input env db)
run-Step (Call.reviewing approval_id id maker_id) env db ended =
    inl (review-Step approval_id id maker_id env db)
run-Step (Call.approving id checker_id reason) env db ended =
    inl (approve-Step id checker_id reason env db)
run-Step (Call.rejecting id checker_id reason) env db ended =
    elim (reject-Step id checker_id reason env db) [
      | inl step ↦ inl step
      | inr strands ↦ inr (inl strands)
    ]
run-Step (Call.revoking id actor reason) env db ended = inl (revoke-Step id actor reason env db)
run-Step (Call.expiring id actor) env db ended = inl (expire-Step id actor env db)
run-Step (Call.confirming id input) env db ended = elim (confirm-Step id input env db ended) [
  | inl step ↦ inl step
  | inr slips ↦ inr (inr slips)
]
