-- ===== src/Mint/Refines/Cases.antt =====
-- The cases that the handlers of mint.service.ts test, and the patches of a row.
use trustee_bank.Prelude.{◌≤◌, ◌≡◌, refl, String, true, some, arith}
use trustee_bank.Store.Table.{find_unique}
use trustee_bank.Store.Rows.{MintAuthorization, MintAuthorizationStatus, Approval}
use trustee_bank.Mint.{pending_approval, set_approval, is_status, set_status}
use trustee_bank.Mint.Desk.{Desk, stage, Changes, SameTerms}

pub is_status-issued :
    (s : MintAuthorizationStatus) → is_status MintAuthorizationStatus.issued s ≡ true → stage s ≡ 2
is_status-issued s h = ground arith

pub stage-le : (s : MintAuthorizationStatus) → stage s ≤ 3
stage-le s = ground arith

abbrev pub found_row :
    (d : Desk) (id : String) (f : MintAuthorization → MintAuthorization) (auth : MintAuthorization)
    → find_unique id d.authorizations ≡ some auth
    → SameTerms auth (f auth)
    → Changes d id f
found_row d id f auth found same = record { row = auth; found = found; same_terms = same }

-- The patch of `review`.
abbrev pub under_review : String → String → MintAuthorization → MintAuthorization
under_review approval_id maker_id auth =
    set_status MintAuthorizationStatus.pending_checker
      (set_approval (pending_approval approval_id maker_id) auth)

abbrev pub kept :
    (auth : MintAuthorization) (s : MintAuthorizationStatus) → SameTerms auth (set_status s auth)
kept auth s = record { same_program = refl; same_amount = refl; same_currency = refl }

-- The two patches of a status and an approval.
abbrev pub decided : MintAuthorizationStatus → Approval → MintAuthorization → MintAuthorization
decided s a auth = set_approval a (set_status s auth)

pub is_status-maker :
    (s : MintAuthorizationStatus)
    → is_status MintAuthorizationStatus.pending_maker s ≡ true
    → stage s ≡ 0
is_status-maker s h = ground arith

pub is_status-checker :
    (s : MintAuthorizationStatus)
    → is_status MintAuthorizationStatus.pending_checker s ≡ true
    → stage s ≡ 1
is_status-checker s h = ground arith

pub status_issued : (s : MintAuthorizationStatus) → stage s ≡ 2 → s ≡ MintAuthorizationStatus.issued
status_issued s h = ground arith
