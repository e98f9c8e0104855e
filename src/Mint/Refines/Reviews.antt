-- ===== src/Mint/Refines/Reviews.antt =====
-- The handlers of mint.service.ts that request, review, approve and reject, as steps of the desk.
use text.Mathlib.Text.{◌==◌ as str_eq}
use trustee_bank.Result.{Option-cases, Result-cases}
use trustee_bank.Prelude.{
  ◌≡◌, ◌⊎◌, refl, inl, inr, Bool-cases, String, true, false, ◌==◌, none, some, arith,
}
use trustee_bank.Prelude.Int.{pos, ltb_ℤ}
use trustee_bank.Money.{money}
use trustee_bank.Ledger.Entries.{mint_reservation_entry}
use trustee_bank.Store.Table.{Table, find_unique, update, update-update}
use trustee_bank.Store.Rows.{MintAuthorization, MintAuthorizationStatus, Approval, ApprovalDecision}
use trustee_bank.Store.Db.{Db}
use trustee_bank.Store.Action.{Env}
use trustee_bank.ReserveLedger.{post_entry}
use Prim.Native.String.{◌++◌ as concat}
use trustee_bank.Mint.{
  set_status, join_reasons, check, not_trustee_bank, is_status, mint_references, acted, is_taken,
  RequestMintAuthorization, request, review, approve, reject, issue, reject_blocked,
}
use trustee_bank.Reserves.MintGuard.{MintGuardDecision, evaluate_mint_guard}
use trustee_bank.Mint.Guard.{gather_guard_facts}
use trustee_bank.Mint.Calls.{Call, RejectsIssued}
use trustee_bank.Mint.Desk.{Desk, desk, Step, Strands, SameTerms, stage, amount_of}
use trustee_bank.Mint.Refines.Cases.{
  is_status-maker, is_status-checker, stage-le, status_issued, found_row, decided, under_review,
  kept,
}

pub review-Step :
    (approval_id auth_id maker_id : String) (env : Env) (db : Db)
    → Step (desk db) (desk (review approval_id auth_id maker_id env db).1)
unfolding review
review-Step approval_id auth_id maker_id env db =
    elim (Option-cases (find_unique auth_id db.mint_authorizations)) [
      | inr missing ↦ rw missing Step.idle
      | inl (auth, found) ↦
          rw found
            (elim (Bool-cases (is_status MintAuthorizationStatus.pending_maker auth.status)) [
              | inr other ↦ rw other Step.idle
              | inl waiting ↦
                  rw waiting (elim (Bool-cases (not_trustee_bank (find_unique maker_id db.users))) [
                    | inl refused ↦ rw refused Step.idle
                    | inr accepted ↦
                        let from = is_status-maker auth.status waiting in
                        let f = under_review approval_id maker_id in
                        rw accepted (
                          Step.moved auth_id f
                            (found_row (desk db) auth_id f auth found (record {
                              same_program = refl;
                              same_amount = refl;
                              same_currency = refl;
                            }))
                            (omega arith) (λ q. omega arith) (λ q. omega arith))
                  ])
            ])
    ]

-- A row that is moved to the end.
ended_row :
    (id : String) (d : Desk) (f : MintAuthorization → MintAuthorization) (auth : MintAuthorization)
    → find_unique id d.authorizations ≡ some auth
    → SameTerms auth (f auth)
    → stage (f auth).status ≡ 3
    → Step d (record d { authorizations = update id f d.authorizations })
      ⊎ (Strands d (record d { authorizations = update id f d.authorizations })
          × (auth.status ≡ MintAuthorizationStatus.issued))
ended_row id d f auth found same ended =
    let c = found_row d id f auth found same in
    elim (Bool-cases (stage auth.status == 2)) [
      | inl issued ↦ inr (
        record {
          id = id;
          f = f;
          change = c;
          was_issued = ground arith;
          now_ended = ended;
          result = refl;
        },
        status_issued auth.status (ground arith),
      )
      | inr waiting ↦ inl (
          Step.moved id f c (rw ended (stage-le auth.status)) (λ q. ground arith)
            (λ q. omega arith))
    ]

-- The row that strands its reservation is the one that was found.
names_row :
    {A B : Type 0} (auth : MintAuthorization)
    → A ⊎ (B × (auth.status ≡ MintAuthorizationStatus.issued))
    → A
      ⊎ (B
          × ((found : MintAuthorization) × (some auth ≡ some found)
              × (found.status ≡ MintAuthorizationStatus.issued)))
names_row auth (inl a) = inl a
names_row auth (inr (b, p)) = inr (b, (auth, refl, p))

-- `reject` moves any row to the end; of an issued one it strands the reservation.
pub reject-Step :
    (auth_id checker_id reason : String) (env : Env) (db : Db)
    → Step (desk db) (desk (reject auth_id checker_id reason env db).1)
      ⊎ (Strands (desk db) (desk (reject auth_id checker_id reason env db).1)
          × RejectsIssued (Call.rejecting auth_id checker_id reason) db)
unfolding reject
reject-Step auth_id checker_id reason env db =
    elim (Option-cases (find_unique auth_id db.mint_authorizations)) [
      | inr missing ↦ rw missing (inl Step.idle)
      | inl (auth, found) ↦ rw found (elim (Option-cases auth.approval) [
        | inr missing ↦ rw missing (inl Step.idle)
        | inl (approval, present) ↦
            simp present (elim (Bool-cases (str_eq approval.maker_id checker_id)) [
              | inl own ↦ rw own (inl Step.idle)
              | inr other ↦
                  let a =
                    acted approval checker_id env.now ApprovalDecision.rejected (some reason) in
                  let f = decided MintAuthorizationStatus.rejected a in
                  rw other (elim (Option-cases (find_unique checker_id db.users)) [
                    | inr nobody ↦ rw nobody (
                        names_row auth (
                          ended_row auth_id (desk db) (set_status MintAuthorizationStatus.rejected)
                            auth found (kept auth _) refl))
                    | inl (checker, known) ↦
                        rw (known, update-update)
                          (names_row auth (
                            ended_row auth_id (desk db) f auth found
                              (record {
                                same_program = refl;
                                same_amount = refl;
                                same_currency = refl;
                              })
                              refl))
                  ])
            ])
      ])
    ]

reject_blocked-Step :
    (auth_id checker_id : String) (auth : MintAuthorization) (approval : Approval)
    (decision : MintGuardDecision) (env : Env) (db : Db)
    → find_unique auth_id db.mint_authorizations ≡ some auth
    → stage auth.status ≡ 1
    → Step (desk db) (desk (reject_blocked auth_id checker_id approval decision env db).1)
unfolding reject_blocked
reject_blocked-Step auth_id checker_id auth approval decision env db found from =
    let a =
      acted approval checker_id env.now ApprovalDecision.rejected
        (some (concat "Guard blocked: " (join_reasons decision.reasons))) in
    let f = decided MintAuthorizationStatus.rejected a in
    let c =
      found_row (desk db) auth_id f auth found
        (record { same_program = refl; same_amount = refl; same_currency = refl }) in
    rw update-update (Step.moved auth_id f c (omega arith) (λ q. omega arith) (λ q. omega arith))

issue-Step :
    (auth_id checker_id reason : String) (auth : MintAuthorization) (approval : Approval)
    (env : Env) (db : Db)
    → find_unique auth_id db.mint_authorizations ≡ some auth
    → stage auth.status ≡ 1
    → Step (desk db) (desk (issue auth_id checker_id reason auth approval env db).1)
unfolding issue post_entry
issue-Step auth_id checker_id reason auth approval env db found from =
    let references =
      mint_references (concat "mint-auth:" auth_id) auth checker_id (some approval.id) in
    elim (Result-cases (mint_reservation_entry (amount_of auth) references)) [
      | inr (e, refused) ↦ rw refused Step.idle
      | inl (entry, built) ↦
          rw (built, update-update)
            (Step.reserved auth_id _
              (found_row (desk db) auth_id _ auth found
                (record { same_program = refl; same_amount = refl; same_currency = refl }))
              from refl references entry refl built)
    ]

-- `approve` after its tests of the row.
check-Step :
    (auth_id checker_id reason : String) (auth : MintAuthorization) (approval : Approval)
    (env : Env) (db : Db)
    → find_unique auth_id db.mint_authorizations ≡ some auth
    → stage auth.status ≡ 1
    → Step (desk db) (desk (check auth_id checker_id reason auth approval env db).1)
unfolding check
check-Step auth_id checker_id reason auth approval env db found from =
    elim (Bool-cases (str_eq approval.maker_id checker_id)) [
      | inl own ↦ rw own Step.idle
      | inr other ↦ rw other (elim (Option-cases (find_unique checker_id db.users)) [
        | inr missing ↦ rw missing Step.idle
        | inl (checker, present) ↦
            rw present (elim (Result-cases (gather_guard_facts env db auth true)) [
              | inr (e, failed) ↦ rw failed Step.idle
              | inl (facts, gathered) ↦
                  rw gathered (elim (Result-cases (evaluate_mint_guard facts)) [
                    | inr (e, failed) ↦ rw failed Step.idle
                    | inl (decision, made) ↦ rw made (elim (Bool-cases decision.allowed) [
                      | inl allowed ↦
                          simp allowed
                            (issue-Step auth_id checker_id reason auth approval env db found from)
                      | inr blocked ↦ simp blocked (
                          reject_blocked-Step auth_id checker_id auth approval decision env db found
                            from)
                    ])
                  ])
            ])
      ])
    ]

pub approve-Step :
    (auth_id checker_id reason : String) (env : Env) (db : Db)
    → Step (desk db) (desk (approve auth_id checker_id reason env db).1)
unfolding approve
approve-Step auth_id checker_id reason env db =
    elim (Option-cases (find_unique auth_id db.mint_authorizations)) [
      | inr missing ↦ rw missing Step.idle
      | inl (auth, found) ↦
          rw found
            (elim (Bool-cases (is_status MintAuthorizationStatus.pending_checker auth.status)) [
              | inr other ↦ rw other Step.idle
              | inl waiting ↦ rw waiting (elim (Option-cases auth.approval) [
                | inr missing ↦ rw missing Step.idle
                | inl (approval, present) ↦ simp present (
                    check-Step auth_id checker_id reason auth approval env db found
                      (is_status-checker auth.status waiting))
              ])
            ])
    ]

not_taken :
    (id request_id nonce : String) (t : Table MintAuthorization)
    → is_taken id request_id nonce t ≡ false
    → find_unique id t ≡ none
not_taken id request_id nonce t h = elim (Option-cases (find_unique id t)) [
  | inr free ↦ free
  | inl (auth, present) ↦ cc (rw present at h)
]

pub request-Step :
    (id nonce : String) (input : RequestMintAuthorization) (env : Env) (db : Db)
    → Step (desk db) (desk (request id nonce input env db).1)
unfolding request
request-Step id nonce input env db =
    elim (Option-cases (find_unique input.program_id db.programs)) [
      | inr missing ↦ rw missing Step.idle
      | inl (program, found) ↦
          rw found
            (elim (Bool-cases
              (ltb_ℤ (pos 0) (money input.amount_minor program.reference_currency).minor)) [
                | inr refused ↦ rw refused Step.idle
                | inl positive ↦
                    rw positive
                      (elim (Bool-cases
                        (is_taken id input.paychain_request_id nonce db.mint_authorizations)) [
                          | inl taken ↦ rw taken Step.idle
                          | inr free ↦ rw free (
                              Step.requested id _
                                (not_taken id input.paychain_request_id nonce db.mint_authorizations
                                  free)
                                refl)
                        ])
              ])
    ]
