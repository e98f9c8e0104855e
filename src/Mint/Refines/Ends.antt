-- ===== src/Mint/Refines/Ends.antt =====
-- The handlers of mint.service.ts that end an authorization, as steps of the desk.
use trustee_bank.Prelude.{
  ◌≡◌, ◌⊎◌, refl, inl, inr, Bool-cases, String, false, none, some, ◌∷◌, arith,
}
use trustee_bank.Prelude.Int.{eqb_ℤ}
use trustee_bank.Result.{ok, Option-cases, Result-cases, Error}
use trustee_bank.Ledger.Entries.{mint_release_entry}
use trustee_bank.Store.Table.{find_unique}
use trustee_bank.Store.Rows.{MintAuthorization, MintAuthorizationStatus}
use trustee_bank.Store.Db.{Db}
use trustee_bank.Store.Action.{Env, Action, throw, ◌>>◌}
use trustee_bank.ReserveLedger.{post_entry}
use Prim.Native.String.{◌++◌ as concat}
use trustee_bank.Mint.{
  is_status, mint_references, set_status, Reply, MintConfirmationInput, revoke, expire, confirm,
  lapse, realize, has_expired, read_height,
}
use trustee_bank.Mint.Calls.{is_readable}
use trustee_bank.ReserveLedger.{entry_row}
use trustee_bank.Ledger.Journal.{JournalEntry, JournalReferences}
use trustee_bank.Mint.Desk.{Slips, Desk, HasEnded, desk, Step, stage, ConfirmedEnded, amount_of}
use trustee_bank.Mint.Refines.Cases.{is_status-issued, found_row, kept}

pub revoke-Step :
    (auth_id actor reason : String) (env : Env) (db : Db)
    → Step (desk db) (desk (revoke auth_id actor reason env db).1)
unfolding revoke post_entry
revoke-Step auth_id actor reason env db =
    elim (Option-cases (find_unique auth_id db.mint_authorizations)) [
      | inr missing ↦ rw missing Step.idle
      | inl (auth, found) ↦
          rw found (elim (Bool-cases (is_status MintAuthorizationStatus.issued auth.status)) [
            | inr other ↦ rw other Step.idle
            | inl issued ↦
                let references = mint_references (concat "mint-revoke:" auth_id) auth actor none in
                rw issued (elim (Result-cases (mint_release_entry (amount_of auth) references)) [
                  | inr (e, refused) ↦ rw refused Step.idle
                  | inl (entry, built) ↦
                      let f = set_status MintAuthorizationStatus.revoked in
                      rw built (
                        Step.released auth_id f
                          (found_row (desk db) auth_id f auth found (kept auth _))
                          (is_status-issued auth.status issued) refl references entry refl built)
                ])
          ])
    ]

lapse-Step :
    (auth_id actor : String) (auth : MintAuthorization) (env : Env) (db : Db)
    → find_unique auth_id db.mint_authorizations ≡ some auth
    → stage auth.status ≡ 2
    → Step (desk db) (desk (lapse auth_id actor auth env db).1)
unfolding lapse post_entry
lapse-Step auth_id actor auth env db found issued =
    let references = mint_references (concat "mint-expire:" auth_id) auth actor none in
    elim (Result-cases (mint_release_entry (amount_of auth) references)) [
      | inr (e, refused) ↦ rw refused Step.idle
      | inl (entry, built) ↦
          let f = set_status MintAuthorizationStatus.expired in
          rw built (
            Step.released auth_id f (found_row (desk db) auth_id f auth found (kept auth _)) issued
              refl references entry refl built)
    ]

pub expire-Step :
    (auth_id actor : String) (env : Env) (db : Db)
    → Step (desk db) (desk (expire auth_id actor env db).1)
unfolding expire
expire-Step auth_id actor env db =
    elim (Option-cases (find_unique auth_id db.mint_authorizations)) [
      | inr missing ↦ rw missing Step.idle
      | inl (auth, found) ↦
          rw found (elim (Bool-cases (is_status MintAuthorizationStatus.issued auth.status)) [
            | inr other ↦ rw other Step.idle
            | inl issued ↦
                rw issued
                  (lapse-Step auth_id actor auth env db found (is_status-issued auth.status issued))
          ])
    ]

booked_slip :
    (d : Desk) (id : String) (auth : MintAuthorization) (references : JournalReferences)
    (entry : JournalEntry)
    → find_unique id d.authorizations ≡ some auth
    → stage auth.status ≡ 2
    → references.program_id ≡ auth.program_id
    → mint_release_entry (amount_of auth) references ≡ ok entry
    → Slips d (record d { entries = entry_row entry ∷ d.entries })
booked_slip d id auth references entry found issued own built = record {
  id = id;
  row = auth;
  found = found;
  still_issued = issued;
  references = references;
  entry = entry;
  own = own;
  built = built;
  result = refl;
}

realize-Step :
    (auth_id : String) (input : MintConfirmationInput) (auth : MintAuthorization) (env : Env)
    (db : Db)
    → find_unique auth_id db.mint_authorizations ≡ some auth
    → find_unique auth_id db.mint_confirmations ≡ none
    → stage auth.status ≡ 2
    → Step (desk db) (desk (realize auth_id input auth env db).1)
      ⊎ (Slips (desk db) (desk (realize auth_id input auth env db).1)
          × (is_readable env input ≡ false))
unfolding realize post_entry
realize-Step auth_id input auth env db found first issued =
    let references = mint_references (concat "mint-confirm:" auth_id) auth input.actor none in
    elim (Bool-cases (eqb_ℤ input.amount_minor auth.amount_minor)) [
      | inr differs ↦ rw differs (inl Step.idle)
      | inl equal ↦ rw equal (elim (Result-cases (mint_release_entry (amount_of auth) references)) [
        | inr (e, refused) ↦ rw refused (inl Step.idle)
        | inl (entry, built) ↦
            let slips =
              booked_slip (desk db) auth_id auth references entry found issued refl built in
            rw built (elim (Option-cases (read_height env.big_int input.ledger_height)) [
              | inr unread ↦ rw unread (inr (slips, refl))
              | inl (height, read) ↦ rw read (elim (Option-cases (env.date input.confirmed_at)) [
                | inr undated ↦ rw undated (inr (slips, refl))
                | inl (time, dated) ↦
                    let f = set_status MintAuthorizationStatus.consumed in
                    rw (dated, first)
                      (inl (
                        Step.confirmed auth_id f
                          (found_row (desk db) auth_id f auth found (kept auth _)) issued refl
                          references entry _ refl built first (ground arith)))
              ])
            ])
      ])
    ]

-- A throw after a call keeps the call's step.
throws-Step :
    (m : Action Reply) (e : Error) (env : Env) (db : Db)
    → Step (desk db) (desk (m env db).1)
    → Step (desk db) (desk ((m >> throw {A = Reply} e) env db).1)
throws-Step m e env db step = elim (Result-cases (m env db).0) [
  | inl (a, h) ↦ rw h step
  | inr (f, h) ↦ rw h step
]

ended_not_issued :
    (d : Desk) (id : String) (auth : MintAuthorization)
    → find_unique id d.authorizations ≡ some auth
    → stage auth.status ≡ 2
    → HasEnded d id
    → ⊥
ended_not_issued d id auth found issued (same, found', ended) =
    let e : same ≡ auth = cc in let k : stage same.status ≡ 2 = rw e issued in omega arith

pub confirm-Step :
    (auth_id : String) (input : MintConfirmationInput) (env : Env) (db : Db)
    → ConfirmedEnded (desk db)
    → Step (desk db) (desk (confirm auth_id input env db).1)
      ⊎ (Slips (desk db) (desk (confirm auth_id input env db).1) × (is_readable env input ≡ false))
unfolding confirm
confirm-Step auth_id input env db ended =
    elim (Option-cases (find_unique auth_id db.mint_authorizations)) [
      | inr missing ↦ rw missing (inl Step.idle)
      | inl (auth, found) ↦
          rw found (elim (Bool-cases (is_status MintAuthorizationStatus.issued auth.status)) [
            | inr other ↦ rw other (inl Step.idle)
            | inl issued ↦ rw issued (elim (Bool-cases (has_expired auth.expires_at env.now)) [
              | inl late ↦ rw late (
                  inl (
                    throws-Step (expire auth_id input.actor) _ env db
                      (expire-Step auth_id input.actor env db)))
              | inr timely ↦
                  rw timely (elim (Option-cases (find_unique auth_id db.mint_confirmations)) [
                    | inl (confirmation, present) ↦ absurd (
                        ended_not_issued (desk db) auth_id auth found
                          (is_status-issued auth.status issued)
                          (ended auth_id confirmation present))
                    | inr first ↦
                        realize-Step auth_id input auth env db found first
                          (is_status-issued auth.status issued)
                  ])
            ])
          ])
    ]
