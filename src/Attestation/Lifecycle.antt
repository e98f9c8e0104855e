-- ===== src/Attestation/Lifecycle.antt =====
-- Histories of calls of attestation.service.ts.
use trustee_bank.Prelude.{
  ◌≡◌, refl, inl, inr, Bool-cases, String, Bool, true, false, ◌&&◌, some, List, [], ◌∷◌, arith,
  is_present,
}
use trustee_bank.Result.{Option-cases, Result-cases}
use trustee_bank.Store.Table.{find_unique}
use trustee_bank.Store.Every.{Every, put-Every, update-Every}
use trustee_bank.Store.Rows.{Attestation, AttestationStatus}
use trustee_bank.Store.Db.{Db}
use trustee_bank.Store.Action.{Env}
use trustee_bank.Prelude.{or_default}
use trustee_bank.Reserve.{position}
use trustee_bank.Attestation.{
  CreateAttestation, create, transition, draft_row, supplied, derived, needs_ledger, moved,
  is_allowed,
}

abbrev milestones : Attestation → AttestationStatus → Bool
milestones a AttestationStatus.approved = is_present a.approved_by
milestones a AttestationStatus.published = is_present a.approved_by && is_present a.issue_date
milestones a AttestationStatus.superseded = false
milestones a AttestationStatus.expired = false
milestones a _ = true

-- What the status of an attestation says has happened is recorded in it.
abbrev pub IsBacked : Attestation → Type 0
IsBacked a = milestones a a.status ≡ true

pub data Call : Type 0 where
  creating : String → CreateAttestation → Call
  moving : String → AttestationStatus → String → Call

unfoldable pub after : Call → Env → Db → Db
after (Call.creating id input) env db = (create id input env db).1
after (Call.moving id to actor) env db = (transition id to actor env db).1

unfoldable pub after_all : List (Call × Env) → Db → Db
after_all [] db = db
after_all ((call, env) ∷ calls) db = after_all calls (after call env db)

moved-IsBacked :
    (to : AttestationStatus) (actor : String) (env : Env) (a : Attestation)
    → IsBacked a
    → is_allowed a.status to ≡ true
    → IsBacked (moved to actor env.now a)
moved-IsBacked to actor env a h k = ground arith

create-IsBacked :
    (id : String) (input : CreateAttestation) (env : Env) (db : Db)
    → Every IsBacked db.attestations
    → Every IsBacked (create id input env db).1.attestations
unfolding create
create-IsBacked id input env db h = elim (Bool-cases (needs_ledger input)) [
  | inl needed ↦
      rw needed (elim (Result-cases (position env.now db (or_default input.program_id ""))) [
        | inr (e, failed) ↦ rw failed h
        | inl (p, read) ↦
            rw read
              (put-Every IsBacked id (draft_row input (derived input p)) db.attestations refl h)
      ])
  | inr complete ↦
      rw complete (put-Every IsBacked id (draft_row input (supplied input)) db.attestations refl h)
]

transition-IsBacked :
    (id : String) (to : AttestationStatus) (actor : String) (env : Env) (db : Db)
    → Every IsBacked db.attestations
    → Every IsBacked (transition id to actor env db).1.attestations
unfolding transition
transition-IsBacked id to actor env db h = elim (Option-cases (find_unique id db.attestations)) [
  | inr missing ↦ rw missing h
  | inl (a, found) ↦ rw found (elim (Bool-cases (is_allowed a.status to)) [
    | inr refused ↦ rw refused h
    | inl allowed ↦ rw allowed (
        update-Every IsBacked id (moved to actor env.now) a db.attestations found
          (moved-IsBacked to actor env a (h id a found) allowed) h)
  ])
]

after_all-IsBacked :
    (calls : List (Call × Env)) (db : Db)
    → Every IsBacked db.attestations
    → Every IsBacked (after_all calls db).attestations
unfolding after after_all
after_all-IsBacked [] db h = h
after_all-IsBacked ((Call.creating id input, env) ∷ calls) db h =
    after_all-IsBacked calls (create id input env db).1 (create-IsBacked id input env db h)
after_all-IsBacked ((Call.moving id to actor, env) ∷ calls) db h =
    after_all-IsBacked calls (transition id to actor env db).1
      (transition-IsBacked id to actor env db h)

no_rows-IsBacked : Every IsBacked []
unfolding find_unique
no_rows-IsBacked id a h = cc

-- From a database without attestations, whatever drafts are created and whatever transitions are asked
-- for, an attestation that is found published has a recorded approver and a recorded issue date.
pub published_approved :
    (calls : List (Call × Env)) (db : Db) (id : String) (a : Attestation)
    → db.attestations ≡ []
    → find_unique id (after_all calls db).attestations ≡ some a
    → a.status ≡ AttestationStatus.published
    → (is_present a.approved_by ≡ true) × (is_present a.issue_date ≡ true)
published_approved calls db id a empty found published =
    let backed = after_all-IsBacked calls db (rw empty no_rows-IsBacked) id a found in ground arith
