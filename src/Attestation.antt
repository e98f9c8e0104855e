-- ===== src/Attestation.antt =====
-- apps/trustee-api/src/modules/attestation/attestation.service.ts: attestations from draft to
-- publication. The generated identifier is an argument, amounts arrive parsed, and the signer and the
-- hash of the content are parameters.
pub mod Lifecycle
use text.Mathlib.Text.{◌==◌ as str_eq}
use trustee_bank.Prelude.{
  ℕ, String, Bool, true, false, not, ◌&&◌, ◌||◌, Option, none, some, [], ◌∷◌, is_absent, or_default,
  if◌then◌else◌,
}
use trustee_bank.Prelude.Int.{ℤ}
use trustee_bank.Money.{CurrencyCode}
use trustee_bank.Result.{not_found, bad_request, Subject, wrong_status}
use trustee_bank.Store.Table.{Table, find_unique, update}
use trustee_bank.Store.Rows.{Signature, Attestation, AttestationStatus}
use trustee_bank.Store.Db.{AuditLog}
use trustee_bank.Store.Action.{
  Action, pure, reads, asks, or_throw, throw_when, writes, record_audit, ◌>>=◌, ◌>>◌,
}
use trustee_bank.Reserve.{ReservePosition}
use trustee_bank.Reserve.Snapshots.{read_position}

pub record CreateAttestation : Type 0 where
  pub program_id : Option String
  pub period : String
  pub scope : String
  pub methodology : Option String
  pub reserve_amount_minor : Option ℤ
  pub liability_amount_minor : Option ℤ
  pub currency : Option CurrencyCode
  pub opinion : Option String
  pub auditor : String
  pub document_hash : Option String
  pub actor : String

-- The amounts, the currency, and whether the ledger supplied some of them.
pub record Figures : Type 0 where
  pub reserve_amount_minor : Option ℤ
  pub liability_amount_minor : Option ℤ
  pub currency : Option CurrencyCode
  pub derived_from_ledger : Bool

abbrev pub audit : String → String → String → Action (Unit {0})
audit actor action id = record_audit (record {
  actor = actor;
  actor_role = none;
  action = action;
  subject_type = "ATTESTATION";
  subject_id = some id;
  reason = none;
  approval_ref = none;
  correlation_id = none;
})

-- An empty text counts as no text.
abbrev pub is_given : Option String → Bool
is_given none = false
is_given (some text) = not (str_eq text "")

abbrev pub supplied : CreateAttestation → Figures
supplied input = record {
  reserve_amount_minor = input.reserve_amount_minor;
  liability_amount_minor = input.liability_amount_minor;
  currency = input.currency;
  derived_from_ledger = false;
}

abbrev pub derived : CreateAttestation → ReservePosition → Figures
derived input p = record {
  reserve_amount_minor = some (or_default input.reserve_amount_minor p.eligible_reserve.minor);
  liability_amount_minor =
      some (or_default input.liability_amount_minor p.reserve_obligation.minor);
  currency = some (or_default input.currency p.currency);
  derived_from_ledger = true;
}

abbrev pub derive : CreateAttestation → Action Figures
derive input = do p ← read_position (or_default input.program_id ""); pure (derived input p)

abbrev pub needs_ledger : CreateAttestation → Bool
needs_ledger input =
    is_given input.program_id
    && (is_absent input.reserve_amount_minor || is_absent input.liability_amount_minor)

abbrev pub draft_row : CreateAttestation → Figures → Attestation
draft_row input figures = record {
  program_id = input.program_id;
  period = input.period;
  scope = input.scope;
  methodology = input.methodology;
  reserve_amount_minor = figures.reserve_amount_minor;
  liability_amount_minor = figures.liability_amount_minor;
  currency = figures.currency;
  opinion = input.opinion;
  auditor = input.auditor;
  document_hash = input.document_hash;
  status = AttestationStatus.draft;
  issue_date = none;
  created_by = input.actor;
  approved_by = none;
}

unfoldable pub create : String → CreateAttestation → Action (String × (AttestationStatus × Bool))
create id input = do
  figures ← if needs_ledger input then derive input else pure (supplied input)
  writes λ db. record db { attestations = (id, draft_row input figures) ∷ db.attestations }
  audit input.actor "attestation.created" id
  pure (id, (AttestationStatus.draft, figures.derived_from_ledger))

-- `require`
abbrev pub require : String → Action Attestation
require id = do
  found ← reads (λ db. find_unique id db.attestations)
  or_throw found (not_found Subject.attestation)

-- The table `allowed`: the status before, and the one after.
abbrev pub is_allowed : AttestationStatus → AttestationStatus → Bool
is_allowed AttestationStatus.draft AttestationStatus.under_review = true
is_allowed AttestationStatus.draft AttestationStatus.withdrawn = true
is_allowed AttestationStatus.under_review AttestationStatus.approved = true
is_allowed AttestationStatus.under_review AttestationStatus.withdrawn = true
is_allowed AttestationStatus.approved AttestationStatus.published = true
is_allowed AttestationStatus.approved AttestationStatus.withdrawn = true
is_allowed AttestationStatus.published AttestationStatus.withdrawn = true
is_allowed _ _ = false

abbrev pub action_of : AttestationStatus → String
action_of AttestationStatus.draft = "attestation.draft"
action_of AttestationStatus.under_review = "attestation.under_review"
action_of AttestationStatus.approved = "attestation.approved"
action_of AttestationStatus.published = "attestation.published"
action_of AttestationStatus.superseded = "attestation.superseded"
action_of AttestationStatus.withdrawn = "attestation.withdrawn"
action_of AttestationStatus.expired = "attestation.expired"

abbrev pub approver : AttestationStatus → String → Attestation → Option String
approver AttestationStatus.approved actor a = some actor
approver _ actor a = a.approved_by

abbrev pub issue_date : AttestationStatus → ℕ → Attestation → Option ℕ
issue_date AttestationStatus.published now a = some now
issue_date _ now a = a.issue_date

abbrev pub moved : AttestationStatus → String → ℕ → Attestation → Attestation
moved to actor now a = record a {
  status = to;
  approved_by = approver to actor a;
  issue_date = issue_date to now a;
}

unfoldable pub transition :
    String → AttestationStatus → String → Action (String × AttestationStatus)
transition id to actor = do
  a ← require id
  throw_when (not (is_allowed a.status to)) (bad_request wrong_status)
  now ← asks (λ env. env.now)
  writes λ db. record db { attestations = update id (moved to actor now) db.attestations }
  audit actor (action_of to) id
  pure (id, to)

-- What the signature of a published attestation covers.
pub record Content : Type 0 where
  pub attestation_id : String
  pub program_id : Option String
  pub period : String
  pub scope : String
  pub reserve_amount_minor : Option ℤ
  pub liability_amount_minor : Option ℤ
  pub currency : Option CurrencyCode
  pub opinion : Option String
  pub auditor : String
  pub document_hash : Option String
  pub status : AttestationStatus
  pub issue_date : Option ℕ

abbrev pub content_of : String → Attestation → Content
content_of id a = record {
  attestation_id = id;
  program_id = a.program_id;
  period = a.period;
  scope = a.scope;
  reserve_amount_minor = a.reserve_amount_minor;
  liability_amount_minor = a.liability_amount_minor;
  currency = a.currency;
  opinion = a.opinion;
  auditor = a.auditor;
  document_hash = a.document_hash;
  status = a.status;
  issue_date = a.issue_date;
}

abbrev pub is_published : AttestationStatus → Bool
is_published AttestationStatus.published = true
is_published _ = false

-- The content, its hash, and the signature if the attestation is published.
unfoldable pub get :
    (Content → Signature)
    → (Content → String)
    → String
    → Action (Content × (String × Option Signature))
get sign hash id = do
  a ← require id
  let content = content_of id a
  pure (content, (hash content, if is_published a.status then some (sign content) else none))

unfoldable pub of_program : Option String → Table Attestation → Table Attestation
of_program program_id [] = []
of_program program_id ((id, a) ∷ t) =
    let rest = of_program program_id t in
    if not (is_given program_id)
      || (is_given a.program_id && str_eq (or_default a.program_id "") (or_default program_id ""))
    then (id, a) ∷ rest
    else rest

-- The rows of `list`, of which it selects some columns; a new row stands first.
unfoldable pub list : Option String → Action (Table Attestation)
unfolding of_program
list program_id = reads (λ db. of_program program_id db.attestations)
