-- ===== src/Mint.antt =====
-- apps/trustee-api/src/modules/mint/mint.service.ts: the workflow of a mint authorization. The ids
-- and nonces that the database and `randomUUID` generate are arguments. Amounts arrive parsed.
pub mod Guard
pub mod Desk
pub mod Earmark
pub mod Calls
pub mod Refines
pub mod History
pub mod Reservations
pub mod Refused
pub mod Bookings
pub mod SingleUse
pub mod FourEyes
use Prim.Native.String.{◌++◌ as concat}
use text.Mathlib.Text.{◌==◌ as str_eq}
use mathlib.Core.Option
use trustee_bank.Prelude.{
  ℕ, String, Bool, true, false, not, ◌||◌, ◌&&◌, ◌+◌, ◌*◌, Option, none, some, List, [], ◌∷◌, ltb,
  if◌then◌else◌,
}
use trustee_bank.Prelude.Int.{ℤ, pos, ltb_ℤ, eqb_ℤ}
use trustee_bank.Money.{CurrencyCode, money}
use trustee_bank.Result.{
  MintBlockReason, not_found, bad_request, forbidden, unique_violation, Subject, BadRequest,
  wrong_status, amount_not_positive, not_trustee_bank_user, missing_approval, mint_blocked,
  authorization_expired, amount_mismatch, unreadable_argument, foreign_key_violation,
}
use trustee_bank.Ledger.Journal.{JournalReferences}
use trustee_bank.Ledger.Entries.{mint_reservation_entry, mint_release_entry}
use trustee_bank.Reserves.MintGuard.{MintGuardFacts, MintGuardDecision, evaluate_mint_guard}
use trustee_bank.Store.Table.{Table, find_unique, update, exists_row}
use trustee_bank.Store.Rows.{
  Program, User, Approval, MintAuthorization, MintAuthorizationStatus, MintConfirmation, Signature,
  ApprovalDecision,
}
use trustee_bank.Store.Db.{Db, AuditLog, OutboxEvent, guard_reasons, manual_rejection, MintArtifact}
use trustee_bank.Store.Action.{
  Env, Action, MintPayload, pure, throw, reads, asks, lift, or_throw, throw_when, writes,
  record_audit, publish, ◌>>=◌, ◌>>◌,
}
use trustee_bank.ReserveLedger.{post}
use trustee_bank.Mint.Guard.{gather_guard_facts}

pub record RequestMintAuthorization : Type 0 where
  pub program_id : String
  pub paychain_request_id : String
  pub amount_minor : ℤ
  pub funding_deposit_ids : List String
  pub tenant_id : Option String
  pub destination : Option String

pub record MintConfirmationInput : Type 0 where
  pub paychain_transaction_id : String
  pub blockchain_tx_hash : String
  pub amount_minor : ℤ
  pub destination : String
  pub ledger_height : Option String
  pub confirmed_at : String
  pub paychain_signature : String
  pub actor : String

-- The pair that the handlers return.
abbrev pub Reply : Type 0
Reply = String × MintAuthorizationStatus

abbrev audit_row :
    String → Option String → String → String → Option String → Option String → AuditLog
audit_row actor role action auth_id reason approval_ref = record {
  actor = actor;
  actor_role = role;
  action = action;
  subject_type = "MINT_AUTHORIZATION";
  subject_id = some auth_id;
  reason = reason;
  approval_ref = approval_ref;
  correlation_id = none;
}

-- `requireAuth`
abbrev pub require_auth : String → Action MintAuthorization
require_auth auth_id = do
  found ← reads (λ db. find_unique auth_id db.mint_authorizations)
  or_throw found (not_found Subject.mint_authorization)

-- A patch of the authorization's row.
abbrev pub patch : String → (MintAuthorization → MintAuthorization) → Action (Unit {0})
patch auth_id f =
    writes λ db. record db { mint_authorizations = update auth_id f db.mint_authorizations }

abbrev pub set_status : MintAuthorizationStatus → MintAuthorization → MintAuthorization
set_status s auth = record auth { status = s }

abbrev pub set_approval : Approval → MintAuthorization → MintAuthorization
set_approval a auth = record auth { approval = some a }

abbrev pub is_status : MintAuthorizationStatus → MintAuthorizationStatus → Bool
is_status MintAuthorizationStatus.pending_maker MintAuthorizationStatus.pending_maker = true
is_status MintAuthorizationStatus.pending_checker MintAuthorizationStatus.pending_checker = true
is_status MintAuthorizationStatus.issued MintAuthorizationStatus.issued = true
is_status _ _ = false

abbrev require_status : MintAuthorizationStatus → MintAuthorization → Action (Unit {0})
require_status s auth = throw_when (not (is_status s auth.status)) (bad_request wrong_status)

abbrev pub mint_references : String → MintAuthorization → String → Option String → JournalReferences
mint_references source auth actor approval_ref = record {
  source = source;
  program_id = auth.program_id;
  asset_id = auth.asset_id;
  actor = actor;
  approval_ref = approval_ref;
  correlation_id = none;
}

abbrev pub is_present {ℓ} : {A : Type ℓ} → Option A → Bool
is_present none = false
is_present (some _) = true

-- The unique columns `id`, `paychainRequestId` and `nonce` of a new row.
abbrev pub is_taken : String → String → String → Table MintAuthorization → Bool
is_taken id request_id nonce table =
    is_present (find_unique id table)
    || exists_row (λ a. str_eq a.paychain_request_id request_id || str_eq a.nonce nonce) table

-- Maker step of PayChain: a new authorization, awaiting review.
unfoldable pub request : String → String → RequestMintAuthorization → Action Reply
request id nonce input = do
  found ← reads (λ db. find_unique input.program_id db.programs)
  program ← or_throw found (not_found Subject.program)
  let amount = money input.amount_minor program.reference_currency
  throw_when (not (ltb_ℤ (pos 0) amount.minor)) (bad_request amount_not_positive)
  taken ← reads (λ db. is_taken id input.paychain_request_id nonce db.mint_authorizations)
  throw_when taken unique_violation
  let auth : MintAuthorization = record {
    program_id = input.program_id;
    paychain_request_id = input.paychain_request_id;
    asset_id = program.asset_id;
    amount_minor = amount.minor;
    currency = program.reference_currency;
    funding_deposit_ids = input.funding_deposit_ids;
    tenant_id = input.tenant_id;
    destination = input.destination;
    status = MintAuthorizationStatus.pending_maker;
    nonce = nonce;
    max_mint_amount_minor = amount.minor;
    single_use = true;
    signature = none;
    issued_at = none;
    expires_at = none;
    approval = none;
  }
  writes λ db. record db { mint_authorizations = (id, auth) ∷ db.mint_authorizations }
  record_audit (
      audit_row (concat "paychain:" input.paychain_request_id) none "mint_authorization.requested"
        id none none)
  pure (id, MintAuthorizationStatus.pending_maker)

-- `!maker || maker.institution !== 'TRUSTEE_BANK'`
abbrev pub not_trustee_bank : Option User → Bool
not_trustee_bank none = true
not_trustee_bank (some u) = not (str_eq u.institution "TRUSTEE_BANK")

abbrev pub pending_approval : String → String → Approval
pending_approval id maker_id = record {
  id = id;
  maker_id = maker_id;
  checker_id = none;
  checker_acted_at = none;
  decision = ApprovalDecision.pending;
  reason = none;
}

-- Maker step of the trustee bank: the approval row names the maker.
unfoldable pub review : String → String → String → Action Reply
review approval_id auth_id maker_id = do
  auth ← require_auth auth_id
  require_status MintAuthorizationStatus.pending_maker auth
  maker ← reads (λ db. find_unique maker_id db.users)
  throw_when (not_trustee_bank maker) (bad_request not_trustee_bank_user)
  patch auth_id (λ a.
      set_status MintAuthorizationStatus.pending_checker
        (set_approval (pending_approval approval_id maker_id) a))
  record_audit (
      audit_row maker_id (some "trustee_operations_maker") "mint_authorization.reviewed" auth_id
        none none)
  pure (auth_id, MintAuthorizationStatus.pending_checker)

abbrev pub acted : Approval → String → ℕ → ApprovalDecision → Option String → Approval
acted approval checker_id now decision reason = record approval {
  checker_id = some checker_id;
  checker_acted_at = some now;
  decision = decision;
  reason = reason;
}

-- The value of a MintBlockReason.
abbrev pub reason_text : MintBlockReason → String
reason_text MintBlockReason.insufficient_capacity = "INSUFFICIENT_CAPACITY"
reason_text MintBlockReason.reserve_data_stale = "RESERVE_DATA_STALE"
reason_text MintBlockReason.bank_connectivity_unavailable = "BANK_CONNECTIVITY_UNAVAILABLE"
reason_text MintBlockReason.reconciliation_unresolved = "RECONCILIATION_UNRESOLVED"
reason_text MintBlockReason.compliance_hold = "COMPLIANCE_HOLD"
reason_text MintBlockReason.asset_minting_suspended = "ASSET_MINTING_SUSPENDED"
reason_text MintBlockReason.program_suspended = "PROGRAM_SUSPENDED"
reason_text MintBlockReason.account_restricted = "ACCOUNT_RESTRICTED"
reason_text MintBlockReason.deposit_not_cleared = "DEPOSIT_NOT_CLEARED"
reason_text MintBlockReason.approval_incomplete = "APPROVAL_INCOMPLETE"
reason_text MintBlockReason.liability_feed_stale = "LIABILITY_FEED_STALE"
reason_text MintBlockReason.proof_of_reserve_expired = "PROOF_OF_RESERVE_EXPIRED"
reason_text MintBlockReason.mint_feature_disabled = "MINT_FEATURE_DISABLED"
reason_text MintBlockReason.non_positive_amount = "NON_POSITIVE_AMOUNT"
reason_text MintBlockReason.currency_mismatch = "CURRENCY_MISMATCH"

-- `reasons.join(', ')`
abbrev pub join_reasons : List MintBlockReason → String
join_reasons [] = ""
join_reasons (r ∷ []) = reason_text r
join_reasons (r ∷ q ∷ rs) = concat (reason_text r) (concat ", " (join_reasons (q ∷ rs)))

-- The branch of `approve` where the guard blocks: the rejection is written, then the call throws.
unfoldable pub reject_blocked : String → String → Approval → MintGuardDecision → Action Reply
reject_blocked auth_id checker_id approval decision = do
  now ← asks (λ env. env.now)
  patch auth_id (set_status MintAuthorizationStatus.rejected)
  patch auth_id (
      set_approval (
        acted approval checker_id now ApprovalDecision.rejected
          (some (concat "Guard blocked: " (join_reasons decision.reasons)))))
  publish (OutboxEvent.mint_authorization_rejected auth_id (guard_reasons decision.reasons))
  throw (bad_request (mint_blocked decision.reasons))

-- The branch of `approve` where the guard allows: sign, earmark, issue.
unfoldable pub issue : String → String → String → MintAuthorization → Approval → Action Reply
issue auth_id checker_id reason auth approval = do
  issued_at ← asks (λ env. env.now)
  ttl ← asks (λ env. env.mint_auth_ttl_s)
  let expires_at = issued_at + ttl * 1000
  sign ← asks (λ env. env.sign)
  let payload : MintPayload = record {
    authorization_id = auth_id;
    program_id = auth.program_id;
    asset_id = auth.asset_id;
    amount_minor = auth.amount_minor;
    currency = auth.currency;
    nonce = auth.nonce;
    issued_at = issued_at;
    expires_at = expires_at;
    single_use = true;
  }
  entry ← lift (
      mint_reservation_entry (money auth.amount_minor auth.currency)
        (mint_references (concat "mint-auth:" auth_id) auth checker_id (some approval.id)))
  post entry
  patch auth_id (λ a. record a {
    status = MintAuthorizationStatus.issued;
    signature = some (sign payload);
    issued_at = some issued_at;
    expires_at = some expires_at;
  })
  patch auth_id
      (set_approval (acted approval checker_id issued_at ApprovalDecision.approved (some reason)))
  record_audit (
      audit_row checker_id (some "trustee_operations_checker") "mint_authorization.approved" auth_id
        none (some approval.id))
  publish (
      OutboxEvent.mint_authorization_approved auth.program_id (record {
        authorization_id = auth_id;
        reference = auth.paychain_request_id;
        tenant_id = auth.tenant_id;
        asset_id = auth.asset_id;
        amount_minor = auth.amount_minor;
        destination = auth.destination;
        expires_at = expires_at;
      }))
  pure (auth_id, MintAuthorizationStatus.issued)

-- The maker of the approval may not act as its checker.
abbrev require_other_checker : Approval → String → Action (Unit {0})
require_other_checker approval checker_id =
    throw_when (str_eq approval.maker_id checker_id) forbidden

-- `approve` after its tests of the row.
unfoldable pub check : String → String → String → MintAuthorization → Approval → Action Reply
check auth_id checker_id reason auth approval = do
  require_other_checker approval checker_id
  checker ← reads (λ db. find_unique checker_id db.users)
  or_throw checker (not_found Subject.checker_user)
  facts ← (λ env db. (gather_guard_facts env db auth true, db))
  decision ← lift (evaluate_mint_guard facts)
  (if decision.allowed
      then issue auth_id checker_id reason auth approval
      else reject_blocked auth_id checker_id approval decision)

unfoldable pub approve : String → String → String → Action Reply
approve auth_id checker_id reason = do
  auth ← require_auth auth_id
  require_status MintAuthorizationStatus.pending_checker auth
  approval ← or_throw auth.approval (bad_request missing_approval)
  check auth_id checker_id reason auth approval

-- Checker step: reject outright. The source tests the approval, and not the status. The checker of an
-- approval refers to a user, which the database requires after the status is written.
unfoldable pub reject : String → String → String → Action Reply
reject auth_id checker_id reason = do
  auth ← require_auth auth_id
  approval ← or_throw auth.approval (bad_request missing_approval)
  require_other_checker approval checker_id
  now ← asks (λ env. env.now)
  patch auth_id (set_status MintAuthorizationStatus.rejected)
  checker ← reads (λ db. find_unique checker_id db.users)
  or_throw checker foreign_key_violation
  patch auth_id
      (set_approval (acted approval checker_id now ApprovalDecision.rejected (some reason)))
  publish (OutboxEvent.mint_authorization_rejected auth_id manual_rejection)
  pure (auth_id, MintAuthorizationStatus.rejected)

-- The reservation is released by an entry of its own.
abbrev release : String → MintAuthorization → String → Action (Unit {0})
release source auth actor = do
  entry ← lift (
      mint_release_entry (money auth.amount_minor auth.currency)
        (mint_references source auth actor none))
  post entry

unfoldable pub revoke : String → String → String → Action Reply
revoke auth_id actor reason = do
  auth ← require_auth auth_id
  require_status MintAuthorizationStatus.issued auth
  release (concat "mint-revoke:" auth_id) auth actor
  patch auth_id (set_status MintAuthorizationStatus.revoked)
  record_audit (audit_row actor none "mint_authorization.revoked" auth_id (some reason) none)
  pure (auth_id, MintAuthorizationStatus.revoked)

-- What `expire` does with an issued authorization.
unfoldable pub lapse : String → String → MintAuthorization → Action Reply
lapse auth_id actor auth = do
  release (concat "mint-expire:" auth_id) auth actor
  patch auth_id (set_status MintAuthorizationStatus.expired)
  publish (OutboxEvent.mint_authorization_expired auth_id)
  pure (auth_id, MintAuthorizationStatus.expired)

unfoldable pub expire : String → String → Action Reply
expire auth_id actor = do
  auth ← require_auth auth_id
  (if is_status MintAuthorizationStatus.issued auth.status
      then lapse auth_id actor auth
      else pure (auth_id, auth.status))

-- `auth.expiresAt && auth.expiresAt < now`
abbrev has_expired : Option ℕ → ℕ → Bool
has_expired none now = false
has_expired (some t) now = ltb t now

-- `ledgerHeight ? BigInt(ledgerHeight) : null`, or none where it throws.
abbrev pub read_height : (String → Option ℤ) → Option String → Option (Option ℤ)
read_height big_int none = some none
read_height big_int (some text) =
    if str_eq text "" then some none else Option.map some (big_int text)

-- What `confirm` does after its tests of the status and the expiry. The height and the time of the
-- confirmation are read after the release is posted.
unfoldable pub realize : String → MintConfirmationInput → MintAuthorization → Action Reply
realize auth_id input auth = do
  throw_when (not (eqb_ℤ input.amount_minor auth.amount_minor)) (bad_request amount_mismatch)
  release (concat "mint-confirm:" auth_id) auth input.actor
  big_int ← asks (λ env. env.big_int)
  ledger_height ← or_throw (read_height big_int input.ledger_height) unreadable_argument
  date ← asks (λ env. env.date)
  confirmed_at ← or_throw (date input.confirmed_at) unreadable_argument
  existing ← reads (λ db. find_unique auth_id db.mint_confirmations)
  throw_when (is_present existing) unique_violation
  let confirmation : MintConfirmation = record {
    paychain_transaction_id = input.paychain_transaction_id;
    blockchain_tx_hash = input.blockchain_tx_hash;
    amount_minor = input.amount_minor;
    currency = auth.currency;
    destination = input.destination;
    ledger_height = ledger_height;
    confirmed_at = confirmed_at;
    paychain_signature = input.paychain_signature;
    verified = true;
  }
  writes λ db. record db { mint_confirmations = (auth_id, confirmation) ∷ db.mint_confirmations }
  patch auth_id (set_status MintAuthorizationStatus.consumed)
  record_audit (audit_row input.actor none "mint.confirmed" auth_id none none)
  publish (OutboxEvent.mint_confirmed auth_id input.blockchain_tx_hash)
  pure (auth_id, MintAuthorizationStatus.consumed)

unfoldable pub confirm : String → MintConfirmationInput → Action Reply
confirm auth_id input = do
  auth ← require_auth auth_id
  require_status MintAuthorizationStatus.issued auth
  now ← asks (λ env. env.now)
  (if has_expired auth.expires_at now
      then (expire auth_id input.actor >> throw (bad_request authorization_expired))
      else realize auth_id input auth)

pub record AuthorizationView : Type 0 where
  pub id : String
  pub status : MintAuthorizationStatus
  pub amount_minor : ℤ
  pub currency : CurrencyCode
  pub expires_at : Option ℕ
  pub signature_key_id : Option String

-- The amount and the time are shown as text in the source.
unfoldable pub get : String → Action AuthorizationView
get auth_id = do
  auth ← require_auth auth_id
  pure (record {
    id = auth_id;
    status = auth.status;
    amount_minor = auth.amount_minor;
    currency = auth.currency;
    expires_at = auth.expires_at;
    signature_key_id = Option.map (λ (s : Signature). s.key_id) auth.signature;
  })
