-- ===== src/Paykh/Settlements.antt =====
-- settlements.service.ts: the settlement of merchants by a maker and a checker. The maker is read from
-- the audit log. Generated identifiers are arguments.
pub mod FourEyes
use Prim.Native.String.{◌++◌ as concat}
use text.Mathlib.Text.{◌==◌ as str_eq}
use trustee_bank.Prelude.{
  ℕ, String, Bool, true, false, not, ◌&&◌, Option, none, some, List, [], ◌∷◌, if◌then◌else◌,
  is_present,
}
use trustee_bank.Prelude.Int.{ℤ}
use trustee_bank.Money.{CurrencyCode, money}
use trustee_bank.Result.{not_found, bad_request, forbidden, unique_violation, Subject, wrong_status}
use trustee_bank.Ledger.Entries.{paykh_merchant_settlement_entry}
use trustee_bank.Store.Table.{find_unique, update}
use trustee_bank.Store.PaykhRows.{PaykhSettlement, SettlementStatus}
use trustee_bank.Store.Db.{Db, AuditLog, PaykhEvent}
use trustee_bank.Store.Action.{
  Action, pure, reads, asks, lift, or_throw, throw_when, writes, record_audit, publish_to_paykh,
  ◌>>=◌, ◌>>◌,
}
use trustee_bank.ReserveLedger.{post}
use trustee_bank.Paykh.{audit_row, references_of}
use trustee_bank.Paykh.Merchants.{require_active}

pub record CreateSettlement : Type 0 where
  pub tenant_id : String
  pub merchant_id : String
  pub amount_minor : ℤ
  pub currency : CurrencyCode
  pub actor : String

abbrev pub Reply : Type 0
Reply = String × SettlementStatus

-- `require`
abbrev pub require : String → Action PaykhSettlement
require id = do
  found ← reads (λ db. find_unique id db.settlements)
  or_throw found (not_found Subject.settlement)

abbrev pub patch : String → (PaykhSettlement → PaykhSettlement) → Action (Unit {0})
patch id f = writes λ db. record db { settlements = update id f db.settlements }

abbrev pub audit : String → String → String → Action (Unit {0})
audit actor action id = record_audit (audit_row actor action "PAYKH_SETTLEMENT" id none)

abbrev pub requested_row : CreateSettlement → PaykhSettlement
requested_row input = record {
  tenant_id = input.tenant_id;
  merchant_id = input.merchant_id;
  amount_minor = input.amount_minor;
  currency = input.currency;
  status = SettlementStatus.requested;
  approved_by_id = none;
  submitted_at = none;
  confirmed_at = none;
}

unfoldable pub create : String → CreateSettlement → Action Reply
create id input = do
  merchant ← require_active input.merchant_id
  taken ← reads (λ db. is_present (find_unique id db.settlements))
  throw_when taken unique_violation
  writes λ db. record db { settlements = (id, requested_row input) ∷ db.settlements }
  audit input.actor "paykh.settlement.requested" id
  audit input.actor "paykh.settlement.maker" id
  pure (id, SettlementStatus.requested)

abbrev pub is_text : Option String → String → Bool
is_text none wanted = false
is_text (some s) wanted = str_eq s wanted

abbrev pub is_maker_log : String → AuditLog → Bool
is_maker_log id log = is_text log.subject_id id && str_eq log.action "paykh.settlement.maker"

-- `findFirst` in the order of creation: the log keeps its latest row first.
unfoldable pub maker_of : String → List AuditLog → Option AuditLog
maker_of id [] = none
maker_of id (log ∷ logs) = elim (maker_of id logs) [
  | some earlier ↦ some earlier
  | none ↦ if is_maker_log id log then some log else none
]

-- `makerLog && makerLog.actor === checkerId`
abbrev pub is_own : Option AuditLog → String → Bool
is_own none checker_id = false
is_own (some log) checker_id = str_eq log.actor checker_id

abbrev pub is_requested : SettlementStatus → Bool
is_requested SettlementStatus.requested = true
is_requested _ = false

abbrev pub is_confirmable : SettlementStatus → Bool
is_confirmable SettlementStatus.approved = true
is_confirmable SettlementStatus.submitted = true
is_confirmable _ = false

abbrev pub is_confirmed : SettlementStatus → Bool
is_confirmed SettlementStatus.confirmed = true
is_confirmed _ = false

abbrev pub approved_by : String → PaykhSettlement → PaykhSettlement
approved_by checker_id s = record s {
  status = SettlementStatus.approved;
  approved_by_id = some checker_id;
}

unfoldable pub approve : String → String → Action Reply
approve id checker_id = do
  s ← require id
  throw_when (not (is_requested s.status)) (bad_request wrong_status)
  maker ← reads (λ db. maker_of id db.audit_logs)
  throw_when (is_own maker checker_id) forbidden
  patch id (approved_by checker_id)
  audit checker_id "paykh.settlement.approved" id
  publish_to_paykh (PaykhEvent.settlement_approved id)
  pure (id, SettlementStatus.approved)

abbrev pub confirmed : ℕ → PaykhSettlement → PaykhSettlement
confirmed now s = record s { status = SettlementStatus.confirmed; confirmed_at = some now }

unfoldable pub confirm : String → String → Action Reply
confirm id actor = do
  s ← require id
  throw_when (not (is_confirmable s.status)) (bad_request wrong_status)
  entry ← lift (
      paykh_merchant_settlement_entry (money s.amount_minor s.currency)
        (references_of (concat "paykh-settlement:" id) s.tenant_id "FIAT" actor))
  post entry
  now ← asks (λ env. env.now)
  patch id (confirmed now)
  publish_to_paykh (PaykhEvent.settlement_confirmed id)
  pure (id, SettlementStatus.confirmed)

pub record SettlementView : Type 0 where
  pub id : String
  pub status : SettlementStatus
  pub amount_minor : ℤ
  pub currency : CurrencyCode

unfoldable pub get : String → Action SettlementView
get id = do
  s ← require id
  pure (record { id = id; status = s.status; amount_minor = s.amount_minor; currency = s.currency })

abbrev pub cancelled : PaykhSettlement → PaykhSettlement
cancelled s = record s { status = SettlementStatus.cancelled }

unfoldable pub cancel : String → String → Action Reply
cancel id actor = do
  s ← require id
  throw_when (is_confirmed s.status) (bad_request wrong_status)
  patch id cancelled
  audit actor "paykh.settlement.cancelled" id
  pure (id, SettlementStatus.cancelled)
