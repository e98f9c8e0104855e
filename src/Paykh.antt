-- ===== src/Paykh.antt =====
-- apps/trustee-api/src/modules/paykh: the services for PayKH, the payment platform.
pub mod Merchants
pub mod PaymentProfiles
pub mod PaymentOrders
pub mod Settlements
pub mod ProgramFunds
pub mod Loyalty
pub mod Vault
use trustee_bank.Prelude.{String, Option, none, some}
use trustee_bank.Store.Db.{AuditLog}
use trustee_bank.Ledger.Journal.{JournalReferences}

-- The audit row of an actor's action on a subject.
abbrev pub audit_row : String → String → String → String → Option String → AuditLog
audit_row actor action subject_type id reason = record {
  actor = actor;
  actor_role = none;
  action = action;
  subject_type = subject_type;
  subject_id = some id;
  reason = reason;
  approval_ref = none;
  correlation_id = none;
}

-- The references of an entry; the tenant stands for the program.
abbrev pub references_of : String → String → String → String → JournalReferences
references_of source tenant_id asset_id actor = record {
  source = source;
  program_id = tenant_id;
  asset_id = asset_id;
  actor = actor;
  approval_ref = none;
  correlation_id = none;
}
