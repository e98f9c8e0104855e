-- ===== src/Paykh/Settlements/FourEyes.antt =====
-- Maker and checker of a settlement, over histories of calls of settlements.service.ts.
use Prim.Native.String.{◌++◌ as concat}
use text.Mathlib.Text.{◌==◌ as str_eq}
use text.Mathlib.TextEquality.{eq_iff}
use text.Mathlib.TextPositions.{eq_refl}
use trustee_bank.Prelude.{
  ◌≡◌, ◌≢◌, refl, sym, ap, subst, ◌∙◌, inl, inr, Bool-cases, String, Bool, true, false, some, none,
  List, [], ◌∷◌, arith, is_present,
}
use trustee_bank.Result.{Option-cases, Result-cases}
use trustee_bank.Money.{money}
use trustee_bank.Ledger.Entries.{paykh_merchant_settlement_entry}
use trustee_bank.Store.Table.{Table, find_unique, update}
use trustee_bank.Store.Every.{some_injective}
use trustee_bank.Store.Keyed.{find_unique-update_inv}
use trustee_bank.Store.PaykhRows.{PaykhSettlement, SettlementStatus}
use trustee_bank.Store.Db.{Db, AuditLog}
use trustee_bank.Store.Action.{Env}
use trustee_bank.ReserveLedger.{post_entry}
use trustee_bank.Paykh.{audit_row, references_of}
use trustee_bank.Paykh.Merchants.{require_active}
use trustee_bank.Paykh.Settlements.{
  CreateSettlement, create, approve, confirm, cancel, maker_of, is_own, is_requested,
  is_confirmable, is_confirmed, approved_by, confirmed, cancelled, requested_row,
}

-- A settlement that a checker has approved, or that was paid after it.
abbrev pub is_decided : SettlementStatus → Bool
is_decided SettlementStatus.approved = true
is_decided SettlementStatus.submitted = true
is_decided SettlementStatus.confirmed = true
is_decided _ = false

-- The maker on record, and a checker who is another.
pub record Decided (s : PaykhSettlement) (maker : AuditLog) : Type 0 where
  pub checker : String
  pub recorded : s.approved_by_id ≡ some checker
  pub other : str_eq maker.actor checker ≡ false

pub record IsSeparate (id : String) (logs : List AuditLog) (s : PaykhSettlement) : Type 0 where
  pub maker : AuditLog
  pub on_record : maker_of id logs ≡ some maker
  pub decided : is_decided s.status ≡ true → Decided s maker

-- Every settlement that is found has its maker on record, and was approved by another.
abbrev pub Separate : Table PaykhSettlement → List AuditLog → Type 0
Separate t logs =
    (id : String) (s : PaykhSettlement) → find_unique id t ≡ some s → IsSeparate id logs s

-- A new row of the log changes no maker on record.
later_log :
    (id : String) (log : AuditLog) (logs : List AuditLog) {maker : AuditLog}
    → maker_of id logs ≡ some maker
    → maker_of id (log ∷ logs) ≡ some maker
unfolding maker_of
later_log id log logs h = rw h refl

log-Separate :
    (log : AuditLog) (t : Table PaykhSettlement) (logs : List AuditLog)
    → Separate t logs
    → Separate t (log ∷ logs)
log-Separate log t logs h id s found =
    let i = h id s found in
    record { maker = i.maker; on_record = later_log id log logs i.on_record; decided = i.decided }

patch-Separate :
    (k : String) (f : PaykhSettlement → PaykhSettlement) (t : Table PaykhSettlement)
    (logs : List AuditLog) (s : PaykhSettlement)
    → find_unique k t ≡ some s
    → IsSeparate k logs (f s)
    → Separate t logs
    → Separate (update k f t) logs
patch-Separate k f t logs s found new h j w present =
    let (v, found_v, which) = find_unique-update_inv k j f t w present in
    elim which [
      | inl same ↦ subst (IsSeparate j logs) (sym same) (h j v found_v)
      | inr (here, patched) ↦
          let e : s ≡ v = some_injective (sym found ∙ ap (λ i. find_unique i t) here ∙ found_v) in
          subst (λ i. IsSeparate i logs w) here
            (subst (IsSeparate k logs) (ap f e ∙ sym patched) new)
    ]

-- A row of the maker puts a maker on record.
first_maker :
    (id actor : String) (logs : List AuditLog)
    → (maker : AuditLog) × (maker_of id
          (audit_row actor "paykh.settlement.maker" "PAYKH_SETTLEMENT" id none ∷ logs)
        ≡ some maker)
unfolding maker_of
first_maker id actor logs = elim (Option-cases (maker_of id logs)) [
  | inl (earlier, found) ↦ (earlier, rw found refl)
  | inr none_yet ↦ (
    audit_row actor "paykh.settlement.maker" "PAYKH_SETTLEMENT" id none,
    rw (none_yet, eq_refl id) refl,
  )
]

decided_of : (s : SettlementStatus) → is_confirmable s ≡ true → is_decided s ≡ true
decided_of s h = ground arith

new-Separate :
    (id actor : String) (input : CreateSettlement) (t : Table PaykhSettlement)
    (logs : List AuditLog)
    → Separate t logs
    → Separate
        ((id, requested_row input) ∷ t)
        (audit_row actor "paykh.settlement.maker" "PAYKH_SETTLEMENT" id none ∷ logs)
unfolding find_unique
new-Separate id actor input t logs h j w present = elim (Bool-cases (str_eq id j)) [
  | inr there ↦ log-Separate _ t logs h j w (rw there at present)
  | inl here ↦
      let same : requested_row input ≡ w = some_injective (rw here at present) in
      let (maker, on_record) = first_maker id actor logs in
      let logs' = audit_row actor "paykh.settlement.maker" "PAYKH_SETTLEMENT" id none ∷ logs in
      subst (λ i. IsSeparate i logs' w) ((eq_iff id j).0 here)
        (subst (IsSeparate id logs') same
          (record { maker = maker; on_record = on_record; decided = λ k. cc }))
]

create-Separate :
    (id : String) (input : CreateSettlement) (env : Env) (db : Db)
    → Separate db.settlements db.audit_logs
    → Separate (create id input env db).1.settlements (create id input env db).1.audit_logs
unfolding create require_active
create-Separate id input env db h =
    elim (Option-cases (find_unique input.merchant_id db.merchants)) [
      | inr nobody ↦ rw nobody h
      | inl (m, listed) ↦ rw listed (elim (Bool-cases (str_eq m.status "ACTIVE")) [
        | inr inactive ↦ rw inactive h
        | inl active ↦ rw active (elim (Bool-cases (str_eq m.kyc_status "VERIFIED")) [
          | inr unverified ↦ rw unverified h
          | inl verified ↦
              rw verified (elim (Bool-cases (is_present (find_unique id db.settlements))) [
                | inl taken ↦ rw taken h
                | inr free ↦ rw free (
                    new-Separate id input.actor input db.settlements _
                      (log-Separate _ db.settlements db.audit_logs h))
              ])
        ])
      ])
    ]

approve-Separate :
    (id checker_id : String) (env : Env) (db : Db)
    → Separate db.settlements db.audit_logs
    → Separate
        (approve id checker_id env db).1.settlements
        (approve id checker_id env db).1.audit_logs
unfolding approve
approve-Separate id checker_id env db h = elim (Option-cases (find_unique id db.settlements)) [
  | inr missing ↦ rw missing h
  | inl (s, found) ↦ rw found (elim (Bool-cases (is_requested s.status)) [
    | inr other ↦ rw other h
    | inl requested ↦
        rw requested (elim (Bool-cases (is_own (maker_of id db.audit_logs) checker_id)) [
          | inl own ↦ rw own h
          | inr separate ↦
              let i = h id s found in
              rw separate (
                log-Separate _ _ db.audit_logs (
                  patch-Separate id (approved_by checker_id) db.settlements db.audit_logs s found
                    (record {
                      maker = i.maker;
                      on_record = i.on_record;
                      decided = λ k. record {
                        checker = checker_id;
                        recorded = refl;
                        other = rw i.on_record at separate;
                      };
                    })
                    h))
        ])
  ])
]

confirm-Separate :
    (id actor : String) (env : Env) (db : Db)
    → Separate db.settlements db.audit_logs
    → Separate (confirm id actor env db).1.settlements (confirm id actor env db).1.audit_logs
unfolding confirm post_entry
confirm-Separate id actor env db h = elim (Option-cases (find_unique id db.settlements)) [
  | inr missing ↦ rw missing h
  | inl (s, found) ↦ rw found (elim (Bool-cases (is_confirmable s.status)) [
    | inr other ↦ rw other h
    | inl confirmable ↦
        rw confirmable
          (elim (Result-cases (
            paykh_merchant_settlement_entry (money s.amount_minor s.currency)
              (references_of (concat "paykh-settlement:" id) s.tenant_id "FIAT" actor))) [
                | inr (e, failed) ↦ rw failed h
                | inl (entry, built) ↦
                    let i = h id s found in
                    let d = i.decided (decided_of s.status confirmable) in
                    rw built (
                      patch-Separate id (confirmed env.now) db.settlements db.audit_logs s found
                        (record {
                          maker = i.maker;
                          on_record = i.on_record;
                          decided = λ k. record {
                            checker = d.checker;
                            recorded = d.recorded;
                            other = d.other;
                          };
                        })
                        h)
              ])
  ])
]

cancel-Separate :
    (id actor : String) (env : Env) (db : Db)
    → Separate db.settlements db.audit_logs
    → Separate (cancel id actor env db).1.settlements (cancel id actor env db).1.audit_logs
unfolding cancel
cancel-Separate id actor env db h = elim (Option-cases (find_unique id db.settlements)) [
  | inr missing ↦ rw missing h
  | inl (s, found) ↦ rw found (elim (Bool-cases (is_confirmed s.status)) [
    | inl paid ↦ rw paid h
    | inr unpaid ↦
        let i = h id s found in
        rw unpaid (
          log-Separate _ _ db.audit_logs (
            patch-Separate id cancelled db.settlements db.audit_logs s found
              (record { maker = i.maker; on_record = i.on_record; decided = λ k. cc }) h))
  ])
]

pub data Call : Type 0 where
  creating : String → CreateSettlement → Call
  approving : String → String → Call
  confirming : String → String → Call
  cancelling : String → String → Call

-- The database after a call, whether it returns or throws.
unfoldable pub after : Call → Env → Db → Db
after (Call.creating id input) env db = (create id input env db).1
after (Call.approving id checker_id) env db = (approve id checker_id env db).1
after (Call.confirming id actor) env db = (confirm id actor env db).1
after (Call.cancelling id actor) env db = (cancel id actor env db).1

unfoldable pub after_all : List (Call × Env) → Db → Db
after_all [] db = db
after_all ((call, env) ∷ calls) db = after_all calls (after call env db)

after-Separate :
    (call : Call) (env : Env) (db : Db)
    → Separate db.settlements db.audit_logs
    → Separate (after call env db).settlements (after call env db).audit_logs
unfolding after
after-Separate (Call.creating id input) env db h = create-Separate id input env db h
after-Separate (Call.approving id checker_id) env db h = approve-Separate id checker_id env db h
after-Separate (Call.confirming id actor) env db h = confirm-Separate id actor env db h
after-Separate (Call.cancelling id actor) env db h = cancel-Separate id actor env db h

after_all-Separate :
    (calls : List (Call × Env)) (db : Db)
    → Separate db.settlements db.audit_logs
    → Separate (after_all calls db).settlements (after_all calls db).audit_logs
unfolding after_all
after_all-Separate [] db h = h
after_all-Separate ((call, env) ∷ calls) db h =
    after_all-Separate calls (after call env db) (after-Separate call env db h)

-- From a database in which every settlement has its maker in the audit log, and every approved,
-- submitted or confirmed one a recorded checker other than that maker: whatever calls of the service
-- follow, a settlement that is found confirmed was made by the actor of the first such row of the log
-- and approved by a recorded checker who is not that actor.
pub settlement_four_eyes :
    (calls : List (Call × Env)) (db : Db) (id : String) (s : PaykhSettlement)
    → Separate db.settlements db.audit_logs
    → find_unique id (after_all calls db).settlements ≡ some s
    → s.status ≡ SettlementStatus.confirmed
    → (maker : AuditLog) × (checker : String) × (maker_of id (after_all calls db).audit_logs
        ≡ some maker)
      × (s.approved_by_id ≡ some checker)
      × (maker.actor ≢ checker)
settlement_four_eyes calls db id s h found paid =
    let i = after_all-Separate calls db h id s found in
    let d = i.decided (rw paid refl) in
    (
      i.maker,
      d.checker,
      i.on_record,
      d.recorded,
      λ same. cc ((eq_iff i.maker.actor d.checker).1 same, d.other),
    )
