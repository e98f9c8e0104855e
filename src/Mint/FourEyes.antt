-- ===== src/Mint/FourEyes.antt =====
-- Approval in mint.service.ts: when it succeeds, and what it leaves then.
use text.Mathlib.Text.{◌==◌ as str_eq}
use text.Mathlib.TextEquality.{eq_iff}
use Prim.Native.String.{◌++◌ as concat}
use trustee_bank.Prelude.{
  ◌≡◌, ◌≢◌, ◌↔◌, refl, inl, inr, Bool-cases, String, true, false, some, ◌+◌, ◌*◌, arith,
}
use trustee_bank.Prelude.Int.{pos, ◌<ℤ◌}
use trustee_bank.Money.{Money}
use trustee_bank.Result.{Option-cases, Result-cases, ok, >>=-eq-ok}
use trustee_bank.Reserves.Calculation.{mint_capacity}
use trustee_bank.Ledger.Entries.{mint_reservation_entry}
use trustee_bank.Reserves.MintGuard.{MintGuardFacts, MintGuardDecision, evaluate_mint_guard}
use trustee_bank.Reserves.MintGuard.Allowed.{IsClear, guard_decides}
use trustee_bank.Store.Table.{find_unique, find_unique-update_self, update-update}
use trustee_bank.Store.Rows.{MintAuthorization, MintAuthorizationStatus, Approval, User}
use trustee_bank.Store.Db.{Db}
use trustee_bank.Store.Action.{Env}
use trustee_bank.ReserveLedger.{post_entry}
use trustee_bank.Mint.{Reply, approve, check, issue, reject_blocked, is_status, mint_references}
use trustee_bank.Mint.Guard.{gather_guard_facts}
use trustee_bank.Mint.Desk.{amount_of}
use trustee_bank.Mint.Bookings.{reservation_accepts}

-- What `approve` asks for: a maker other than the checker, and every precondition of the guard, on
-- the facts of this moment.
pub record IsApprovable (id checker_id : String) (env : Env) (db : Db) : Type 0 where
  pub auth : MintAuthorization
  pub found : find_unique id db.mint_authorizations ≡ some auth
  pub waiting : auth.status ≡ MintAuthorizationStatus.pending_checker
  pub approval : Approval
  pub present : auth.approval ≡ some approval
  pub other_maker : approval.maker_id ≢ checker_id
  pub checker : User
  pub known : find_unique checker_id db.users ≡ some checker
  pub facts : MintGuardFacts
  pub gathered : gather_guard_facts env db auth true ≡ ok facts
  pub capacity : Money
  pub computed : mint_capacity facts.capacity_input ≡ ok capacity
  pub clear : IsClear facts capacity
  pub positive : pos 0 <ℤ auth.amount_minor

waiting_only :
    (s : MintAuthorizationStatus)
    → is_status MintAuthorizationStatus.pending_checker s ≡ true
    → s ≡ MintAuthorizationStatus.pending_checker
waiting_only s h = ground arith

-- A decision rests on a capacity that could be computed.
decided_capacity :
    (facts : MintGuardFacts) {decision : MintGuardDecision}
    → evaluate_mint_guard facts ≡ ok decision
    → (capacity : Money) × (mint_capacity facts.capacity_input ≡ ok capacity)
unfolding evaluate_mint_guard
decided_capacity facts h =
    let (capacity, computed, rest) = >>=-eq-ok (mint_capacity facts.capacity_input) _ h in
    (capacity, computed)

issue-ok :
    (id checker_id reason : String) (auth : MintAuthorization) (approval : Approval) (env : Env)
    (db : Db) {r : Reply}
    → (issue id checker_id reason auth approval env db).0 ≡ ok r
    → pos 0 <ℤ auth.amount_minor
unfolding issue
issue-ok id checker_id reason auth approval env db h =
    let references = mint_references (concat "mint-auth:" id) auth checker_id (some approval.id) in
    elim (Result-cases (mint_reservation_entry (amount_of auth) references)) [
      | inr (e, refused) ↦ cc (rw refused at h)
      | inl booked ↦ (reservation_accepts auth references).0 booked
    ]

blocked_fails :
    (id checker_id : String) (approval : Approval) (decision : MintGuardDecision) (env : Env)
    (db : Db) {r : Reply}
    → (reject_blocked id checker_id approval decision env db).0 ≡ ok r
    → ⊥
unfolding reject_blocked
blocked_fails id checker_id approval decision env db h = cc

check-IsApprovable :
    (id checker_id reason : String) (auth : MintAuthorization) (approval : Approval) (env : Env)
    (db : Db) {r : Reply}
    → find_unique id db.mint_authorizations ≡ some auth
    → auth.status ≡ MintAuthorizationStatus.pending_checker
    → auth.approval ≡ some approval
    → (check id checker_id reason auth approval env db).0 ≡ ok r
    → IsApprovable id checker_id env db
unfolding check
check-IsApprovable id checker_id reason auth approval env db {r} found waiting present h =
    elim (Bool-cases (str_eq approval.maker_id checker_id)) [
      | inl own ↦ cc (rw own at h)
      | inr other ↦ elim (Option-cases (find_unique checker_id db.users)) [
        | inr missing ↦ cc (rw (other, missing) at h)
        | inl (checker, known) ↦ elim (Result-cases (gather_guard_facts env db auth true)) [
          | inr (e, failed) ↦ cc (rw (other, known, failed) at h)
          | inl (facts, gathered) ↦ elim (Result-cases (evaluate_mint_guard facts)) [
            | inr (e, failed) ↦ cc (rw (other, known, gathered, failed) at h)
            | inl (decision, made) ↦ elim (Bool-cases decision.allowed) [
              | inr blocked ↦ absurd (
                  blocked_fails id checker_id approval decision env db
                    (simp (other, known, gathered, made, blocked) at h))
              | inl allowed ↦
                  let (capacity, computed) = decided_capacity facts made in
                  let (same, made', _, decides) = guard_decides facts computed in
                  let e : same ≡ decision = cc in
                  record {
                    auth = auth;
                    found = found;
                    waiting = waiting;
                    approval = approval;
                    present = present;
                    other_maker = λ q. cc ((eq_iff approval.maker_id checker_id).1 q, other);
                    checker = checker;
                    known = known;
                    facts = facts;
                    gathered = gathered;
                    capacity = capacity;
                    computed = computed;
                    clear = decides.0 (rw e allowed);
                    positive =
                        issue-ok id checker_id reason auth approval env db
                          (simp (other, known, gathered, made, allowed) at h);
                  }
            ]
          ]
        ]
      ]
    ]

approve-IsApprovable :
    (id checker_id reason : String) (env : Env) (db : Db) {r : Reply}
    → (approve id checker_id reason env db).0 ≡ ok r
    → IsApprovable id checker_id env db
unfolding approve
approve-IsApprovable id checker_id reason env db {r} h =
    elim (Option-cases (find_unique id db.mint_authorizations)) [
      | inr missing ↦ cc (rw missing at h)
      | inl (auth, found) ↦
          elim (Bool-cases (is_status MintAuthorizationStatus.pending_checker auth.status)) [
            | inr other ↦ cc (rw (found, other) at h)
            | inl waiting ↦ elim (Option-cases auth.approval) [
              | inr missing ↦ cc (rw (found, waiting, missing) at h)
              | inl (approval, present) ↦
                  check-IsApprovable id checker_id reason auth approval env db found
                    (waiting_only auth.status waiting) present (simp (found, waiting, present) at h)
            ]
          ]
    ]

-- The row of an issued authorization, by this checker.
abbrev pub Issued : String → String → Env → MintAuthorization → Db → Type 0
Issued id checker_id env auth db =
    (row : MintAuthorization) × (find_unique id db.mint_authorizations ≡ some row)
    × (row.status ≡ MintAuthorizationStatus.issued)
    × (row.issued_at ≡ some env.now)
    × (row.expires_at ≡ some (env.now + env.mint_auth_ttl_s * 1000))
    × (approval : Approval) × (row.approval ≡ some approval)
    × (approval.checker_id ≡ some checker_id)

differ : (s t : String) → s ≢ t → str_eq s t ≡ false
differ s t h = elim (Bool-cases (str_eq s t)) [
  | inl same ↦ absurd (h ((eq_iff s t).0 same))
  | inr other ↦ other
]

-- An approval that meets `IsApprovable` returns ISSUED. The row is then issued at the clock's time,
-- expires after the configured life time, and names the caller as its checker.
pub approve_issues :
    (id checker_id reason : String) (env : Env) (db : Db) (a : IsApprovable id checker_id env db)
    → ((approve id checker_id reason env db).0 ≡ ok (id, MintAuthorizationStatus.issued))
      × Issued id checker_id env a.auth (approve id checker_id reason env db).1
unfolding approve check issue post_entry
approve_issues id checker_id reason env db a =
    let references =
      mint_references (concat "mint-auth:" id) a.auth checker_id (some a.approval.id) in
    let (entry, built) = (reservation_accepts a.auth references).1 a.positive in
    let (decision, made, _, decides) = guard_decides a.facts a.computed in
    let waiting : is_status MintAuthorizationStatus.pending_checker a.auth.status ≡ true =
      rw a.waiting refl in
    let other : str_eq a.approval.maker_id checker_id ≡ false =
      differ a.approval.maker_id checker_id a.other_maker in
    let allowed = decides.1 a.clear in
    simp
      (a.found, waiting, a.present, other, a.known, a.gathered, made, allowed, built, update-update)
      (
        refl,
        (
          _,
          find_unique-update_self id _ db.mint_authorizations a.auth a.found,
          refl,
          refl,
          refl,
          _,
          refl,
          refl,
        ),
      )

-- `approve` succeeds exactly when the authorization awaits a checker, its approval names a maker other
-- than the caller, the caller is a user, and the mint guard's preconditions hold on the facts gathered
-- at that moment, for a positive amount.
pub approve_accepts :
    (id checker_id reason : String) (env : Env) (db : Db)
    → ((r : Reply) × ((approve id checker_id reason env db).0 ≡ ok r))
      ↔ IsApprovable id checker_id env db
approve_accepts id checker_id reason env db = (
  λ (r, h). approve-IsApprovable id checker_id reason env db h,
  λ a. (_, (approve_issues id checker_id reason env db a).0),
)
