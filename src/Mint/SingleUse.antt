-- ===== src/Mint/SingleUse.antt =====
-- Confirmation in mint.service.ts: when it succeeds, and that it does so once.
use Prim.Native.String.{◌++◌ as concat}
use text.Mathlib.TextPositions.{eq_refl}
use trustee_bank.Prelude.{
  ◌≡◌, ◌↔◌, refl, inl, inr, Bool-cases, String, Bool, true, false, ◌&&◌, Option, none, some, List,
  ◌∷◌, arith, is_present,
}
use trustee_bank.Prelude.Int.{pos, ◌<ℤ◌, eqb_ℤ}
use trustee_bank.Result.{Option-cases, Result-cases, Error, ok, err, bad_request, wrong_status}
use trustee_bank.Ledger.Entries.{mint_release_entry}
use trustee_bank.Store.Table.{Table, find_unique, find_unique-update_self}
use trustee_bank.Store.Rows.{MintConfirmation, MintAuthorization, MintAuthorizationStatus}
use trustee_bank.Store.Db.{Db}
use trustee_bank.Store.Action.{Env, Action, throw, ◌>>◌}
use trustee_bank.ReserveLedger.{post_entry}
use trustee_bank.Mint.{
  Reply, MintConfirmationInput, confirm, realize, expire, is_status, has_expired, mint_references,
  set_status, read_height,
}
use trustee_bank.Mint.Desk.{desk, stage, amount_of, HasEnded, ConfirmedEnded}
use trustee_bank.Mint.Calls.{Call, run, after_all, is_readable}
use trustee_bank.Mint.Bookings.{release_accepts}
use trustee_bank.Mint.History.{stage_end, history_moves_forward, after-ConfirmedEnded}

not_issued :
    (s : MintAuthorizationStatus) → stage s ≡ 3 → is_status MintAuthorizationStatus.issued s ≡ false
not_issued s h = ground arith

issued_only :
    (s : MintAuthorizationStatus)
    → is_status MintAuthorizationStatus.issued s ≡ true
    → s ≡ MintAuthorizationStatus.issued
issued_only s h = ground arith

-- An ended authorization is refused.
ended_refuses :
    (id : String) (input : MintConfirmationInput) (env : Env) (db : Db)
    → HasEnded (desk db) id
    → confirm id input env db ≡ (err (bad_request wrong_status), db)
unfolding confirm
ended_refuses id input env db (auth, found, ended) =
    let other : is_status MintAuthorizationStatus.issued auth.status ≡ false =
      not_issued auth.status ended in
    rw (found, other)

-- What `confirm` asks for.
pub record IsConfirmable (id : String) (input : MintConfirmationInput) (env : Env) (db : Db)
    : Type 0 where
  pub auth : MintAuthorization
  pub found : find_unique id db.mint_authorizations ≡ some auth
  pub issued : auth.status ≡ MintAuthorizationStatus.issued
  pub in_time : has_expired auth.expires_at env.now ≡ false
  pub same_amount : input.amount_minor ≡ auth.amount_minor
  pub positive : pos 0 <ℤ auth.amount_minor
  pub readable : is_readable env input ≡ true
  pub first : find_unique id db.mint_confirmations ≡ none

-- The row that a successful confirmation leaves.
abbrev pub Confirmed : String → MintConfirmationInput → MintAuthorization → Db → Type 0
Confirmed id input auth db =
    (find_unique id db.mint_authorizations
      ≡ some (set_status MintAuthorizationStatus.consumed auth))
    × (confirmation : MintConfirmation) × (find_unique id db.mint_confirmations ≡ some confirmation)
    × (confirmation.amount_minor ≡ auth.amount_minor)

never_ok :
    (m : Action Reply) (e : Error) (env : Env) (db : Db) {r : Reply}
    → ((m >> throw {A = Reply} e) env db).0 ≡ ok r
    → ⊥
never_ok m e env db {r} h = elim (Result-cases (m env db).0) [
  | inl (a, k) ↦ cc (rw k at h)
  | inr (f, k) ↦ cc (rw k at h)
]

find_own : {V : Type 0} (k : String) (v : V) (t : Table V) → find_unique k ((k, v) ∷ t) ≡ some v
unfolding find_unique
find_own k v t = rw (eq_refl k)

realize-ok :
    (id : String) (input : MintConfirmationInput) (env : Env) (db : Db) (auth : MintAuthorization)
    {r : Reply}
    → (realize id input auth env db).0 ≡ ok r
    → (input.amount_minor ≡ auth.amount_minor)
      × (pos 0 <ℤ auth.amount_minor)
      × (is_readable env input ≡ true)
      × (find_unique id db.mint_confirmations ≡ none)
unfolding realize post_entry
realize-ok id input env db auth {r} h =
    let references = mint_references (concat "mint-confirm:" id) auth input.actor none in
    elim (Bool-cases (eqb_ℤ input.amount_minor auth.amount_minor)) [
      | inr differs ↦ cc (rw differs at h)
      | inl equal ↦ elim (Result-cases (mint_release_entry (amount_of auth) references)) [
        | inr (e, refused) ↦ cc (rw (equal, refused) at h)
        | inl (entry, built) ↦ elim (Option-cases (read_height env.big_int input.ledger_height)) [
          | inr unread ↦ cc (rw (equal, built, unread) at h)
          | inl (height, read) ↦ elim (Option-cases (env.date input.confirmed_at)) [
            | inr undated ↦ cc (rw (equal, built, read, undated) at h)
            | inl (time, dated) ↦ elim (Option-cases (find_unique id db.mint_confirmations)) [
              | inl (confirmation, present) ↦ cc (rw (equal, built, read, dated, present) at h)
              | inr first ↦ (
                ground arith,
                (release_accepts auth references).0 (entry, built),
                rw (read, dated) refl,
                first,
              )
            ]
          ]
        ]
      ]
    ]

confirm-IsConfirmable :
    (id : String) (input : MintConfirmationInput) (env : Env) (db : Db) {r : Reply}
    → (confirm id input env db).0 ≡ ok r
    → IsConfirmable id input env db
unfolding confirm
confirm-IsConfirmable id input env db {r} h =
    elim (Option-cases (find_unique id db.mint_authorizations)) [
      | inr missing ↦ cc (rw missing at h)
      | inl (auth, found) ↦
          elim (Bool-cases (is_status MintAuthorizationStatus.issued auth.status)) [
            | inr other ↦ cc (rw (found, other) at h)
            | inl issued ↦ elim (Bool-cases (has_expired auth.expires_at env.now)) [
              | inl late ↦
                  absurd (never_ok (expire id input.actor) _ env db (rw (found, issued, late) at h))
              | inr timely ↦
                  let (same, positive, readable, first) =
                    realize-ok id input env db auth (rw (found, issued, timely) at h) in
                  record {
                    auth = auth;
                    found = found;
                    issued = issued_only auth.status issued;
                    in_time = timely;
                    same_amount = same;
                    positive = positive;
                    readable = readable;
                    first = first;
                  }
            ]
          ]
    ]

both_present : (a b : Bool) → (a && b) ≡ true → (a ≡ true) × (b ≡ true)
both_present a b h = ground arith

present_value : {A : Type 0} (m : Option A) → is_present m ≡ true → (a : A) × (m ≡ some a)
present_value none h = cc
present_value (some a) h = (a, refl)

-- A confirmation that meets `IsConfirmable` returns CONSUMED. The row is then consumed and otherwise
-- as before, and a confirmation of its amount is in the database.
pub confirm_consumes :
    (id : String) (input : MintConfirmationInput) (env : Env) (db : Db)
    (c : IsConfirmable id input env db)
    → ((confirm id input env db).0 ≡ ok (id, MintAuthorizationStatus.consumed))
      × Confirmed id input c.auth (confirm id input env db).1
unfolding confirm realize post_entry
confirm_consumes id input env db c =
    let references = mint_references (concat "mint-confirm:" id) c.auth input.actor none in
    let (entry, built) = (release_accepts c.auth references).1 c.positive in
    let waiting : is_status MintAuthorizationStatus.issued c.auth.status ≡ true =
      rw c.issued refl in
    let equal : eqb_ℤ input.amount_minor c.auth.amount_minor ≡ true =
      rw c.same_amount (ground arith) in
    let reads =
      both_present (is_present (read_height env.big_int input.ledger_height))
        (is_present (env.date input.confirmed_at)) c.readable in
    let (height, read) = present_value (read_height env.big_int input.ledger_height) reads.0 in
    let (time, dated) = present_value (env.date input.confirmed_at) reads.1 in
    rw (c.found, waiting, c.in_time, equal, built, read, dated, c.first)
      (
        refl,
        (
          find_unique-update_self id (set_status MintAuthorizationStatus.consumed)
              db.mint_authorizations c.auth c.found,
          _,
          find_own id _ db.mint_confirmations,
          c.same_amount,
        ),
      )

-- `confirm` succeeds exactly for an issued authorization of a positive amount that has not expired
-- and has no confirmation yet, called with its amount, and with a time, and a height if any, that the
-- platform reads.
pub confirm_accepts :
    (id : String) (input : MintConfirmationInput) (env : Env) (db : Db)
    → ((r : Reply) × ((confirm id input env db).0 ≡ ok r)) ↔ IsConfirmable id input env db
confirm_accepts id input env db = (
  λ (r, h). confirm-IsConfirmable id input env db h,
  λ c. (_, (confirm_consumes id input env db c).0),
)

-- After a successful confirmation, in a database whose confirmed authorizations had ended, and after
-- any further history of calls, a confirmation of the same authorization is refused, whatever its
-- input and its time, and leaves the database as it is.
pub single_use :
    (id : String) (input again : MintConfirmationInput) (env later : Env) (db : Db)
    (calls : List (Call × Env)) {r : Reply}
    → ConfirmedEnded (desk db)
    → (confirm id input env db).0 ≡ ok r
    → confirm id again later (after_all calls (confirm id input env db).1)
      ≡ (err (bad_request wrong_status), after_all calls (confirm id input env db).1)
unfolding run
single_use id input again env later db calls {r} ended h =
    let c = confirm-IsConfirmable id input env db h in
    let (reply, (stored, recorded, own, same)) = confirm_consumes id input env db c in
    let (kept, f) =
      history_moves_forward calls (confirm id input env db).1 id
        (after-ConfirmedEnded (Call.confirming id input) env db ended) stored in
    ended_refuses id again later (after_all calls (confirm id input env db).1)
      (f.later, f.found, stage_end f.later.status f.forward)
