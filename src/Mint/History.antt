-- ===== src/Mint/History.antt =====
-- Histories of calls: what no call takes back.
use trustee_bank.Prelude.{
  ◌≤◌, ◌≡◌, ◌⊎◌, refl, sym, ap, ◌∙◌, inl, inr, Bool-cases, String, List, [], ◌∷◌, none, some, arith,
}
use text.Mathlib.Text.{◌==◌ as str_eq}
use text.Mathlib.TextEquality.{eq_iff}
use trustee_bank.Store.Table.{
  Table, find_unique, update, find_unique-update_self, find_unique-update_ne,
}
use trustee_bank.Store.Rows.{MintAuthorization, MintAuthorizationStatus}
use trustee_bank.Store.Db.{Db}
use trustee_bank.Store.Action.{Env}
use trustee_bank.Mint.Desk.{
  Desk, desk, Step, Strands, Slips, Changes, SameTerms, stage, HasEnded, ConfirmedEnded,
}
use trustee_bank.Mint.Calls.{Call, after, after_all}
use trustee_bank.Mint.Refines.{run-Step}

-- The later row: as far or further, on the same terms.
pub record Follows (id : String) (auth : MintAuthorization) (d : Desk) : Type 0 where
  pub later : MintAuthorization
  pub found : find_unique id d.authorizations ≡ some later
  pub forward : stage auth.status ≤ stage later.status
  pub terms : SameTerms auth later

change-Follows :
    (d : Desk) (key id : String) (f : MintAuthorization → MintAuthorization) (c : Changes d key f)
    {auth : MintAuthorization} (e : Desk)
    → e.authorizations ≡ update key f d.authorizations
    → stage c.row.status ≤ stage (f c.row).status
    → find_unique id d.authorizations ≡ some auth
    → Follows id auth e
change-Follows d key id f c {auth} e result up found = elim (Bool-cases (str_eq key id)) [
  | inl here ↦
      let k : key ≡ id = (eq_iff key id).0 here in
      let same : c.row ≡ auth = cc in
      record {
        later = f c.row;
        found = rw (result, sym k) (find_unique-update_self key f d.authorizations c.row c.found);
        forward = rw (sym same) up;
        terms = rw (sym same) c.same_terms;
      }
  | inr there ↦ record {
    later = auth;
    found = rw result (find_unique-update_ne key id f d.authorizations there ∙ found);
    forward = omega arith;
    terms = record { same_program = refl; same_amount = refl; same_currency = refl };
  }
]

older :
    {A : Type 0} (key id : String) (a : A) {b : A} (t : Table A)
    → find_unique key t ≡ none
    → find_unique id t ≡ some b
    → find_unique id ((key, a) ∷ t) ≡ some b
unfolding find_unique
older key id a t fresh found = ground (arith, eq_iff key id)

step-Follows :
    {d e : Desk} (id : String) {auth : MintAuthorization}
    → Step d e
    → find_unique id d.authorizations ≡ some auth
    → Follows id auth e
step-Follows id {auth} Step.idle found = record {
  later = auth;
  found = found;
  forward = omega arith;
  terms = record { same_program = refl; same_amount = refl; same_currency = refl };
}
step-Follows id {auth} (Step.requested {d} key new fresh start) found = record {
  later = auth;
  found = older key id new d.authorizations fresh found;
  forward = omega arith;
  terms = record { same_program = refl; same_amount = refl; same_currency = refl };
}
step-Follows id (Step.moved {d} key f c up from to) found =
    change-Follows d key id f c _ refl up found
step-Follows id (Step.reserved {d} key f c from to references entry own built) found =
    change-Follows d key id f c _ refl (omega arith) found
step-Follows id (Step.released {d} key f c from to references entry own built) found =
    change-Follows d key id f c _ refl (omega arith) found
step-Follows id
      (Step.confirmed {d} key f c from to references entry confirmation own built first same)
      found =
    change-Follows d key id f c _ refl (omega arith) found

Strands-Follows :
    {d e : Desk} (id : String) {auth : MintAuthorization}
    → Strands d e
    → find_unique id d.authorizations ≡ some auth
    → Follows id auth e
Strands-Follows {d} {e} id s found =
    change-Follows d s.id id s.f s.change e (ap (λ (x : Desk). x.authorizations) s.result)
      (omega (arith, s.was_issued, s.now_ended)) found

pub stage_end : (s : MintAuthorizationStatus) → 3 ≤ stage s → stage s ≡ 3
stage_end s h = ground arith

kept_ended :
    {d : Desk} {id : String} (auth : MintAuthorization)
    → stage auth.status ≡ 3
    → Follows id auth d
    → HasEnded d id
kept_ended auth ended f = (f.later, f.found, stage_end f.later.status (omega (arith, f.forward)))

-- An ended authorization stays ended.
step-HasEnded : {d e : Desk} (id : String) → Step d e → HasEnded d id → HasEnded e id
step-HasEnded id step (auth, found, ended) = kept_ended auth ended (step-Follows id step found)

newer :
    {A : Type 0} (key id : String) (a : A) {b : A} (t : Table A)
    → find_unique id ((key, a) ∷ t) ≡ some b
    → (key ≡ id) ⊎ (find_unique id t ≡ some b)
unfolding find_unique
newer key id a t found = ground (arith, eq_iff key id)

pub step-ConfirmedEnded : {d e : Desk} → Step d e → ConfirmedEnded d → ConfirmedEnded e
step-ConfirmedEnded Step.idle h k confirmation present = h k confirmation present
step-ConfirmedEnded (Step.requested {d} id auth fresh new) h k confirmation present =
    step-HasEnded k (Step.requested {d = d} id auth fresh new) (h k confirmation present)
step-ConfirmedEnded (Step.moved id f c up from to) h k confirmation present =
    step-HasEnded k (Step.moved id f c up from to) (h k confirmation present)
step-ConfirmedEnded (Step.reserved id f c from to references entry own built) h k confirmation
      present =
    step-HasEnded k (Step.reserved id f c from to references entry own built)
      (h k confirmation present)
step-ConfirmedEnded (Step.released id f c from to references entry own built) h k confirmation
      present =
    step-HasEnded k (Step.released id f c from to references entry own built)
      (h k confirmation present)
step-ConfirmedEnded
      (Step.confirmed {d} id f c from to references entry first_one own built first same) h k
      confirmation present =
    elim (newer id k first_one d.confirmations present) [
      | inl here ↦
          rw (sym here) (f c.row, find_unique-update_self id f d.authorizations c.row c.found, to)
      | inr there ↦
          step-HasEnded k
            (Step.confirmed id f c from to references entry first_one own built first same)
            (h k confirmation there)
    ]

Strands-ConfirmedEnded : {d e : Desk} → Strands d e → ConfirmedEnded d → ConfirmedEnded e
Strands-ConfirmedEnded {d} {e} s h k confirmation present =
    let (auth, found, ended) =
      h k confirmation
        (ap (λ (x : Desk). find_unique k x.confirmations) (sym s.result) ∙ present) in
    kept_ended auth ended (Strands-Follows k s found)

-- A slip leaves the rows and the confirmations as they are.
Slips-Follows :
    {d e : Desk} (id : String) {auth : MintAuthorization}
    → Slips d e
    → find_unique id d.authorizations ≡ some auth
    → Follows id auth e
Slips-Follows id {auth} s found = record {
  later = auth;
  found = rw s.result found;
  forward = omega arith;
  terms = record { same_program = refl; same_amount = refl; same_currency = refl };
}

Slips-ConfirmedEnded : {d e : Desk} → Slips d e → ConfirmedEnded d → ConfirmedEnded e
Slips-ConfirmedEnded s h = rw s.result h

-- What a call keeps.
pub after-ConfirmedEnded :
    (call : Call) (env : Env) (db : Db)
    → ConfirmedEnded (desk db)
    → ConfirmedEnded (desk (after call env db))
after-ConfirmedEnded call env db h = elim (run-Step call env db h) [
  | inl step ↦ step-ConfirmedEnded step h
  | inr (inl (strands, _)) ↦ Strands-ConfirmedEnded strands h
  | inr (inr (slips, _)) ↦ Slips-ConfirmedEnded slips h
]

pub after-Follows :
    (call : Call) (env : Env) (db : Db) (id : String) {auth : MintAuthorization}
    → ConfirmedEnded (desk db)
    → find_unique id db.mint_authorizations ≡ some auth
    → Follows id auth (desk (after call env db))
after-Follows call env db id h found = elim (run-Step call env db h) [
  | inl step ↦ step-Follows id step found
  | inr (inl (strands, _)) ↦ Strands-Follows id strands found
  | inr (inr (slips, _)) ↦ Slips-Follows id slips found
]

Follows-trans :
    {d e : Desk} {id : String} {a : MintAuthorization} (f : Follows id a d)
    → Follows id f.later e
    → Follows id a e
Follows-trans f g = record {
  later = g.later;
  found = g.found;
  forward = omega (arith, f.forward, g.forward);
  terms = record {
    same_program = f.terms.same_program ∙ g.terms.same_program;
    same_amount = f.terms.same_amount ∙ g.terms.same_amount;
    same_currency = f.terms.same_currency ∙ g.terms.same_currency;
  };
}

-- Over any history of calls every confirmation stays one of an ended authorization, and an
-- authorization stays in the table, moves only forward through its stages, and keeps its program,
-- amount and currency.
pub history_moves_forward :
    (calls : List (Call × Env)) (db : Db) (id : String) {auth : MintAuthorization}
    → ConfirmedEnded (desk db)
    → find_unique id db.mint_authorizations ≡ some auth
    → ConfirmedEnded (desk (after_all calls db)) × Follows id auth (desk (after_all calls db))
unfolding after_all
history_moves_forward [] db id {auth} h found = (
  h,
  record {
    later = auth;
    found = found;
    forward = omega arith;
    terms = record { same_program = refl; same_amount = refl; same_currency = refl };
  },
)
history_moves_forward ((call, env) ∷ calls) db id h found =
    let f = after-Follows call env db id h found in
    let (kept, g) =
      history_moves_forward calls (after call env db) id (after-ConfirmedEnded call env db h)
        f.found in
    (kept, Follows-trans f g)
