-- ===== src/Reconciliation/Blocks.antt =====
-- What a reserve run of reconciliation.service.ts means to the mint guard's facts.
use text.Mathlib.Text.{◌==◌ as str_eq}
use text.Mathlib.TextPositions.{eq_refl}
use trustee_bank.Prelude.{
  ◌≡◌, ◌≤◌, ◌↔◌, refl, ap, ◌∙◌, inl, inr, ℕ, String, Bool, true, false, not, none, some, List, [],
  ◌∷◌, ◌++◌, All, arith, Bool-cases, Option-cases, ltb, is_present, is_absent,
}
use trustee_bank.Prelude.Int.{pos, ltb_ℤ, ◌≤ℤ◌}
use trustee_bank.Result.{ok}
use trustee_bank.Store.Query.{latest}
use trustee_bank.Store.Rows.{ReconciliationRun, ExceptionDetail}
use trustee_bank.Store.Db.{Db}
use trustee_bank.Store.Action.{Env}
use trustee_bank.Reserve.{ReservePosition, position}
use trustee_bank.Mint.Guard.{has_exceptions}
use trustee_bank.Reconciliation.{
  reconcile_reserve, shortfall_of, missing_feed_of, no_exceptions, run_row,
}

module _ {ℓ} {A : Type ℓ} (keep : A → Bool) (newer : A → A → Bool) where
  some_subst : (x : A) {y z : A} → some z ≡ some y → newer z x ≡ false → newer y x ≡ false
  some_subst x same old = cc

  latest_within :
      (x y : A) (xs : List A)
      → All (λ z. newer z x ≡ false) xs
      → latest keep newer xs ≡ some y
      → newer y x ≡ false
  unfolding latest
  latest_within x y [] h found = cc
  latest_within x y (z ∷ zs) (old, rest) found = elim (Bool-cases (keep z)) [
    | inr dropped ↦ latest_within x y zs rest (rw dropped at found)
    | inl kept ↦ elim (Option-cases (latest keep newer zs)) [
      | inl missing ↦ some_subst x (rw (kept, missing) at found) old
      | inr (w, later) ↦ elim (Bool-cases (newer w z)) [
        | inl newest ↦
            some_subst x (rw (kept, later, newest) at found) (latest_within x w zs rest later)
        | inr older ↦ some_subst x (rw (kept, later, older) at found) old
      ]
    ]
  ]

  -- A row that is kept, before rows none of which is newer, is the latest.
  latest_head :
      (x : A) (xs : List A)
      → keep x ≡ true
      → All (λ z. newer z x ≡ false) xs
      → latest keep newer (x ∷ xs) ≡ some x
  unfolding latest
  latest_head x xs kept h = elim (Option-cases (latest keep newer xs)) [
    | inl missing ↦ rw (kept, missing) refl
    | inr (y, found) ↦ rw (kept, found, latest_within x y xs h found) refl
  ]

not_newer :
    (r : ReconciliationRun) (runs : List ReconciliationRun)
    → All (λ s. s.created_at ≤ r.created_at) runs
    → All (λ s. ltb r.created_at s.created_at ≡ false) runs
not_newer r [] h = tt
not_newer r (s ∷ runs) (old, rest) = (ground arith, not_newer r runs rest)

abbrev of_program : String → ReconciliationRun → Bool
of_program program_id r = elim r.program_id [ none ↦ false | some p ↦ str_eq p program_id ]

clear_iff :
    (program_id : String) (p : ReservePosition)
    → (no_exceptions (shortfall_of p ++ missing_feed_of program_id p) ≡ true)
      ↔ ((pos 0 ≤ℤ p.surplus.minor) × (is_present p.liability_age_seconds ≡ true))
clear_iff program_id p = elim (Bool-cases (ltb_ℤ p.surplus.minor (pos 0))) [
  | inl short ↦ rw short (λ h. cc, λ (h, k). ground arith)
  | inr enough ↦ rw enough (elim (Bool-cases (is_absent p.liability_age_seconds)) [
    | inl missing ↦ rw missing (λ h. cc, λ (h, k). ground arith)
    | inr fed ↦ rw fed (λ h. (ground arith, ground arith), λ h. refl)
  ])
]

stores :
    (id program_id actor : String) (env : Env) (db : Db) (p : ReservePosition)
    → position env.now db program_id ≡ ok p
    → (reconcile_reserve id program_id actor env db).1.reconciliation_runs
      ≡ run_row id "RESERVE"
          (some program_id)
          none
          (shortfall_of p ++ missing_feed_of program_id p)
          actor
          env.now
        ∷ db.reconciliation_runs
unfolding reconcile_reserve
stores id program_id actor env db p read =
    let details = shortfall_of p ++ missing_feed_of program_id p in
    rw read (elim (Bool-cases (no_exceptions details)) [
      | inl clear ↦ rw clear refl
      | inr found ↦ rw found refl
    ])

new_run_decides :
    (id program_id actor : String) (details : List ExceptionDetail) (now : ℕ)
    (runs : List ReconciliationRun)
    → All (λ (s : ReconciliationRun). s.created_at ≤ now) runs
    → has_exceptions program_id
        (run_row id "RESERVE" (some program_id) none details actor now ∷ runs)
      ≡ not (no_exceptions details)
unfolding has_exceptions
new_run_decides id program_id actor details now runs dated =
    let row = run_row id "RESERVE" (some program_id) none details actor now in
    ap (λ o. elim o [ none ↦ false | some run ↦ str_eq run.status "EXCEPTIONS" ])
      (latest_head (of_program program_id) (λ r s. ltb s.created_at r.created_at) row runs
        (eq_refl program_id) (not_newer row runs dated))
    ∙ elim (Bool-cases (no_exceptions details)) [
      | inl clear ↦ rw clear refl
      | inr found ↦ rw found refl
    ]

-- When the position of a program is computed and no stored run is dated ahead of the clock, a reserve
-- run leaves the mint guard without an unresolved reconciliation exactly if the surplus is not negative
-- and the liability feed has a verified snapshot.
pub reserve_run_clears :
    (id program_id actor : String) (env : Env) (db : Db) (p : ReservePosition)
    → position env.now db program_id ≡ ok p
    → All (λ (s : ReconciliationRun). s.created_at ≤ env.now) db.reconciliation_runs
    → (has_exceptions program_id
          (reconcile_reserve id program_id actor env db).1.reconciliation_runs
        ≡ false)
      ↔ ((pos 0 ≤ℤ p.surplus.minor) × (is_present p.liability_age_seconds ≡ true))
reserve_run_clears id program_id actor env db p read dated =
    let details = shortfall_of p ++ missing_feed_of program_id p in
    let decided =
      new_run_decides id program_id actor details env.now db.reconciliation_runs dated in
    let (gives, needs) = clear_iff program_id p in
    rw (stores id program_id actor env db p read, decided)
      (λ h. gives (ground arith), λ h. rw (needs h) refl)
