-- ===== src/Liability/Sequence.antt =====
-- The order of the stored snapshots, and what liability.service.ts accepts.
use trustee_bank.Prelude.{
  ◌≡◌, refl, ◌⊎◌, inl, inr, Bool-cases, String, Bool, true, false, Option, some, none, List, [],
  ◌∷◌, All, arith, is_absent,
}
use trustee_bank.Prelude.Int.{ℤ, ◌<ℤ◌, ◌≤ℤ◌}
use trustee_bank.Result.{
  Error, ok, err, bad_request, conflict, foreign_key_violation, signature_rejected, Option-cases,
}
use trustee_bank.Store.Table.{find_unique}
use trustee_bank.Store.Query.{latest, is_enabled}
use trustee_bank.Store.Rows.{Signature, LiabilitySnapshot}
use trustee_bank.Store.Db.{Db}
use trustee_bank.Store.Action.{Env}
use trustee_bank.Liability.{
  LiabilitySnapshotInput, newer, of_program, is_stale, snapshot_row, check_signature, ingest,
}

-- The snapshots of a program in a list are below a sequence number.
abbrev pub Below : String → ℤ → List LiabilitySnapshot → Type 0
Below p bound rows = All (λ s. of_program p s ≡ true → s.sequence <ℤ bound) rows

-- Each snapshot has a higher sequence number than the earlier ones of its program; the latest comes
-- first.
abbrev pub Increasing : List LiabilitySnapshot → Type 0
Increasing [] = Unit
Increasing (s ∷ rows) = Below s.program_id s.sequence rows × Increasing rows

lift_bound :
    (p : String) (a b : ℤ) (rows : List LiabilitySnapshot)
    → a ≤ℤ b
    → Below p a rows
    → Below p b rows
lift_bound p a b [] le h = tt
lift_bound p a b (s ∷ rows) le (own, rest) =
    (λ k. let below = own k in ground arith, lift_bound p a b rows le rest)

-- Where no snapshot is found, or the one that is found is lower, all are.
fresh-Below :
    (p : String) (sequence : ℤ) (rows : List LiabilitySnapshot)
    → is_stale (latest (of_program p) newer rows) sequence ≡ false
    → Below p sequence rows
unfolding latest
fresh-Below p sequence [] h = tt
fresh-Below p sequence (s ∷ rows) h = elim (Bool-cases (of_program p s)) [
  | inr other ↦ (λ k. cc, fresh-Below p sequence rows (rw other at h))
  | inl own ↦ elim (Option-cases (latest (of_program p) newer rows)) [
    | inr nothing ↦
        let low : is_stale (some s) sequence ≡ false = rw (own, nothing) at h in
        (λ k. ground arith, fresh-Below p sequence rows (rw nothing refl))
    | inl (t, found) ↦ elim (Bool-cases (newer t s)) [
      | inl later ↦
          let low : is_stale (some t) sequence ≡ false = rw (own, found, later) at h in
          (λ k. ground arith, fresh-Below p sequence rows (rw found low))
      | inr earlier ↦
          let low : is_stale (some s) sequence ≡ false = rw (own, found, earlier) at h in
          (λ k. ground arith, fresh-Below p sequence rows (rw found (ground arith)))
    ]
  ]
]

Below-fresh :
    (p : String) (sequence : ℤ) (rows : List LiabilitySnapshot)
    → Below p sequence rows
    → is_stale (latest (of_program p) newer rows) sequence ≡ false
unfolding latest
Below-fresh p sequence [] h = refl
Below-fresh p sequence (s ∷ rows) (own, rest) = elim (Bool-cases (of_program p s)) [
  | inr other ↦ rw other (Below-fresh p sequence rows rest)
  | inl same ↦
      let below = own same in
      let later = Below-fresh p sequence rows rest in
      elim (Option-cases (latest (of_program p) newer rows)) [
        | inr nothing ↦ rw (same, nothing) (ground arith)
        | inl (t, found) ↦ elim (Bool-cases (newer t s)) [
          | inl newest ↦ rw (same, found, newest) (rw found at later)
          | inr older ↦ rw (same, found, older) (ground arith)
        ]
      ]
]

module _ {Key : Type 0} (public_key : Option Key)
    (verify_payload : Key → LiabilitySnapshotInput → Signature → Bool) where
  -- What the feed accepts: a number above all of the program's, a program that exists, and a
  -- signature that verifies under the registered key, or, where one of the two is missing, that
  -- signatures are not required.
  abbrev pub Trusted : Option Key → Option Signature → LiabilitySnapshotInput → Db → Type 0
  Trusted (some key) (some signature) input db =
      verify_payload key (record input { signature = none }) signature ≡ true
  Trusted _ _ input db = is_enabled "liability.signature.required" db.feature_flags ≡ false

  pub record IsAcceptable (input : LiabilitySnapshotInput) (db : Db) : Type 0 where
    pub above : Below input.program_id input.sequence db.liability_snapshots
    pub trusted : Trusted public_key input.signature input db
    pub known : is_absent (find_unique input.program_id db.programs) ≡ false

  check_signature-ok :
      (key : Option Key) (signature : Option Signature) (input : LiabilitySnapshotInput) (env : Env)
      (db : Db)
      → Trusted key signature input db
      → check_signature public_key verify_payload key signature input env db ≡ (ok true, db)
  unfolding check_signature
  check_signature-ok (some key) (some signature) input env db h = rw h refl
  check_signature-ok (some key) none input env db h = rw h refl
  check_signature-ok none signature input env db h = rw h refl

  check_signature-err :
      (key : Option Key) (signature : Option Signature) (input : LiabilitySnapshotInput) (env : Env)
      (db : Db)
      → Trusted key signature input db
        ⊎ (check_signature public_key verify_payload key signature input env db
            ≡ (err (bad_request signature_rejected), db))
  unfolding check_signature
  check_signature-err (some key) (some signature) input env db =
      elim (Bool-cases (verify_payload key (record input { signature = none }) signature)) [
        | inl valid ↦ inl valid
        | inr invalid ↦ inr (rw invalid refl)
      ]
  check_signature-err (some key) none input env db =
      elim (Bool-cases (is_enabled "liability.signature.required" db.feature_flags)) [
        | inl required ↦ inr (rw required refl)
        | inr optional ↦ inl optional
      ]
  check_signature-err none signature input env db =
      elim (Bool-cases (is_enabled "liability.signature.required" db.feature_flags)) [
        | inl required ↦ inr (rw required refl)
        | inr optional ↦ inl optional
      ]

  abbrev pub stored : LiabilitySnapshotInput → Db → Db
  stored input db = record db {
    liability_snapshots = snapshot_row input true ∷ db.liability_snapshots;
  }

  ingest_stores :
      (id : String) (input : LiabilitySnapshotInput) (env : Env) (db : Db)
      → IsAcceptable input db
      → ingest public_key verify_payload id input env db ≡ (ok (id, true), stored input db)
  unfolding ingest
  ingest_stores id input env db h =
      rw
        (
          Below-fresh input.program_id input.sequence db.liability_snapshots h.above,
          check_signature-ok public_key input.signature input env db h.trusted,
          h.known,
        )
        refl

  pub ingest-cases :
      (id : String) (input : LiabilitySnapshotInput) (env : Env) (db : Db)
      → IsAcceptable input db
        ⊎ ((e : Error) × (ingest public_key verify_payload id input env db ≡ (err e, db)))
  unfolding ingest
  ingest-cases id input env db =
      elim (Bool-cases (
        is_stale (latest (of_program input.program_id) newer db.liability_snapshots)
          input.sequence)) [
            | inl stale ↦ inr (conflict, rw stale refl)
            | inr fresh ↦ elim (check_signature-err public_key input.signature input env db) [
              | inr refused ↦ inr (bad_request signature_rejected, rw (fresh, refused) refl)
              | inl trusted ↦
                  let checked =
                    check_signature-ok public_key input.signature input env db trusted in
                  elim (Bool-cases (is_absent (find_unique input.program_id db.programs))) [
                    | inl absent ↦ inr (foreign_key_violation, rw (fresh, checked, absent) refl)
                    | inr known ↦ inl (record {
                      above =
                          fresh-Below input.program_id input.sequence db.liability_snapshots fresh;
                      trusted = trusted;
                      known = known;
                    })
                  ]
            ]
          ]

  unfoldable pub ingest_all : List (String × LiabilitySnapshotInput × Env) → Db → Db
  ingest_all [] db = db
  ingest_all ((id, input, env) ∷ inputs) db =
      ingest_all inputs (ingest public_key verify_payload id input env db).1

  -- From snapshots each of which has a higher sequence number than the earlier ones of its program,
  -- any sequence of calls leaves such snapshots, whichever calls throw.
  pub sequences_increase :
      (inputs : List (String × LiabilitySnapshotInput × Env)) (db : Db)
      → Increasing db.liability_snapshots
      → Increasing (ingest_all inputs db).liability_snapshots
  unfolding ingest_all
  sequences_increase [] db h = h
  sequences_increase ((id, input, env) ∷ inputs) db h =
      sequences_increase inputs (ingest public_key verify_payload id input env db).1
        (elim (ingest-cases id input env db) [
          | inl ready ↦ rw (ingest_stores id input env db ready) (ready.above, h)
          | inr (e, failed) ↦ rw failed h
        ])
