-- ===== src/Redemption/Owed.antt =====
-- The PENDING_REDEMPTION account against the redemptions that are approved and not paid.
use Prim.Native.String.{◌++◌ as concat}
use text.Mathlib.Text.{◌==◌ as str_eq}
use trustee_bank.Prelude.{
  ℕ, ◌≡◌, refl, ap, ◌∙◌, inl, inr, Bool-cases, String, Bool, true, false, ◌&&◌, arith,
  if◌then◌else◌,
}
use trustee_bank.Prelude.Int.{ℤ, pos, neg, ◌+ℤ◌, ltb_ℤ, int_laws, +ℤ_zero_left, +ℤ_zero_right}
use trustee_bank.Prelude.Text.{same_text, to_upper_case}
use trustee_bank.Money.{CurrencyCode, money}
use trustee_bank.Result.{ok, Option-cases, Result-cases}
use trustee_bank.Ledger.LedgerAccountCode.{liability_pending_redemption}
use trustee_bank.Ledger.Journal.{JournalEntry}
use trustee_bank.Ledger.Entries.{redemption_obligation_entry, payout_confirmed_entry}
use trustee_bank.Store.Table.{find_unique}
use trustee_bank.Store.Query.{is_enabled}
use trustee_bank.Store.Rows.{Redemption, RedemptionStatus}
use trustee_bank.Store.Db.{Db}
use trustee_bank.Store.Action.{Env}
use trustee_bank.ReserveLedger.{post_entry}
use trustee_bank.ReserveLedger.Balance.{contribution}
use trustee_bank.ReserveLedger.Tracking.{
  Tracks, Tracks-entry-update, Tracks-update, Tracks-new, transfer-contribution,
}
use trustee_bank.Redemption.{
  not_trustee_bank, references_of, is_taken, approved_by, burned, submitted, paid,
  RequestRedemption, request, approve, confirm_burn, submit_payout, confirm_payout, is_awaiting,
  is_burnable, is_burn_confirmed, is_payout_submitted,
}

abbrev pub is_owed : RedemptionStatus → Bool
is_owed RedemptionStatus.approved = true
is_owed RedemptionStatus.asset_lock_pending = true
is_owed RedemptionStatus.asset_locked = true
is_owed RedemptionStatus.burn_pending = true
is_owed RedemptionStatus.burn_confirmed = true
is_owed RedemptionStatus.payout_pending = true
is_owed RedemptionStatus.payout_submitted = true
is_owed _ = false

module _ (program_id : String) (currency : CurrencyCode) where
  abbrev pub concerns : Redemption → Bool
  concerns r = str_eq r.program_id program_id && same_text (to_upper_case r.currency) currency

  -- What a redemption adds to the account: its amount from its approval to its payout.
  abbrev pub owed : Redemption → ℤ
  owed r = if is_owed r.status then (if concerns r then r.amount_minor else pos 0) else pos 0

  abbrev pub Owed : Db → Type 0
  Owed db =
      Tracks owed false program_id liability_pending_redemption currency db.ledger_entries
        db.redemptions

  obligation-contribution :
      (source : String) (r : Redemption) (actor : String) {entry : JournalEntry}
      → redemption_obligation_entry (money r.amount_minor r.currency) (references_of source r actor)
        ≡ ok entry
      → contribution false program_id liability_pending_redemption currency entry
        ≡ (if concerns r then r.amount_minor else pos 0)
  unfolding redemption_obligation_entry money
  obligation-contribution source r actor h =
      transfer-contribution _ _ _ _ _ false program_id liability_pending_redemption currency h
      ∙ ap (λ n. if concerns r then n else pos 0) (+ℤ_zero_left _)

  payout-contribution :
      (source : String) (r : Redemption) (actor : String) {entry : JournalEntry}
      → payout_confirmed_entry (money r.amount_minor r.currency) (references_of source r actor)
        ≡ ok entry
      → contribution false program_id liability_pending_redemption currency entry
        ≡ (if concerns r then neg r.amount_minor else pos 0)
  unfolding payout_confirmed_entry money
  payout-contribution source r actor h =
      transfer-contribution _ _ _ _ _ false program_id liability_pending_redemption currency h
      ∙ ap (λ n. if concerns r then n else pos 0) (+ℤ_zero_right _)

  opposite : (b : Bool) (n : ℤ) → (if b then neg n else pos 0) +ℤ (if b then n else pos 0) ≡ pos 0
  opposite true n = omega int_laws
  opposite false n = omega int_laws

  owed-awaiting : (r : Redemption) → is_awaiting r.status ≡ true → owed r ≡ pos 0
  owed-awaiting r h = ground arith

  owed-burned :
      (r : Redemption) (tx : String) (now : ℕ)
      → is_burnable r.status ≡ true
      → owed r ≡ owed (burned tx now r)
  owed-burned r tx now h = ground arith

  owed-submitted :
      (r : Redemption) (reference : String) (now : ℕ)
      → is_burn_confirmed r.status ≡ true
      → owed r ≡ owed (submitted reference now r)
  owed-submitted r reference now h = ground arith

  owed-payable :
      (r : Redemption)
      → is_payout_submitted r.status ≡ true
      → owed r ≡ (if concerns r then r.amount_minor else pos 0)
  owed-payable r h = ground arith

  pub approve-Owed :
      (id approver_id reason : String) (env : Env) (db : Db)
      → Owed db
      → Owed (approve id approver_id reason env db).1
  unfolding approve post_entry
  approve-Owed id approver_id reason env db h =
      elim (Option-cases (find_unique id db.redemptions)) [
        | inr missing ↦ rw missing h
        | inl (r, found) ↦ rw found (elim (Bool-cases (is_awaiting r.status)) [
          | inr other ↦ rw other h
          | inl awaiting ↦
              rw awaiting (elim (Bool-cases (not_trustee_bank (find_unique approver_id db.users))) [
                | inl refused ↦ rw refused h
                | inr accepted ↦
                    rw accepted
                      (elim (Result-cases (
                        redemption_obligation_entry (money r.amount_minor r.currency)
                          (references_of (concat "redemption:" id) r approver_id))) [
                            | inr (e, failed) ↦ rw failed h
                            | inl (entry, built) ↦ rw built (
                                Tracks-entry-update _ _ _ _ _ entry db.ledger_entries id
                                  (approved_by approver_id) db.redemptions r found
                                  (rw
                                    (
                                      obligation-contribution (concat "redemption:" id) r
                                          approver_id built,
                                      owed-awaiting r awaiting,
                                    )
                                    (+ℤ_zero_right _))
                                  h)
                          ])
              ])
        ])
      ]

  pub confirm_burn-Owed :
      (id burn_tx_hash actor : String) (env : Env) (db : Db)
      → Owed db
      → Owed (confirm_burn id burn_tx_hash actor env db).1
  unfolding confirm_burn
  confirm_burn-Owed id burn_tx_hash actor env db h =
      elim (Option-cases (find_unique id db.redemptions)) [
        | inr missing ↦ rw missing h
        | inl (r, found) ↦ rw found (elim (Bool-cases (is_burnable r.status)) [
          | inr other ↦ rw other h
          | inl burnable ↦ rw burnable (
              Tracks-update _ _ _ _ _ db.ledger_entries id (burned burn_tx_hash env.now)
                db.redemptions r found (owed-burned r burn_tx_hash env.now burnable) h)
        ])
      ]

  pub submit_payout-Owed :
      (payout_reference id actor : String) (env : Env) (db : Db)
      → Owed db
      → Owed (submit_payout payout_reference id actor env db).1
  unfolding submit_payout
  submit_payout-Owed payout_reference id actor env db h =
      elim (Option-cases (find_unique id db.redemptions)) [
        | inr missing ↦ rw missing h
        | inl (r, found) ↦ rw found (elim (Bool-cases (is_burn_confirmed r.status)) [
          | inr other ↦ rw other h
          | inl confirmed ↦
              rw confirmed (elim (Bool-cases (is_enabled "bank.payout.enabled" db.feature_flags)) [
                | inr off ↦ rw off h
                | inl on ↦ rw on (
                    Tracks-update _ _ _ _ _ db.ledger_entries id
                      (submitted payout_reference env.now) db.redemptions r found
                      (owed-submitted r payout_reference env.now confirmed) h)
              ])
        ])
      ]

  pub confirm_payout-Owed :
      (id actor : String) (env : Env) (db : Db) → Owed db → Owed (confirm_payout id actor env db).1
  unfolding confirm_payout post_entry
  confirm_payout-Owed id actor env db h = elim (Option-cases (find_unique id db.redemptions)) [
    | inr missing ↦ rw missing h
    | inl (r, found) ↦ rw found (elim (Bool-cases (is_payout_submitted r.status)) [
      | inr other ↦ rw other h
      | inl sent ↦
          rw sent
            (elim (Result-cases (
              payout_confirmed_entry (money r.amount_minor r.currency)
                (references_of (concat "redemption-payout:" id) r actor))) [
                  | inr (e, failed) ↦ rw failed h
                  | inl (entry, built) ↦ rw built (
                      Tracks-entry-update _ _ _ _ _ entry db.ledger_entries id (paid env.now)
                        db.redemptions r found
                        (rw
                          (
                            payout-contribution (concat "redemption-payout:" id) r actor built,
                            owed-payable r sent,
                          )
                          (opposite (concerns r) r.amount_minor))
                        h)
                ])
    ])
  ]

  pub request-Owed :
      (id : String) (input : RequestRedemption) (env : Env) (db : Db)
      → Owed db
      → Owed (request id input env db).1
  unfolding request
  request-Owed id input env db h = elim (Option-cases (find_unique input.program_id db.programs)) [
    | inr missing ↦ rw missing h
    | inl (program, found) ↦
        rw found (elim (Bool-cases (is_enabled "paychain.redemption.enabled" db.feature_flags)) [
          | inr off ↦ rw off h
          | inl on ↦
              rw on
                (elim (Bool-cases
                  (ltb_ℤ (pos 0) (money input.amount_minor program.reference_currency).minor)) [
                    | inr refused ↦ rw refused h
                    | inl positive ↦
                        rw positive
                          (elim (Bool-cases
                            (is_taken id input.paychain_redemption_id db.redemptions)) [
                              | inl taken ↦ rw taken h
                              | inr free ↦ rw free (
                                  Tracks-new _ _ _ _ _ db.ledger_entries id _ db.redemptions refl h)
                            ])
                  ])
        ])
  ]
