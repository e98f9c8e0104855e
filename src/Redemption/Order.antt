-- ===== src/Redemption/Order.antt =====
-- The order of a redemption's milestones, over histories of calls of redemption.service.ts.
use trustee_bank.Result.{Option-cases, Result-cases}
use trustee_bank.Prelude.{
  ℕ, ◌≡◌, refl, inl, inr, Bool-cases, String, Bool, true, ◌&&◌, arith, is_present,
}
use Prim.Native.String.{◌++◌ as concat}
use trustee_bank.Prelude.Int.{pos, ltb_ℤ}
use trustee_bank.Money.{money}
use trustee_bank.Ledger.Entries.{redemption_obligation_entry, payout_confirmed_entry}
use trustee_bank.Store.Query.{is_enabled}
use trustee_bank.ReserveLedger.{post_entry}
use trustee_bank.Store.Table.{Table, find_unique}
use trustee_bank.Store.Every.{Every, put-Every, update-Every}
use trustee_bank.Store.Rows.{Redemption, RedemptionStatus}
use trustee_bank.Store.Db.{Db}
use trustee_bank.Store.Action.{Env}
use trustee_bank.Redemption.{
  not_trustee_bank, references_of, is_taken, approved_by, burned, submitted, paid,
  RequestRedemption, request, approve, confirm_burn, submit_payout, confirm_payout, is_awaiting,
  is_burnable, is_burn_confirmed, is_payout_submitted,
}

abbrev milestones : Redemption → RedemptionStatus → Bool
milestones r RedemptionStatus.approved = is_present r.approved_by_id
milestones r RedemptionStatus.asset_locked = is_present r.approved_by_id
milestones r RedemptionStatus.burn_confirmed =
    is_present r.approved_by_id && is_present r.burn_confirmed_at
milestones r RedemptionStatus.payout_submitted =
    is_present r.approved_by_id
    && (is_present r.burn_confirmed_at && is_present r.payout_submitted_at)
milestones r RedemptionStatus.completed =
    is_present r.approved_by_id
    && (is_present r.burn_confirmed_at
        && (is_present r.payout_submitted_at && is_present r.payout_confirmed_at))
milestones r _ = true

-- A milestone that the row has passed is recorded in it.
abbrev pub is_ordered : Redemption → Bool
is_ordered r = milestones r r.status

abbrev pub IsOrdered : Redemption → Type 0
IsOrdered r = is_ordered r ≡ true

-- Every redemption that is found has its milestones recorded.
abbrev pub Ordered : Table Redemption → Type 0
Ordered t = Every IsOrdered t

is_ordered-approved :
    (r : Redemption)
    → is_awaiting r.status ≡ true
    → (who : String) → is_ordered (approved_by who r) ≡ true
is_ordered-approved r h who = refl

is_ordered-burned :
    (r : Redemption) (tx : String) (now : ℕ)
    → is_ordered r ≡ true
    → is_burnable r.status ≡ true
    → is_ordered (burned tx now r) ≡ true
is_ordered-burned r tx now h k = ground arith

is_ordered-submitted :
    (r : Redemption) (reference : String) (now : ℕ)
    → is_ordered r ≡ true
    → is_burn_confirmed r.status ≡ true
    → is_ordered (submitted reference now r) ≡ true
is_ordered-submitted r reference now h k = ground arith

is_ordered-paid :
    (r : Redemption) (now : ℕ)
    → is_ordered r ≡ true
    → is_payout_submitted r.status ≡ true
    → is_ordered (paid now r) ≡ true
is_ordered-paid r now h k = ground arith

pub approve-Ordered :
    (id approver_id reason : String) (env : Env) (db : Db)
    → Ordered db.redemptions
    → Ordered (approve id approver_id reason env db).1.redemptions
unfolding approve post_entry
approve-Ordered id approver_id reason env db h =
    elim (Option-cases (find_unique id db.redemptions)) [
      | inr missing ↦ rw missing h
      | inl (r, found) ↦ rw found (elim (Bool-cases (is_awaiting r.status)) [
        | inr other ↦ rw other h
        | inl awaiting ↦
            rw awaiting (elim (Bool-cases (not_trustee_bank (find_unique approver_id db.users))) [
              | inl refused ↦ rw refused h
              | inr accepted ↦
                  rw accepted
                    (elim (Result-cases (
                      redemption_obligation_entry (money r.amount_minor r.currency)
                        (references_of (concat "redemption:" id) r approver_id))) [
                          | inr (e, failed) ↦ rw failed h
                          | inl (entry, built) ↦ rw built (
                              update-Every IsOrdered id _ r db.redemptions found
                                (is_ordered-approved r awaiting approver_id) h)
                        ])
            ])
      ])
    ]

pub confirm_burn-Ordered :
    (id burn_tx_hash actor : String) (env : Env) (db : Db)
    → Ordered db.redemptions
    → Ordered (confirm_burn id burn_tx_hash actor env db).1.redemptions
unfolding confirm_burn
confirm_burn-Ordered id burn_tx_hash actor env db h =
    elim (Option-cases (find_unique id db.redemptions)) [
      | inr missing ↦ rw missing h
      | inl (r, found) ↦ rw found (elim (Bool-cases (is_burnable r.status)) [
        | inr other ↦ rw other h
        | inl burnable ↦ rw burnable (
            update-Every IsOrdered id _ r db.redemptions found
              (is_ordered-burned r burn_tx_hash env.now (h id r found) burnable) h)
      ])
    ]

pub submit_payout-Ordered :
    (payout_reference id actor : String) (env : Env) (db : Db)
    → Ordered db.redemptions
    → Ordered (submit_payout payout_reference id actor env db).1.redemptions
unfolding submit_payout
submit_payout-Ordered payout_reference id actor env db h =
    elim (Option-cases (find_unique id db.redemptions)) [
      | inr missing ↦ rw missing h
      | inl (r, found) ↦ rw found (elim (Bool-cases (is_burn_confirmed r.status)) [
        | inr other ↦ rw other h
        | inl confirmed ↦
            rw confirmed (elim (Bool-cases (is_enabled "bank.payout.enabled" db.feature_flags)) [
              | inr off ↦ rw off h
              | inl on ↦ rw on (
                  update-Every IsOrdered id _ r db.redemptions found
                    (is_ordered-submitted r payout_reference env.now (h id r found) confirmed) h)
            ])
      ])
    ]

pub confirm_payout-Ordered :
    (id actor : String) (env : Env) (db : Db)
    → Ordered db.redemptions
    → Ordered (confirm_payout id actor env db).1.redemptions
unfolding confirm_payout post_entry
confirm_payout-Ordered id actor env db h = elim (Option-cases (find_unique id db.redemptions)) [
  | inr missing ↦ rw missing h
  | inl (r, found) ↦ rw found (elim (Bool-cases (is_payout_submitted r.status)) [
    | inr other ↦ rw other h
    | inl sent ↦
        rw sent
          (elim (Result-cases (
            payout_confirmed_entry (money r.amount_minor r.currency)
              (references_of (concat "redemption-payout:" id) r actor))) [
                | inr (e, failed) ↦ rw failed h
                | inl (entry, built) ↦ rw built (
                    update-Every IsOrdered id _ r db.redemptions found
                      (is_ordered-paid r env.now (h id r found) sent) h)
              ])
  ])
]

pub request-Ordered :
    (id : String) (input : RequestRedemption) (env : Env) (db : Db)
    → Ordered db.redemptions
    → Ordered (request id input env db).1.redemptions
unfolding request
request-Ordered id input env db h = elim (Option-cases (find_unique input.program_id db.programs)) [
  | inr missing ↦ rw missing h
  | inl (program, found) ↦
      rw found (elim (Bool-cases (is_enabled "paychain.redemption.enabled" db.feature_flags)) [
        | inr off ↦ rw off h
        | inl on ↦
            rw on
              (elim (Bool-cases
                (ltb_ℤ (pos 0) (money input.amount_minor program.reference_currency).minor)) [
                  | inr refused ↦ rw refused h
                  | inl positive ↦
                      rw positive
                        (elim (Bool-cases
                          (is_taken id input.paychain_redemption_id db.redemptions)) [
                            | inl taken ↦ rw taken h
                            | inr free ↦ rw free (put-Every IsOrdered id _ db.redemptions refl h)
                          ])
                ])
      ])
]
