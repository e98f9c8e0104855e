-- ===== src/Paykh/Vault/Tokens.antt =====
-- The calls of loyalty.service.ts as steps on the tables.
use Prim.Native.String.{◌++◌ as concat}
use text.Mathlib.Text.{◌==◌ as str_eq}
use trustee_bank.Prelude.{
  ◌≡◌, ◌⊎◌, ◌∷◌, refl, ◌∙◌, inl, inr, Bool-cases, String, Option, some, none, arith,
}
use trustee_bank.Prelude.Int.{ℤ, pos, ◌-ℤ◌, ◌<ℤ◌, ltb_ℤ}
use trustee_bank.Prelude.Text.{to_upper_case, to_upper_case_idem}
use trustee_bank.Money.{Money, money}
use trustee_bank.Peg.{make_peg, backing_for_units}
use trustee_bank.Result.{Error, err, ok, Option-cases, Result-cases}
use trustee_bank.Ledger.LedgerAccountCode.{liability_paykh_loyalty_stablecoin}
use trustee_bank.Ledger.Entries.{paykh_loyalty_issuance_entry, paykh_loyalty_redemption_entry}
use trustee_bank.Store.Table.{find_unique}
use trustee_bank.Store.Query.{is_enabled}
use trustee_bank.Store.PaykhRows.{PaykhLoyaltyLiability}
use trustee_bank.Store.Db.{Db}
use trustee_bank.Store.Action.{Env}
use trustee_bank.ReserveLedger.{entry_row, post_entry, account_balance}
use trustee_bank.Paykh.{references_of}
use trustee_bank.Paykh.Merchants.{require_active}
use trustee_bank.Paykh.Loyalty.{IssueLoyaltyInput, RedeemLoyaltyInput, issue, redeem, asset_of}
use trustee_bank.Paykh.Loyalty.Amount.{resolve_amount}
use trustee_bank.Paykh.Loyalty.Chain.{Gateway, Operation, authorize_on_chain, read_supply}
use trustee_bank.Paykh.Loyalty.Reconcile.{reconcile}
use trustee_bank.Paykh.Vault.{Vault, vault, Step, Unanswered, IsBookedFor}
use trustee_bank.Ledger.Journal.{JournalEntry, JournalReferences}

same_currency : {r s : Money × Option ℤ} → ok r ≡ ok s → s.0.currency ≡ r.0.currency
same_currency h = cc

pub resolve_amount-currency :
    (l : PaykhLoyaltyLiability) (amount_minor units : Option ℤ) {amount : Money} {u : Option ℤ}
    → resolve_amount l amount_minor units ≡ ok (amount, u)
    → amount.currency ≡ to_upper_case l.peg_currency
unfolding resolve_amount money make_peg backing_for_units
resolve_amount-currency l amount_minor (some units) {amount} {u} h =
    elim (Bool-cases (ltb_ℤ (pos 0) l.denomination_minor)) [
      | inr refused ↦ cc (rw refused at h)
      | inl positive ↦ elim (Bool-cases (ltb_ℤ units (pos 0))) [
        | inl negative ↦ cc (rw (positive, negative) at h)
        | inr counted ↦
            same_currency (rw (positive, counted) at h) ∙ to_upper_case_idem l.peg_currency
      ]
    ]
resolve_amount-currency l (some minor) none {amount} {u} h = same_currency h
resolve_amount-currency l none none h = cc

booked_for :
    (l : PaykhLoyaltyLiability) (amount : Money) (references : JournalReferences)
    → pos 0 <ℤ amount.minor
    → amount.currency ≡ to_upper_case l.peg_currency
    → references.program_id ≡ l.tenant_id
    → IsBookedFor l amount references
booked_for l amount references p c t = record { positive = p; currency = c; tenant = t }

abbrev issue_references : IssueLoyaltyInput → PaykhLoyaltyLiability → JournalReferences
issue_references input l =
    references_of (concat "paykh-loyalty-issue:" input.liability_id) l.tenant_id (asset_of l)
      input.actor

abbrev redeem_references : RedeemLoyaltyInput → PaykhLoyaltyLiability → JournalReferences
redeem_references input l =
    references_of (concat "paykh-loyalty-redeem:" input.liability_id) l.tenant_id (asset_of l)
      input.actor

module _ (gateway : Gateway) where
  -- The vault after an entry alone.
  unanswered :
      (v : Vault) (operation : Operation) (uuid id : String) (row : PaykhLoyaltyLiability)
      (minor : ℤ) (error : Error)
      → authorize_on_chain gateway operation uuid id row minor ≡ err error
      → (entry : JournalEntry)
      → Unanswered gateway v (record v { entries = entry_row entry ∷ v.entries })
  unanswered v operation uuid id row minor error silent entry = record {
    operation = operation;
    uuid = uuid;
    id = id;
    row = row;
    minor = minor;
    error = error;
    silent = silent;
    entry = entry;
    result = refl;
  }

  pub issue-Step :
      (issuance_id uuid : String) (input : IssueLoyaltyInput) (env : Env) (db : Db)
      → Step (vault db) (vault (issue gateway issuance_id uuid input env db).1)
        ⊎ Unanswered gateway (vault db) (vault (issue gateway issuance_id uuid input env db).1)
  unfolding issue post_entry
  issue-Step issuance_id uuid input env db =
      elim (Bool-cases (is_enabled "paykh.loyalty.enabled" db.feature_flags)) [
        | inr off ↦ rw off (inl Step.idle)
        | inl on ↦
            rw on (elim (Option-cases (find_unique input.liability_id db.loyalty_liabilities)) [
              | inr unknown ↦ rw unknown (inl Step.idle)
              | inl (l, known) ↦
                  rw known (elim (Option-cases (find_unique l.program_fund_id db.program_funds)) [
                    | inr missing ↦ rw missing (inl Step.idle)
                    | inl (f, stored) ↦
                        rw stored
                          (elim (Result-cases (resolve_amount l input.amount_minor input.units)) [
                            | inr (e, failed) ↦ rw failed (inl Step.idle)
                            | inl ((amount, units), resolved) ↦
                                rw resolved (elim (Bool-cases (ltb_ℤ (pos 0) amount.minor)) [
                                  | inr refused ↦ rw refused (inl Step.idle)
                                  | inl positive ↦
                                      rw positive
                                        (elim (Bool-cases (
                                          ltb_ℤ (f.funded_minor -ℤ f.reserved_minor)
                                            amount.minor)) [
                                              | inl above ↦ rw above (inl Step.idle)
                                              | inr available ↦
                                                  rw available
                                                    (elim (Result-cases (
                                                      paykh_loyalty_issuance_entry amount
                                                        (issue_references input l))) [
                                                          | inr (e, failed) ↦
                                                            rw failed (inl Step.idle)
                                                          | inl (entry, built) ↦
                                                            rw built
                                                            (elim (Result-cases (
                                                            authorize_on_chain gateway
                                                            Operation.issue uuid input.liability_id
                                                            l amount.minor)) [
                                                              | inl (chain, answered) ↦
                                                                rw answered (
                                                                inl (
                                                                Step.issued input.liability_id f l
                                                                amount _ entry known stored
                                                                (booked_for l amount
                                                                (issue_references input l)
                                                                (ground arith)
                                                                (resolve_amount-currency l
                                                                input.amount_minor input.units
                                                                resolved)
                                                                refl)
                                                                (ground arith) built))
                                                              | inr (e, silent) ↦ rw silent (
                                                                inr (
                                                                unanswered (vault db)
                                                                Operation.issue uuid
                                                                input.liability_id l amount.minor e
                                                                silent entry))
                                                            ])
                                                        ])
                                            ])
                                ])
                          ])
                  ])
            ])
      ]

  pub redeem-Step :
      (redemption_id uuid : String) (input : RedeemLoyaltyInput) (env : Env) (db : Db)
      → Step (vault db) (vault (redeem gateway redemption_id uuid input env db).1)
        ⊎ Unanswered gateway (vault db) (vault (redeem gateway redemption_id uuid input env db).1)
  unfolding redeem post_entry require_active
  redeem-Step redemption_id uuid input env db =
      elim (Bool-cases (is_enabled "paykh.loyalty.enabled" db.feature_flags)) [
        | inr off ↦ rw off (inl Step.idle)
        | inl on ↦ rw on (elim (Option-cases (find_unique input.merchant_id db.merchants)) [
          | inr nobody ↦ rw nobody (inl Step.idle)
          | inl (m, listed) ↦ rw listed (elim (Bool-cases (str_eq m.status "ACTIVE")) [
            | inr inactive ↦ rw inactive (inl Step.idle)
            | inl active ↦ rw active (elim (Bool-cases (str_eq m.kyc_status "VERIFIED")) [
              | inr unverified ↦ rw unverified (inl Step.idle)
              | inl verified ↦
                  rw verified
                    (elim (Option-cases (find_unique input.liability_id db.loyalty_liabilities)) [
                      | inr unknown ↦ rw unknown (inl Step.idle)
                      | inl (l, known) ↦
                          rw known
                            (elim (Result-cases (resolve_amount l input.amount_minor input.units)) [
                              | inr (e, failed) ↦ rw failed (inl Step.idle)
                              | inl ((amount, units), resolved) ↦
                                  rw resolved (elim (Bool-cases (ltb_ℤ (pos 0) amount.minor)) [
                                    | inr refused ↦ rw refused (inl Step.idle)
                                    | inl positive ↦
                                        rw positive
                                          (elim (Bool-cases
                                            (ltb_ℤ l.outstanding_minor amount.minor)) [
                                              | inl above ↦ rw above (inl Step.idle)
                                              | inr enough ↦
                                                  rw enough
                                                    (elim (Result-cases (
                                                      paykh_loyalty_redemption_entry amount
                                                        (redeem_references input l))) [
                                                          | inr (e, failed) ↦
                                                            rw failed (inl Step.idle)
                                                          | inl (entry, built) ↦
                                                            rw built
                                                            (elim (Result-cases (
                                                            authorize_on_chain gateway
                                                            Operation.burn uuid input.liability_id l
                                                            amount.minor)) [
                                                              | inl (chain, answered) ↦
                                                                rw answered (
                                                                inl (
                                                                Step.redeemed input.liability_id l
                                                                amount _ entry known
                                                                (booked_for l amount
                                                                (redeem_references input l)
                                                                (ground arith)
                                                                (resolve_amount-currency l
                                                                input.amount_minor input.units
                                                                resolved)
                                                                refl)
                                                                (ground arith) built))
                                                              | inr (e, silent) ↦ rw silent (
                                                                inr (
                                                                unanswered (vault db) Operation.burn
                                                                uuid input.liability_id l
                                                                amount.minor e silent entry))
                                                            ])
                                                        ])
                                            ])
                                  ])
                            ])
                    ])
            ])
          ])
        ])
      ]

  pub reconcile-Step :
      (id : String) (env : Env) (db : Db) → Step (vault db) (vault (reconcile gateway id env db).1)
  unfolding reconcile
  reconcile-Step id env db = elim (Option-cases (find_unique id db.loyalty_liabilities)) [
    | inr unknown ↦ rw unknown Step.idle
    | inl (l, known) ↦
        rw known
          (elim (Result-cases (
            account_balance db.ledger_entries l.tenant_id liability_paykh_loyalty_stablecoin
              l.peg_currency)) [
                | inr (e, failed) ↦ rw failed Step.idle
                | inl (outstanding, read) ↦ rw read (elim (Result-cases (read_supply gateway l)) [
                  | inr (e, silent) ↦ rw silent Step.idle
                  | inl (supply, told) ↦ rw told (
                      Step.reconciled id l _ known (record {
                        same_fund = refl;
                        same_tenant = refl;
                        same_peg = refl;
                        same_outstanding = refl;
                        same_issued = refl;
                        same_redeemed = refl;
                      }))
                ])
              ])
  ]
