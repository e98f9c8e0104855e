-- ===== src/Paykh/Vault/Calls.antt =====
-- The calls of program-funds.service.ts and loyalty.service.ts as steps on the tables.
use Prim.Native.String.{◌++◌ as concat}
use trustee_bank.Prelude.{
  ◌≡◌, refl, inl, inr, Bool-cases, String, Bool, false, Option, some, none, arith, or_default,
  is_present, ◌||◌,
}
use trustee_bank.Prelude.Int.{ℤ, pos, ◌+ℤ◌, ◌-ℤ◌, ◌≤ℤ◌, ltb_ℤ, eqb_ℤ}
use trustee_bank.Money.{money}
use trustee_bank.FundClassification.{backing_policy_for}
use trustee_bank.Result.{Option-cases, Result-cases}
use trustee_bank.Ledger.Entries.{paykh_program_funding_entry}
use trustee_bank.Store.Table.{find_unique}
use trustee_bank.Store.PaykhRows.{PaykhProgramFund}
use trustee_bank.Store.Db.{Db}
use trustee_bank.Store.Action.{Env}
use trustee_bank.ReserveLedger.{post_entry}
use trustee_bank.Paykh.{references_of}
use trustee_bank.Paykh.ProgramFunds.{CreateProgramFund, create, fund, reserve, is_taken, new_fund}
use trustee_bank.Paykh.Loyalty.Bind.{BindLoyaltyInput, bind, has_liability, new_liability}
use trustee_bank.Paykh.Vault.{vault, Step}

-- A new fund's key is free.
free_key : (taken : Bool) (m : Option PaykhProgramFund) → taken || is_present m ≡ false → m ≡ none
free_key taken none h = refl
free_key taken (some f) h = ground arith

pub create-Step :
    (id : String) (input : CreateProgramFund) (env : Env) (db : Db)
    → Step (vault db) (vault (create id input env db).1)
unfolding create
create-Step id input env db = elim (Bool-cases (is_taken id input db.program_funds)) [
  | inl taken ↦ rw taken Step.idle
  | inr free ↦ rw free (
      Step.opened id (new_fund input) (free_key _ (find_unique id db.program_funds) free)
        (record { nothing_funded = refl; nothing_reserved = refl }))
]

pub fund-Step :
    (id : String) (amount_minor : ℤ) (actor : String) (env : Env) (db : Db)
    → Step (vault db) (vault (fund id amount_minor actor env db).1)
unfolding fund post_entry
fund-Step id amount_minor actor env db = elim (Option-cases (find_unique id db.program_funds)) [
  | inr missing ↦ rw missing Step.idle
  | inl (f, found) ↦
      let amount = money amount_minor f.currency in
      rw found (elim (Bool-cases (ltb_ℤ (pos 0) amount.minor)) [
        | inr refused ↦ rw refused Step.idle
        | inl positive ↦
            rw positive
              (elim (Bool-cases (backing_policy_for f.classification).fiat_backing_required) [
                | inr unbacked ↦ rw unbacked (Step.credited id f amount.minor found (ground arith))
                | inl backed ↦
                    rw backed
                      (elim (Result-cases (
                        paykh_program_funding_entry amount (
                          references_of (concat "paykh-fund:" id) f.tenant_id f.paykh_program_id
                            actor))) [
                              | inr (e, failed) ↦ rw failed Step.idle
                              | inl (entry, built) ↦
                                  rw built
                                    (Step.funded id f amount _ entry found (ground arith) built)
                            ])
              ])
      ])
]

pub reserve-Step :
    (id : String) (amount : ℤ) (actor : String) (env : Env) (db : Db)
    → pos 0 ≤ℤ amount
    → Step (vault db) (vault (reserve id amount actor env db).1)
unfolding reserve
reserve-Step id amount actor env db start = elim (Option-cases (find_unique id db.program_funds)) [
  | inr missing ↦ rw missing Step.idle
  | inl (f, found) ↦
      rw found (elim (Bool-cases (ltb_ℤ (f.funded_minor -ℤ f.reserved_minor) amount)) [
        | inl above ↦ rw above Step.idle
        | inr available ↦
            rw available
              (elim (Bool-cases (eqb_ℤ (f.funded_minor -ℤ (f.reserved_minor +ℤ amount)) (pos 0))) [
                | inl exhausted ↦
                    rw exhausted (Step.reserved id f amount found start (ground arith))
                | inr left ↦ rw left (Step.reserved id f amount found start (ground arith))
              ])
      ])
]

pub bind-Step :
    (id : String) (input : BindLoyaltyInput) (env : Env) (db : Db)
    → Step (vault db) (vault (bind id input env db).1)
unfolding bind
bind-Step id input env db =
    elim (Option-cases (find_unique input.program_fund_id db.program_funds)) [
      | inr missing ↦ rw missing Step.idle
      | inl (f, found) ↦
          rw found (elim (Bool-cases (backing_policy_for f.classification).fiat_backing_required) [
            | inr unbacked ↦ rw unbacked Step.idle
            | inl backed ↦
                rw backed
                  (elim (Bool-cases (has_liability input.program_fund_id db.loyalty_liabilities)) [
                    | inl existing ↦ rw existing Step.idle
                    | inr first ↦
                        let denomination = or_default input.denomination_minor (pos 1) in
                        rw first (elim (Bool-cases (ltb_ℤ (pos 0) denomination)) [
                          | inr refused ↦ rw refused Step.idle
                          | inl positive ↦ rw positive (
                              Step.bound id f (new_liability input f denomination) found (record {
                                nothing_out = refl;
                                nothing_issued = refl;
                                nothing_redeemed = refl;
                              }))
                        ])
                  ])
          ])
    ]
