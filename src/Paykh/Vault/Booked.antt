-- ===== src/Paykh/Vault/Booked.antt =====
-- The PAYKH_LOYALTY_STABLECOIN account against what is outstanding, along the steps.
use text.Mathlib.Text.{◌==◌ as str_eq}
use trustee_bank.Prelude.{◌≡◌, refl, ap, arith, ◌∙◌, String, Bool, false, ◌&&◌, if◌then◌else◌}
use trustee_bank.Prelude.Int.{ℤ, pos, neg, ◌+ℤ◌, ◌-ℤ◌, int_laws}
use trustee_bank.Prelude.Text.{same_text, to_upper_case}
use trustee_bank.Money.{Money, CurrencyCode}
use trustee_bank.Result.{ok}
use trustee_bank.Ledger.LedgerAccountCode.{liability_paykh_loyalty_stablecoin}
use trustee_bank.Ledger.Journal.{JournalEntry, JournalReferences}
use trustee_bank.Ledger.Entries.{
  paykh_program_funding_entry, paykh_loyalty_issuance_entry, paykh_loyalty_redemption_entry,
}
use trustee_bank.Store.PaykhRows.{PaykhLoyaltyLiability}
use trustee_bank.ReserveLedger.Balance.{contribution}
use trustee_bank.ReserveLedger.Tracking.{
  Tracks, Tracks-entry, Tracks-entry-update, Tracks-update, Tracks-new, transfer-contribution,
}
use trustee_bank.Paykh.Loyalty.{issued_by, redeemed_by}
use trustee_bank.Paykh.Vault.{Vault, Step, IsBookedFor, SamePosition}

module _ (tenant_id : String) (currency : CurrencyCode) where
  -- Whether a stablecoin is of the tenant, pegged to the currency.
  abbrev pub concerns : PaykhLoyaltyLiability → Bool
  concerns l = str_eq l.tenant_id tenant_id && same_text (to_upper_case l.peg_currency) currency

  -- What a stablecoin adds to the account: what is outstanding.
  abbrev pub outstanding : PaykhLoyaltyLiability → ℤ
  outstanding l = if concerns l then l.outstanding_minor else pos 0

  abbrev pub Booked : Vault → Type 0
  Booked v =
      Tracks outstanding false tenant_id liability_paykh_loyalty_stablecoin currency v.entries
        v.liabilities

  zero_either : (b : Bool) → (if b then pos 0 +ℤ pos 0 else pos 0) ≡ pos 0
  zero_either Bool.true = omega int_laws
  zero_either false = refl

  funding-contribution :
      (amount : Money) (references : JournalReferences) (entry : JournalEntry)
      → paykh_program_funding_entry amount references ≡ ok entry
      → contribution false tenant_id liability_paykh_loyalty_stablecoin currency entry ≡ pos 0
  unfolding paykh_program_funding_entry
  funding-contribution amount references entry h =
      transfer-contribution _ _ _ amount references false tenant_id
        liability_paykh_loyalty_stablecoin currency h
      ∙ zero_either (str_eq references.program_id tenant_id && same_text amount.currency currency)

  issuance-contribution :
      (l : PaykhLoyaltyLiability) (amount : Money) (references : JournalReferences)
      (entry : JournalEntry)
      → IsBookedFor l amount references
      → paykh_loyalty_issuance_entry amount references ≡ ok entry
      → contribution false tenant_id liability_paykh_loyalty_stablecoin currency entry
        ≡ (if concerns l then amount.minor else pos 0)
  unfolding paykh_loyalty_issuance_entry
  issuance-contribution l amount references entry booked h =
      transfer-contribution _ _ _ amount references false tenant_id
        liability_paykh_loyalty_stablecoin currency h
      ∙ rw (booked.currency, booked.tenant)
          (ap (λ n. if concerns l then n else pos 0) (omega int_laws))

  redemption-contribution :
      (l : PaykhLoyaltyLiability) (amount : Money) (references : JournalReferences)
      (entry : JournalEntry)
      → IsBookedFor l amount references
      → paykh_loyalty_redemption_entry amount references ≡ ok entry
      → contribution false tenant_id liability_paykh_loyalty_stablecoin currency entry
        ≡ (if concerns l then neg amount.minor else pos 0)
  unfolding paykh_loyalty_redemption_entry
  redemption-contribution l amount references entry booked h =
      transfer-contribution _ _ _ amount references false tenant_id
        liability_paykh_loyalty_stablecoin currency h
      ∙ rw (booked.currency, booked.tenant)
          (ap (λ n. if concerns l then n else pos 0) (omega int_laws))

  add_if :
      (b : Bool) (m n : ℤ)
      → (if b then m else pos 0) +ℤ (if b then n else pos 0) ≡ (if b then n +ℤ m else pos 0)
  add_if Bool.true m n = omega int_laws
  add_if false m n = omega int_laws

  subtract_if :
      (b : Bool) (m n : ℤ)
      → (if b then neg m else pos 0) +ℤ (if b then n else pos 0) ≡ (if b then n -ℤ m else pos 0)
  subtract_if Bool.true m n = omega int_laws
  subtract_if false m n = omega int_laws

  same_outstanding :
      (l m : PaykhLoyaltyLiability) → SamePosition l m → outstanding l ≡ outstanding m
  same_outstanding l m s = rw (s.same_tenant, s.same_peg, s.same_outstanding) refl

  nothing_out : (l : PaykhLoyaltyLiability) → l.outstanding_minor ≡ pos 0 → outstanding l ≡ pos 0
  nothing_out l h = ground arith

  -- Each step keeps the balance equal to what is outstanding.
  pub step-Booked : {v w : Vault} → Step v w → Booked v → Booked w
  step-Booked Step.idle h = h
  step-Booked (Step.opened id f free empty) h = h
  step-Booked (Step.credited id f minor found positive) h = h
  step-Booked (Step.funded {v} id f amount references entry found positive built) h =
      Tracks-entry _ _ _ _ _ entry v.entries v.liabilities
        (funding-contribution amount references entry built) h
  step-Booked (Step.reserved id f minor found start available) h = h
  step-Booked (Step.bound {v} id f l found unissued) h =
      Tracks-new _ _ _ _ _ v.entries id l v.liabilities (nothing_out l unissued.nothing_out) h
  step-Booked (Step.issued {v} id f l amount references entry found stored booked available built)
        h =
      Tracks-entry-update _ _ _ _ _ entry v.entries id (issued_by amount.minor) v.liabilities l
        found
        (ap (λ n. n +ℤ outstanding l) (issuance-contribution l amount references entry booked built)
          ∙ add_if (concerns l) amount.minor l.outstanding_minor)
        h
  step-Booked (Step.redeemed {v} id l amount references entry found booked enough built) h =
      Tracks-entry-update _ _ _ _ _ entry v.entries id (redeemed_by amount.minor) v.liabilities l
        found
        (ap (λ n. n +ℤ outstanding l)
            (redemption-contribution l amount references entry booked built)
          ∙ subtract_if (concerns l) amount.minor l.outstanding_minor)
        h
  step-Booked (Step.reconciled {v} id l g found same) h =
      Tracks-update _ _ _ _ _ v.entries id g v.liabilities l found (same_outstanding l (g l) same) h
