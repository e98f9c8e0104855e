-- ===== src/Ledger/Entries/Templates.antt =====
-- The ten templates: each books its amount from one account to another.
use trustee_bank.Prelude.{String, ◌≡◌, ap}
use trustee_bank.Money.{Money}
use trustee_bank.Money.Laws.{of}
use trustee_bank.Result.{Result, ok}
use trustee_bank.Ledger.Accounts.{
  LedgerAccountType, ledger_account_type_of, debit_positive, type_of_trustee_bank_cash,
  type_of_paychain_reserve_obligation, type_of_pending_mint, type_of_pending_redemption,
  type_of_paykh_merchant_payable, type_of_paykh_program_fund, type_of_paykh_loyalty_stablecoin,
}
use trustee_bank.Ledger.LedgerAccountCode.{
  asset_trustee_bank_cash, liability_paychain_reserve_obligation, liability_pending_mint,
  liability_pending_redemption, liability_paykh_merchant_payable, liability_paykh_program_fund,
  liability_paykh_loyalty_stablecoin,
}
use trustee_bank.Ledger.Journal.{JournalEntry, JournalReferences, account_effect}
use trustee_bank.Ledger.Journal.Build.{posted, build_posted}
use trustee_bank.Ledger.Journal.Effect.{account_effect-posted}
use trustee_bank.Ledger.Entries.{
  transfer_entry, cleared_deposit_entry, mint_reservation_entry, mint_release_entry,
  redemption_obligation_entry, payout_confirmed_entry, paykh_payment_collection_entry,
  paykh_merchant_settlement_entry, paykh_program_funding_entry, paykh_loyalty_issuance_entry,
  paykh_loyalty_redemption_entry,
}
use trustee_bank.Ledger.Entries.Transfer.{
  IsBookable, transfer_input, transfer-IsPostable, transfer-effect, moved,
}

module _ (amount : Money) (references : JournalReferences) (account : String) where
  -- The result is an entry whose effect on the account, of type `t`, is `amount` booked by a debit of
  -- `from` and a credit of `to`.
  abbrev pub Books : Result JournalEntry → String → String → LedgerAccountType → Type 0
  Books result from to t =
      (entry : JournalEntry) × (result ≡ ok entry)
      × (account_effect entry account
          ≡ ok (of (moved from to amount (debit_positive t) account) amount.currency))

  transfer-Books :
      (description from to : String) {r s t : LedgerAccountType}
      → ledger_account_type_of from ≡ ok r
      → ledger_account_type_of to ≡ ok s
      → IsBookable amount
      → ledger_account_type_of account ≡ ok t
      → Books (transfer_entry description from to amount references) from to t
  unfolding transfer_entry
  transfer-Books description from to {t = t} hf ht h known =
      let input = transfer_input description from to amount references in
      let postable = transfer-IsPostable description from to amount references h hf ht in
      (
        posted input,
        build_posted input postable,
        rw (account_effect-posted input account postable known) (
            ap (λ n. ok (of n amount.currency))
              (transfer-effect from to amount (debit_positive t) account)),
      )

  -- Each template with its two accounts.
  abbrev pub TemplatesBook : LedgerAccountType → Type 0
  TemplatesBook t =
      Books (cleared_deposit_entry amount references) asset_trustee_bank_cash
        liability_paychain_reserve_obligation t
      × Books (mint_reservation_entry amount references) liability_paychain_reserve_obligation
          liability_pending_mint t
      × Books (mint_release_entry amount references) liability_pending_mint
          liability_paychain_reserve_obligation t
      × Books (redemption_obligation_entry amount references) liability_paychain_reserve_obligation
          liability_pending_redemption t
      × Books (payout_confirmed_entry amount references) liability_pending_redemption
          asset_trustee_bank_cash t
      × Books (paykh_payment_collection_entry amount references) asset_trustee_bank_cash
          liability_paykh_merchant_payable t
      × Books (paykh_merchant_settlement_entry amount references) liability_paykh_merchant_payable
          asset_trustee_bank_cash t
      × Books (paykh_program_funding_entry amount references) asset_trustee_bank_cash
          liability_paykh_program_fund t
      × Books (paykh_loyalty_issuance_entry amount references) liability_paykh_program_fund
          liability_paykh_loyalty_stablecoin t
      × Books (paykh_loyalty_redemption_entry amount references) liability_paykh_loyalty_stablecoin
          liability_paykh_merchant_payable t

  -- On a positive amount in an upper-case currency every template builds an entry, whose effect on
  -- any account of a known type is the amount moved between the template's two accounts: the natural
  -- balances of those two change by the amount, with the sign of their normal side, and no other's.
  pub templates_book :
      {t : LedgerAccountType}
      → IsBookable amount
      → ledger_account_type_of account ≡ ok t
      → TemplatesBook t
  unfolding cleared_deposit_entry mint_reservation_entry mint_release_entry
      redemption_obligation_entry payout_confirmed_entry paykh_payment_collection_entry
      paykh_merchant_settlement_entry paykh_program_funding_entry paykh_loyalty_issuance_entry
      paykh_loyalty_redemption_entry
  templates_book h known = (
    transfer-Books _ _ _ type_of_trustee_bank_cash type_of_paychain_reserve_obligation h known,
    transfer-Books _ _ _ type_of_paychain_reserve_obligation type_of_pending_mint h known,
    transfer-Books _ _ _ type_of_pending_mint type_of_paychain_reserve_obligation h known,
    transfer-Books _ _ _ type_of_paychain_reserve_obligation type_of_pending_redemption h known,
    transfer-Books _ _ _ type_of_pending_redemption type_of_trustee_bank_cash h known,
    transfer-Books _ _ _ type_of_trustee_bank_cash type_of_paykh_merchant_payable h known,
    transfer-Books _ _ _ type_of_paykh_merchant_payable type_of_trustee_bank_cash h known,
    transfer-Books _ _ _ type_of_trustee_bank_cash type_of_paykh_program_fund h known,
    transfer-Books _ _ _ type_of_paykh_program_fund type_of_paykh_loyalty_stablecoin h known,
    transfer-Books _ _ _ type_of_paykh_loyalty_stablecoin type_of_paykh_merchant_payable h known,
  )
