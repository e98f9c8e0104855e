-- ===== src/Ledger/Entries.antt =====
-- packages/ledger/src/entries.ts: the entry templates, each a debit and a credit of one amount.
pub mod Transfer
pub mod Templates
use trustee_bank.Prelude.{String, none, [], ◌∷◌}
use trustee_bank.Money.{Money, zero}
use trustee_bank.Result.{Result}
use trustee_bank.Ledger.LedgerAccountCode.{
  asset_trustee_bank_cash, liability_paychain_reserve_obligation, liability_pending_mint,
  liability_pending_redemption, liability_paykh_merchant_payable, liability_paykh_program_fund,
  liability_paykh_loyalty_stablecoin,
}
use trustee_bank.Ledger.Journal.{Posting, JournalReferences, JournalEntry, build_journal_entry}

abbrev pub debit : String → Money → Posting
debit account amount = record {
  account = account;
  debit = amount;
  credit = zero amount.currency;
  memo = none;
}

abbrev pub credit : String → Money → Posting
credit account amount = record {
  account = account;
  debit = zero amount.currency;
  credit = amount;
  memo = none;
}

-- The shape that the templates share: `buildJournalEntry` on a debit and a credit of one amount.
unfoldable pub transfer_entry :
    String → String → String → Money → JournalReferences → Result JournalEntry
transfer_entry description from to amount references = build_journal_entry (record {
  currency = amount.currency;
  description = description;
  postings = debit from amount ∷ credit to amount ∷ [];
  references = references;
})

unfoldable pub cleared_deposit_entry : Money → JournalReferences → Result JournalEntry
cleared_deposit_entry =
    transfer_entry "Cleared reserve deposit allocated to PayChain obligation"
      asset_trustee_bank_cash liability_paychain_reserve_obligation

unfoldable pub mint_reservation_entry : Money → JournalReferences → Result JournalEntry
mint_reservation_entry =
    transfer_entry "Reserve earmarked for pending mint authorization"
      liability_paychain_reserve_obligation liability_pending_mint

unfoldable pub mint_release_entry : Money → JournalReferences → Result JournalEntry
mint_release_entry =
    transfer_entry "Pending mint reservation released to reserve obligation" liability_pending_mint
      liability_paychain_reserve_obligation

unfoldable pub redemption_obligation_entry : Money → JournalReferences → Result JournalEntry
redemption_obligation_entry =
    transfer_entry "Reserve obligation moved to pending redemption"
      liability_paychain_reserve_obligation liability_pending_redemption

unfoldable pub payout_confirmed_entry : Money → JournalReferences → Result JournalEntry
payout_confirmed_entry =
    transfer_entry "Fiat payout confirmed; pending redemption discharged"
      liability_pending_redemption asset_trustee_bank_cash

unfoldable pub paykh_payment_collection_entry : Money → JournalReferences → Result JournalEntry
paykh_payment_collection_entry =
    transfer_entry "PayKH customer payment collected" asset_trustee_bank_cash
      liability_paykh_merchant_payable

unfoldable pub paykh_merchant_settlement_entry : Money → JournalReferences → Result JournalEntry
paykh_merchant_settlement_entry =
    transfer_entry "PayKH merchant settlement executed" liability_paykh_merchant_payable
      asset_trustee_bank_cash

unfoldable pub paykh_program_funding_entry : Money → JournalReferences → Result JournalEntry
paykh_program_funding_entry =
    transfer_entry "PayKH program fund safeguarded" asset_trustee_bank_cash
      liability_paykh_program_fund

unfoldable pub paykh_loyalty_issuance_entry : Money → JournalReferences → Result JournalEntry
paykh_loyalty_issuance_entry =
    transfer_entry "PayKH backed loyalty stablecoin issued (program fund earmarked)"
      liability_paykh_program_fund liability_paykh_loyalty_stablecoin

unfoldable pub paykh_loyalty_redemption_entry : Money → JournalReferences → Result JournalEntry
paykh_loyalty_redemption_entry =
    transfer_entry "PayKH loyalty stablecoin redeemed to merchant payable"
      liability_paykh_loyalty_stablecoin liability_paykh_merchant_payable
