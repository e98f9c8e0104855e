-- ===== src/Mint/Bookings.antt =====
-- When the entries of a mint authorization are booked: the ledger's test of its amount.
use trustee_bank.Prelude.{◌≡◌, ◌↔◌, inl, inr, Bool-cases, String, arith}
use trustee_bank.Prelude.Int.{pos, ◌<ℤ◌, ltb_ℤ}
use trustee_bank.Prelude.Text.{to_upper_case_idem}
use trustee_bank.Money.{money}
use trustee_bank.Result.{ok}
use trustee_bank.Ledger.Journal.{JournalEntry, JournalReferences}
use trustee_bank.Ledger.Journal.Build.{posted, build_posted}
use trustee_bank.Ledger.Accounts.{
  LedgerAccountType, ledger_account_type_of, type_of_pending_mint,
  type_of_paychain_reserve_obligation,
}
use trustee_bank.Ledger.Entries.{transfer_entry, mint_release_entry, mint_reservation_entry}
use trustee_bank.Ledger.Entries.Transfer.{transfer_input, transfer-IsPostable, transfer_refuses}
use trustee_bank.Store.Rows.{MintAuthorization}
use trustee_bank.Mint.Desk.{amount_of}

transfer_accepts :
    (description from to : String) (auth : MintAuthorization) (references : JournalReferences)
    {s t : LedgerAccountType}
    → ledger_account_type_of from ≡ ok s
    → ledger_account_type_of to ≡ ok t
    → ((entry : JournalEntry) × (transfer_entry description from to (amount_of auth) references
          ≡ ok entry))
      ↔ (pos 0 <ℤ auth.amount_minor)
unfolding transfer_entry money
transfer_accepts description from to auth references hs ht = (
  λ (entry, built). elim (Bool-cases (ltb_ℤ (pos 0) auth.amount_minor)) [
    | inl positive ↦ ground arith
    | inr other ↦
        cc (built, transfer_refuses description from to (amount_of auth) references (ground arith))
  ],
  λ positive. (
    posted (transfer_input description from to (amount_of auth) references),
    build_posted _ (
        transfer-IsPostable description from to (amount_of auth) references
          (record { positive = positive; upper_case = to_upper_case_idem auth.currency }) hs ht),
  ),
)

module _ (auth : MintAuthorization) (references : JournalReferences) where
  pub release_accepts :
      ((entry : JournalEntry) × (mint_release_entry (amount_of auth) references ≡ ok entry))
      ↔ (pos 0 <ℤ auth.amount_minor)
  unfolding mint_release_entry
  release_accepts =
      transfer_accepts _ _ _ auth references type_of_pending_mint
        type_of_paychain_reserve_obligation

  pub reservation_accepts :
      ((entry : JournalEntry) × (mint_reservation_entry (amount_of auth) references ≡ ok entry))
      ↔ (pos 0 <ℤ auth.amount_minor)
  unfolding mint_reservation_entry
  reservation_accepts =
      transfer_accepts _ _ _ auth references type_of_paychain_reserve_obligation
        type_of_pending_mint
