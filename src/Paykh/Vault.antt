-- ===== src/Paykh/Vault.antt =====
-- The tables behind the loyalty stablecoin, and the steps that the calls take on them.
pub mod Covered
pub mod Booked
pub mod Calls
pub mod Tokens
pub mod History
pub mod Findings
use trustee_bank.Prelude.{◌≡◌, String, Option, some, none, ◌⊎◌, List, ◌∷◌}
use trustee_bank.Prelude.Int.{ℤ, pos, ◌-ℤ◌, ◌≤ℤ◌, ◌<ℤ◌}
use trustee_bank.Prelude.Text.{to_upper_case}
use trustee_bank.Money.{Money}
use trustee_bank.Result.{Error, ok, err}
use trustee_bank.Ledger.Journal.{JournalEntry, JournalReferences}
use trustee_bank.Ledger.Entries.{
  paykh_program_funding_entry, paykh_loyalty_issuance_entry, paykh_loyalty_redemption_entry,
}
use trustee_bank.Store.Table.{Table, find_unique, update}
use trustee_bank.Store.Rows.{LedgerEntry}
use trustee_bank.Store.PaykhRows.{PaykhProgramFund, PaykhLoyaltyLiability}
use trustee_bank.Store.Db.{Db}
use trustee_bank.ReserveLedger.{entry_row}
use trustee_bank.Paykh.ProgramFunds.{funded_by, reserved_by}
use trustee_bank.Paykh.Loyalty.{issued_by, redeemed_by}
use trustee_bank.Paykh.Loyalty.Chain.{Gateway, Operation, authorize_on_chain}

pub record Vault : Type 0 where
  pub funds : Table PaykhProgramFund
  pub liabilities : Table PaykhLoyaltyLiability
  pub entries : List LedgerEntry

abbrev pub vault : Db → Vault
vault db = record {
  funds = db.program_funds;
  liabilities = db.loyalty_liabilities;
  entries = db.ledger_entries;
}

-- A fund that nothing has been paid into, and a liability of which nothing is out.
pub record IsEmptyFund (f : PaykhProgramFund) : Type 0 where
  pub nothing_funded : f.funded_minor ≡ pos 0
  pub nothing_reserved : f.reserved_minor ≡ pos 0

pub record IsUnissued (l : PaykhLoyaltyLiability) : Type 0 where
  pub nothing_out : l.outstanding_minor ≡ pos 0
  pub nothing_issued : l.issued_total_minor ≡ pos 0
  pub nothing_redeemed : l.redeemed_total_minor ≡ pos 0

-- Two rows with the same terms and the same position.
pub record SamePosition (l m : PaykhLoyaltyLiability) : Type 0 where
  pub same_fund : l.program_fund_id ≡ m.program_fund_id
  pub same_tenant : l.tenant_id ≡ m.tenant_id
  pub same_peg : l.peg_currency ≡ m.peg_currency
  pub same_outstanding : l.outstanding_minor ≡ m.outstanding_minor
  pub same_issued : l.issued_total_minor ≡ m.issued_total_minor
  pub same_redeemed : l.redeemed_total_minor ≡ m.redeemed_total_minor

-- The entry of an amount of a liability: booked on its tenant, in its peg currency.
pub record IsBookedFor (l : PaykhLoyaltyLiability) (amount : Money) (references : JournalReferences)
    : Type 0 where
  pub positive : pos 0 <ℤ amount.minor
  pub currency : amount.currency ≡ to_upper_case l.peg_currency
  pub tenant : references.program_id ≡ l.tenant_id

-- A call that the gateway does not answer: its entry is booked, and no row is changed.
pub record Unanswered (gateway : Gateway) (v w : Vault) : Type 0 where
  pub operation : Operation
  pub uuid : String
  pub id : String
  pub row : PaykhLoyaltyLiability
  pub minor : ℤ
  pub error : Error
  pub silent : authorize_on_chain gateway operation uuid id row minor ≡ err error
  pub entry : JournalEntry
  pub result : w ≡ record v { entries = entry_row entry ∷ v.entries }

pub data Step : Vault → Vault → Type 0 where
  idle : {v : Vault} → Step v v
  opened :
      {v : Vault} (id : String) (f : PaykhProgramFund)
      → find_unique id v.funds ≡ none
      → IsEmptyFund f
      → Step v (record v { funds = (id, f) ∷ v.funds })
  -- Funding without an entry, and with one.
  credited :
      {v : Vault} (id : String) (f : PaykhProgramFund) (minor : ℤ)
      → find_unique id v.funds ≡ some f
      → pos 0 <ℤ minor
      → Step v (record v { funds = update id (funded_by minor) v.funds })
  funded :
      {v : Vault} (id : String) (f : PaykhProgramFund) (amount : Money)
      (references : JournalReferences) (entry : JournalEntry)
      → find_unique id v.funds ≡ some f
      → pos 0 <ℤ amount.minor
      → paykh_program_funding_entry amount references ≡ ok entry
      → Step v (record v {
        funds = update id (funded_by amount.minor) v.funds;
        entries = entry_row entry ∷ v.entries;
      })
  reserved :
      {v : Vault} (id : String) (f : PaykhProgramFund) (minor : ℤ)
      → find_unique id v.funds ≡ some f
      → pos 0 ≤ℤ minor
      → minor ≤ℤ f.funded_minor -ℤ f.reserved_minor
      → Step v (record v { funds = update id (reserved_by minor) v.funds })
  bound :
      {v : Vault} (id : String) (f : PaykhProgramFund) (l : PaykhLoyaltyLiability)
      → find_unique l.program_fund_id v.funds ≡ some f
      → IsUnissued l
      → Step v (record v { liabilities = (id, l) ∷ v.liabilities })
  issued :
      {v : Vault} (id : String) (f : PaykhProgramFund) (l : PaykhLoyaltyLiability) (amount : Money)
      (references : JournalReferences) (entry : JournalEntry)
      → find_unique id v.liabilities ≡ some l
      → find_unique l.program_fund_id v.funds ≡ some f
      → IsBookedFor l amount references
      → amount.minor ≤ℤ f.funded_minor -ℤ f.reserved_minor
      → paykh_loyalty_issuance_entry amount references ≡ ok entry
      → Step v (record {
        funds = update l.program_fund_id (reserved_by amount.minor) v.funds;
        liabilities = update id (issued_by amount.minor) v.liabilities;
        entries = entry_row entry ∷ v.entries;
      })
  redeemed :
      {v : Vault} (id : String) (l : PaykhLoyaltyLiability) (amount : Money)
      (references : JournalReferences) (entry : JournalEntry)
      → find_unique id v.liabilities ≡ some l
      → IsBookedFor l amount references
      → amount.minor ≤ℤ l.outstanding_minor
      → paykh_loyalty_redemption_entry amount references ≡ ok entry
      → Step v (record v {
        liabilities = update id (redeemed_by amount.minor) v.liabilities;
        entries = entry_row entry ∷ v.entries;
      })
  reconciled :
      {v : Vault} (id : String) (l : PaykhLoyaltyLiability)
      (g : PaykhLoyaltyLiability → PaykhLoyaltyLiability)
      → find_unique id v.liabilities ≡ some l
      → SamePosition l (g l)
      → Step v (record v { liabilities = update id g v.liabilities })
