-- ===== src/Ledger.antt =====
-- packages/ledger: the chart of accounts, the double-entry journal engine and the entry templates.
pub mod LedgerAccountCode
pub mod Accounts
pub mod Journal
pub mod Entries
