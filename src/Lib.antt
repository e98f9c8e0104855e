-- ===== src/Lib.antt =====
-- A trustee platform that backs issued digital assets with bank reserves: the core that decides
-- whether an asset may be minted, and the double-entry ledger that its figures come from.
--
-- Parts, each with the code that it models (paths from the repository's root):
--   Money        packages/domain/src/money.ts: amounts in minor units with their currency.
--   Peg, FundClassification
--                packages/domain/src/peg.ts and fund-classification.ts: token units against their
--                backing, and the backing policy of each class of funds.
--   Ledger       packages/ledger/src: account codes (accounts.ts), journal entries, their validation,
--                reversal and effect (journal.ts), and the entry templates (entries.ts).
--   Reserves     packages/reserves/src: eligible reserve, obligation, ratio, capacity
--                (reserve-calculation.ts) and the preconditions of a mint (mint-guard.ts).
--   Store        the tables that the services share (packages/database/prisma/schema.prisma, with the
--                columns that they read or write), and a call of a service as a function of its
--                environment and the database. Store/Every and Store/Keyed carry what all rows of a
--                table satisfy through the updates of the services.
--   ReserveLedger, Reserve
--                apps/trustee-api/src/modules/reserve: entries and derived balances
--                (reserve-ledger.service.ts); the position of a program, its snapshots, adjustments
--                and banks (reserve.service.ts).
--   Abac, Permissions
--                packages/domain/src/abac.ts and permissions.ts: the policies on a transaction, and
--                the permissions of the built-in roles.
--   Mint         apps/trustee-api/src/modules/mint/mint.service.ts: request, review, approve, reject,
--                revoke, confirm and expire. Mint/Desk is the abstract machine of authorizations,
--                confirmations and entries, and Mint/Refines relates each handler to it.
--   Attestation  apps/trustee-api/src/modules/attestation/attestation.service.ts: attestations of the
--                reserve, from draft to publication.
--   Reconciliation
--                apps/trustee-api/src/modules/reconciliation/reconciliation.service.ts: runs over the
--                reserve, the payment orders and the settlements, and their exceptions.
--   Liability    apps/trustee-api/src/modules/liability/liability.service.ts: signed snapshots of the
--                issuer's liabilities.
--   Funding, Deposits
--                apps/trustee-api/src/modules/funding/funding.service.ts and
--                deposits/deposits.service.ts: expected and detected transfers, matched and cleared.
--   Redemption   apps/trustee-api/src/modules/redemption/redemption.service.ts: request, approval,
--                burn, payout and its confirmation.
--   Paykh        apps/trustee-api/src/modules/paykh: Merchants, PaymentProfiles, PaymentOrders,
--                ProgramFunds, Loyalty (bind, issue, redeem, reconcile) and Settlements, each after
--                the service of its name. Paykh/Vault follows funds and stablecoins over runs of
--                the calls that touch them.
--   Prelude, Result, Tests
--                shared names and integers; errors and results; concrete runs.
--
-- How they interact: the mint service reads the position of the program from the ledger's balances,
-- hands the facts to the mint guard, and books a reservation through the ledger's templates. Deposits,
-- redemptions, payment orders, funds, settlements and loyalty book their entries in the same ledger;
-- the figures of the position, and the outstanding stablecoin, are balances of its accounts. The mint
-- guard also reads the last reconciliation run and the last snapshots.
--
-- Representation: a bigint is an integer; the width of a database column is not modelled. An
-- identifier is a text; a currency code is a list of character codes, and upper-casing works on the
-- letters A to Z. A handler is a function of its arguments, an environment (clock, tolerances, signer)
-- and the database; what it wrote before it throws stays written. Handlers do not interleave.
-- Identifiers and nonces that the database or the platform generates are arguments. Amounts, sequence
-- numbers and times arrive parsed, as the code reads them before it writes; the height and the time of
-- a mint's confirmation, which it reads after the release is posted, are texts, and reading them can
-- fail. The calls of the chain gateway can fail too. Of rows created at one instant the newest counts
-- as the latest. Every loop is structural recursion on a list, so no fuel is needed.
--
-- Not modelled: cryptography, bank adapters, the chain gateway, HTTP and user interfaces, which call
-- external code (what the services use of them is a parameter); the audit log's JSON columns and the
-- outbox's signatures; the registry and administration, which update rows without rules of their own;
-- seeds and migrations.
pub mod Prelude
pub mod Result
pub mod Money
pub mod Peg
pub mod FundClassification
pub mod Ledger
pub mod Reserves
pub mod Store
pub mod ReserveLedger
pub mod Reserve
pub mod Attestation
pub mod Reconciliation
pub mod Abac
pub mod Permissions
pub mod Mint
pub mod Liability
pub mod Funding
pub mod Deposits
pub mod Redemption
pub mod Paykh
pub mod Tests
