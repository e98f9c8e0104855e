-- ===== src/Tests.antt =====
-- Concrete runs of the theorems, on packages/ledger, packages/reserves and the services.
mod Sample
mod Packages
mod Services
mod Runs
mod Domain
mod Desks
mod Policies
mod Paykh
