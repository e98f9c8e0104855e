-- ===== src/Reserves.antt =====
-- packages/reserves: the reserve calculation and the mint guard, pure functions over amounts.
pub mod Calculation
pub mod MintGuard
