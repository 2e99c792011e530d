-- ===== src/Composite.antt =====
-- Composite aliases: Shares (effective shares of src/index.ts), Order (the order of attempts, src/index.ts),
-- Targets (the order of an alias's targets, src/utils/config-loader.ts), Dispatch (the loop over the
-- attempts, src/index.ts), Plans (the mode of an alias, its plans for a fusion and for a hand-off, and the
-- decision service's choice, src/utils/config-loader.ts).
pub mod Amounts
pub mod Shares
pub mod Order
pub mod Targets
pub mod Dispatch
pub mod Plans
