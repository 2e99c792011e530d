-- ===== src/Ladder.antt =====
-- The retry ladder over the targets that the remote auth service returns: src/utils/target-retry.ts and
-- `runTargetLadder` of src/index.ts.
pub mod Descriptor
pub mod Selection
pub mod Outcome
pub mod Run
