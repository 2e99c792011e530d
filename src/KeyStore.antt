-- ===== src/KeyStore.antt =====
-- The system key store of src/utils/key-store.ts: Match (which stored key answers for an account),
-- Slots (the api_key places of a configuration), Apply (storing and resolving).
pub mod Match
pub mod Slots
pub mod Apply
