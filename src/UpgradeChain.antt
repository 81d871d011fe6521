-- ===== src/UpgradeChain.antt =====
-- enclavia-protocol/src/chain.rs: the validation of an upgrade chain, link by link and as a whole.
mod Fixtures
mod Tests
pub mod Payload
pub mod Link
pub mod Accepted
pub mod Ingest
pub mod Walk
pub mod Descent
