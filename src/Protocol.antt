-- ===== src/Protocol.antt =====
-- enclavia-protocol: what the synchronizer and its clients share about signed chain links.
pub mod Crypto
pub mod Identity
pub mod Signing
pub mod Chain
mod Tests
