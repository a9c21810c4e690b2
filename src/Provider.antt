-- ===== src/Provider.antt =====
-- provider: what all providers share.
pub mod Matching
