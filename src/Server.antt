-- ===== src/Server.antt =====
-- server: what the proxy does with the configurations of its providers.
pub mod Pipeline
pub mod Defaults
pub mod Certificates
pub mod Wiring
