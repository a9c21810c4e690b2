-- ===== src/Osio.antt =====
-- middlewares/osio: the authentication and routing middleware of the proxy.
pub mod Types
pub mod Paths
pub mod Cache
pub mod Remote
pub mod Resolve
pub mod Handler
pub mod AuthParam
