-- ===== src/Tests.antt =====
-- The theorems at concrete inputs.
mod Fixtures
mod Handler
mod Paths
mod Cached
mod Remote
mod Wired
mod Wiring
mod Clusters
mod Constraints
mod Rules
mod Middlewares
mod Health
mod Server
mod Access
