-- ===== src/Cluster.antt =====
-- provider/osio: the provider that turns the clusters of the auth service into the configuration
-- of the proxy.
pub mod Client
pub mod Rules
pub mod Schedule
