-- ===== src/Agent.antt =====
-- internal/agent: the sidecar that drives varnishd for the operator and the proxy.
pub mod Protocol
pub mod Admin
pub mod VclList
pub mod Handler
pub mod Server
pub mod Tests
