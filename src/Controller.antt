-- ===== src/Controller.antt =====
-- internal/controller: the decisions of the reconcile loop, each in a module of its own.
pub mod Peers
pub mod Endpoints
pub mod Push
pub mod AgentClient
pub mod Convergence
pub mod Debounce
pub mod Runtime
pub mod Cluster
pub mod Reconcile
pub mod Conditions
pub mod Settings
pub mod Status
pub mod Tests
