-- ===== src/Webhook.antt =====
-- internal/webhook: defaulting and validation of a VinylCache at admission.
pub mod Defaults
pub mod Paths
pub mod Validate
pub mod Runtime
pub mod Tests
