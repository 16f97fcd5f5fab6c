-- ===== src/Tracer.antt =====
-- The tracer sidecar (internal/tracer, cmd/tracer): varnishlog text is parsed into transaction
-- groups (Vsl), a group is turned into spans (Spans), and the Linker correlates groups.
pub mod VxidCache
pub mod Vsl
pub mod Traceparent
pub mod Spans
pub mod Linker
pub mod Batcher
pub mod Supervise
mod Tests
