-- ===== src/Observability.antt =====
-- pkg/observability: the flow log, and the registry that keeps nothing.
pub mod Flowlog
