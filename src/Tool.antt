-- ===== src/Tool.antt =====
-- internal/tool/registry.go.
pub mod Registry
pub mod Registration
