-- ===== src/Runtime.antt =====
-- core/runtime: how capabilities and providers are ordered by their dependencies, and the life cycle.
pub mod Sort
pub mod Dependency
pub mod Lifecycle
