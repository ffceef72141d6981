-- ===== src/Runtime.antt =====
-- src/erp_ai/runtime/lifecycle.py and models.py: who owns the provider resources, and when the
-- resources of a runtime are opened and closed.
pub mod Lease
pub mod Lifecycle

pub data RuntimeLifecycleError : Type 0 where
  ownership_unavailable startup_unavailable startup_failed : RuntimeLifecycleError
  shutdown_unavailable shutdown_failed : RuntimeLifecycleError
