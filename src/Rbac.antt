-- ===== src/Rbac.antt =====
-- The Role and the RoleBinding of a Cluster: internal/cnpgi/operator/specs, which says what they
-- should be, and internal/cnpgi/operator/rbac, which brings the API server there.
pub mod Specs
pub mod Merge
pub mod Ensure
pub mod Binding
pub mod Retry
mod Tests
