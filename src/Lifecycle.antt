-- ===== src/Lifecycle.antt =====
-- internal/cnpgi/operator/lifecycle.go and its neighbours: the sidecar of Pods and Jobs.
pub mod PodSpec
pub mod Injection
pub mod Collect
pub mod Requests
pub mod Hook
