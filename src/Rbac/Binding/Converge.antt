-- ===== src/Rbac/Binding/Converge.antt =====
-- The RoleBinding comes to the desired state.
pub mod Aligned
use plugin_barman_cloud.Base.{subst, Option, none, some}
use plugin_barman_cloud.Base.Exec.{Result, ok, err, Exec}
use plugin_barman_cloud.Api.{NamespacedName}
use plugin_barman_cloud.Rbac.Specs.{RoleBinding}
use plugin_barman_cloud.Rbac.Merge.{role_binding_needs_update}
use plugin_barman_cloud.Rbac.Merge.Laws.{needs_nothing-merged, needs_nothing_self}
use plugin_barman_cloud.Rbac.Ensure.{RbacClient, RbacParameters}
use plugin_barman_cloud.Rbac.Retry.{RetryLaws}
use plugin_barman_cloud.Rbac.Binding.{merged_role_binding, align}
pub use plugin_barman_cloud.Rbac.Binding.Converge.Aligned.{BindingLaws, IsBound}
use plugin_barman_cloud.Rbac.Binding.Converge.Aligned.{IsRead}

module _ {W E : Type 0} (client : RbacClient W E) (env : RbacParameters)
    (retry_laws : RetryLaws client) (laws : BindingLaws client) where
  -- What `getOrCreateRoleBinding` leaves.
  abbrev Got : RoleBinding → Result E (Option RoleBinding) → W → Type 0
  Got desired (ok none) w = IsBound client env retry_laws laws desired w
  Got desired (ok (some b)) w = IsRead client env retry_laws laws desired b w
  Got desired (err e) w = Unit
