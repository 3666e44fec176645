-- ===== src/Rbac/Retry.antt =====
-- What internal/cnpgi/operator/rbac/ensure.go relies on outside of it: `retry.RetryOnConflict`, and
-- an API server that shows what it was given.
use plugin_barman_cloud.Base.{◌≡◌, subst, Bool, true, Option, some}
use plugin_barman_cloud.Base.Exec.{Result, ok, err, Exec, Ensures}
use plugin_barman_cloud.Api.{NamespacedName}
use plugin_barman_cloud.Rbac.Specs.{Role}
use plugin_barman_cloud.Rbac.Ensure.{RbacClient, role_key}

-- A run of retries, with its last result and world: an attempt is the last one, or it fails with a
-- conflict and another one follows.
pub data Attempts {W E : Type 0} (is_conflict : E → Bool) (attempt : Exec W E (Unit {0}))
    : W → Result E (Unit {0}) → W → Type 0 where
  last : (w : W) → Attempts is_conflict attempt w (attempt w).0 (attempt w).1
  again :
      (w : W) (e : E) (r : Result E (Unit {0})) (w' : W)
      → (attempt w).0 ≡ err e
      → is_conflict e ≡ true
      → Attempts is_conflict attempt (attempt w).1 r w'
      → Attempts is_conflict attempt w r w'

-- `RetryOnConflict` makes such a run. How many attempts there are, and the waits, are its own.
pub record RetryLaws {W E : Type 0} (client : RbacClient W E) : Type 1 where
  pub retries :
      {S : Type 0} (attempt : Exec (S × W) E (Unit {0})) (s : S × W)
      → Attempts client.is_conflict attempt s
          (client.retry_on_conflict attempt s).0
          (client.retry_on_conflict attempt s).1

-- The Roles as this client sees them: a `Get` answers with the Role it shows, under the key that was
-- asked for, and after a `Patch` that succeeded it shows the Role that was given.
pub record RoleLaws {W E : Type 0} (client : RbacClient W E) : Type 0 where
  pub shown : W → NamespacedName → Option Role
  pub get_shows :
      (key : NamespacedName) (w : W) (role : Role)
      → (client.get_role key w).0 ≡ ok role
      → (shown (client.get_role key w).1 key ≡ some role) × (role_key role ≡ key)
  pub patch_shows :
      (old new : Role) (w : W)
      → (client.patch_role old new w).0 ≡ ok tt
      → shown (client.patch_role old new w).1 (role_key new) ≡ some new

module _ {W E : Type 0} (is_conflict : E → Bool) (attempt : Exec W E (Unit {0})) where
  -- What every attempt leaves behind, the retries leave behind.
  pub Attempts-Ensures :
      (P : W → Type 0) (Q : Result E (Unit {0}) → W → Type 0)
      → Ensures P attempt Q
      → ((e : E) (w : W) → is_conflict e ≡ true → Q (err e) w → P w)
      → (w : W) (r : Result E (Unit {0})) (w' : W) → Attempts is_conflict attempt w r w'
      → P w
      → Q r w'
  Attempts-Ensures P Q one back w _ _ (last _) p = one w p
  Attempts-Ensures P Q one back w _ _ (again _ e r w' failed conflict more) p =
      Attempts-Ensures P Q one back (attempt w).1 r w' more
        (back e (attempt w).1 conflict (subst (λ x. Q x (attempt w).1) failed (one w p)))
