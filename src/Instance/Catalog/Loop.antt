-- ===== src/Instance/Catalog/Loop.antt =====
-- internal/cnpgi/instance/retention.go: the endless loop of `Start`.
use plugin_barman_cloud.Base.{ℤ, pos, negsuc, ◌≡◌, ℕ, zero, suc, ◌+◌, ◌≤◌, String, nat_eq, arith}
use plugin_barman_cloud.Base.Exec.{Result, ok, err}
use plugin_barman_cloud.Api.{NamespacedName}
use plugin_barman_cloud.Instance.Catalog.{CatalogCalls, cycle}

-- `defaultRetentionPolicyInterval`, in seconds.
abbrev pub default_retention_policy_interval : ℕ
default_retention_policy_interval = 300

-- The period after a cycle, which is 0 where the cycle has failed: the default stands for 0.
unfoldable pub next_period : {E : Type 0} → Result E ℤ → ℤ
next_period (ok (pos zero)) = pos default_retention_policy_interval
next_period (ok period) = period
next_period (err e) = pos default_retention_policy_interval

-- When `time.After` fires: for a negative period at once. (That the seconds fit into a Go Duration,
-- which holds 292 years, is not modelled.)
abbrev pub fires_at : ℕ → ℤ → ℕ
fires_at time (pos n) = time + n
fires_at time (negsuc n) = time

-- Where the loop is: before a cycle, at the `select` until the timer's time, or returned.
pub data Loop (W : Type 0) : Type 0 where
  cycling : W → Loop W
  waiting : ℕ → W → Loop W
  returned : W → Loop W

module _ {W E : Type 0} (calls : CatalogCalls W E) (now : W → ℕ) (pod_name : String)
    (cluster_key : NamespacedName) where
  -- A step of the loop; while it waits, the world changes as it will, and the context may be done.
  pub data Step : Loop W → Loop W → Type 0 where
    cycled :
        (w : W)
        → Step (cycling w) (
            waiting
              (fires_at
                (now (cycle calls pod_name cluster_key w).1)
                (next_period (cycle calls pod_name cluster_key w).0))
              (cycle calls pod_name cluster_key w).1)
    elapsed : (deadline : ℕ) (w w' : W) → deadline ≤ now w' → Step (waiting deadline w) (cycling w')
    done : (deadline : ℕ) (w w' : W) → Step (waiting deadline w) (returned w')

  -- A run of the loop, with the number of its cycles.
  pub data Runs : Loop W → ℕ → Loop W → Type 0 where
    here : {s : Loop W} → Runs s zero s
    cycle_then :
        {n : ℕ} {w : W} {t u : Loop W}
        → Step (cycling w) t
        → Runs t n u
        → Runs (cycling w) (suc n) u
    wait_then :
        {n : ℕ} {deadline : ℕ} {w : W} {t u : Loop W}
        → Step (waiting deadline w) t
        → Runs t n u
        → Runs (waiting deadline w) n u

  -- The earliest time of the next cycle, as far as it is known.
  abbrev earliest : Loop W → ℕ
  earliest (cycling w) = now w
  earliest (waiting deadline w) = deadline
  earliest (returned w) = zero

  -- After a cycle that answers with a negative interval the next one can start in the world it left.
  negative_spins :
      (w : W) (k : ℕ)
      → (cycle calls pod_name cluster_key w).0 ≡ ok (negsuc k)
      → Runs (cycling w) 1 (cycling (cycle calls pod_name cluster_key w).1)
  unfolding next_period
  negative_spins w k negative =
      cycle_then (cycled w) (wait_then (elapsed _ _ _ (rw (negative) (omega arith))) here)
