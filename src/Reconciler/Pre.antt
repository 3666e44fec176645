-- ===== src/Reconciler/Pre.antt =====
-- What the Pre hook has done when it lets the reconciliation go on, and what it has not done yet when
-- it asks for another try.
use plugin_barman_cloud.Base.{
  ◌≡◌, ◌≢◌, refl, Option, none, some, List, [], ◌∷◌, Bool-cases, inl, inr,
}
use plugin_barman_cloud.Base.Exec.{Result, ok, err, continue, pure, Ensures, Ensures-bind, ◌>>◌}
use plugin_barman_cloud.Api.{NamespacedName, Cluster, ObjectStore}
use plugin_barman_cloud.Config.{new_from_cluster, get_referred_barman_objects_key}
use plugin_barman_cloud.Rbac.Specs.{build_role_rules, build_labels, get_rbac_name}
use plugin_barman_cloud.Rbac.Merge.Laws.{IsMap}
use plugin_barman_cloud.Rbac.Ensure.{RbacClient, RbacParameters, ensure_role}
use plugin_barman_cloud.Rbac.Binding.{ensure_role_binding}
use plugin_barman_cloud.Rbac.Retry.{RetryLaws, RoleLaws}
use plugin_barman_cloud.Rbac.Ensure.Converge.{IsDesired, ensure_role-IsDesired}
use plugin_barman_cloud.Reconciler.{
  proceed, requeue, HookCalls, prepend, fetch_rest, fetch_objects, ensure_access, pre_cluster,
}

-- A `Get` answers with the ObjectStore of the key.
pub record StoreLaws {W E J : Type 0} (calls : HookCalls W E J) : Type 0 where
  pub named :
      (key : NamespacedName) (w : W) (o : ObjectStore)
      → (calls.get_object_store key w).0 ≡ ok o
      → (o.namespace ≡ key.namespace) × (o.name ≡ key.name)

-- The ObjectStores are those of the keys, in order.
abbrev pub AreOf : List NamespacedName → List ObjectStore → Type 0
AreOf [] [] = Unit
AreOf (key ∷ keys) (o ∷ os) = (o.namespace ≡ key.namespace) × (o.name ≡ key.name) × AreOf keys os
AreOf _ _ = ⊥

-- The `Get` of each key in turn, from the world `w` on, answers with the ObjectStores and leaves `v`.
pub data Fetched {W E J : Type 0} (calls : HookCalls W E J)
    : List NamespacedName → W → List ObjectStore → W → Type 0 where
  all_fetched : (w : W) → Fetched calls [] w [] w
  one_fetched :
      (key : NamespacedName) (keys : List NamespacedName) (w v : W) (o : ObjectStore)
      (os : List ObjectStore)
      → (calls.get_object_store key w).0 ≡ ok o
      → Fetched calls keys (calls.get_object_store key w).1 os v
      → Fetched calls (key ∷ keys) w (o ∷ os) v

module _ {W E J : Type 0} (client : RbacClient W E) (env : RbacParameters)
    (calls : HookCalls W E J) where
  -- What was fetched is of the keys.
  Fetched-AreOf :
      (laws : StoreLaws calls) (keys : List NamespacedName) (w v : W) (os : List ObjectStore)
      → Fetched calls keys w os v
      → AreOf keys os
  Fetched-AreOf laws _ _ _ _ (all_fetched w) = tt
  Fetched-AreOf laws _ _ _ _ (one_fetched key keys w v o os got rest) =
      let named = laws.named key w o got in
      (named.0, named.1, Fetched-AreOf laws keys (calls.get_object_store key w).1 v os rest)

  -- What a fetch that succeeds has done.
  abbrev HasFetched : List NamespacedName → W → Result E (Option (List ObjectStore)) → W → Type 0
  HasFetched keys w (ok (some os)) v = Fetched calls keys w os v
  HasFetched keys w (ok none) v = Unit
  HasFetched keys w (err e) v = Unit

  fetch_objects-HasFetched :
      (keys : List NamespacedName) (w : W)
      → HasFetched keys w
          (fetch_objects client env calls keys w).0
          (fetch_objects client env calls keys w).1
  unfolding fetch_objects
  fetch_objects-HasFetched [] w = all_fetched w
  fetch_objects-HasFetched (key ∷ keys) w =
      first (fetch_objects-HasFetched keys (calls.get_object_store key w).1)
        (calls.get_object_store key w).0 refl
    where
      v : W
      v = (calls.get_object_store key w).1

      more :
          (o : ObjectStore)
          → (calls.get_object_store key w).0 ≡ ok o
          → (r : Result E (Option (List ObjectStore))) (u : W) → HasFetched keys v r u
          → HasFetched
              (key ∷ keys)
              w
              (continue r (λ ps. pure (prepend client env calls o ps)) u).0
              (continue r (λ ps. pure (prepend client env calls o ps)) u).1
      more o got (err e) u rest = tt
      more o got (ok none) u rest = tt
      more o got (ok (some os)) u rest = one_fetched key keys w u o os got rest

      first :
          HasFetched keys v
            (fetch_objects client env calls keys v).0
            (fetch_objects client env calls keys v).1
          → (r : Result E ObjectStore) → (calls.get_object_store key w).0 ≡ r
          → HasFetched
              (key ∷ keys)
              w
              (fetch_rest client env calls (fetch_objects client env calls keys) r v).0
              (fetch_rest client env calls (fetch_objects client env calls keys) r v).1
      first rest (ok o) got =
          more o got (fetch_objects client env calls keys v).0
            (fetch_objects client env calls keys v).1 rest
      first rest (err e) got = elim (Bool-cases (client.is_not_found e)) [
        | inl t ↦ rw (t) tt
        | inr t ↦ rw (t) tt
      ]

  bound :
      (cluster : Cluster) (r : Result E (Unit {0})) (v : W)
      → (continue r (λ u. pure proceed) v).0 ≡ ok proceed
      → continue r (λ u. pure proceed) v ≡ (ok proceed, v)
  bound cluster (ok u) v h = refl
  bound cluster (err e) v h = absurd (cc)

  -- Both calls of `rbac` succeeded.
  ensured :
      (cluster : Cluster) (r : Result E (Unit {0})) (v : W)
      → (continue r (λ u. ensure_role_binding client env cluster >> pure proceed) v).0 ≡ ok proceed
      → (r ≡ ok tt)
        × (continue r (λ u. ensure_role_binding client env cluster >> pure proceed) v
            ≡ (ok proceed, (ensure_role_binding client env cluster v).1))
  ensured cluster (ok u) v h = (
    refl,
    bound cluster (ensure_role_binding client env cluster v).0
        (ensure_role_binding client env cluster v).1 h,
  )
  ensured cluster (err e) v h = absurd (cc)

  -- When the Pre hook lets the reconciliation of a Cluster go on, a `Get` of every key that the
  -- configuration refers to, one after the other, answered with the ObjectStore of that key, and they
  -- left the world `v`; `EnsureRole` went on from `v`, and when it was done the client showed the Role
  -- of the Cluster, with the rules for just these ObjectStores, and with every label of `BuildLabels`
  -- and its value; and the hook ends in the world that `EnsureRoleBinding` left after that. The
  -- client's laws hold, and the labels have different names.
  pub pre-ensured :
      (retry_laws : RetryLaws client) (role_laws : RoleLaws client) (laws : StoreLaws calls)
      (cluster : Cluster) (w : W)
      → IsMap (build_labels env.label_names cluster)
      → (pre_cluster client env calls cluster w).0 ≡ ok proceed
      → (os : List ObjectStore) × (v : W) × Fetched calls
          (get_referred_barman_objects_key env.to_sorted_list (new_from_cluster cluster))
          w
          os
          v
        × AreOf (get_referred_barman_objects_key env.to_sorted_list (new_from_cluster cluster)) os
        × IsDesired client env retry_laws role_laws
            (record { namespace = cluster.namespace; name = get_rbac_name cluster.name })
            (build_role_rules env.to_sorted_list os)
            (some (build_labels env.label_names cluster))
            (ensure_role client env cluster os v).1
        × (pre_cluster client env calls cluster w ≡ (
          ok proceed,
          (ensure_role_binding client env cluster (ensure_role client env cluster os v).1).1,
        ))
  unfolding pre_cluster
  pre-ensured retry_laws role_laws laws cluster w is_map h =
      go (fetch_objects client env calls keys w).0 (fetch_objects client env calls keys w).1
        (fetch_objects-HasFetched keys w) h
    where
      keys : List NamespacedName
      keys = get_referred_barman_objects_key env.to_sorted_list (new_from_cluster cluster)

      go :
          (r : Result E (Option (List ObjectStore))) (v : W)
          → HasFetched keys w r v
          → (continue r (ensure_access client env calls cluster) v).0 ≡ ok proceed
          → (os : List ObjectStore) × (u : W) × Fetched calls keys w os u
            × AreOf keys os
            × IsDesired client env retry_laws role_laws
                (record { namespace = cluster.namespace; name = get_rbac_name cluster.name })
                (build_role_rules env.to_sorted_list os)
                (some (build_labels env.label_names cluster))
                (ensure_role client env cluster os u).1
            × (continue r (ensure_access client env calls cluster) v ≡ (
              ok proceed,
              (ensure_role_binding client env cluster (ensure_role client env cluster os u).1).1,
            ))
      go (err e) v fetched g = absurd (cc)
      go (ok none) v fetched g = absurd (cc)
      go (ok (some os)) v fetched g =
          let (done, ends) =
            ensured cluster (ensure_role client env cluster os v).0
              (ensure_role client env cluster os v).1 g in
          (
            os,
            v,
            fetched,
            Fetched-AreOf laws keys w v os fetched,
            ensure_role-IsDesired client env retry_laws role_laws cluster os v is_map done,
            ends,
          )

  fetch_objects-Holds :
      (Holds : W → Type 0)
      → ((key : NamespacedName) (w : W) → Holds w → Holds (calls.get_object_store key w).1)
      → (keys : List NamespacedName)
      → Ensures Holds (fetch_objects client env calls keys) (λ r w. Holds w)
  unfolding fetch_objects
  fetch_objects-Holds Holds kept [] w holds = holds
  fetch_objects-Holds Holds kept (key ∷ keys) w holds =
      rest (fetch_objects-Holds Holds kept keys) (calls.get_object_store key w).0
        (calls.get_object_store key w).1 (kept key w holds)
    where
      rest :
          Ensures Holds (fetch_objects client env calls keys) (λ r w. Holds w)
          → (r : Result E ObjectStore)
          → Ensures Holds
              (fetch_rest client env calls (fetch_objects client env calls keys) r)
              (λ r w. Holds w)
      rest more (ok o) v h =
          Ensures-bind Holds (λ r w'. Holds w') (λ r w'. Holds w')
            (fetch_objects client env calls keys) (λ os. pure (prepend client env calls o os)) more
            (λ os w' g. g) (λ e w' g. g) v h
      rest more (err e) v h = elim (Bool-cases (client.is_not_found e)) [
        | inl t ↦ rw (t) h
        | inr t ↦ rw (t) h
      ]

  -- Before everything is fetched nothing is written: whatever holds of the outside world and is kept
  -- by the `Get` of an ObjectStore holds after a Pre hook that asks for another try, too.
  pub pre-Holds :
      (Holds : W → Type 0)
      → ((key : NamespacedName) (w : W) → Holds w → Holds (calls.get_object_store key w).1)
      → (cluster : Cluster) (w : W) → Holds w
      → (pre_cluster client env calls cluster w).0 ≡ ok requeue
      → Holds (pre_cluster client env calls cluster w).1
  unfolding pre_cluster
  pre-Holds Holds kept cluster w holds h =
      go (fetch_objects client env calls keys w).0 (fetch_objects client env calls keys w).1
        (fetch_objects-Holds Holds kept keys w holds) h
    where
      keys : List NamespacedName
      keys = get_referred_barman_objects_key env.to_sorted_list (new_from_cluster cluster)

      bound_differs :
          (r : Result E (Unit {0})) (v : W) → (continue r (λ u. pure proceed) v).0 ≢ ok requeue
      bound_differs (ok u) v g = cc
      bound_differs (err e) v g = cc

      differs :
          (r : Result E (Unit {0})) (v : W)
          → (continue r (λ u. ensure_role_binding client env cluster >> pure proceed) v).0
            ≢ ok requeue
      differs (ok u) v =
          bound_differs (ensure_role_binding client env cluster v).0
            (ensure_role_binding client env cluster v).1
      differs (err e) v = λ g. cc

      go :
          (r : Result E (Option (List ObjectStore))) (v : W)
          → Holds v
          → (continue r (ensure_access client env calls cluster) v).0 ≡ ok requeue
          → Holds (continue r (ensure_access client env calls cluster) v).1
      go (err e) v held g = held
      go (ok none) v held g = held
      go (ok (some os)) v held g = absurd (
          differs (ensure_role client env cluster os v).0 (ensure_role client env cluster os v).1 g)
