-- ===== src/Process/Ordered.antt =====
-- A manager is started once it has everything that it is to run.
use plugin_barman_cloud.Base.{◌≡◌, refl, List, [], ◌∷◌, ◌++◌, String}
use plugin_barman_cloud.Base.Exec.{Result, ok, err, Exec, wrapping, ◌>>=◌, ◌>>◌}
use plugin_barman_cloud.Base.Exec.Phases.{
  Outcome, Leads, Leads-bind, Leads-wrapping, Leads-reached, Leads-kept,
}
use plugin_barman_cloud.Process.{Settings}
use plugin_barman_cloud.Process.Servers.{OperatorCnpgi, InstanceCnpgi, RestoreCnpgi}
use plugin_barman_cloud.Process.Managers.{
  Runnable, operator_cnpgi, instance_cnpgi, restore_cnpgi, catalog_maintenance,
  CatalogMaintenanceRunnable, ManagerOptions, CommandError, external, unable_to_create_controller,
  ManagerCalls, operator_options, instance_options, restore_options, operator_of, instance_of,
  maintenance_of, restore_of, setup_with_manager, start_operator, start_instance, start_restore,
}

-- What a manager is given: the controller of the ObjectStores, a check under a name, or a runnable.
pub data Given (K : Type 0) : Type 0 where
  controller : Given K
  healthz readyz : String → Given K
  runnable : Runnable K → Given K

-- All that the manager of a process has to be given: in the operator the controller, the two checks
-- and the server, in an instance the server and the maintenance of the catalog, with the client of
-- the server, and in a restore job the server.
pub data IsWhole {K : Type 0} : List (Given K) → Type 0 where
  whole_operator :
      (c : OperatorCnpgi K)
      → IsWhole
          (controller ∷ healthz "healthz" ∷ readyz "readyz" ∷ runnable (operator_cnpgi c) ∷ [])
  whole_instance :
      (c : InstanceCnpgi K) (m : CatalogMaintenanceRunnable K)
      → c.client ≡ m.client
      → IsWhole (runnable (instance_cnpgi c) ∷ runnable (catalog_maintenance m) ∷ [])
  whole_restore : (c : RestoreCnpgi K) → IsWhole (runnable (restore_cnpgi c) ∷ [])

-- What the calls do to a predicate of what a manager was given: each call that gives something adds it
-- if it succeeds, and keeps what holds at the beginning if it fails; `start` has to keep that only
-- where what was given is whole.
pub record AddsFirst {W E M K : Type 0} (calls : ManagerCalls W E M K)
    (P : List (Given K) → W → Type 0) : Type 0 where
  pub by_new : (o : ManagerOptions) (w : W) → P [] w → P [] (calls.new_manager o w).1
  pub by_controller :
      (m : M) (gs : List (Given K)) (w : W) → P gs w → P [] (calls.complete_controller m w).1
  pub controller_given :
      (m : M) (gs : List (Given K)) (w : W) (u : Unit {0})
      → P gs w
      → (calls.complete_controller m w).0 ≡ ok u
      → P (gs ++ controller ∷ []) (calls.complete_controller m w).1
  pub by_healthz :
      (m : M) (n : String) (gs : List (Given K)) (w : W)
      → P gs w
      → P [] (calls.add_healthz_check m n w).1
  pub healthz_given :
      (m : M) (n : String) (gs : List (Given K)) (w : W) (u : Unit {0})
      → P gs w
      → (calls.add_healthz_check m n w).0 ≡ ok u
      → P (gs ++ healthz n ∷ []) (calls.add_healthz_check m n w).1
  pub by_readyz :
      (m : M) (n : String) (gs : List (Given K)) (w : W)
      → P gs w
      → P [] (calls.add_readyz_check m n w).1
  pub readyz_given :
      (m : M) (n : String) (gs : List (Given K)) (w : W) (u : Unit {0})
      → P gs w
      → (calls.add_readyz_check m n w).0 ≡ ok u
      → P (gs ++ readyz n ∷ []) (calls.add_readyz_check m n w).1
  pub by_add :
      (m : M) (r : Runnable K) (gs : List (Given K)) (w : W) → P gs w → P [] (calls.add m r w).1
  pub added :
      (m : M) (r : Runnable K) (gs : List (Given K)) (w : W) (u : Unit {0})
      → P gs w
      → (calls.add m r w).0 ≡ ok u
      → P (gs ++ runnable r ∷ []) (calls.add m r w).1
  pub by_start :
      (m : M) (gs : List (Given K)) (w : W) → IsWhole gs → P gs w → P [] (calls.start m w).1

module _ {W E M K : Type 0} (calls : ManagerCalls W E M K) (settings : Settings)
    (P : List (Given K) → W → Type 0) (laws : AddsFirst calls P) where
  -- A call that gives something, under any message for its error.
  gives :
      (gs : List (Given K)) (g : Given K) (f : E → CommandError E) (m : Exec W E (Unit {0}))
      → ((w : W) → P gs w → P [] (m w).1)
      → ((w : W) (u : Unit {0}) → P gs w → (m w).0 ≡ ok u → P (gs ++ g ∷ []) (m w).1)
      → Leads P [] gs (gs ++ g ∷ []) (wrapping f m)
  gives gs g f m keeps given =
      Leads-wrapping P [] gs (gs ++ g ∷ []) f m (Leads-reached P [] gs (gs ++ g ∷ []) m keeps given)

  adds :
      (m : M) (gs : List (Given K)) (r : Runnable K)
      → Leads P [] gs (gs ++ runnable r ∷ []) (wrapping external (calls.add m r))
  adds m gs r =
      gives gs (runnable r) external (calls.add m r) (laws.by_add m r gs) (laws.added m r gs)

  starts :
      (m : M) (gs : List (Given K))
      → IsWhole gs
      → Leads P [] gs [] (wrapping external (calls.start m))
  starts m gs whole = Leads-wrapping P [] gs [] external (calls.start m) (
      Leads-reached P [] gs [] (calls.start m) (λ w. laws.by_start m gs w whole)
        (λ w u h e. laws.by_start m gs w whole h))

  -- A call and, if it succeeds, another one.
  then_call :
      (p q r : List (Given K)) (m k : Exec W (CommandError E) (Unit {0}))
      → Leads P [] p q m
      → Leads P [] q r k
      → Leads P [] p r (m >> k)
  then_call p q r m k first rest = Leads-bind P [] p q r m (λ u. k) first (λ u. rest)

  made :
      (o : ManagerOptions) (f : M → Exec W (CommandError E) (Unit {0}))
      → ((m : M) → Leads P [] [] [] (f m))
      → Leads P [] [] [] (wrapping external (calls.new_manager o) >>= f)
  made o f rest =
      Leads-bind P [] [] [] [] (wrapping external (calls.new_manager o)) f
        (Leads-wrapping P [] [] [] external (calls.new_manager o)
          (Leads-kept P [] [] (calls.new_manager o) (λ w h. h) (laws.by_new o)))
        rest

  operator-started : Leads P [] [] [] (start_operator calls settings)
  unfolding start_operator setup_with_manager
  operator-started = made (operator_options calls.scheme_calls settings) _ (λ m.
      let c = operator_of settings (calls.get_client m) in
      let one : List (Given K) = controller ∷ [] in
      let two : List (Given K) = controller ∷ healthz "healthz" ∷ [] in
      let three : List (Given K) = controller ∷ healthz "healthz" ∷ readyz "readyz" ∷ [] in
      let four : List (Given K) =
        controller ∷ healthz "healthz" ∷ readyz "readyz" ∷ runnable (operator_cnpgi c) ∷ [] in
      then_call [] four [] _ _
        (then_call [] three four _ _
          (then_call [] two three _ _
            (then_call [] one two _ _
              (gives [] controller unable_to_create_controller (calls.complete_controller m)
                (laws.by_controller m []) (laws.controller_given m []))
              (gives one (healthz "healthz") external (calls.add_healthz_check m "healthz")
                (laws.by_healthz m "healthz" one) (laws.healthz_given m "healthz" one)))
            (gives two (readyz "readyz") external (calls.add_readyz_check m "readyz")
              (laws.by_readyz m "readyz" two) (laws.readyz_given m "readyz" two)))
          (adds m three (operator_cnpgi c)))
        (starts m four (whole_operator c)))

  instance-started : Leads P [] [] [] (start_instance calls settings)
  unfolding start_instance instance_of maintenance_of
  instance-started = made (instance_options calls.scheme_calls settings) _ (λ m.
      let c = instance_of settings (calls.get_client m) in
      let r = maintenance_of settings (calls.get_client m) in
      let one : List (Given K) = runnable (instance_cnpgi c) ∷ [] in
      let two : List (Given K) =
        runnable (instance_cnpgi c) ∷ runnable (catalog_maintenance r) ∷ [] in
      then_call [] two [] _ _
        (then_call [] one two _ _ (adds m [] (instance_cnpgi c))
          (adds m one (catalog_maintenance r)))
        (starts m two (whole_instance c r refl)))

  restore-started : Leads P [] [] [] (start_restore calls settings)
  unfolding start_restore
  restore-started = made (restore_options calls.scheme_calls settings) _ (λ m.
      let c = restore_of settings (calls.get_client m) in
      then_call [] (runnable (restore_cnpgi c) ∷ []) [] _ _ (adds m [] (restore_cnpgi c))
        (starts m (runnable (restore_cnpgi c) ∷ []) (whole_restore c)))

  -- No process starts its manager before the manager was given this, without an error: the operator's
  -- the controller of the ObjectStores, the health check, the ready check and the server, that of an
  -- instance the server and the maintenance of the catalog, both with one client, and that of a
  -- restore job the server. What holds at the beginning, and is kept by the other calls and by the
  -- start of a manager that was given these, holds after `Start` of any of the three, whether it
  -- succeeds or fails and whatever call fails.
  pub start-Holds :
      (w : W)
      → P [] w
      → P [] (start_operator calls settings w).1
        × P [] (start_instance calls settings w).1
        × P [] (start_restore calls settings w).1
  start-Holds w h = (
    holds (start_operator calls settings w) (operator-started w h),
    holds (start_instance calls settings w) (instance-started w h),
    holds (start_restore calls settings w) (restore-started w h),
  )
    where
      holds : (s : Result (CommandError E) (Unit {0}) × W) → Outcome P [] [] s.0 s.1 → P [] s.1
      holds (ok u, v) g = g
      holds (err e, v) g = g
