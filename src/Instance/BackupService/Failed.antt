-- ===== src/Instance/BackupService/Failed.antt =====
-- A backup that fails leaves its time in the status of the ObjectStore.
use plugin_barman_cloud.Base.{
  ℕ, ◌≡◌, refl, ap, sym, subst, Bool, Option, some, List, String, Bytes, string_eq,
}
use plugin_barman_cloud.Base.Exec.{Result, ok, err, Exec, Ensures, Ensures-bind, ◌>>=◌}
use plugin_barman_cloud.Api.{NamespacedName, ObjectStore, RecoveryWindow}
use plugin_barman_cloud.Config.{PluginConfiguration, get_barman_object_key}
use plugin_barman_cloud.Rbac.Retry.{Attempts, Attempts-Ensures}
use plugin_barman_cloud.Instance.Catalog.Window.{own_window}
use plugin_barman_cloud.Instance.Catalog.{
  CatalogCalls, window_of, failed_store, set_last_failed_backup_time,
}
use plugin_barman_cloud.Instance.BackupService.{
  BackupCalls, handle_backup_error, take_backup, run_backup,
}

abbrev pub key_of : ObjectStore → NamespacedName
key_of store = record { namespace = store.namespace; name = store.name }

-- The time of the last failed backup of a server.
abbrev pub failure_time : ObjectStore → String → Option ℕ
failure_time store server = (window_of store server).last_failed_backup_time

-- The ObjectStores as the client sees them: a `Get` answers with the one it shows, under the key that
-- was asked for, and after an update of the status that succeeded it shows the one that was given.
-- `RetryOnConflict` makes a run of attempts.
pub record StoreLaws {W E : Type 0} (calls : CatalogCalls W E) : Type 0 where
  pub shown : W → NamespacedName → Option ObjectStore
  pub get_shows :
      (key : NamespacedName) (w : W) (store : ObjectStore)
      → (calls.get_object_store key w).0 ≡ ok store
      → key_of store ≡ key
  pub update_shows :
      (store : ObjectStore) (w : W)
      → (calls.update_status store w).0 ≡ ok tt
      → shown (calls.update_status store w).1 (key_of store) ≡ some store
  pub is_conflict : E → Bool
  pub retries :
      (attempt : Exec W E (Unit {0})) (w : W)
      → Attempts is_conflict attempt w
          (calls.retry_on_conflict attempt w).0
          (calls.retry_on_conflict attempt w).1

module _ {W E : Type 0} (calls : CatalogCalls W E) (backup_calls : BackupCalls W E)
    (laws : StoreLaws calls) where
  -- A `Get` of the key, in a world `u`, was answered with a store, which the client shows with the time
  -- of a failure of the server set, the time of a world `v`; that update was the last call.
  abbrev pub IsRecorded : PluginConfiguration → W → Type 0
  IsRecorded c w =
      (store : ObjectStore) × (v : W) × (u : W) × ((calls.get_object_store (get_barman_object_key c)
          u).0
        ≡ ok store)
      × (w
          ≡ (calls.update_status (failed_store store c.server_name (backup_calls.now v))
              (calls.get_object_store (get_barman_object_key c) u).1).1)
      × (laws.shown w (get_barman_object_key c)
          ≡ some (failed_store store c.server_name (backup_calls.now v)))
      × (failure_time (failed_store store c.server_name (backup_calls.now v)) c.server_name
          ≡ some (backup_calls.now v))

  -- What a record of the failure that reports success leaves behind.
  abbrev pub Recorded : PluginConfiguration → Result E (Unit {0}) → W → Type 0
  Recorded c (ok u) w = IsRecorded c w
  Recorded c (err e) w = Unit

  abbrev Anything : W → Type 0
  Anything w = Unit

  -- What a `Get` of the key has answered, in a world before.
  abbrev Answered : PluginConfiguration → ObjectStore → W → Type 0
  Answered c store w =
      (u : W) × ((calls.get_object_store (get_barman_object_key c) u).0 ≡ ok store)
      × ((calls.get_object_store (get_barman_object_key c) u).1 ≡ w)

  abbrev Got : PluginConfiguration → Result E ObjectStore → W → Type 0
  Got c (ok store) w = Answered c store w
  Got c (err e) w = Unit

  got :
      (c : PluginConfiguration)
      → Ensures Anything (calls.get_object_store (get_barman_object_key c)) (Got c)
  got c w h =
      go (calls.get_object_store (get_barman_object_key c) w).0
        (calls.get_object_store (get_barman_object_key c) w).1 refl refl
    where
      go :
          (r : Result E ObjectStore) (v : W)
          → (calls.get_object_store (get_barman_object_key c) w).0 ≡ r
          → (calls.get_object_store (get_barman_object_key c) w).1 ≡ v
          → Got c r v
      go (ok store) v answered left = (w, answered, left)
      go (err e) v answered left = tt

  failed_window :
      (store : ObjectStore) (server : String) (time : ℕ)
      → failure_time (failed_store store server time) server ≡ some time
  unfolding failed_store
  failed_window store server time =
      ap (λ (window : RecoveryWindow). window.last_failed_backup_time) (own_window store server _)

  updated :
      (c : PluginConfiguration) (v : W) (store : ObjectStore)
      → Ensures
          (Answered c store)
          (calls.update_status (failed_store store c.server_name (backup_calls.now v)))
          (Recorded c)
  updated c v store w (u, answered, left) =
      go (calls.update_status after w).0 (calls.update_status after w).1 refl
        (ap (λ (x : W). (calls.update_status after x).1) (sym left))
    where
      after : ObjectStore
      after = failed_store store c.server_name (backup_calls.now v)

      shows :
          (calls.update_status after w).0 ≡ ok tt
          → laws.shown (calls.update_status after w).1 (get_barman_object_key c) ≡ some after
      shows reported =
          let named : key_of after ≡ get_barman_object_key c =
            unfold failed_store in laws.get_shows (get_barman_object_key c) u store answered in
          subst
            (λ (key : NamespacedName). laws.shown (calls.update_status after w).1 key ≡ some after)
            named (laws.update_shows after w reported)

      go :
          (r : Result E (Unit {0})) (x : W)
          → (calls.update_status after w).0 ≡ r
          → ((calls.update_status after w).1
              ≡ (calls.update_status after
                  (calls.get_object_store (get_barman_object_key c) u).1).1)
          → Recorded c r (calls.update_status after w).1
      go (ok done) x reported last = (
        store,
        v,
        u,
        answered,
        last,
        shows reported,
        failed_window store c.server_name (backup_calls.now v),
      )
      go (err e) x reported last = tt

  -- What each attempt leaves behind, the retries leave behind.
  retried :
      (c : PluginConfiguration) (attempt : Exec W E (Unit {0}))
      → Ensures Anything attempt (Recorded c)
      → Ensures Anything (calls.retry_on_conflict attempt) (Recorded c)
  retried c attempt one w h =
      Attempts-Ensures laws.is_conflict attempt Anything (Recorded c) one (λ e v conflict q. tt) w
        (calls.retry_on_conflict attempt w).0 (calls.retry_on_conflict attempt w).1
        (laws.retries attempt w) h

  handled :
      (c : PluginConfiguration)
      → Ensures Anything (handle_backup_error calls backup_calls c) (Recorded c)
  unfolding handle_backup_error set_last_failed_backup_time
  handled c =
      retried c
        (λ w.
          set_last_failed_backup_time calls (get_barman_object_key c) c.server_name
            (backup_calls.now w) w)
        (λ w.
          retried c
            (calls.get_object_store (get_barman_object_key c) >>= λ store.
              calls.update_status (failed_store store c.server_name (backup_calls.now w)))
            (Ensures-bind Anything (Got c) (Recorded c)
              (calls.get_object_store (get_barman_object_key c))
              (λ store. calls.update_status (failed_store store c.server_name (backup_calls.now w)))
              (got c) (updated c w) (λ e v q. tt))
            w)

  -- Where barman-cloud fails to take a backup, the request fails with that error, whatever comes of
  -- its record. If the record succeeds, after however many attempts, then its last two calls were a
  -- `Get` of the ObjectStore, in some world `u`, and the update of the status of the very store that
  -- this `Get` was answered with; after it the client shows that store as `failed_store` makes it, in
  -- which the time of the last failed backup of the server is what the clock says in some world `v`.
  -- The client is assumed to answer a `Get` with a store of that key, and to show what an update that
  -- succeeds was given; a retry is a run of attempts that goes on after conflicts only.
  pub run_backup-IsRecorded :
      (instance_name : String) (c : PluginConfiguration) (store : ObjectStore) (env : List Bytes)
      (name : String) (w : W) (e : E)
      → (backup_calls.take store.spec.configuration name c.server_name env w).0 ≡ err e
      → let after = (backup_calls.take store.spec.configuration name c.server_name env w).1 in
        let r = run_backup calls backup_calls instance_name c store env name w in
        (r.0 ≡ err e) × Recorded c (handle_backup_error calls backup_calls c after).0 r.1
  unfolding run_backup take_backup
  run_backup-IsRecorded instance_name c store env name w e failed =
      rw (failed)
        (refl, handled c (backup_calls.take store.spec.configuration name c.server_name env w).1 tt)
