-- ===== src/Cache/Spec.antt =====
-- The contract of internal/cnpgi/instance/internal/client/client.go: a map from keys to what was
-- fetched, with no order and no place for an object in it.
use plugin_barman_cloud.Base.{ℕ, Option, none, some, List, [], ◌∷◌, if◌then◌else◌}
use plugin_barman_cloud.Base.Exec.{Result, ok, Exec, ◌>>=◌}
use plugin_barman_cloud.Api.{NamespacedName}
use plugin_barman_cloud.Cache.{
  Kind, Object, CachedEntry, Cache, is_for, is_expired, is_object_cached, default_ttl_seconds,
  BaseClient, get, update, delete, patch,
}

-- What is known of each key.
abbrev pub Known : Type 0 → Type 0
Known C = Kind → NamespacedName → Option (CachedEntry C)

abbrev pub nothing : {C : Type 0} → Known C
nothing kind key = none

-- A fetched object is known for its key, and a written one is not any more.
abbrev pub learn : {C : Type 0} → CachedEntry C → Known C → Known C
learn c known kind key = if is_for kind key c.entry then some c else known kind key

abbrev pub unlearn : {C : Type 0} → Object C → Known C → Known C
unlearn o known kind key = if is_for kind key o then none else known kind key

abbrev pub unlearn_cached : {C : Type 0} → Object C → Known C → Known C
unlearn_cached o known = if is_object_cached o.kind then unlearn o known else known

-- What is known and has not expired.
unfoldable pub fresh : {C : Type 0} → ℕ → Option (CachedEntry C) → Option (Object C)
unfolding is_expired
fresh now none = none
fresh now (some e) = if is_expired now e then none else some e.entry

module _ {W E C : Type 0} (base : BaseClient W E C) where
  abbrev pub beside : {A : Type 0} → Exec W E A → Exec (Known C × W) E A
  beside m (known, w) = ((m w).0, (known, (m w).1))

  abbrev pub learned : Object C → Exec (Known C × W) E (Object C)
  learned o (known, w) = (
    ok o,
    (
      learn (record { entry = o; fetch_unix_time = base.now w; ttl_seconds = default_ttl_seconds })
          known,
      w,
    ),
  )

  -- A `Get` answers with what is fresh, and else it fetches and learns.
  abbrev pub answer : Option (Object C) → Kind → NamespacedName → Exec (Known C × W) E (Object C)
  answer (some o) kind key s = (ok o, s)
  answer none kind key s = (beside (base.get kind key) >>= learned) s

  unfoldable pub spec_get : Kind → NamespacedName → Exec (Known C × W) E (Object C)
  unfolding is_object_cached fresh
  spec_get kind key s =
      if is_object_cached kind
      then answer (fresh (base.now s.1) (s.0 kind key)) kind key s
      else beside (base.get kind key) s

  abbrev pub spec_write :
      (Object C → Exec W E (Unit {0})) → Object C → Exec (Known C × W) E (Unit {0})
  spec_write write o (known, w) = beside (write o) (unlearn_cached o known, w)

-- The calls of a user of the client, between which the world may change.
pub data Call (W C : Type 0) : Type 0 where
  getting : Kind → NamespacedName → Call W C
  updating : Object C → Call W C
  deleting : Object C → Call W C
  patching : Object C → Call W C
  changing : (W → W) → Call W C

-- What a call answers.
pub data Answer (E C : Type 0) : Type 0 where
  got : Result E (Object C) → Answer E C
  wrote : Result E (Unit {0}) → Answer E C
  changed : Answer E C

module _ {S W E C : Type 0} (get_of : Kind → NamespacedName → Exec S E (Object C))
    (update_of delete_of patch_of : Object C → Exec S E (Unit {0}))
    (change_of : (W → W) → S → S) where
  abbrev pub call : Call W C → S → Answer E C × S
  call (getting kind key) s = (got (get_of kind key s).0, (get_of kind key s).1)
  call (updating o) s = (wrote (update_of o s).0, (update_of o s).1)
  call (deleting o) s = (wrote (delete_of o s).0, (delete_of o s).1)
  call (patching o) s = (wrote (patch_of o s).0, (patch_of o s).1)
  call (changing f) s = (changed, change_of f s)

  -- A run of calls, in their order.
  abbrev pub run : List (Call W C) → S → List (Answer E C) × S
  run [] s = ([], s)
  run (c ∷ cs) s = let first = call c s in let rest = run cs first.1 in (first.0 ∷ rest.0, rest.1)

module _ {W E C : Type 0} (base : BaseClient W E C) where
  abbrev pub beside_change : {M : Type 0} → (W → W) → M × W → M × W
  beside_change f (m, w) = (m, f w)

  -- A run of the client of the source, and one of the contract.
  unfoldable pub client_run : List (Call W C) → Cache C × W → List (Answer E C) × (Cache C × W)
  unfolding get update delete patch
  client_run = run (get base) (update base) (delete base) (patch base) beside_change

  unfoldable pub spec_run : List (Call W C) → Known C × W → List (Answer E C) × (Known C × W)
  unfolding spec_get
  spec_run =
      run (spec_get base) (spec_write base base.update) (spec_write base base.delete)
        (spec_write base base.patch) beside_change
