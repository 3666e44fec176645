-- ===== src/Cache.antt =====
-- internal/cnpgi/instance/internal/client/client.go: a client that caches Secrets and ObjectStores.
-- The mutex makes each operation on the cache one step; the loggers are left out.
pub mod Unique
pub mod Fresh
pub mod Spec
pub mod Refines
pub mod Runs
mod Tests
use plugin_barman_cloud.Base.{
  ℕ, zero, suc, ◌+◌, Bool, true, false, ◌&&◌, List, [], ◌∷◌, ◌++◌, String, ltb, ◌==◌, string_eq,
  if◌then◌else◌,
}
use plugin_barman_cloud.Base.Exec.{Result, ok, err, Exec, ◌>>=◌}
use plugin_barman_cloud.Api.{NamespacedName}

-- The type of a Kubernetes object, as `reflect.TypeOf` tells it.
pub data Kind : Type 0 where
  secret object_store : Kind
  other : String → Kind

abbrev pub same_kind : Kind → Kind → Bool
same_kind secret secret = true
same_kind object_store object_store = true
same_kind (other a) (other b) = a == b
same_kind _ _ = false

-- A `client.Object`: its identity, and all else, of type `C`.
pub record Object (C : Type 0) : Type 0 where
  pub kind : Kind
  pub namespace : String
  pub name : String
  pub content : C

-- `DefaultTTLSeconds`
abbrev pub default_ttl_seconds : ℕ
default_ttl_seconds = 10

pub record CachedEntry (C : Type 0) : Type 0 where
  pub entry : Object C
  pub fetch_unix_time : ℕ
  pub ttl_seconds : ℕ

-- `isExpired` at the Unix time `now`: `now - fetchUnixTime > ttlSeconds`, over signed numbers.
unfoldable pub is_expired : {C : Type 0} → ℕ → CachedEntry C → Bool
is_expired now e = ltb (e.fetch_unix_time + e.ttl_seconds) now

-- `isObjectCached`
unfoldable pub is_object_cached : Kind → Bool
is_object_cached secret = true
is_object_cached object_store = true
is_object_cached (other k) = false

-- The object has that kind, namespace and name.
abbrev pub is_for : {C : Type 0} → Kind → NamespacedName → Object C → Bool
is_for kind key o = o.namespace == key.namespace && (o.name == key.name && same_kind o.kind kind)

-- The client that is extended, and the clock.
pub record BaseClient (W E C : Type 0) : Type 0 where
  pub get : Kind → NamespacedName → Exec W E (Object C)
  pub update : Object C → Exec W E (Unit {0})
  pub delete : Object C → Exec W E (Unit {0})
  pub patch : Object C → Exec W E (Unit {0})
  pub now : W → ℕ

-- What the loop of `getCachedObject` ends with: the object to copy out, the index of the expired
-- entry, or neither.
pub data Found (C : Type 0) : Type 0 where
  hit : Object C → Found C
  expired : ℕ → Found C
  miss : Found C

abbrev pub one_further : {C : Type 0} → Found C → Found C
one_further (hit o) = hit o
one_further (expired i) = expired (suc i)
one_further miss = miss

-- The loop of `getCachedObject`: it stops at the first entry for the key. (The assignability that
-- it checks before a copy holds, since the types are the same.)
unfoldable pub search_cache :
    {C : Type 0} → ℕ → Kind → NamespacedName → List (CachedEntry C) → Found C
unfolding is_expired
search_cache now kind key [] = miss
search_cache now kind key (e ∷ es) =
    let further = one_further (search_cache now kind key es) in
    if is_for kind key e.entry
    then (if is_expired now e then expired zero else hit e.entry)
    else further

-- `cachedObjects[i] = cs`
unfoldable pub set_entry :
    {C : Type 0} → List (CachedEntry C) → ℕ → CachedEntry C → List (CachedEntry C)
set_entry [] i c = []
set_entry (e ∷ es) zero c = c ∷ es
set_entry (e ∷ es) (suc i) c = e ∷ set_entry es i c

abbrev pub Cache : Type 0 → Type 0
Cache C = List (CachedEntry C)

-- The place of a fetched object in the cache.
unfoldable pub store_entry : {C : Type 0} → Found C → Cache C → CachedEntry C → Cache C
unfolding set_entry
store_entry (expired i) cache c = set_entry cache i c
store_entry _ cache c = cache ++ c ∷ []

-- The loop of `removeObject`: the first entry of that object goes.
unfoldable pub remove_first : {C : Type 0} → Kind → NamespacedName → Cache C → Cache C
remove_first kind key [] = []
remove_first kind key (e ∷ es) =
    let rest = e ∷ remove_first kind key es in if is_for kind key e.entry then es else rest

-- `removeObject`
unfoldable pub remove_object : {C : Type 0} → Object C → Cache C → Cache C
unfolding remove_first
remove_object o cache =
    remove_first o.kind (record { namespace = o.namespace; name = o.name }) cache

-- The cache as `Update`, `Delete` and `Patch` leave it before they call the base client.
abbrev pub forget : {C : Type 0} → Object C → Cache C → Cache C
forget o cache = if is_object_cached o.kind then remove_object o cache else cache

module _ {W E C : Type 0} (base : BaseClient W E C) where
  -- A call of the base client, beside the cache.
  abbrev pub outside : {A : Type 0} → Exec W E A → Exec (Cache C × W) E A
  outside m (cache, w) = ((m w).0, (cache, (m w).1))

  -- What follows the `Get` of the base client.
  abbrev pub remember : Found C → Object C → Exec (Cache C × W) E (Object C)
  remember found o (cache, w) = (
    ok o,
    (
      store_entry found cache
          (record { entry = o; fetch_unix_time = base.now w; ttl_seconds = default_ttl_seconds }),
      w,
    ),
  )

  -- `getCachedObject`
  unfoldable pub get_cached_object : Kind → NamespacedName → Exec (Cache C × W) E (Object C)
  unfolding search_cache store_entry
  get_cached_object kind key (cache, w) = elim (search_cache (base.now w) kind key cache) [
    | hit o ↦ (ok o, (cache, w))
    | expired i ↦ (outside (base.get kind key) >>= remember (expired i)) (cache, w)
    | miss ↦ (outside (base.get kind key) >>= remember miss) (cache, w)
  ]

  -- `Get`
  unfoldable pub get : Kind → NamespacedName → Exec (Cache C × W) E (Object C)
  unfolding get_cached_object is_object_cached
  get kind key s =
      if is_object_cached kind then get_cached_object kind key s else outside (base.get kind key) s

  -- `Update`
  unfoldable pub update : Object C → Exec (Cache C × W) E (Unit {0})
  unfolding is_object_cached remove_object
  update o (cache, w) = outside (base.update o) (forget o cache, w)

  -- `Delete`
  unfoldable pub delete : Object C → Exec (Cache C × W) E (Unit {0})
  unfolding is_object_cached remove_object
  delete o (cache, w) = outside (base.delete o) (forget o cache, w)

  -- `Patch`
  unfoldable pub patch : Object C → Exec (Cache C × W) E (Unit {0})
  unfolding is_object_cached remove_object
  patch o (cache, w) = outside (base.patch o) (forget o cache, w)
