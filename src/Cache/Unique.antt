-- ===== src/Cache/Unique.antt =====
-- The cache holds an object once at most, so that to remove it once is enough.
pub mod Entries
use plugin_barman_cloud.Base.{
  ℕ, zero, suc, ◌+◌, ◌≤◌, ◌≡◌, ◌≢◌, refl, ap, true, [], ◌∷◌, ◌++◌, string_eq, eq_iff, ==_refl,
  if◌then◌else◌, arith, Bool-cases, inl, inr,
}
use plugin_barman_cloud.Base.Exec.{Result, ok, err, continue}
use plugin_barman_cloud.Api.{NamespacedName}
use plugin_barman_cloud.Cache.{
  Kind, secret, object_store, other, same_kind, Object, CachedEntry, Cache, is_for,
  is_object_cached, Found, hit, expired, miss, one_further, search_cache, set_entry, store_entry,
  remove_first, remove_object, default_ttl_seconds, remember, forget, BaseClient, get_cached_object,
  get,
}
unfoldable pub use plugin_barman_cloud.Cache.Unique.Entries.{entries_for}
pub use plugin_barman_cloud.Cache.Unique.Entries.{
  same_kind_refl, is_for_both, not_first, further, missed, search_none,
}
use plugin_barman_cloud.Cache.Unique.Entries.{
  entries_for-set, entries_for_miss, entries_for-append, same_entries, entries_for-remove,
  entries_for-remove_self,
}

-- No object has two entries.
abbrev pub IsUnique : {C : Type 0} → Cache C → Type 0
IsUnique cache = (kind : Kind) (key : NamespacedName) → entries_for kind key cache ≤ 1

-- The base client answers with the object that was asked for.
pub record AnswersKey {W E C : Type 0} (base : BaseClient W E C) : Type 0 where
  pub answers :
      (kind : Kind) (key : NamespacedName) (w : W) (o : Object C)
      → (base.get kind key w).0 ≡ ok o
      → is_for kind key o ≡ true

module _ {W E C : Type 0} (base : BaseClient W E C) (law : AnswersKey base) where
  remember-IsUnique :
      (kind : Kind) (key : NamespacedName) (cache : Cache C) (w w' : W) (o : Object C)
      (found : Found C)
      → search_cache (base.now w) kind key cache ≡ found
      → ((o' : Object C) → found ≢ hit o')
      → is_for kind key o ≡ true
      → IsUnique cache
      → IsUnique (
          store_entry found cache (record {
            entry = o;
            fetch_unix_time = base.now w';
            ttl_seconds = default_ttl_seconds;
          }))
  unfolding store_entry
  remember-IsUnique kind key cache w w' o (hit o') searched no_hit own unique =
      absurd (no_hit o' refl)
  remember-IsUnique kind key cache w w' o (expired i) searched no_hit own unique = λ kind' key'.
      rw
        (entries_for-set (base.now w) kind kind' key key' cache i
          (record { entry = o; fetch_unix_time = base.now w'; ttl_seconds = default_ttl_seconds })
          searched own)
        (unique kind' key')
  remember-IsUnique kind key cache w w' o miss searched no_hit own unique = λ kind' key'.
      rw entries_for-append (elim (Bool-cases (is_for kind' key' o)) [
        | inl both ↦ rw both (
            omega (
              arith,
              same_entries kind kind' key key' o cache own both,
              entries_for_miss (base.now w) kind key cache searched,
            ))
        | inr apart ↦ rw apart (omega (arith, unique kind' key'))
      ])

  get_cached-IsUnique :
      (kind : Kind) (key : NamespacedName) (cache : Cache C) (w : W)
      → IsUnique cache
      → IsUnique (get_cached_object base kind key (cache, w)).1.0
  unfolding get_cached_object
  get_cached-IsUnique kind key cache w unique =
      looked (search_cache (base.now w) kind key cache) refl
    where
      fetched :
          (found : Found C)
          → search_cache (base.now w) kind key cache ≡ found
          → ((o : Object C) → found ≢ hit o)
          → (r : Result E (Object C)) → (base.get kind key w).0 ≡ r
          → IsUnique (continue r (remember base found) (cache, (base.get kind key w).1)).1.0
      fetched found searched no_hit (ok o) answered =
          remember-IsUnique kind key cache w _ o found searched no_hit
            (law.answers kind key w o answered) unique
      fetched found searched no_hit (err e) answered = unique

      looked :
          (found : Found C)
          → search_cache (base.now w) kind key cache ≡ found
          → IsUnique (get_cached_object base kind key (cache, w)).1.0
      looked (hit o) searched = rw (searched, get_cached_object) unique
      looked (expired i) searched =
          rw (searched, get_cached_object) (fetched (expired i) searched (λ o e. cc) _ refl)
      looked miss searched =
          rw (searched, get_cached_object) (fetched miss searched (λ o e. cc) _ refl)

  -- Where the base client answers with the object that was asked for, `Get` keeps a cache that
  -- holds no object twice.
  pub get-IsUnique :
      (kind : Kind) (key : NamespacedName) (cache : Cache C) (w : W)
      → IsUnique cache
      → IsUnique (get base kind key (cache, w)).1.0
  unfolding get
  get-IsUnique kind key cache w unique = elim (Bool-cases (is_object_cached kind)) [
    | inl cached ↦ rw (cached, get) (get_cached-IsUnique kind key cache w unique)
    | inr direct ↦ rw (direct, get) unique
  ]

module _ {C : Type 0} where
  pub forget-IsUnique :
      (o : Object C) (cache : Cache C) → IsUnique cache → IsUnique (forget o cache)
  unfolding remove_object
  forget-IsUnique o cache unique = λ kind' key'.
      let fewer =
        entries_for-remove o.kind kind' (record { namespace = o.namespace; name = o.name }) key'
          cache in
      ground (arith, fewer, unique kind' key')

  pub forget_gone :
      (o : Object C) (cache : Cache C)
      → IsUnique cache
      → is_object_cached o.kind ≡ true
      → entries_for o.kind (record { namespace = o.namespace; name = o.name }) (forget o cache) ≡ 0
  unfolding remove_object
  forget_gone o cache unique cached = rw cached (
      entries_for-remove_self o.kind _ cache
        (unique o.kind (record { namespace = o.namespace; name = o.name })))
