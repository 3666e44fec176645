-- ===== src/Cache/Fresh.antt =====
-- What the cache answers: nothing older than its time to live, and nothing that was written since.
use plugin_barman_cloud.Base.{
  ℕ, zero, suc, ◌+◌, ◌≤◌, ◌≡◌, ◌≢◌, refl, true, false, [], ◌∷◌, ◌⊎◌, inl, inr, arith, Bool-cases,
  get_elem?, if◌then◌else◌, some, ltb,
}
use plugin_barman_cloud.Base.Exec.{Result, ok, err, continue}
use plugin_barman_cloud.Api.{NamespacedName}
use plugin_barman_cloud.Cache.{
  Kind, Object, CachedEntry, Cache, is_for, is_expired, is_object_cached, Found, hit, expired, miss,
  one_further, search_cache, set_entry, store_entry, forget, default_ttl_seconds, remember,
  BaseClient, get_cached_object, get, update, delete, patch,
}
use plugin_barman_cloud.Cache.Unique.{IsUnique, forget_gone, search_none, further, missed}

module _ {W E C : Type 0} (base : BaseClient W E C) where
  get_of_none :
      (kind : Kind) (key : NamespacedName) (cache : Cache C) (w : W)
      → is_object_cached kind ≡ true
      → search_cache (base.now w) kind key cache ≡ miss
      → (get base kind key (cache, w)).0 ≡ (base.get kind key w).0
  unfolding get get_cached_object
  get_of_none kind key cache w cached none =
      rw (cached, get) (rw (none, get_cached_object) (same _))
    where
      same :
          (r : Result E (Object C))
          → (continue r (remember base miss) (cache, (base.get kind key w).1)).0 ≡ r
      same (ok o) = refl
      same (err e) = refl

  -- On a cache that holds no object twice, whatever is written is not answered from the cache: after
  -- an `Update`, a `Delete` or a `Patch` of a Secret or an ObjectStore, failed or not, the next
  -- `Get` of that object has the answer of the base client in the world that the write left.
  pub get-write :
      (o : Object C) (cache : Cache C) (w : W)
      → IsUnique cache
      → is_object_cached o.kind ≡ true
      → ((get base o.kind
            (record { namespace = o.namespace; name = o.name })
            (update base o (cache, w)).1).0
          ≡ (base.get o.kind
              (record { namespace = o.namespace; name = o.name })
              (base.update o w).1).0)
        × ((get base o.kind
              (record { namespace = o.namespace; name = o.name })
              (delete base o (cache, w)).1).0
            ≡ (base.get o.kind
                (record { namespace = o.namespace; name = o.name })
                (base.delete o w).1).0)
        × ((get base o.kind
              (record { namespace = o.namespace; name = o.name })
              (patch base o (cache, w)).1).0
            ≡ (base.get o.kind
                (record { namespace = o.namespace; name = o.name })
                (base.patch o w).1).0)
  unfolding update delete patch
  get-write o cache w unique cached =
      let key : NamespacedName = record { namespace = o.namespace; name = o.name } in
      let gone = λ (now : ℕ).
        search_none now o.kind key (forget o cache) (forget_gone o cache unique cached) in
      (
        get_of_none o.kind key (forget o cache) (base.update o w).1 cached (gone _),
        get_of_none o.kind key (forget o cache) (base.delete o w).1 cached (gone _),
        get_of_none o.kind key (forget o cache) (base.patch o w).1 cached (gone _),
      )

  hit_further : (f : Found C) (o : Object C) → one_further f ≡ hit o → f ≡ hit o
  hit_further (hit p) o h = h
  hit_further (expired i) o h = absurd (cc)
  hit_further miss o h = absurd (cc)

  -- An entry of the cache for the key, that is not older than its time to live.
  abbrev pub IsCurrent : ℕ → Kind → NamespacedName → Cache C → Object C → Type 0
  IsCurrent now kind key cache o =
      (i : ℕ) × (e : CachedEntry C) × (get_elem? cache i ≡ some e)
      × (e.entry ≡ o)
      × (is_for kind key o ≡ true)
      × (now ≤ e.fetch_unix_time + e.ttl_seconds)

  at_first :
      (now : ℕ) (kind : Kind) (key : NamespacedName) (e : CachedEntry C) (es : Cache C)
      (o : Object C)
      → is_for kind key e.entry ≡ true
      → (if is_expired now e then expired zero else hit e.entry) ≡ hit o
      → IsCurrent now kind key (e ∷ es) o
  unfolding is_expired
  at_first now kind key e es o f h =
      elim (Bool-cases (ltb (e.fetch_unix_time + e.ttl_seconds) now)) [
        | inl t ↦ absurd (cc)
        | inr t ↦
            let same : e.entry ≡ o = hit_inj (cc) in
            (0, e, refl, same, (rw (← same) f), ground arith)
      ]
    where
      hit_inj : {a b : Object C} → hit a ≡ hit b → a ≡ b
      hit_inj h = cc

  search_hit :
      (now : ℕ) (kind : Kind) (key : NamespacedName) (cache : Cache C) (o : Object C)
      → search_cache now kind key cache ≡ hit o
      → IsCurrent now kind key cache o
  unfolding search_cache
  search_hit now kind key [] o h = absurd (cc)
  search_hit now kind key (e ∷ es) o h = elim (Bool-cases (is_for kind key e.entry)) [
    | inl f ↦ at_first now kind key e es o f (cc)
    | inr f ↦
        let (i, e', at_i, same, it, current) =
          search_hit now kind key es o (hit_further _ o (cc)) in
        (suc i, e', at_i, same, it, current)
  ]

  -- A `Get` of a Secret or an ObjectStore has one of two ends. Either its result is that of the base
  -- client, and so is the world it leaves; or the result is an object that an entry of the cache
  -- holds for this key, the entry is not older than its time to live at the time of the call, and
  -- neither the cache nor the world has changed.
  pub get-IsCurrent :
      (kind : Kind) (key : NamespacedName) (cache : Cache C) (w : W)
      → is_object_cached kind ≡ true
      → (((get base kind key (cache, w)).0 ≡ (base.get kind key w).0)
          × ((get base kind key (cache, w)).1.1 ≡ (base.get kind key w).1))
        ⊎ ((o : Object C) × (get base kind key (cache, w) ≡ (ok o, (cache, w)))
            × IsCurrent (base.now w) kind key cache o)
  unfolding get get_cached_object
  get-IsCurrent kind key cache w cached = go (search_cache (base.now w) kind key cache) refl
    where
      plain :
          (f : Found C) (r : Result E (Object C)) (s : Cache C × W)
          → ((continue r (remember base f) s).0 ≡ r) × ((continue r (remember base f) s).1.1 ≡ s.1)
      plain f (ok o) s = (refl, refl)
      plain f (err e) s = (refl, refl)

      go :
          (f : Found C)
          → search_cache (base.now w) kind key cache ≡ f
          → (((get base kind key (cache, w)).0 ≡ (base.get kind key w).0)
              × ((get base kind key (cache, w)).1.1 ≡ (base.get kind key w).1))
            ⊎ ((o : Object C) × (get base kind key (cache, w) ≡ (ok o, (cache, w)))
                × IsCurrent (base.now w) kind key cache o)
      go (hit o) found = inr (
        o,
        (rw (cached, get) (rw (found, get_cached_object) refl)),
        search_hit (base.now w) kind key cache o found,
      )
      go (expired i) found = inl (
          rw (cached, get)
            (rw (found, get_cached_object)
              (plain (expired i) (base.get kind key w).0 (cache, (base.get kind key w).1))))
      go miss found = inl (
          rw (cached, get)
            (rw (found, get_cached_object)
              (plain miss (base.get kind key w).0 (cache, (base.get kind key w).1))))

  -- The entry that was stored is found, at any time up to its end.
  search-store :
      (now now' : ℕ) (kind : Kind) (key : NamespacedName) (cache : Cache C) (f : Found C)
      (c : CachedEntry C)
      → search_cache now kind key cache ≡ f
      → ((o : Object C) → f ≢ hit o)
      → is_for kind key c.entry ≡ true
      → is_expired now' c ≡ false
      → search_cache now' kind key (store_entry f cache c) ≡ hit c.entry
  unfolding search_cache store_entry set_entry
  search-store now now' kind key cache (hit o) c found no_hit for current = absurd (no_hit o refl)
  search-store now now' kind key [] (expired i) c found no_hit for current = absurd (cc)
  search-store now now' kind key [] miss c found no_hit for current = rw (for) (rw (current) refl)
  search-store now now' kind key (e ∷ es) (expired zero) c found no_hit for current =
      rw (for) (rw (current) refl)
  search-store now now' kind key (e ∷ es) (expired (suc i)) c found no_hit for current =
      elim (Bool-cases (is_for kind key e.entry)) [
        | inl t ↦ elim (Bool-cases (is_expired now e)) [ inl x ↦ absurd (cc) | inr x ↦ absurd (cc) ]
        | inr t ↦
            let again =
              search-store now now' kind key es (expired i) c (further _ i (cc)) (λ o h. cc) for
                current in
            cc
      ]
  search-store now now' kind key (e ∷ es) miss c found no_hit for current =
      elim (Bool-cases (is_for kind key e.entry)) [
        | inl t ↦ elim (Bool-cases (is_expired now e)) [ inl x ↦ absurd (cc) | inr x ↦ absurd (cc) ]
        | inr t ↦
            let again =
              search-store now now' kind key es miss c (missed _ (cc)) (λ o h. cc) for current in
            cc
      ]

  abbrev fetched : Object C → W → CachedEntry C
  fetched o w = record {
    entry = o;
    fetch_unix_time = base.now w;
    ttl_seconds = default_ttl_seconds;
  }

  get-stores :
      (kind : Kind) (key : NamespacedName) (cache : Cache C) (w : W) (o : Object C) (f : Found C)
      → is_object_cached kind ≡ true
      → search_cache (base.now w) kind key cache ≡ f
      → ((p : Object C) → f ≢ hit p)
      → (base.get kind key w).0 ≡ ok o
      → (get base kind key (cache, w)).1.0 ≡ store_entry f cache (fetched o (base.get kind key w).1)
  unfolding get get_cached_object
  get-stores kind key cache w o (hit p) cached found no_hit answered = absurd (no_hit p refl)
  get-stores kind key cache w o (expired i) cached found no_hit answered =
      rw (cached, get) (rw (found, get_cached_object) (rw (answered) refl))
  get-stores kind key cache w o miss cached found no_hit answered =
      rw (cached, get) (rw (found, get_cached_object) (rw (answered) refl))

  -- An object that was fetched is served from the cache while it is fresh: when a `Get` of a Secret or
  -- an ObjectStore found no current entry and the base client answered with `o`, an object of that
  -- key, the same `Get` in any world up to `DefaultTTLSeconds` later answers `o` again and leaves
  -- cache and world as they are, so it does not call the base client.
  pub get-get :
      (kind : Kind) (key : NamespacedName) (cache : Cache C) (w later : W) (o : Object C)
      → is_object_cached kind ≡ true
      → ((p : Object C) → search_cache (base.now w) kind key cache ≢ hit p)
      → (base.get kind key w).0 ≡ ok o
      → is_for kind key o ≡ true
      → base.now later ≤ base.now (base.get kind key w).1 + default_ttl_seconds
      → get base kind key ((get base kind key (cache, w)).1.0, later)
        ≡ (ok o, ((get base kind key (cache, w)).1.0, later))
  unfolding get get_cached_object is_expired
  get-get kind key cache w later o cached no_hit answered for soon =
      let f : Found C = search_cache (base.now w) kind key cache in
      let c : CachedEntry C = fetched o (base.get kind key w).1 in
      let fresh : is_expired (base.now later) c ≡ false = ground (arith, soon) in
      let again =
        search-store (base.now w) (base.now later) kind key cache f c refl no_hit for fresh in
      rw (get-stores kind key cache w o f cached refl no_hit answered)
        (rw (cached, get) (rw (again, get_cached_object) refl))
