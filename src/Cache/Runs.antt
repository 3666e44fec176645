-- ===== src/Cache/Runs.antt =====
-- Any run of the caching client answers as a run over the map does.
use plugin_barman_cloud.Base.{
  ◌≡◌, ◌≢◌, refl, ap, subst, ◌∙◌, Bool, true, false, Option, none, some, [], ◌∷◌, List, arith,
  if◌then◌else◌, Bool-cases, inl, inr,
}
use plugin_barman_cloud.Base.Exec.{Result, ok, err, Exec, continue, ◌>>=◌}
use plugin_barman_cloud.Api.{NamespacedName}
use plugin_barman_cloud.Cache.{
  Kind, Object, CachedEntry, Cache, is_for, is_object_cached, Found, hit, expired, miss,
  search_cache, forget, default_ttl_seconds, outside, remember, BaseClient, get_cached_object, get,
  update, delete, patch,
}
use plugin_barman_cloud.Cache.Unique.{
  IsUnique, entries_for, AnswersKey, get-IsUnique, forget-IsUnique,
}
use plugin_barman_cloud.Cache.Spec.{
  Known, nothing, unlearn_cached, fresh, beside, learned, answer, spec_get, spec_write, Call,
  getting, updating, deleting, patching, changing, Answer, got, wrote, call, beside_change,
  client_run, spec_run,
}
use plugin_barman_cloud.Cache.Refines.{view, Tells, search-Tells, view-store, view-remove}

module _ {W E C : Type 0} (base : BaseClient W E C) (laws : AnswersKey base) where
  -- The two states are in the same world, and the cache, which has no object twice, has what is known.
  pub record Refines (s : Cache C × W) (t : Known C × W) : Type 0 where
    pub is_unique : IsUnique s.0
    pub same_known : (kind : Kind) (key : NamespacedName) → view s.0 kind key ≡ t.0 kind key
    pub same_world : s.1 ≡ t.1

  -- The same answer, from states that refine each other to such.
  abbrev Simulates : {A : Type 0} → Result E A × (Cache C × W) → Result E A × (Known C × W) → Type 0
  Simulates r r' = (r.0 ≡ r'.0) × Refines r.1 r'.1

  fetch-Simulates :
      (kind : Kind) (key : NamespacedName) (cache : Cache C) (known : Known C) (w : W) (f : Found C)
      → search_cache (base.now w) kind key cache ≡ f
      → ((o : Object C) → f ≢ hit o)
      → Refines (cache, w) (known, w)
      → IsUnique ((outside base (base.get kind key) >>= remember base f) (cache, w)).1.0
      → Simulates
          ((outside base (base.get kind key) >>= remember base f) (cache, w))
          ((beside base (base.get kind key) >>= learned base) (known, w))
  fetch-Simulates kind key cache known w f found no_hit refines unique =
      go (base.get kind key w).0 refl unique
    where
      v : W
      v = (base.get kind key w).1

      go :
          (r : Result E (Object C))
          → (base.get kind key w).0 ≡ r
          → IsUnique (continue r (remember base f) (cache, v)).1.0
          → Simulates
              (continue r (remember base f) (cache, v))
              (continue r (learned base) (known, v))
      go (err e) answered u =
          (refl, record { is_unique = u; same_known = refines.same_known; same_world = refl })
      go (ok o) answered u = (
        refl,
        record {
          is_unique = u;
          same_known = λ kind' key'.
              view-store (base.now w) kind kind' key key' cache f
                (record {
                  entry = o;
                  fetch_unix_time = base.now v;
                  ttl_seconds = default_ttl_seconds;
                })
                found no_hit (laws.answers kind key w o answered)
              ∙ ap
                  (λ (v' : Option (CachedEntry C)).
                    if is_for kind' key' o
                    then some (record {
                      entry = o;
                      fetch_unix_time = base.now v;
                      ttl_seconds = default_ttl_seconds;
                    })
                    else v')
                  (refines.same_known kind' key');
          same_world = refl;
        },
      )

  cached-Simulates :
      (kind : Kind) (key : NamespacedName) (cache : Cache C) (known : Known C) (w : W)
      → Refines (cache, w) (known, w)
      → IsUnique (get_cached_object base kind key (cache, w)).1.0
      → Simulates
          (get_cached_object base kind key (cache, w))
          (answer base (fresh (base.now w) (known kind key)) kind key (known, w))
  unfolding get_cached_object fresh
  cached-Simulates kind key cache known w refines unique =
      go (search_cache (base.now w) kind key cache) refl
        (told (search_cache (base.now w) kind key cache) (search-Tells (base.now w) kind key cache))
    where
      told :
          (f : Found C)
          → Tells (base.now w) (view cache kind key) f
          → Tells (base.now w) (known kind key) f
      told f h =
          subst (λ (v : Option (CachedEntry C)). Tells (base.now w) v f)
            (refines.same_known kind key) h

      same : Refines (cache, w) (known, w)
      same = record {
        is_unique = refines.is_unique;
        same_known = refines.same_known;
        same_world = refl;
      }

      unknown : (v : Option (CachedEntry C)) → v ≡ none → fresh (base.now w) v ≡ none
      unknown v h = ap (fresh (base.now w)) h

      go :
          (f : Found C)
          → search_cache (base.now w) kind key cache ≡ f
          → Tells (base.now w) (known kind key) f
          → Simulates
              (get_cached_object base kind key (cache, w))
              (answer base (fresh (base.now w) (known kind key)) kind key (known, w))
      go (hit o) found tells = rw (found, get_cached_object) (rw (tells) (refl, same))
      go (expired i) found tells =
          rw (found, get_cached_object)
            (rw (tells) (
              fetch-Simulates kind key cache known w (expired i) found (λ o h. cc) refines
                (rw (found, get_cached_object) at unique)))
      go miss found tells =
          rw (found, get_cached_object)
            (rw (unknown (known kind key) tells) (
              fetch-Simulates kind key cache known w miss found (λ o h. cc) refines
                (rw (found, get_cached_object) at unique)))

  get-Simulates :
      (kind : Kind) (key : NamespacedName) (cache : Cache C) (known : Known C) (w : W)
      → Refines (cache, w) (known, w)
      → Simulates (get base kind key (cache, w)) (spec_get base kind key (known, w))
  unfolding get spec_get
  get-Simulates kind key cache known w refines =
      split (is_object_cached kind) (get-IsUnique base laws kind key cache w refines.is_unique)
    where
      split :
          (b : Bool)
          → IsUnique
              (if b
                then get_cached_object base kind key (cache, w)
                else outside base (base.get kind key) (cache, w)).1.0
          → Simulates
              (if b
                then get_cached_object base kind key (cache, w)
                else outside base (base.get kind key) (cache, w))
              (if b
                then answer base (fresh (base.now w) (known kind key)) kind key (known, w)
                else beside base (base.get kind key) (known, w))
      split true unique = cached-Simulates kind key cache known w refines unique
      split false unique =
          (refl, record { is_unique = unique; same_known = refines.same_known; same_world = refl })

  write-Simulates :
      (write : Object C → Exec W E (Unit {0})) (o : Object C) (cache : Cache C) (known : Known C)
      (w : W)
      → Refines (cache, w) (known, w)
      → Simulates (outside base (write o) (forget o cache, w)) (spec_write base write o (known, w))
  write-Simulates write o cache known w refines = (
    refl,
    record {
      is_unique = forget-IsUnique o cache refines.is_unique;
      same_known = λ kind key. forgotten kind key;
      same_world = refl;
    },
  )
    where
      forgotten :
          (kind : Kind) (key : NamespacedName)
          → view (forget o cache) kind key ≡ unlearn_cached o known kind key
      forgotten kind key = elim (Bool-cases (is_object_cached o.kind)) [
        | inr t ↦ rw (t) (refines.same_known kind key)
        | inl t ↦ rw (t) (
            view-remove kind key o cache refines.is_unique
            ∙ ap (λ (v : Option (CachedEntry C)). if is_for kind key o then none else v)
                (refines.same_known kind key))
      ]

  -- The same for a call of any kind.
  abbrev Matches : Answer E C × (Cache C × W) → Answer E C × (Known C × W) → Type 0
  Matches r r' = (r.0 ≡ r'.0) × Refines r.1 r'.1

  abbrev client_call : Call W C → Cache C × W → Answer E C × (Cache C × W)
  client_call = call (get base) (update base) (delete base) (patch base) (beside_change base)

  abbrev spec_call : Call W C → Known C × W → Answer E C × (Known C × W)
  spec_call =
      call (spec_get base) (spec_write base base.update) (spec_write base base.delete)
        (spec_write base base.patch) (beside_change base)

  call-Matches :
      (c : Call W C) (cache : Cache C) (known : Known C) (w : W)
      → Refines (cache, w) (known, w)
      → Matches (client_call c (cache, w)) (spec_call c (known, w))
  unfolding update delete patch
  call-Matches (getting kind key) cache known w refines =
      let simulated = get-Simulates kind key cache known w refines in
      (ap got simulated.0, simulated.1)
  call-Matches (updating o) cache known w refines =
      let simulated = write-Simulates base.update o cache known w refines in
      (ap wrote simulated.0, simulated.1)
  call-Matches (deleting o) cache known w refines =
      let simulated = write-Simulates base.delete o cache known w refines in
      (ap wrote simulated.0, simulated.1)
  call-Matches (patching o) cache known w refines =
      let simulated = write-Simulates base.patch o cache known w refines in
      (ap wrote simulated.0, simulated.1)
  call-Matches (changing f) cache known w refines = (
    refl,
    record { is_unique = refines.is_unique; same_known = refines.same_known; same_world = refl },
  )

  -- The client refines its contract: any run of `Get`, `Update`, `Delete` and `Patch`, with changes of
  -- the world between them, from a cache that has no object twice and a map that knows the same, gives
  -- the same answers over both, failures included, and ends in the same world with a cache that
  -- again has what the map knows. So neither the order of the entries nor the place at which an object
  -- is stored is ever seen.
  pub client_run-Refines :
      (calls : List (Call W C)) (s : Cache C × W) (t : Known C × W)
      → Refines s t
      → ((client_run base calls s).0 ≡ (spec_run base calls t).0)
        × Refines (client_run base calls s).1 (spec_run base calls t).1
  unfolding client_run spec_run
  client_run-Refines [] s t refines = (refl, refines)
  client_run-Refines (c ∷ cs) (cache, w) (known, w') refines =
      let first : Matches (client_call c (cache, w)) (spec_call c (known, w')) =
        subst (λ (v : W). Matches (client_call c (cache, w)) (spec_call c (known, v)))
          refines.same_world
          (call-Matches c cache known w (record {
            is_unique = refines.is_unique;
            same_known = refines.same_known;
            same_world = refl;
          })) in
      let rest =
        client_run-Refines cs (client_call c (cache, w)).1 (spec_call c (known, w')).1 first.1 in
      ((cc (first.0, rest.0)), rest.1)

  -- A new client knows nothing.
  pub empty-Refines : (w : W) → Refines ([], w) (nothing, w)
  unfolding view entries_for
  empty-Refines w = record {
    is_unique = λ kind key. omega arith;
    same_known = λ kind key. refl;
    same_world = refl;
  }
