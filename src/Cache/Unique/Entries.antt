-- ===== src/Cache/Unique/Entries.antt =====
-- The entries of the cache for a key.
use plugin_barman_cloud.Base.{
  ℕ, zero, suc, ◌+◌, ◌≤◌, ◌≡◌, refl, ap, true, [], ◌∷◌, ◌++◌, string_eq, eq_iff, ==_refl,
  if◌then◌else◌, arith, Bool-cases, inl, inr,
}
use plugin_barman_cloud.Api.{NamespacedName}
use plugin_barman_cloud.Cache.{
  Kind, secret, object_store, other, same_kind, Object, CachedEntry, Cache, is_for, Found, hit,
  expired, miss, one_further, search_cache, set_entry, remove_first,
}

-- How many entries there are for a key.
unfoldable pub entries_for : {C : Type 0} → Kind → NamespacedName → Cache C → ℕ
entries_for kind key [] = 0
entries_for kind key (e ∷ es) = (if is_for kind key e.entry then 1 else 0) + entries_for kind key es

same_kind-true : (a b : Kind) → same_kind a b ≡ true → a ≡ b
same_kind-true secret secret h = refl
same_kind-true object_store object_store h = refl
same_kind-true (other a) (other b) h = ap other ((eq_iff a b).0 h)
same_kind-true secret object_store h = absurd (cc)
same_kind-true secret (other b) h = absurd (cc)
same_kind-true object_store secret h = absurd (cc)
same_kind-true object_store (other b) h = absurd (cc)
same_kind-true (other a) secret h = absurd (cc)
same_kind-true (other a) object_store h = absurd (cc)

pub same_kind_refl : (a : Kind) → same_kind a a ≡ true
same_kind_refl secret = refl
same_kind_refl object_store = refl
same_kind_refl (other a) = ==_refl a

module _ {C : Type 0} where
  is_for-true :
      (kind : Kind) (key : NamespacedName) (o : Object C)
      → is_for kind key o ≡ true
      → (o.namespace ≡ key.namespace) × (o.name ≡ key.name) × (o.kind ≡ kind)
  is_for-true kind key o h =
      ground (
        arith,
        eq_iff o.namespace key.namespace,
        eq_iff o.name key.name,
        same_kind-true o.kind kind,
      )

  -- Two objects that one key is for are for the same keys.
  pub is_for_both :
      (kind kind' : Kind) (key key' : NamespacedName) (o o' : Object C)
      → is_for kind key o ≡ true
      → is_for kind key o' ≡ true
      → is_for kind' key' o ≡ is_for kind' key' o'
  is_for_both kind kind' key key' o o' h h' =
      let (ns, name, k) = is_for-true kind key o h in
      let (ns', name', k') = is_for-true kind key o' h' in cc (ns, name, k, ns', name', k')

  pub not_first : (f : Found C) → one_further f ≡ expired zero → ⊥
  not_first (hit o) h = cc
  not_first (expired i) h = ground arith
  not_first miss h = cc

  pub further : (f : Found C) (i : ℕ) → one_further f ≡ expired (suc i) → f ≡ expired i
  further (hit o) i h = absurd (cc)
  further (expired j) i h = ground arith
  further miss i h = absurd (cc)

  pub missed : (f : Found C) → one_further f ≡ miss → f ≡ miss
  missed (hit o) h = absurd (cc)
  missed (expired j) h = absurd (cc)
  missed miss h = refl

  pub entries_for-set :
      (now : ℕ) (kind kind' : Kind) (key key' : NamespacedName) (cache : Cache C) (i : ℕ)
      (c : CachedEntry C)
      → search_cache now kind key cache ≡ expired i
      → is_for kind key c.entry ≡ true
      → entries_for kind' key' (set_entry cache i c) ≡ entries_for kind' key' cache
  unfolding search_cache set_entry entries_for
  entries_for-set now kind kind' key key' [] i c h own = absurd (cc)
  entries_for-set now kind kind' key key' (e ∷ es) zero c h own =
      elim (Bool-cases (is_for kind key e.entry)) [
        | inl mine ↦ rw (is_for_both kind kind' key key' c.entry e.entry own mine)
        | inr apart ↦
            absurd (not_first (search_cache now kind key es) (rw (apart, search_cache) at h))
      ]
  entries_for-set now kind kind' key key' (e ∷ es) (suc i) c h own =
      elim (Bool-cases (is_for kind key e.entry)) [
        | inl mine ↦ absurd (ground arith)
        | inr apart ↦
            ap (λ n. (if is_for kind' key' e.entry then 1 else 0) + n)
              (entries_for-set now kind kind' key key' es i c
                (further (search_cache now kind key es) i (rw (apart, search_cache) at h)) own)
      ]

  pub entries_for_miss :
      (now : ℕ) (kind : Kind) (key : NamespacedName) (cache : Cache C)
      → search_cache now kind key cache ≡ miss
      → entries_for kind key cache ≡ 0
  unfolding search_cache entries_for
  entries_for_miss now kind key [] h = refl
  entries_for_miss now kind key (e ∷ es) h = elim (Bool-cases (is_for kind key e.entry)) [
    | inl mine ↦ absurd (ground arith)
    | inr apart ↦ rw apart (
        omega (
          arith,
          entries_for_miss now kind key es
              (missed (search_cache now kind key es) (rw (apart, search_cache) at h)),
        ))
  ]

  pub search_none :
      (now : ℕ) (kind : Kind) (key : NamespacedName) (cache : Cache C)
      → entries_for kind key cache ≡ 0
      → search_cache now kind key cache ≡ miss
  unfolding search_cache entries_for
  search_none now kind key [] h = refl
  search_none now kind key (e ∷ es) h = elim (Bool-cases (is_for kind key e.entry)) [
    | inl mine ↦ absurd (ground arith)
    | inr apart ↦
        rw (apart, search_cache)
          (ap one_further (search_none now kind key es (ground (arith, apart))))
  ]

  pub entries_for-append :
      (kind : Kind) (key : NamespacedName) (cache : Cache C) (c : CachedEntry C)
      → entries_for kind key (cache ++ c ∷ [])
        ≡ entries_for kind key cache + (if is_for kind key c.entry then 1 else 0)
  unfolding entries_for
  entries_for-append kind key [] c = omega arith
  entries_for-append kind key (e ∷ es) c = omega (arith, entries_for-append kind key es c)

  pub same_entries :
      (kind kind' : Kind) (key key' : NamespacedName) (o : Object C) (cache : Cache C)
      → is_for kind key o ≡ true
      → is_for kind' key' o ≡ true
      → entries_for kind' key' cache ≡ entries_for kind key cache
  same_entries kind kind' key key' o cache h h' =
      let (ns, name, k) = is_for-true kind key o h in
      let (ns', name', k') = is_for-true kind' key' o h' in
      let same_key : key' ≡ key = ground arith in cc

  pub entries_for-remove :
      (kind kind' : Kind) (key key' : NamespacedName) (cache : Cache C)
      → entries_for kind' key' (remove_first kind key cache) ≤ entries_for kind' key' cache
  unfolding remove_first entries_for
  entries_for-remove kind kind' key key' [] = omega arith
  entries_for-remove kind kind' key key' (e ∷ es) =
      ground (arith, entries_for-remove kind kind' key key' es)

  pub entries_for-remove_self :
      (kind : Kind) (key : NamespacedName) (cache : Cache C)
      → entries_for kind key cache ≤ 1
      → entries_for kind key (remove_first kind key cache) ≡ 0
  unfolding remove_first entries_for
  entries_for-remove_self kind key [] h = refl
  entries_for-remove_self kind key (e ∷ es) h = elim (Bool-cases (is_for kind key e.entry)) [
    | inl mine ↦ ground (arith, mine)
    | inr apart ↦ ground (arith, apart, entries_for-remove_self kind key es)
  ]
