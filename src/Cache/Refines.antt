-- ===== src/Cache/Refines.antt =====
-- The cache, a list of entries, is a map from keys.
use plugin_barman_cloud.Base.{
  ℕ, zero, suc, ◌≤◌, ◌≡◌, ◌≢◌, refl, true, false, Option, none, some, [], ◌∷◌, ◌++◌, ==_refl,
  string_eq, if◌then◌else◌, arith, Bool-cases, inl, inr,
}
use plugin_barman_cloud.Api.{NamespacedName}
use plugin_barman_cloud.Cache.{
  Kind, Object, CachedEntry, Cache, is_for, is_expired, Found, hit, expired, miss, one_further,
  search_cache, set_entry, store_entry, remove_first, remove_object,
}
use plugin_barman_cloud.Cache.Unique.{
  IsUnique, entries_for, is_for_both, not_first, further, missed, same_kind_refl,
}
use plugin_barman_cloud.Cache.Spec.{Known, learn, unlearn, fresh}

module _ {C : Type 0} where
  -- What the cache knows of a key: its first entry for it.
  unfoldable pub view : Cache C → Known C
  view [] kind key = none
  view (e ∷ es) kind key = if is_for kind key e.entry then some e else view es kind key

  -- What the loop over the cache tells of the entry for the key.
  abbrev pub Tells : ℕ → Option (CachedEntry C) → Found C → Type 0
  Tells now v (hit o) = fresh now v ≡ some o
  Tells now v (expired i) = fresh now v ≡ none
  Tells now v miss = v ≡ none

  Tells-one_further :
      (now : ℕ) (v : Option (CachedEntry C)) (f : Found C)
      → Tells now v f
      → Tells now v (one_further f)
  Tells-one_further now v (hit o) h = h
  Tells-one_further now v (expired i) h = h
  Tells-one_further now v miss h = h

  pub search-Tells :
      (now : ℕ) (kind : Kind) (key : NamespacedName) (cache : Cache C)
      → Tells now (view cache kind key) (search_cache now kind key cache)
  unfolding search_cache view fresh
  search-Tells now kind key [] = refl
  search-Tells now kind key (e ∷ es) = elim (Bool-cases (is_for kind key e.entry)) [
    | inl t ↦ rw (t) (elim (Bool-cases (is_expired now e)) [
      | inl x ↦ rw (x) (rw (x) refl)
      | inr x ↦ rw (x) (rw (x) refl)
    ])
    | inr t ↦ rw (t) (
        Tells-one_further now (view es kind key) (search_cache now kind key es)
          (search-Tells now kind key es))
  ]

  -- Two objects, one for a key and the other not, are not both for another key.
  apart_for :
      (kind kind' : Kind) (key key' : NamespacedName) (o o' : Object C)
      → is_for kind key o ≡ true
      → is_for kind key o' ≡ false
      → is_for kind' key' o' ≡ true
      → is_for kind' key' o ≡ false
  apart_for kind kind' key key' o o' own apart other = elim (Bool-cases (is_for kind' key' o)) [
    | inr t ↦ t
    | inl t ↦ absurd (let same = is_for_both kind' kind key' key o o' t other in cc)
  ]

  -- An entry that is passed by keeps its place before what is found later.
  passed_by :
      (kind kind' : Kind) (key key' : NamespacedName) (c e : CachedEntry C)
      (v v' : Option (CachedEntry C))
      → is_for kind key c.entry ≡ true
      → is_for kind key e.entry ≡ false
      → v' ≡ (if is_for kind' key' c.entry then some c else v)
      → (if is_for kind' key' e.entry then some e else v') ≡ (
          if is_for kind' key' c.entry
          then some c
          else if is_for kind' key' e.entry
          then some e
          else v)
  passed_by kind kind' key key' c e v v' own apart h =
      elim (Bool-cases (is_for kind' key' e.entry)) [
        | inl t ↦ rw (t) (rw (apart_for kind kind' key key' c.entry e.entry own apart t) refl)
        | inr t ↦ rw (t) h
      ]

  -- The search passes by an entry that it does not end at.
  passes :
      (now : ℕ) (kind : Kind) (key : NamespacedName) (e : CachedEntry C) (es : Cache C)
      → search_cache now kind key (e ∷ es) ≢ expired zero
      → ((o : Object C) → search_cache now kind key (e ∷ es) ≢ hit o)
      → is_for kind key e.entry ≡ false
  unfolding search_cache
  passes now kind key e es not_expired no_hit = elim (Bool-cases (is_for kind key e.entry)) [
    | inr t ↦ t
    | inl t ↦ absurd (elim (Bool-cases (is_expired now e)) [
      | inl x ↦ not_expired (cc)
      | inr x ↦ no_hit e.entry (cc)
    ])
  ]

  pub view-store :
      (now : ℕ) (kind kind' : Kind) (key key' : NamespacedName) (cache : Cache C) (f : Found C)
      (c : CachedEntry C)
      → search_cache now kind key cache ≡ f
      → ((o : Object C) → f ≢ hit o)
      → is_for kind key c.entry ≡ true
      → view (store_entry f cache c) kind' key' ≡ learn c (view cache) kind' key'
  unfolding search_cache store_entry set_entry view
  view-store now kind kind' key key' cache (hit o) c found no_hit own = absurd (no_hit o refl)
  view-store now kind kind' key key' [] (expired i) c found no_hit own = absurd (cc)
  view-store now kind kind' key key' [] miss c found no_hit own = refl
  view-store now kind kind' key key' (e ∷ es) (expired zero) c found no_hit own =
      elim (Bool-cases (is_for kind key e.entry)) [
        | inl mine ↦
            rw (is_for_both kind kind' key key' c.entry e.entry own mine)
              (elim (Bool-cases (is_for kind' key' e.entry)) [
                | inl t ↦ rw (t) refl
                | inr t ↦ rw (t) refl
              ])
        | inr apart ↦
            absurd (not_first (search_cache now kind key es) (rw (apart, search_cache) at found))
      ]
  view-store now kind kind' key key' (e ∷ es) (expired (suc i)) c found no_hit own =
      let apart : is_for kind key e.entry ≡ false =
        passes now kind key e es (λ h. cc) (λ o h. cc) in
      passed_by kind kind' key key' c e (view es kind' key') (view (set_entry es i c) kind' key')
        own apart
        (view-store now kind kind' key key' es (expired i) c
          (further _ i (rw (apart, search_cache) at found)) (λ o h. cc) own)
  view-store now kind kind' key key' (e ∷ es) miss c found no_hit own =
      let apart : is_for kind key e.entry ≡ false =
        passes now kind key e es (λ h. cc) (λ o h. cc) in
      passed_by kind kind' key key' c e (view es kind' key') (view (es ++ c ∷ []) kind' key') own
        apart
        (view-store now kind kind' key key' es miss c (missed _ (rw (apart, search_cache) at found))
          (λ o h. cc) own)

  unknown :
      (kind : Kind) (key : NamespacedName) (cache : Cache C)
      → entries_for kind key cache ≡ 0
      → view cache kind key ≡ none
  unfolding view entries_for
  unknown kind key [] h = refl
  unknown kind key (e ∷ es) h = elim (Bool-cases (is_for kind key e.entry)) [
    | inl t ↦ absurd (ground arith)
    | inr t ↦ rw (t) (unknown kind key es (ground arith))
  ]

  abbrev key_of : Object C → NamespacedName
  key_of o = record { namespace = o.namespace; name = o.name }

  own_key : (o : Object C) → is_for o.kind (key_of o) o ≡ true
  own_key o = cc (==_refl o.namespace, ==_refl o.name, same_kind_refl o.kind)

  -- Behind an entry for a key there is none, if there is one at most.
  only :
      (kind : Kind) (key : NamespacedName) (e : CachedEntry C) (es : Cache C)
      → entries_for kind key (e ∷ es) ≤ 1
      → is_for kind key e.entry ≡ true
      → entries_for kind key es ≡ 0
  unfolding entries_for
  only kind key e es h t = ground arith

  fewer :
      (kind : Kind) (key : NamespacedName) (e : CachedEntry C) (es : Cache C)
      → entries_for kind key (e ∷ es) ≤ 1
      → entries_for kind key es ≤ 1
  unfolding entries_for
  fewer kind key e es h = ground arith

  pub view-remove :
      (kind' : Kind) (key' : NamespacedName) (o : Object C) (cache : Cache C)
      → IsUnique cache
      → view (remove_object o cache) kind' key' ≡ unlearn o (view cache) kind' key'
  unfolding remove_object view remove_first
  view-remove kind' key' o [] unique = elim (Bool-cases (is_for kind' key' o)) [
    | inl t ↦ rw (t) refl
    | inr t ↦ rw (t) refl
  ]
  view-remove kind' key' o (e ∷ es) unique = elim (Bool-cases (is_for o.kind (key_of o) e.entry)) [
    | inl mine ↦ rw (mine) (
        rw (is_for_both o.kind kind' (key_of o) key' o e.entry (own_key o) mine)
          (elim (Bool-cases (is_for kind' key' e.entry)) [
            | inl t ↦ rw (t) (unknown kind' key' es (only kind' key' e es (unique kind' key') t))
            | inr t ↦ rw (t) refl
          ]))
    | inr apart ↦
        let induction = view-remove kind' key' o es (λ k i. fewer k i e es (unique k i)) in
        rw (apart) (elim (Bool-cases (is_for kind' key' e.entry)) [
          | inl t ↦
              rw (t)
                (rw (apart_for o.kind kind' (key_of o) key' o e.entry (own_key o) apart t) refl)
          | inr t ↦ rw (t) induction
        ])
  ]
