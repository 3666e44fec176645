-- ===== src/Wal/Env/Merge.antt =====
-- `MergeEnv` sets what it is given and leaves the rest alone.
use mathlib.Core.List.{append-nil}
use plugin_barman_cloud.Base.{
  true, false, ◌≡◌, ◌≢◌, refl, ap, ◌∙◌, Option, none, some, List, [], ◌∷◌, ◌++◌, Bytes, nat_eq,
  if◌then◌else◌, arith, ◌⊎◌, inl, inr, Bool-cases, Option-cases, All,
}
use plugin_barman_cloud.Wal.Env.{has_prefix, entry_key, replace_items, merge_item, merge_env}

-- The items of an environment that set a key (written with its `=`), in order.
unfoldable pub settings : Bytes → List Bytes → List Bytes
settings key [] = []
settings key (item ∷ items) =
    let rest = settings key items in
    elim (has_prefix item key) [ true ↦ item ∷ rest | false ↦ rest ]

-- The last item that sets a key.
unfoldable pub last_setting : Bytes → Option Bytes → List Bytes → Option Bytes
last_setting key found [] = found
last_setting key found (item ∷ items) =
    last_setting key (if has_prefix item key then some item else found) items

-- A key, with its `=` at the end and no other.
abbrev pub IsKey : Bytes → Type 0
IsKey key = entry_key key ≡ some key

-- An item that starts with a key is split at that key.
entry_key_of_prefix :
    (key item : Bytes) → IsKey key → has_prefix item key ≡ true → entry_key item ≡ some key
unfolding has_prefix entry_key
entry_key_of_prefix [] item is_key fits = absurd (cc)
entry_key_of_prefix (k ∷ ks) [] is_key fits = absurd (cc)
entry_key_of_prefix (k ∷ ks) (c ∷ cs) is_key fits = ground (arith, entry_key_of_prefix ks cs)

prefix_of_entry_key :
    (key item : Bytes) → entry_key item ≡ some key → (has_prefix item key ≡ true) × IsKey key
unfolding has_prefix entry_key
prefix_of_entry_key key [] split = absurd (cc)
prefix_of_entry_key [] (c ∷ cs) split = absurd (ground arith)
prefix_of_entry_key (k ∷ ks) (c ∷ cs) split = ground (arith, prefix_of_entry_key ks cs)

other_key :
    (key k item : Bytes)
    → IsKey key
    → IsKey k
    → has_prefix item k ≡ true
    → (k ≡ key) ⊎ (has_prefix item key ≡ false)
other_key key k item is_key is_k fits = elim (Bool-cases (has_prefix item key)) [
  | inr differs ↦ inr differs
  | inl both ↦
      inl (cc (entry_key_of_prefix key item is_key both, entry_key_of_prefix k item is_k fits))
]

-- The settings of a key are there, and all of them are that item.
abbrev pub AllSetTo : Bytes → List Bytes → Type 0
AllSetTo v l = (l ≢ []) × All (λ x. x ≡ v) l

settings-append :
    (key : Bytes) (xs : List Bytes) (v : Bytes)
    → settings key (xs ++ v ∷ []) ≡ settings key xs ++ settings key (v ∷ [])
unfolding settings
settings-append key [] v = refl
settings-append key (x ∷ xs) v = ground (arith, settings-append key xs v)

module _ (key incoming : Bytes) where
  settings-replace_other :
      (k : Bytes) (items : List Bytes)
      → IsKey key
      → IsKey k
      → k ≢ key
      → has_prefix incoming key ≡ false
      → settings key (replace_items k incoming items).0 ≡ settings key items
  unfolding settings replace_items
  settings-replace_other k [] is_key is_k differs apart = refl
  settings-replace_other k (item ∷ items) is_key is_k differs apart =
      elim (Bool-cases (has_prefix item k)) [
        | inr kept ↦ ground (arith, kept, settings-replace_other k items is_key is_k differs apart)
        | inl replaced ↦ ground (
          arith,
          replaced,
          other_key key k item is_key is_k replaced,
          settings-replace_other k items is_key is_k differs apart,
        )
      ]

  settings-replace_self :
      (items : List Bytes)
      → has_prefix incoming key ≡ true
      → All (λ x. x ≡ incoming) (settings key (replace_items key incoming items).0)
        × ((replace_items key incoming items).1 ≡ true
            → settings key (replace_items key incoming items).0 ≢ [])
        × ((replace_items key incoming items).1 ≡ false
            → settings key (replace_items key incoming items).0 ≡ [])
  unfolding settings replace_items
  settings-replace_self [] fits = (tt, λ h. cc, λ h. refl)
  settings-replace_self (item ∷ items) fits = elim (Bool-cases (has_prefix item key)) [
    | inl set ↦ rw set (
        rw (fits, settings)
          ((refl, (settings-replace_self items fits).0), λ h e. absurd (cc), λ h. absurd (cc)))
    | inr other ↦ rw other (rw (other, settings) (settings-replace_self items fits))
  ]

  settings-none : has_prefix incoming key ≡ false → settings key (incoming ∷ []) ≡ []
  unfolding settings
  settings-none apart = rw (apart, settings)

  settings-one : has_prefix incoming key ≡ true → settings key (incoming ∷ []) ≡ incoming ∷ []
  unfolding settings
  settings-one fits = rw (fits, settings)

  -- An item of another key changes no setting of this key.
  settings-merge_other :
      (env : List Bytes)
      → IsKey key
      → has_prefix incoming key ≡ false
      → settings key (merge_item env incoming) ≡ settings key env
  unfolding merge_item
  settings-merge_other env is_key apart = elim (Option-cases (entry_key incoming)) [
    | inl no_key ↦ rw (no_key, merge_item)
    | inr (k, split) ↦
        let (fits, is_k) = prefix_of_entry_key k incoming split in
        let differs : k ≢ key = λ e. cc (ap (has_prefix incoming) e, apart, fits) in
        let kept = settings-replace_other k env is_key is_k differs apart in
        elim (Bool-cases (replace_items k incoming env).1) [
          | inl found ↦ rw (split, found, merge_item) kept
          | inr new ↦
              rw (split, new, merge_item)
                (settings-append key (replace_items k incoming env).0 incoming
                  ∙ simp (settings-none apart, append-nil) kept)
        ]
  ]

  settings-merge_self :
      (env : List Bytes)
      → IsKey key
      → has_prefix incoming key ≡ true
      → AllSetTo incoming (settings key (merge_item env incoming))
  unfolding merge_item
  settings-merge_self env is_key fits =
      let split = entry_key_of_prefix key incoming is_key fits in
      let (all, some_found, none_found) = settings-replace_self env fits in
      elim (Bool-cases (replace_items key incoming env).1) [
        | inl found ↦ rw (split, found, merge_item) (some_found found, all)
        | inr new ↦
            rw (split, new, merge_item)
              (simp (settings-append, none_found new, settings-one fits) (λ e. cc, (refl, tt)))
      ]

-- What the settings of a key are to be: those that were there, or the given item.
abbrev pub Expected : List Bytes → Option Bytes → List Bytes → Type 0
Expected before none l = l ≡ before
Expected before (some v) l = AllSetTo v l

merge_env-Expected :
    (key : Bytes) (before : List Bytes) (found : Option Bytes) (env incoming : List Bytes)
    → IsKey key
    → Expected before found (settings key env)
    → Expected before (last_setting key found incoming) (settings key (merge_env env incoming))
unfolding merge_env last_setting
merge_env-Expected key before found env [] is_key h = h
merge_env-Expected key before found env (item ∷ items) is_key h =
    elim (Bool-cases (has_prefix item key)) [
      | inl sets ↦
          rw (sets, last_setting)
            (merge_env-Expected key before (some item) (merge_item env item) items is_key
              (settings-merge_self key item env is_key sets))
      | inr other ↦
          rw (other, last_setting)
            (merge_env-Expected key before found (merge_item env item) items is_key
              (rw (settings-merge_other key item env is_key other) h))
    ]

-- For every key: where an incoming item sets it, the merged environment has settings of the key and
-- all of them are the last such item; where none does, it has the settings of the key that the
-- environment had.
pub settings-merge_env :
    (key : Bytes) (env incoming : List Bytes)
    → IsKey key
    → Expected
        (settings key env)
        (last_setting key none incoming)
        (settings key (merge_env env incoming))
settings-merge_env key env incoming is_key =
    merge_env-Expected key (settings key env) none env incoming is_key refl
