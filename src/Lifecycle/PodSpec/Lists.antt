-- ===== src/Lifecycle/PodSpec/Lists.antt =====
-- To ensure a volume, or to remove one, is to reach a list that does not change any more.
use plugin_barman_cloud.Base.{
  ◌≡◌, refl, ap, ◌∙◌, Bool, true, false, ◌||◌, List, [], ◌∷◌, ◌++◌, String, ◌==◌, ==_refl,
  string_eq, eq_iff, if◌then◌else◌, arith, Bool-cases, inl, inr,
}
use plugin_barman_cloud.Lifecycle.PodSpec.{
  Volume, replace_volumes, ensure_volume, remove_volume, has_volume,
}

replace_volumes_found :
    (volume : Volume) (vs : List Volume) → (replace_volumes volume vs).1 ≡ has_volume volume.name vs
unfolding replace_volumes has_volume
replace_volumes_found volume [] = refl
replace_volumes_found volume (v ∷ vs) = ground (arith, replace_volumes_found volume vs)

-- The volumes of that name are that volume already.
abbrev pub Kept : Volume → List Volume → Type 0
Kept volume vs = (replace_volumes volume vs).0 ≡ vs

replace_volumes-Kept :
    (volume : Volume) (vs : List Volume) → Kept volume (replace_volumes volume vs).0
unfolding replace_volumes
replace_volumes-Kept volume [] = refl
replace_volumes-Kept volume (v ∷ vs) = elim (Bool-cases (v.name == volume.name)) [
  | inl t ↦
      rw (t) (rw (==_refl volume.name) (ap (λ l. volume ∷ l) (replace_volumes-Kept volume vs)))
  | inr t ↦ rw (t) (rw (t) (ap (λ l. v ∷ l) (replace_volumes-Kept volume vs)))
]

replace_volumes-append :
    (volume other : Volume) (vs : List Volume)
    → (replace_volumes volume (vs ++ other ∷ [])).0
      ≡ (replace_volumes volume vs).0 ++ (if other.name == volume.name then volume else other) ∷ []
unfolding replace_volumes
replace_volumes-append volume other [] = elim (Bool-cases (other.name == volume.name)) [
  | inl t ↦ rw (t) refl
  | inr t ↦ rw (t) refl
]
replace_volumes-append volume other (v ∷ vs) = elim (Bool-cases (v.name == volume.name)) [
  | inl t ↦ rw (t) (ap (λ l. volume ∷ l) (replace_volumes-append volume other vs))
  | inr t ↦ rw (t) (ap (λ l. v ∷ l) (replace_volumes-append volume other vs))
]

replace_volumes-other :
    (volume other : Volume) (vs : List Volume)
    → other.name == volume.name ≡ false
    → Kept volume vs
    → Kept volume (replace_volumes other vs).0
unfolding replace_volumes
replace_volumes-other volume other [] differs kept = refl
replace_volumes-other volume other (v ∷ vs) differs kept =
    elim (Bool-cases (v.name == volume.name)) [
      | inl t ↦
          let head : volume ≡ v = cc in
          let tail : Kept volume vs = cc in
          let apart : v.name == other.name ≡ false = ground (
            arith,
            eq_iff v.name volume.name,
            eq_iff v.name other.name,
            eq_iff other.name volume.name,
          ) in
          let rest = replace_volumes-other volume other vs differs tail in
          rw (apart) (rw (t) (cc (rest, head)))
      | inr t ↦
          let tail : Kept volume vs = cc in
          let rest = replace_volumes-other volume other vs differs tail in
          elim (Bool-cases (v.name == other.name)) [
            | inl u ↦ rw (u) (rw (differs) (ap (λ l. other ∷ l) rest))
            | inr u ↦ rw (u) (rw (t) (ap (λ l. v ∷ l) rest))
          ]
    ]

has_volume-append :
    (name : String) (vs : List Volume) (v : Volume)
    → has_volume name (vs ++ v ∷ []) ≡ has_volume name vs || v.name == name
unfolding has_volume
has_volume-append name [] v = ground arith
has_volume-append name (w ∷ vs) v = ground (arith, has_volume-append name vs v)

has_volume-replace_volumes :
    (name : String) (volume : Volume) (vs : List Volume)
    → has_volume name (replace_volumes volume vs).0 ≡ has_volume name vs
unfolding has_volume replace_volumes
has_volume-replace_volumes name volume [] = refl
has_volume-replace_volumes name volume (v ∷ vs) =
    ground (arith, has_volume-replace_volumes name volume vs, eq_iff v.name volume.name)

-- What is there after a volume was ensured.
pub has_volume-ensure_volume :
    (name : String) (vs : List Volume) (volume : Volume)
    → has_volume name (ensure_volume vs volume) ≡ has_volume name vs || volume.name == name
unfolding ensure_volume
has_volume-ensure_volume name vs volume = elim (Bool-cases (replace_volumes volume vs).1) [
  | inl t ↦ rw (t) (
      has_volume-replace_volumes name volume vs
      ∙ absorbed (has_volume name vs) (volume.name == name)
          (λ same. there (replace_volumes_found volume vs) t ((eq_iff volume.name name).0 same)))
  | inr t ↦ rw (t) (
      has_volume-append name (replace_volumes volume vs).0 volume
      ∙ ap (λ b. b || volume.name == name) (has_volume-replace_volumes name volume vs))
]
  where
    absorbed : (a b : Bool) → (b ≡ true → a ≡ true) → a ≡ a || b
    absorbed true b h = refl
    absorbed false true h = h refl
    absorbed false false h = refl

    there :
        (replace_volumes volume vs).1 ≡ has_volume volume.name vs
        → (replace_volumes volume vs).1 ≡ true
        → volume.name ≡ name
        → has_volume name vs ≡ true
    there found t same = cc

pub ensure_volume-Kept :
    (vs : List Volume) (volume : Volume) → Kept volume (ensure_volume vs volume)
unfolding ensure_volume
ensure_volume-Kept vs volume = elim (Bool-cases (replace_volumes volume vs).1) [
  | inl t ↦ rw (t) (replace_volumes-Kept volume vs)
  | inr t ↦ rw (t) (
      replace_volumes-append volume volume (replace_volumes volume vs).0
      ∙ rw (==_refl volume.name) (ap (λ l. l ++ volume ∷ []) (replace_volumes-Kept volume vs)))
]

pub ensure_other-Kept :
    (vs : List Volume) (volume other : Volume)
    → other.name == volume.name ≡ false
    → Kept volume vs
    → Kept volume (ensure_volume vs other)
unfolding ensure_volume
ensure_other-Kept vs volume other differs kept = elim (Bool-cases (replace_volumes other vs).1) [
  | inl t ↦ rw (t) (replace_volumes-other volume other vs differs kept)
  | inr t ↦ rw (t) (
      replace_volumes-append volume other (replace_volumes other vs).0
      ∙ rw (differs)
          (ap (λ l. l ++ other ∷ []) (replace_volumes-other volume other vs differs kept)))
]

-- A volume that is there already is ensured by doing nothing.
pub ensure_volume_again :
    (vs : List Volume) (volume : Volume)
    → Kept volume vs
    → has_volume volume.name vs ≡ true
    → ensure_volume vs volume ≡ vs
unfolding ensure_volume
ensure_volume_again vs volume kept there = rw (replace_volumes_found volume vs) (rw (there) kept)

pub has_volume-remove_volume :
    (vs : List Volume) (name : String) → has_volume name (remove_volume vs name) ≡ false
unfolding has_volume remove_volume
has_volume-remove_volume [] name = refl
has_volume-remove_volume (v ∷ vs) name = ground (arith, has_volume-remove_volume vs name)

pub remove_volume_again :
    (vs : List Volume) (name : String) → has_volume name vs ≡ false → remove_volume vs name ≡ vs
unfolding has_volume remove_volume
remove_volume_again [] name h = refl
remove_volume_again (v ∷ vs) name h = ground (arith, remove_volume_again vs name)
