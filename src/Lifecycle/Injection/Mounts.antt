-- ===== src/Lifecycle/Injection/Mounts.antt =====
-- The mounts of the main containers, and those that the sidecar takes from them.
use plugin_barman_cloud.Base.{
  ◌≡◌, refl, ap, ◌∙◌, sym, false, Option, none, some, List, [], ◌∷◌, ◌++◌, String, ◌==◌, ==_refl,
  string_eq, eq_iff, if◌then◌else◌, Bool-cases, inl, inr, arith,
}
use plugin_barman_cloud.Lifecycle.PodSpec.{
  VolumeProjection, VolumeMount, Container, ensure_mount, ensure_volume_mount, remove_volume_mount,
}
use plugin_barman_cloud.Lifecycle.Injection.{certificates_mount, certificate_mounts, take_mounts}

-- The first mount of a name.
abbrev pub mount_of : String → List VolumeMount → Option VolumeMount
mount_of n [] = none
mount_of n (m ∷ ms) = let rest = mount_of n ms in if m.name == n then some m else rest

-- The last mount of a name, after one that was there before.
abbrev pub last_mount : String → Option VolumeMount → List VolumeMount → Option VolumeMount
last_mount n before [] = before
last_mount n before (m ∷ ms) = last_mount n (if m.name == n then some m else before) ms

-- The mounts of another name.
abbrev pub mounts_besides : String → List VolumeMount → List VolumeMount
mounts_besides n [] = []
mounts_besides n (m ∷ ms) = let rest = mounts_besides n ms in if m.name == n then rest else m ∷ rest

-- The mounts of all containers of a name.
abbrev pub mounts_in : String → List Container → List VolumeMount
mounts_in name [] = []
mounts_in name (c ∷ cs) =
    let rest = mounts_in name cs in if c.name == name then c.volume_mounts ++ rest else rest

-- The mount of the certificates, where there are some.
abbrev pub given_mounts : List VolumeProjection → List VolumeMount
given_mounts [] = []
given_mounts (c ∷ cs) = certificates_mount ∷ []

pub mount_of-ensure_mount :
    (n : String) (ms : List VolumeMount) (m : VolumeMount)
    → mount_of n (ensure_mount ms m) ≡ (if m.name == n then some m else mount_of n ms)
unfolding ensure_mount
mount_of-ensure_mount n [] m = refl
mount_of-ensure_mount n (x ∷ ms) m = elim (Bool-cases (x.name == m.name)) [
  | inl t ↦ elim (Bool-cases (m.name == n)) [
    | inl u ↦ rw (t) (rw (u) refl)
    | inr u ↦
        let apart : x.name == n ≡ false =
          ap (λ (s : String). s == n) ((eq_iff x.name m.name).0 t) ∙ u in
        rw (t) (rw (u) (rw (apart) refl))
  ]
  | inr t ↦ elim (Bool-cases (x.name == n)) [
    | inl u ↦
        let apart : m.name == n ≡ false =
          ground (arith, eq_iff x.name m.name, eq_iff x.name n, eq_iff m.name n) in
        rw (t) (rw (u) (rw (apart) refl))
    | inr u ↦ rw (t) (rw (u) (mount_of-ensure_mount n ms m))
  ]
]

mount_of-ensure_volume_mount :
    (n : String) (ms vs : List VolumeMount)
    → mount_of n (ensure_volume_mount ms vs) ≡ last_mount n (mount_of n ms) vs
unfolding ensure_volume_mount
mount_of-ensure_volume_mount n ms [] = refl
mount_of-ensure_volume_mount n ms (v ∷ vs) =
    mount_of-ensure_volume_mount n (ensure_mount ms v) vs
    ∙ ap (λ before. last_mount n before vs) (mount_of-ensure_mount n ms v)

last_mount-append :
    (n : String) (before : Option VolumeMount) (ms vs : List VolumeMount)
    → last_mount n before (ms ++ vs) ≡ last_mount n (last_mount n before ms) vs
last_mount-append n before [] vs = refl
last_mount-append n before (m ∷ ms) vs =
    last_mount-append n (if m.name == n then some m else before) ms vs

mount_of-take_mounts :
    (n name : String) (ms : List VolumeMount) (cs : List Container)
    → mount_of n (take_mounts name ms cs).0 ≡ last_mount n (mount_of n ms) (mounts_in name cs)
unfolding take_mounts
mount_of-take_mounts n name ms [] = refl
mount_of-take_mounts n name ms (c ∷ cs) = elim (Bool-cases (c.name == name)) [
  | inl t ↦ rw (t) (
      mount_of-take_mounts n name (ensure_volume_mount ms c.volume_mounts) cs
      ∙ ap (λ before. last_mount n before (mounts_in name cs))
          (mount_of-ensure_volume_mount n ms c.volume_mounts)
      ∙ sym (last_mount-append n (mount_of n ms) c.volume_mounts (mounts_in name cs)))
  | inr t ↦ rw (t) (mount_of-take_mounts n name ms cs)
]

-- What the sidecar mounts under a name: what the last main container that mounts it does, or else the
-- certificates.
pub sidecar_mount :
    (n name : String) (certificates : List VolumeProjection) (cs : List Container)
    → mount_of n (take_mounts name (certificate_mounts certificates []) cs).0
      ≡ last_mount n none (given_mounts certificates ++ mounts_in name cs)
unfolding ensure_volume_mount ensure_mount remove_volume_mount
sidecar_mount n name [] cs = mount_of-take_mounts n name [] cs
sidecar_mount n name (c ∷ certificates) cs =
    mount_of-take_mounts n name (certificates_mount ∷ []) cs

pub besides-ensure_mount :
    (ms : List VolumeMount) (m : VolumeMount)
    → mounts_besides m.name (ensure_mount ms m) ≡ mounts_besides m.name ms
unfolding ensure_mount
besides-ensure_mount [] m = rw (==_refl m.name) refl
besides-ensure_mount (x ∷ ms) m = elim (Bool-cases (x.name == m.name)) [
  | inl t ↦ rw (t) (rw (==_refl m.name) refl)
  | inr t ↦ rw (t) (rw (t) (ap (λ rest. x ∷ rest) (besides-ensure_mount ms m)))
]
