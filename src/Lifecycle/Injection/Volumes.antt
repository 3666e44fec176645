-- ===== src/Lifecycle/Injection/Volumes.antt =====
-- The volumes that the injection does not own, and those that it makes.
use plugin_barman_cloud.Base.{
  ◌≡◌, refl, ap, ◌∙◌, Bool, true, false, List, [], ◌∷◌, ◌++◌, String, ◌==◌, ◌||◌, string_eq, eq_iff,
  if◌then◌else◌, Bool-cases, inl, inr, arith, All,
}
use plugin_barman_cloud.Lifecycle.PodSpec.{
  VolumeProjection, projected, Volume, replace_volumes, ensure_volume, remove_volume, has_volume,
}
use plugin_barman_cloud.Lifecycle.PodSpec.Lists.{
  Kept, has_volume-ensure_volume, ensure_volume-Kept, ensure_other-Kept, has_volume-remove_volume,
}
use plugin_barman_cloud.Lifecycle.Injection.{
  barman_certificates_volume_name, plugin_volume, certificate_volumes,
}

-- The volumes whose names are not hidden.
abbrev pub volumes_besides : (String → Bool) → List Volume → List Volume
volumes_besides hidden [] = []
volumes_besides hidden (v ∷ vs) =
    let rest = volumes_besides hidden vs in if hidden v.name then rest else v ∷ rest

-- The volumes of a name.
abbrev pub volumes_named : String → List Volume → List Volume
volumes_named name [] = []
volumes_named name (v ∷ vs) =
    let rest = volumes_named name vs in if v.name == name then v ∷ rest else rest

module _ (hidden : String → Bool) where
  besides-replace_volumes :
      (volume : Volume) (vs : List Volume)
      → hidden volume.name ≡ true
      → volumes_besides hidden (replace_volumes volume vs).0 ≡ volumes_besides hidden vs
  unfolding replace_volumes
  besides-replace_volumes volume [] h = refl
  besides-replace_volumes volume (v ∷ vs) h = elim (Bool-cases (v.name == volume.name)) [
    | inl t ↦
        let same : hidden v.name ≡ true = ap hidden ((eq_iff v.name volume.name).0 t) ∙ h in
        rw (t) (rw (h) (rw (same) (besides-replace_volumes volume vs h)))
    | inr t ↦ rw (t) (
        ap (λ rest. if hidden v.name then rest else v ∷ rest) (besides-replace_volumes volume vs h))
  ]

  besides-append :
      (volume : Volume) (vs : List Volume)
      → hidden volume.name ≡ true
      → volumes_besides hidden (vs ++ volume ∷ []) ≡ volumes_besides hidden vs
  besides-append volume [] h = rw (h) refl
  besides-append volume (v ∷ vs) h =
      ap (λ rest. if hidden v.name then rest else v ∷ rest) (besides-append volume vs h)

  pub besides-ensure_volume :
      (volume : Volume) (vs : List Volume)
      → hidden volume.name ≡ true
      → volumes_besides hidden (ensure_volume vs volume) ≡ volumes_besides hidden vs
  unfolding ensure_volume
  besides-ensure_volume volume vs h = elim (Bool-cases (replace_volumes volume vs).1) [
    | inl t ↦ rw (t) (besides-replace_volumes volume vs h)
    | inr t ↦ rw (t) (
        besides-append volume (replace_volumes volume vs).0 h ∙ besides-replace_volumes volume vs h)
  ]

  pub besides-remove_volume :
      (name : String) (vs : List Volume)
      → hidden name ≡ true
      → volumes_besides hidden (remove_volume vs name) ≡ volumes_besides hidden vs
  unfolding remove_volume
  besides-remove_volume name [] h = refl
  besides-remove_volume name (v ∷ vs) h = elim (Bool-cases (v.name == name)) [
    | inl t ↦
        let same : hidden v.name ≡ true = ap hidden ((eq_iff v.name name).0 t) ∙ h in
        rw (t) (rw (same) (besides-remove_volume name vs h))
    | inr t ↦
        rw (t)
          (ap (λ rest. if hidden v.name then rest else v ∷ rest) (besides-remove_volume name vs h))
  ]

Kept-named :
    (volume : Volume) (vs : List Volume)
    → Kept volume vs
    → All (λ (v : Volume). v ≡ volume) (volumes_named volume.name vs)
unfolding replace_volumes
Kept-named volume [] kept = tt
Kept-named volume (v ∷ vs) kept = elim (Bool-cases (v.name == volume.name)) [
  | inl t ↦
      let head : v ≡ volume = cc in
      let tail : Kept volume vs = cc in rw (t) (head, Kept-named volume vs tail)
  | inr t ↦ let tail : Kept volume vs = cc in rw (t) (Kept-named volume vs tail)
]

-- The names of the volumes that the injection owns.
abbrev pub is_owned : String → Bool
is_owned name = name == "plugins" || name == barman_certificates_volume_name

abbrev certificates_volume : List VolumeProjection → Volume
certificates_volume certificates = record {
  name = barman_certificates_volume_name;
  source = projected certificates;
}

-- The volume of the certificates is there exactly where there are certificates, and projects them.
abbrev pub HasCertificates : List VolumeProjection → List Volume → Type 0
HasCertificates [] vs = has_volume barman_certificates_volume_name vs ≡ false
HasCertificates (c ∷ cs) vs =
    (has_volume barman_certificates_volume_name vs ≡ true)
    × All (λ (v : Volume). v ≡ certificates_volume (c ∷ cs))
        (volumes_named barman_certificates_volume_name vs)

pub besides-certificate_volumes :
    (certificates : List VolumeProjection) (vs : List Volume)
    → volumes_besides is_owned (certificate_volumes certificates vs) ≡ volumes_besides is_owned vs
besides-certificate_volumes [] vs =
    besides-remove_volume is_owned barman_certificates_volume_name vs refl
besides-certificate_volumes (c ∷ cs) vs =
    besides-ensure_volume is_owned (certificates_volume (c ∷ cs)) vs refl

pub certificate_volumes-HasCertificates :
    (certificates : List VolumeProjection) (vs : List Volume)
    → HasCertificates certificates (certificate_volumes certificates vs)
certificate_volumes-HasCertificates [] vs =
    has_volume-remove_volume vs barman_certificates_volume_name
certificate_volumes-HasCertificates (c ∷ cs) vs = (
  has_volume-ensure_volume barman_certificates_volume_name vs (certificates_volume (c ∷ cs))
      ∙ ground arith,
  Kept-named (certificates_volume (c ∷ cs)) _
      (ensure_volume-Kept vs (certificates_volume (c ∷ cs))),
)

-- The volume of the plugins leaves those of the certificates.
pub plugins-HasCertificates :
    (certificates : List VolumeProjection) (vs : List Volume)
    → HasCertificates certificates
        (ensure_volume (certificate_volumes certificates vs) plugin_volume)
plugins-HasCertificates [] vs =
    has_volume-ensure_volume barman_certificates_volume_name
      (remove_volume vs barman_certificates_volume_name) plugin_volume
    ∙ rw (has_volume-remove_volume vs barman_certificates_volume_name) refl
plugins-HasCertificates (c ∷ cs) vs = (
  has_volume-ensure_volume barman_certificates_volume_name (certificate_volumes (c ∷ cs) vs)
        plugin_volume
      ∙ rw ((certificate_volumes-HasCertificates (c ∷ cs) vs).0) refl,
  Kept-named (certificates_volume (c ∷ cs)) _ (
      ensure_other-Kept (certificate_volumes (c ∷ cs) vs) (certificates_volume (c ∷ cs))
        plugin_volume refl (ensure_volume-Kept vs (certificates_volume (c ∷ cs)))),
)

has_volume-remove_other :
    (n name : String) (vs : List Volume)
    → n == name ≡ false
    → has_volume n (remove_volume vs name) ≡ has_volume n vs
unfolding has_volume remove_volume
has_volume-remove_other n name [] h = refl
has_volume-remove_other n name (v ∷ vs) h =
    ground (
      arith,
      has_volume-remove_other n name vs h,
      eq_iff v.name n,
      eq_iff v.name name,
      eq_iff n name,
    )

-- The volumes of the certificates do not matter to that of the plugins.
pub plugins-certificate_volumes :
    (certificates : List VolumeProjection) (vs : List Volume)
    → has_volume "plugins" (certificate_volumes certificates vs) ≡ has_volume "plugins" vs
plugins-certificate_volumes [] vs =
    has_volume-remove_other "plugins" barman_certificates_volume_name vs refl
plugins-certificate_volumes (c ∷ cs) vs =
    has_volume-ensure_volume "plugins" vs (certificates_volume (c ∷ cs)) ∙ ground arith
