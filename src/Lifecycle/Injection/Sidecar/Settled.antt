-- ===== src/Lifecycle/Injection/Sidecar/Settled.antt =====
-- What the steps of an injection do where they were done before.
use plugin_barman_cloud.Base.{
  ◌≡◌, refl, ap, ◌∙◌, Bool, true, false, ◌||◌, List, [], ◌∷◌, ◌++◌, String, ◌==◌, ==_refl,
  string_eq, arith, Bool-cases, inl, inr,
}
use plugin_barman_cloud.Lifecycle.PodSpec.{
  VolumeProjection, projected, Volume, Container, PodSpec, ensure_volume, has_volume,
}
use plugin_barman_cloud.Lifecycle.PodSpec.Lists.{
  Kept, has_volume-ensure_volume, ensure_volume-Kept, ensure_other-Kept, ensure_volume_again,
  has_volume-remove_volume, remove_volume_again,
}
use plugin_barman_cloud.Lifecycle.Injection.{
  barman_certificates_volume_name, main_env, plugin_volume, mount_plugins,
  inject_plugin_volume_pod_spec, replace_sidecar, put_sidecar, certificate_volumes,
}

main_env-mount_plugins :
    (name : String) (cs : List Container) → main_env name (mount_plugins name cs) ≡ main_env name cs
unfolding main_env mount_plugins
main_env-mount_plugins name [] = refl
main_env-mount_plugins name (c ∷ cs) = elim (Bool-cases (c.name == name)) [
  | inl t ↦ rw (t) (rw (t) refl)
  | inr t ↦ rw (t) (rw (t) (main_env-mount_plugins name cs))
]

replace_sidecar_again :
    (sidecar : Container) (cs : List Container)
    → replace_sidecar sidecar (replace_sidecar sidecar cs).0 ≡ replace_sidecar sidecar cs
unfolding replace_sidecar
replace_sidecar_again sidecar [] = refl
replace_sidecar_again sidecar (c ∷ cs) = elim (Bool-cases (c.name == sidecar.name)) [
  | inl t ↦ rw (t) (
      rw (==_refl sidecar.name)
        (ap (λ r. (sidecar ∷ r.0, true)) (replace_sidecar_again sidecar cs)))
  | inr t ↦ rw (t) (rw (t) (ap (λ r. (c ∷ r.0, r.1)) (replace_sidecar_again sidecar cs)))
]

replace_sidecar-append :
    (sidecar : Container) (cs : List Container)
    → replace_sidecar sidecar (cs ++ sidecar ∷ [])
      ≡ ((replace_sidecar sidecar cs).0 ++ sidecar ∷ [], true)
unfolding replace_sidecar
replace_sidecar-append sidecar [] = rw (==_refl sidecar.name) refl
replace_sidecar-append sidecar (c ∷ cs) = elim (Bool-cases (c.name == sidecar.name)) [
  | inl t ↦ rw (t) (ap (λ r. (sidecar ∷ r.0, true)) (replace_sidecar-append sidecar cs))
  | inr t ↦ rw (t) (ap (λ r. (c ∷ r.0, r.1)) (replace_sidecar-append sidecar cs))
]

pub put_sidecar_again :
    (sidecar : Container) (cs : List Container)
    → put_sidecar sidecar (put_sidecar sidecar cs) ≡ put_sidecar sidecar cs
put_sidecar_again sidecar cs = elim (Bool-cases (replace_sidecar sidecar cs).1) [
  | inl t ↦ rw (t) (rw (replace_sidecar_again sidecar cs) (rw (t) refl))
  | inr t ↦ rw (t) (
      rw (replace_sidecar-append sidecar (replace_sidecar sidecar cs).0)
        (ap (λ r. r.0 ++ sidecar ∷ []) (replace_sidecar_again sidecar cs)))
]

-- After the plugin's volume was injected it is there.
pub has_plugins :
    (name : String) (spec : PodSpec)
    → has_volume "plugins" (inject_plugin_volume_pod_spec name spec).volumes ≡ true
unfolding inject_plugin_volume_pod_spec
has_plugins name spec = elim (Bool-cases (has_volume "plugins" spec.volumes)) [
  | inl t ↦ rw (t) t
  | inr t ↦ rw (t) (has_volume-ensure_volume "plugins" spec.volumes plugin_volume ∙ rw (t) refl)
]

pub injected_env :
    (name : String) (spec : PodSpec)
    → main_env name (inject_plugin_volume_pod_spec name spec).containers
      ≡ main_env name spec.containers
unfolding inject_plugin_volume_pod_spec
injected_env name spec = elim (Bool-cases (has_volume "plugins" spec.volumes)) [
  | inl t ↦ rw (t) refl
  | inr t ↦ rw (t) (main_env-mount_plugins name spec.containers)
]

abbrev certificates_volume : VolumeProjection → List VolumeProjection → Volume
certificates_volume c cs = record {
  name = barman_certificates_volume_name;
  source = projected (c ∷ cs);
}

-- The volume of the certificates is what they ask for.
abbrev IsSettled : List VolumeProjection → List Volume → Type 0
IsSettled [] vs = has_volume barman_certificates_volume_name vs ≡ false
IsSettled (c ∷ cs) vs =
    Kept (certificates_volume c cs) vs × (has_volume barman_certificates_volume_name vs ≡ true)

pub certificate_volumes-IsSettled :
    (certificates : List VolumeProjection) (vs : List Volume)
    → IsSettled certificates (certificate_volumes certificates vs)
certificate_volumes-IsSettled [] vs = has_volume-remove_volume vs barman_certificates_volume_name
certificate_volumes-IsSettled (c ∷ cs) vs = (
  ensure_volume-Kept vs (certificates_volume c cs),
  has_volume-ensure_volume barman_certificates_volume_name vs (certificates_volume c cs)
      ∙ or_true (has_volume barman_certificates_volume_name vs),
)
  where
    or_true : (b : Bool) → b || true ≡ true
    or_true b = ground arith

pub injected-IsSettled :
    (certificates : List VolumeProjection) (name : String) (spec : PodSpec)
    → IsSettled certificates spec.volumes
    → IsSettled certificates (inject_plugin_volume_pod_spec name spec).volumes
unfolding inject_plugin_volume_pod_spec
injected-IsSettled certificates name spec settled =
    elim (Bool-cases (has_volume "plugins" spec.volumes)) [
      | inl t ↦ rw (t) settled
      | inr t ↦ rw (t) (ensured certificates settled)
    ]
  where
    or_false : (b : Bool) → b || false ≡ b
    or_false b = ground arith

    ensured :
        (certificates : List VolumeProjection)
        → IsSettled certificates spec.volumes
        → IsSettled certificates (ensure_volume spec.volumes plugin_volume)
    ensured [] h =
        has_volume-ensure_volume barman_certificates_volume_name spec.volumes plugin_volume
        ∙ (or_false (has_volume barman_certificates_volume_name spec.volumes) ∙ h)
    ensured (c ∷ cs) h = (
      ensure_other-Kept spec.volumes (certificates_volume c cs) plugin_volume refl h.0,
      has_volume-ensure_volume barman_certificates_volume_name spec.volumes plugin_volume
          ∙ (or_false (has_volume barman_certificates_volume_name spec.volumes) ∙ h.1),
    )

pub settled_again :
    (certificates : List VolumeProjection) (vs : List Volume)
    → IsSettled certificates vs
    → certificate_volumes certificates vs ≡ vs
settled_again [] vs h = remove_volume_again vs barman_certificates_volume_name h
settled_again (c ∷ cs) vs h = ensure_volume_again vs (certificates_volume c cs) h.0 h.1
