-- ===== src/Lifecycle/Injection/Put.antt =====
-- The sidecar among the init containers.
use plugin_barman_cloud.Base.{
  ◌≡◌, refl, ap, ◌∙◌, Bool, true, false, List, [], ◌∷◌, ◌++◌, String, ◌==◌, ==_refl, string_eq,
  if◌then◌else◌, Bool-cases, inl, inr, arith, All, ◌||◌,
}
use plugin_barman_cloud.Lifecycle.PodSpec.{Container}
use plugin_barman_cloud.Lifecycle.Injection.{replace_sidecar, put_sidecar}

-- The containers of another name, and those of that name.
abbrev pub others : String → List Container → List Container
others name [] = []
others name (c ∷ cs) = let rest = others name cs in if c.name == name then rest else c ∷ rest

abbrev pub named : String → List Container → List Container
named name [] = []
named name (c ∷ cs) = let rest = named name cs in if c.name == name then c ∷ rest else rest

module _ (sidecar : Container) where
  others-replace_sidecar :
      (cs : List Container)
      → others sidecar.name (replace_sidecar sidecar cs).0 ≡ others sidecar.name cs
  unfolding replace_sidecar
  others-replace_sidecar [] = refl
  others-replace_sidecar (c ∷ cs) = elim (Bool-cases (c.name == sidecar.name)) [
    | inl t ↦ rw (t) (rw (==_refl sidecar.name) (others-replace_sidecar cs))
    | inr t ↦ rw (t) (rw (t) (ap (λ rest. c ∷ rest) (others-replace_sidecar cs)))
  ]

  others-append :
      (cs : List Container) → others sidecar.name (cs ++ sidecar ∷ []) ≡ others sidecar.name cs
  others-append [] = rw (==_refl sidecar.name) refl
  others-append (c ∷ cs) = elim (Bool-cases (c.name == sidecar.name)) [
    | inl t ↦ rw (t) (others-append cs)
    | inr t ↦ rw (t) (ap (λ rest. c ∷ rest) (others-append cs))
  ]

  others-put_sidecar :
      (cs : List Container) → others sidecar.name (put_sidecar sidecar cs) ≡ others sidecar.name cs
  others-put_sidecar cs = elim (Bool-cases (replace_sidecar sidecar cs).1) [
    | inl t ↦ rw (t) (others-replace_sidecar cs)
    | inr t ↦ rw (t) (others-append (replace_sidecar sidecar cs).0 ∙ others-replace_sidecar cs)
  ]

  -- Every container of that name is the sidecar.
  abbrev AreSidecar : List Container → Type 0
  AreSidecar cs = All (λ (c : Container). c ≡ sidecar) (named sidecar.name cs)

  replaced-AreSidecar : (cs : List Container) → AreSidecar (replace_sidecar sidecar cs).0
  unfolding replace_sidecar
  replaced-AreSidecar [] = tt
  replaced-AreSidecar (c ∷ cs) = elim (Bool-cases (c.name == sidecar.name)) [
    | inl t ↦ rw (t) (rw (==_refl sidecar.name) (refl, replaced-AreSidecar cs))
    | inr t ↦ rw (t) (rw (t) (replaced-AreSidecar cs))
  ]

  appended-AreSidecar : (cs : List Container) → AreSidecar cs → AreSidecar (cs ++ sidecar ∷ [])
  appended-AreSidecar [] = λ h. rw (==_refl sidecar.name) (refl, tt)
  appended-AreSidecar (c ∷ cs) = go (c.name == sidecar.name) (appended-AreSidecar cs)
    where
      go :
          (b : Bool)
          → (AreSidecar cs → AreSidecar (cs ++ sidecar ∷ []))
          → All
              (λ (d : Container). d ≡ sidecar)
              (if b then c ∷ named sidecar.name cs else named sidecar.name cs)
          → All
              (λ (d : Container). d ≡ sidecar)
              (if b
                then c ∷ named sidecar.name (cs ++ sidecar ∷ [])
                else named sidecar.name (cs ++ sidecar ∷ []))
      go true appended h = (h.0, appended h.1)
      go false appended h = appended h

  put_sidecar-AreSidecar : (cs : List Container) → AreSidecar (put_sidecar sidecar cs)
  put_sidecar-AreSidecar cs = elim (Bool-cases (replace_sidecar sidecar cs).1) [
    | inl t ↦ rw (t) (replaced-AreSidecar cs)
    | inr t ↦ rw (t) (appended-AreSidecar (replace_sidecar sidecar cs).0 (replaced-AreSidecar cs))
  ]

  -- There is a container of that name.
  abbrev is_there : List Container → Bool
  is_there [] = false
  is_there (c ∷ cs) = c.name == sidecar.name || is_there cs

  replaced_there :
      (cs : List Container)
      → (replace_sidecar sidecar cs).1 ≡ true
      → is_there (replace_sidecar sidecar cs).0 ≡ true
  unfolding replace_sidecar
  replaced_there [] h = absurd (cc)
  replaced_there (c ∷ cs) h = ground (arith, ==_refl sidecar.name, replaced_there cs)

  appended_there : (cs : List Container) → is_there (cs ++ sidecar ∷ []) ≡ true
  appended_there [] = rw (==_refl sidecar.name) refl
  appended_there (c ∷ cs) = ground (arith, appended_there cs)

  put_sidecar_there : (cs : List Container) → is_there (put_sidecar sidecar cs) ≡ true
  put_sidecar_there cs = elim (Bool-cases (replace_sidecar sidecar cs).1) [
    | inl t ↦ rw (t) (replaced_there cs t)
    | inr t ↦ rw (t) (appended_there (replace_sidecar sidecar cs).0)
  ]

  -- The init containers that `put_sidecar` makes: the sidecar in place of all of its name, and the
  -- others as they were.
  abbrev pub IsPut : List Container → List Container → Type 0
  IsPut cs cs' =
      (others sidecar.name cs' ≡ others sidecar.name cs) × AreSidecar cs' × (is_there cs' ≡ true)

  pub put_sidecar-IsPut : (cs : List Container) → IsPut cs (put_sidecar sidecar cs)
  put_sidecar-IsPut cs = (others-put_sidecar cs, put_sidecar-AreSidecar cs, put_sidecar_there cs)
