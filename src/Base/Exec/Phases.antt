-- ===== src/Base/Exec/Phases.antt =====
-- Calls that lead a world from one phase of an operation to the next.
use mathlib.Core.Path.{◌≡◌, refl}
use plugin_barman_cloud.Base.Exec.{
  Result, ok, err, Exec, wrapping, wrap_result, finally, ◌>>=◌, Ensures, Ensures-bind, Ensures-made,
  wrap_result-ok,
}

-- `P` says what holds of the world in a phase. A call that fails ends the operation, where what holds
-- at its start has to hold still.
module _ {S W : Type 0} (P : S → W → Type 0) (start : S) where
  abbrev pub Outcome : {E A : Type 0} → S → Result E A → W → Type 0
  Outcome q (ok a) w = P q w
  Outcome q (err e) w = P start w

  abbrev pub Leads : {E A : Type 0} → S → S → Exec W E A → Type 0
  Leads p q m = Ensures (P p) m (Outcome q)

  pub Leads-bind :
      {E A B : Type 0} (p q r : S) (m : Exec W E A) (f : A → Exec W E B)
      → Leads p q m
      → ((a : A) → Leads q r (f a))
      → Leads p r (m >>= f)
  Leads-bind p q r m f first rest =
      Ensures-bind (P p) (Outcome q) (Outcome r) m f first rest (λ e w h. h)

  -- The same, where the rest also knows that the call has answered it.
  pub Leads-made :
      {E A B : Type 0} (p q r : S) (m : Exec W E A) (f : A → Exec W E B)
      → Leads p q m
      → ((a : A) (w : W) → (m w).0 ≡ ok a → Leads q r (f a))
      → Leads p r (m >>= f)
  Leads-made p q r m f first rest =
      Ensures-made (P p) (Outcome q) (Outcome r) m f first rest (λ e w h. h)

  pub Leads-wrapping :
      {E F A : Type 0} (p q : S) (f : F → E) (m : Exec W F A)
      → Leads p q m
      → Leads p q (wrapping f m)
  Leads-wrapping {E} {F} {A} p q f m leads w h = go (m w).0 (m w).1 (leads w h)
    where
      go : (r : Result F A) (v : W) → Outcome q r v → Outcome q (wrap_result f r) v
      go (ok a) v g = g
      go (err e) v g = g

  -- A call that reaches a phase if it succeeds.
  pub Leads-reached :
      {E A : Type 0} (p q : S) (m : Exec W E A)
      → ((w : W) → P p w → P start (m w).1)
      → ((w : W) (a : A) → P p w → (m w).0 ≡ ok a → P q (m w).1)
      → Leads p q m
  Leads-reached {E} {A} p q m kept reached w h = go (m w).0 (λ a. reached w a h)
    where
      go : (r : Result E A) → ((a : A) → r ≡ ok a → P q (m w).1) → Outcome q r (m w).1
      go (ok a) g = g a refl
      go (err e) g = kept w h

  -- A call that stays in a phase, whatever its result.
  pub Leads-kept :
      {E A : Type 0} (p : S) (m : Exec W E A)
      → ((w : W) → P p w → P start w)
      → ((w : W) → P p w → P p (m w).1)
      → Leads p p m
  Leads-kept p m weaken kept =
      Leads-reached p p m (λ w h. weaken (m w).1 (kept w h)) (λ w a h e. kept w h)

  -- What was reached stays reached by a deferred call that keeps both phases.
  pub Leads-finally :
      {E F A B : Type 0} (p q : S) (m : Exec W E A) (deferred : Exec W F B)
      → Leads p q m
      → ((w : W) → P q w → P q (deferred w).1)
      → ((w : W) → P start w → P start (deferred w).1)
      → Leads p q (finally m deferred)
  Leads-finally {E} {A = A} p q m deferred leads kept kept_start w h =
      go (m w).0 (m w).1 (leads w h)
    where
      go : (r : Result E A) (v : W) → Outcome q r v → Outcome q r (deferred v).1
      go (ok a) v g = kept v g
      go (err e) v g = kept_start v g

  -- A wrapped call that stays in a phase, and what follows it.
  pub Leads-then :
      {E F A B : Type 0} (p q : S) (f : F → E) (m : Exec W F A) (k : A → Exec W E B)
      → ((w : W) → P p w → P start w)
      → ((w : W) → P p w → P p (m w).1)
      → ((a : A) → Leads p q (k a))
      → Leads p q (wrapping f m >>= k)
  Leads-then p q f m k weaken kept rest =
      Leads-bind p p q (wrapping f m) k (Leads-wrapping p p f m (Leads-kept p m weaken kept)) rest

  -- The same, where the rest also knows that the call has answered it.
  pub Leads-then_made :
      {E F A B : Type 0} (p q : S) (f : F → E) (m : Exec W F A) (k : A → Exec W E B)
      → ((w : W) → P p w → P start w)
      → ((w : W) → P p w → P p (m w).1)
      → ((a : A) (w : W) → (m w).0 ≡ ok a → Leads p q (k a))
      → Leads p q (wrapping f m >>= k)
  Leads-then_made p q f m k weaken kept rest =
      Leads-made p p q (wrapping f m) k (Leads-wrapping p p f m (Leads-kept p m weaken kept))
        (λ a w answered. rest a w (wrap_result-ok f (m w).0 a answered))
