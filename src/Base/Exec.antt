-- ===== src/Base/Exec.antt =====
-- Calls that can fail, and calls that also change the world outside the program.
pub mod Phases
use mathlib.Core.Path.{◌≡◌, refl}

pub data Result {ℓ κ} (E : Type ℓ) (A : Type κ) : Type (ℓ ⊔ κ) where
  ok : A → Result E A
  err : E → Result E A

abbrev pub wrap_result : {E F A : Type 0} → (F → E) → Result F A → Result E A
wrap_result f (ok a) = ok a
wrap_result f (err e) = err (f e)

-- `if err != nil { return err }` without the world.
abbrev pub and_then : {E A B : Type 0} → Result E A → (A → Result E B) → Result E B
and_then (ok a) f = f a
and_then (err e) f = err e

-- A Go function `(A, error)` whose calls act on the world `W`. What was done before an error stays
-- done, so the world comes back beside the error too.
abbrev pub Exec : Type 0 → Type 0 → Type 0 → Type 0
Exec W E A = W → Result E A × W

module _ {W E : Type 0} where
  abbrev pub pure : {A : Type 0} → A → Exec W E A
  pure a w = (ok a, w)

  abbrev pub fail : {A : Type 0} → E → Exec W E A
  fail e w = (err e, w)

  -- A computation that touches nothing outside.
  abbrev pub lift : {A : Type 0} → Result E A → Exec W E A
  lift r w = (r, w)

  abbrev pub continue : {A B : Type 0} → Result E A → (A → Exec W E B) → Exec W E B
  continue (ok a) f w = f a w
  continue (err e) f w = (err e, w)

  infixl 5 ◌>>=◌ ◌>>◌
  -- `if err != nil { return err }` after a call
  abbrev pub ◌>>=◌ : {A B : Type 0} → Exec W E A → (A → Exec W E B) → Exec W E B
  ◌>>=◌ m f w = continue (m w).0 f (m w).1

  abbrev pub ◌>>◌ : {A B : Type 0} → Exec W E A → Exec W E B → Exec W E B
  m >> k = m >>= λ _. k

  -- `if err != nil { return fmt.Errorf("…: %w", err) }`
  abbrev pub wrapping : {F A : Type 0} → (F → E) → Exec W F A → Exec W E A
  wrapping f m w = (wrap_result f (m w).0, (m w).1)

  -- A call whose error the caller only looks at.
  abbrev pub try : {F A : Type 0} → Exec W F A → Exec W E (Result F A)
  try m w = (ok (m w).0, (m w).1)

  -- `defer func() { … }()` whose error is only logged.
  abbrev pub finally : {F A B : Type 0} → Exec W E A → Exec W F B → Exec W E A
  finally m deferred w = ((m w).0, (deferred (m w).1).1)

-- What a call leaves behind, result and world, whenever it starts in a world of `P`.
abbrev pub Ensures :
    {W E A : Type 0} → (W → Type 0) → Exec W E A → (Result E A → W → Type 0) → Type 0
Ensures {W} P m Q = (w : W) → P w → Q (m w).0 (m w).1

module _ {W E A B : Type 0} where
  -- A call and what follows it: on success the rest goes on from what the call left, and an error
  -- has to do as it is.
  pub Ensures-bind :
      (P : W → Type 0) (R : Result E A → W → Type 0) (Q : Result E B → W → Type 0) (m : Exec W E A)
      (f : A → Exec W E B)
      → Ensures P m R
      → ((a : A) → Ensures (R (ok a)) (f a) Q)
      → ((e : E) (w : W) → R (err e) w → Q (err e) w)
      → Ensures P (m >>= f) Q
  Ensures-bind P R Q m f first rest failed w p = go (m w).0 (m w).1 (first w p)
    where
      go : (r : Result E A) (w' : W) → R r w' → Q (continue r f w').0 (continue r f w').1
      go (ok a) w' h = rest a w' h
      go (err e) w' h = failed e w' h

  -- The same, where the rest also knows that the call has answered it.
  pub Ensures-made :
      (P : W → Type 0) (R : Result E A → W → Type 0) (Q : Result E B → W → Type 0) (m : Exec W E A)
      (f : A → Exec W E B)
      → Ensures P m R
      → ((a : A) (w : W) → (m w).0 ≡ ok a → Ensures (R (ok a)) (f a) Q)
      → ((e : E) (w : W) → R (err e) w → Q (err e) w)
      → Ensures P (m >>= f) Q
  Ensures-made P R Q m f first rest failed w p = go (m w).0 (m w).1 refl (first w p)
    where
      go :
          (r : Result E A) (w' : W)
          → (m w).0 ≡ r
          → R r w'
          → Q (continue r f w').0 (continue r f w').1
      go (ok a) w' answered h = rest a w answered w' h
      go (err e) w' answered h = failed e w' h

-- What a wrapped call answers, the call has answered.
pub wrap_result-ok :
    {E F A : Type 0} (f : F → E) (r : Result F A) (a : A) → wrap_result f r ≡ ok a → r ≡ ok a
wrap_result-ok f (ok b) a h = cc
wrap_result-ok f (err e) a h = absurd (cc)

-- A call that is answered after another one: what both have answered.
pub bind_ok :
    {W E A B : Type 0} (m : Exec W E A) (f : A → Exec W E B) (w : W) (b : B)
    → ((m >>= f) w).0 ≡ ok b
    → (a : A) × (v : W) × ((m w).0 ≡ ok a) × ((f a v).0 ≡ ok b)
bind_ok {W} {E} {A} {B} m f w b h = go (m w).0 (m w).1 refl h
  where
    go :
        (r : Result E A) (v : W)
        → (m w).0 ≡ r
        → (continue r f v).0 ≡ ok b
        → (a : A) × (u : W) × ((m w).0 ≡ ok a) × ((f a u).0 ≡ ok b)
    go (ok a) v answered g = (a, v, answered, g)
    go (err e) v answered g = absurd (cc)
