-- ===== src/Base/Text.antt =====
-- Byte strings (paths, WAL names), and Go maps from text to text.
use Prim.Native.Nat.{ℕ}
use Prim.Native.Char.{code}
use Prim.Native.String
use Prim.Native.String.{String}
use mathlib.Core.Path.{◌≡◌, refl}
use mathlib.Core.Option.{Option, none, some}
use mathlib.Core.Option
use mathlib.Core.Logic.{inl, inr}
use mathlib.Core.List.{List, [], ◌∷◌}
use native.Mathlib.Omega.{arith}
use plugin_barman_cloud.Base.Tests.{◌==◌, string_eq, eq_iff, Bool-cases, if◌then◌else◌}

-- A Go string that the program takes apart: its bytes.
abbrev pub Bytes : Type 0
Bytes = List ℕ

-- The code points of a text: its bytes, if it is ASCII.
abbrev pub codes : String → Bytes
codes String.[] = []
codes (String.◌∷◌ c s) = code c ∷ codes s

-- `path.Join`, of two clean parts that are not empty.
abbrev pub join_path : String → String → String
join_path a b = String.◌++◌ a (String.◌++◌ "/" b)

-- `map[string]string`, as the list of its entries.
abbrev pub StringMap : Type 0
StringMap = List (String × String)

module _ {ℓ} {V : Type ℓ} where
  -- `v, ok := m[key]`
  unfoldable pub lookup : String → List (String × V) → Option V
  lookup key [] = none
  lookup key (entry ∷ rest) = if entry.0 == key then some entry.1 else lookup key rest

  -- `m[key] = value`, at the place that the key has.
  unfoldable pub insert : String → V → List (String × V) → List (String × V)
  insert key value [] = (key, value) ∷ []
  insert key value (entry ∷ rest) =
      let later = entry ∷ insert key value rest in
      if entry.0 == key then (key, value) ∷ rest else later

  -- After an assignment the key has the value, and any other key has what it had.
  pub lookup-insert :
      (key other : String) (value : V) (m : List (String × V))
      → lookup other (insert key value m) ≡ (if key == other then some value else lookup other m)
  unfolding lookup insert
  lookup-insert key other value [] = refl
  lookup-insert key other value (entry ∷ rest) =
      let induction = lookup-insert key other value rest in
      elim (Bool-cases (entry.0 == key)) [
        | inl found ↦
            let same : entry.0 ≡ key = (eq_iff entry.0 key).0 found in
            rw (found) (ground (arith, same))
        | inr differs ↦ ground (arith, eq_iff key other, eq_iff entry.0 other, eq_iff entry.0 key)
      ]

-- `m[k]`: the empty text where the key is missing.
unfoldable pub at : String → StringMap → String
at k m = Option.get_or (lookup k m) ""
