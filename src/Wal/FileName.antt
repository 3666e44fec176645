-- ===== src/Wal/FileName.antt =====
-- Go's `path.Base`, by which internal/cnpgi/common/wal_import.go and wal.go take a file's name.
use plugin_barman_cloud.Base.{
  ℕ, Bool, true, false, ◌&&◌, ◌||◌, [], ◌∷◌, Bytes, ◌==◌, nat_eq, if◌then◌else◌, ◌≡◌, refl, arith,
  All,
}

abbrev slash : ℕ
slash = b'/'

is_empty : Bytes → Bool
is_empty [] = true
is_empty (c ∷ cs) = false

has_slash : Bytes → Bool
has_slash [] = false
has_slash (c ∷ cs) = c == slash || has_slash cs

-- Without the slashes at the end.
trim_slashes : Bytes → Bytes
trim_slashes [] = []
trim_slashes (c ∷ cs) =
    let rest = trim_slashes cs in if c == slash && is_empty rest then [] else c ∷ rest

-- What follows the last slash.
last_element : Bytes → Bytes
last_element [] = []
last_element (c ∷ cs) =
    let rest = last_element cs in if has_slash cs then rest else if c == slash then cs else c ∷ cs

-- `path.Base`: the last element of a path, `.` for the empty path, `/` for slashes alone.
unfoldable pub base : Bytes → Bytes
unfolding is_empty has_slash trim_slashes last_element
base [] = b'.' ∷ []
base (c ∷ cs) = let e = last_element (trim_slashes (c ∷ cs)) in if is_empty e then slash ∷ [] else e

-- No byte is a slash.
abbrev pub IsPlain : Bytes → Type 0
IsPlain = All (λ c. (c == slash) ≡ false)

has_slash_of_plain : (s : Bytes) → IsPlain s → has_slash s ≡ false
unfolding has_slash
has_slash_of_plain [] h = refl
has_slash_of_plain (c ∷ cs) h = ground (arith, has_slash_of_plain cs h.1)

trim_slashes_of_plain : (s : Bytes) → IsPlain s → trim_slashes s ≡ s
unfolding trim_slashes
trim_slashes_of_plain [] h = refl
trim_slashes_of_plain (c ∷ cs) h = ground (arith, trim_slashes_of_plain cs h.1)

last_element_of_plain : (s : Bytes) → IsPlain s → last_element s ≡ s
unfolding last_element
last_element_of_plain [] h = refl
last_element_of_plain (c ∷ cs) h = ground (arith, has_slash_of_plain cs h.1)

-- A name with no slash is its own base.
pub base_of_plain : (c : ℕ) (cs : Bytes) → IsPlain (c ∷ cs) → base (c ∷ cs) ≡ c ∷ cs
unfolding base
base_of_plain c cs h = rw (trim_slashes_of_plain (c ∷ cs) h, last_element_of_plain (c ∷ cs) h)
