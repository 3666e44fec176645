-- ===== src/Wal/Hex/RoundTrip.antt =====
-- What is written in hexadecimal is read back, and the other way round up to case.
use mathlib.Core.List.{append_assoc, append-nil}
use native.Mathlib.Nat.{pow-suc, zero-add, add-zero}
use plugin_barman_cloud.Base.{
  ℕ, zero, suc, ◌+◌, ◌*◌, ◌/◌, ◌%◌, ◌^◌, ◌<◌, ◌≡◌, refl, ap, sym, ◌∙◌, true, none, some, [], ◌∷◌,
  ◌++◌, map, arith, Bytes, All, length, length-append, is_some, Option-cases, inl, inr,
}
use plugin_barman_cloud.Wal.Hex.{
  hex_digit, hex_char, hex_acc, parse_int32, int32_limit, hex_fixed, take_hex, upper,
}

-- Every byte is a hexadecimal digit.
abbrev pub IsHex : Bytes → Type 0
IsHex = All (λ c. is_some (hex_digit c) ≡ true)

hex_digit-hex_char : (d : ℕ) → d < 16 → hex_digit (hex_char d) ≡ some d
unfolding hex_digit hex_char
hex_digit-hex_char d h = ground arith

pub IsHex-append : (xs ys : Bytes) → IsHex xs → IsHex ys → IsHex (xs ++ ys)
IsHex-append [] ys h k = k
IsHex-append (x ∷ xs) ys h k = (h.0, IsHex-append xs ys h.1 k)

pub hex_fixed-IsHex : (k n : ℕ) → IsHex (hex_fixed k n)
unfolding hex_fixed
hex_fixed-IsHex zero n = tt
hex_fixed-IsHex (suc k) n =
    IsHex-append (hex_fixed k (n / 16)) _ (hex_fixed-IsHex k (n / 16))
      (ap is_some (hex_digit-hex_char (n % 16) (omega arith)), tt)

pub length-hex_fixed : (k n : ℕ) → length (hex_fixed k n) ≡ k
unfolding hex_fixed
length-hex_fixed zero n = refl
length-hex_fixed (suc k) n = omega (
  arith,
  length-append (hex_fixed k (n / 16)) (hex_char (n % 16) ∷ []),
  length-hex_fixed k (n / 16),
)

hex_acc-cons :
    (acc c d : ℕ) (rest : Bytes)
    → hex_digit c ≡ some d
    → hex_acc acc (c ∷ rest) ≡ hex_acc (acc * 16 + d) rest
unfolding hex_acc
hex_acc-cons acc c d rest h = rw (h, hex_acc)

pub hex_acc-hex_fixed :
    (k n : ℕ) (rest : Bytes) → n < 16 ^ k → hex_acc 0 (hex_fixed k n ++ rest) ≡ hex_acc n rest
unfolding hex_fixed
hex_acc-hex_fixed zero n rest h = ap (λ m. hex_acc m rest) (omega arith)
hex_acc-hex_fixed (suc k) n rest h = rw append_assoc (
    hex_acc-hex_fixed k (n / 16) (hex_char (n % 16) ∷ rest) (omega (arith, pow-suc 16 k))
    ∙ hex_acc-cons (n / 16) (hex_char (n % 16)) (n % 16) rest
        (hex_digit-hex_char (n % 16) (omega arith))
    ∙ ap (λ m. hex_acc m rest) (omega arith))

pub take_hex-append :
    (ds rest : Bytes) → IsHex ds → take_hex (length ds) (ds ++ rest) ≡ some (ds, rest)
unfolding take_hex
take_hex-append [] rest h = refl
take_hex-append (c ∷ ds) rest h = rw (h.0, take_hex-append ds rest h.1)

hex_char-hex_digit : (c d : ℕ) → hex_digit c ≡ some d → (hex_char d ≡ upper c) × (d < 16)
unfolding hex_digit hex_char upper
hex_char-hex_digit c d h = ground arith

next :
    (x : ℕ) (xs : Bytes) (j acc d : ℕ)
    → hex_digit x ≡ some d
    → hex_fixed (suc j) (acc * 16 + d) ++ map upper xs ≡ hex_fixed j acc ++ map upper (x ∷ xs)
unfolding hex_fixed
next x xs j acc d h =
    let (c, small) = hex_char-hex_digit x d h in
    let q : (acc * 16 + d) / 16 ≡ acc = omega arith in
    let r : (acc * 16 + d) % 16 ≡ d = omega arith in rw (q, r, c, append_assoc)

-- Reading digits and writing the value gives them back in upper case.
hex_fixed-hex_acc :
    (xs : Bytes) (j acc v : ℕ)
    → hex_acc acc xs ≡ some v
    → hex_fixed (length xs + j) v ≡ hex_fixed j acc ++ map upper xs
unfolding hex_acc
hex_fixed-hex_acc [] j acc v h = rw append-nil (cc (zero-add j))
hex_fixed-hex_acc (x ∷ xs) j acc v h = elim (Option-cases (hex_digit x)) [
  | inl bad ↦ absurd (ground arith)
  | inr (d, good) ↦
      ap (λ m. hex_fixed m v) (omega arith)
      ∙ hex_fixed-hex_acc xs (suc j) (acc * 16 + d) v (ground arith)
      ∙ next x xs j acc d good
]

parse_int32_nonempty :
    (s : Bytes) (k n : ℕ)
    → length s ≡ suc k
    → n < int32_limit
    → hex_acc 0 s ≡ some n
    → parse_int32 s ≡ some n
unfolding parse_int32
parse_int32_nonempty [] k n l small v = absurd (omega arith)
parse_int32_nonempty (c ∷ cs) k n l small v = ground (arith, v)

pub parse_int32-hex_fixed :
    (k n : ℕ) → n < int32_limit → n < 16 ^ suc k → parse_int32 (hex_fixed (suc k) n) ≡ some n
unfolding hex_acc
parse_int32-hex_fixed k n small fits =
    parse_int32_nonempty (hex_fixed (suc k) n) k n (length-hex_fixed (suc k) n) small (
      ap (hex_acc 0) (sym (append-nil (hex_fixed (suc k) n))) ∙ hex_acc-hex_fixed (suc k) n [] fits)

parse_int32_value :
    (s : Bytes) (v : ℕ) → parse_int32 s ≡ some v → (hex_acc 0 s ≡ some v) × (v < int32_limit)
unfolding parse_int32
parse_int32_value [] v h = absurd (cc)
parse_int32_value (c ∷ cs) v h = elim (Option-cases (hex_acc 0 (c ∷ cs))) [
  | inl bad ↦ absurd (ground arith)
  | inr (w, good) ↦ ground arith
]

-- What is parsed is an int32, and its digits are those of the text in upper case.
pub hex_fixed-parse_int32 :
    (s : Bytes) (v : ℕ)
    → parse_int32 s ≡ some v
    → (hex_fixed (length s) v ≡ map upper s) × (v < int32_limit)
unfolding hex_fixed
hex_fixed-parse_int32 s v h =
    let (value, small) = parse_int32_value s v h in
    (ap (λ m. hex_fixed m v) (sym (add-zero (length s))) ∙ hex_fixed-hex_acc s 0 0 v value, small)

pub parse_int32-nil : parse_int32 [] ≡ none
unfolding parse_int32
parse_int32-nil = refl

-- What `take_hex` takes off are hexadecimal digits, as many as asked for.
pub take_hex-eq-some :
    (k : ℕ) (s ds rest : Bytes)
    → take_hex k s ≡ some (ds, rest)
    → (s ≡ ds ++ rest) × (length ds ≡ k) × IsHex ds
unfolding take_hex
take_hex-eq-some zero s [] rest h = (cc, refl, tt)
take_hex-eq-some zero s (d ∷ ds) rest h = absurd (cc)
take_hex-eq-some (suc k) [] ds rest h = absurd (cc)
take_hex-eq-some (suc k) (c ∷ s) [] rest h = absurd (ground arith)
take_hex-eq-some (suc k) (c ∷ s) (d ∷ ds) rest h = ground (arith, take_hex-eq-some k s ds rest)
