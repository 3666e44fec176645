-- ===== src/Wal/Hex.antt =====
-- Hexadecimal digits as `strconv.ParseInt(_, 16, 32)` reads them and `%08X` writes them, for
-- internal/cnpgi/common/wal_import.go.
pub mod RoundTrip
use plugin_barman_cloud.Base.{
  ℕ, zero, suc, ◌+◌, ◌-◌, ◌*◌, ◌/◌, ◌%◌, ◌^◌, Bool, ◌&&◌, ◌||◌, Option, none, some, List, [], ◌∷◌,
  ◌++◌, Bytes, ltb, leb, is_some, if◌then◌else◌,
}

-- The value of one digit, upper or lower case.
unfoldable pub hex_digit : ℕ → Option ℕ
hex_digit c =
    if leb b'0' c && leb c b'9'
    then some (c - 48)
    else if leb b'A' c && leb c b'F'
    then some (c - 55)
    else if leb b'a' c && leb c b'f'
    then some (c - 87)
    else none

-- The upper-case digit of a value below 16.
unfoldable pub hex_char : ℕ → ℕ
hex_char d = if ltb d 10 then d + 48 else d + 55

unfoldable pub hex_acc : ℕ → Bytes → Option ℕ
hex_acc acc [] = some acc
hex_acc acc (c ∷ cs) = elim (hex_digit c) [ none ↦ none | some d ↦ hex_acc (acc * 16 + d) cs ]

abbrev pub int32_limit : ℕ
int32_limit = 2147483648

-- `strconv.ParseInt(s, 16, 32)` on a text of hexadecimal digits, the only texts that the regular
-- expressions hand to it: a value past the largest int32 is a range error.
unfoldable pub parse_int32 : Bytes → Option ℕ
unfolding hex_acc
parse_int32 [] = none
parse_int32 (c ∷ cs) = elim (hex_acc 0 (c ∷ cs)) [
  | none ↦ none
  | some v ↦ if ltb v int32_limit then some v else none
]

-- The lowest `k` digits of a number, upper case.
unfoldable pub hex_fixed : ℕ → ℕ → Bytes
hex_fixed zero n = []
hex_fixed (suc k) n = hex_fixed k (n / 16) ++ hex_char (n % 16) ∷ []

-- `[\dA-Fa-f]{n}` at the start of a text: the digits, and what follows them.
unfoldable pub take_hex : ℕ → Bytes → Option (Bytes × Bytes)
take_hex zero s = some ([], s)
take_hex (suc n) [] = none
take_hex (suc n) (c ∷ s) =
    let rest = take_hex n s in
    if is_some (hex_digit c)
    then elim rest [ none ↦ none | some (ds, r) ↦ some (c ∷ ds, r) ]
    else none

-- `strings.ToUpper` on a hexadecimal digit.
unfoldable pub upper : ℕ → ℕ
upper c = if leb b'a' c && leb c b'f' then c - 32 else c
