-- ===== src/Wal/Segment/RoundTrip.antt =====
-- Segment names: what `Name` writes, `SegmentFromName` reads, and the other way round.
use mathlib.Core.List.{append-nil, map-append}
use plugin_barman_cloud.Base.{
  ℕ, suc, ◌+◌, ◌<◌, ◌≡◌, ap, sym, ◌∙◌, true, false, ◌==◌, nat_eq, some, [], ◌∷◌, ◌++◌, map, arith,
  Bytes, length, length-append, is_some, Option-cases, inl, inr, lt→ltb,
}
use plugin_barman_cloud.Wal.Hex.{hex_digit, take_hex, parse_int32, int32_limit, hex_fixed, upper}
use plugin_barman_cloud.Wal.Hex.RoundTrip.{
  IsHex, hex_fixed-IsHex, length-hex_fixed, take_hex-append, take_hex-eq-some,
  parse_int32-hex_fixed, hex_fixed-parse_int32, parse_int32-nil, IsHex-append,
}
use plugin_barman_cloud.Wal.FileName.{base, base_of_plain, IsPlain}
use plugin_barman_cloud.Wal.Segment.{
  Segment, wal_suffix, wal_groups, wal_re, wal_segment_re, is_wal_file, parse_groups,
  segment_from_name, format_int32, name,
}

-- The three int32 fields are not negative.
pub record IsNonnegative (s : Segment) : Type 0 where
  pub tli : s.tli < int32_limit
  pub log : s.log < int32_limit
  pub seg : s.seg < int32_limit

plain_digit : (c : ℕ) → is_some (hex_digit c) ≡ true → (c == b'/') ≡ false
unfolding hex_digit
plain_digit c h = ground arith

IsPlain-of_hex : (s : Bytes) → IsHex s → IsPlain s
IsPlain-of_hex [] h = tt
IsPlain-of_hex (c ∷ cs) h = (plain_digit c h.0, IsPlain-of_hex cs h.1)

base_of_hex : (s : Bytes) (k : ℕ) → length s ≡ suc k → IsHex s → base s ≡ s
base_of_hex [] k l h = absurd (omega arith)
base_of_hex (c ∷ cs) k l h = base_of_plain c cs (IsPlain-of_hex (c ∷ cs) h)

take_hex-hex_fixed :
    (k n : ℕ) (rest : Bytes) → take_hex k (hex_fixed k n ++ rest) ≡ some (hex_fixed k n, rest)
take_hex-hex_fixed k n rest =
    rw length-hex_fixed at (take_hex-append (hex_fixed k n) rest (hex_fixed-IsHex k n))

pub name_of_nonnegative :
    (s : Segment)
    → IsNonnegative s
    → name s ≡ hex_fixed 8 s.tli ++ (hex_fixed 8 s.log ++ hex_fixed 8 s.seg)
unfolding name format_int32
name_of_nonnegative s h = rw (lt→ltb _ _ h.tli, lt→ltb _ _ h.log, lt→ltb _ _ h.seg)

take_hex-hex_fixed_nil : (k n : ℕ) → take_hex k (hex_fixed k n) ≡ some (hex_fixed k n, [])
take_hex-hex_fixed_nil k n =
    ap (take_hex k) (sym (append-nil (hex_fixed k n))) ∙ take_hex-hex_fixed k n []

wal_groups_digits :
    (l s : ℕ) → wal_groups (hex_fixed 8 l ++ hex_fixed 8 s) ≡ some (hex_fixed 8 l, hex_fixed 8 s)
unfolding wal_groups wal_suffix
wal_groups_digits l s =
    rw (take_hex-hex_fixed 8 l (hex_fixed 8 s), take_hex-hex_fixed_nil 8 s, wal_groups)

wal_re_digits :
    (t l s : ℕ)
    → wal_re (hex_fixed 8 t ++ (hex_fixed 8 l ++ hex_fixed 8 s))
      ≡ some (hex_fixed 8 t, hex_fixed 8 l, hex_fixed 8 s)
unfolding wal_re
wal_re_digits t l s =
    rw (take_hex-hex_fixed 8 t (hex_fixed 8 l ++ hex_fixed 8 s), wal_groups_digits l s, wal_re)

abbrev digits : Segment → Bytes
digits s = hex_fixed 8 s.tli ++ (hex_fixed 8 s.log ++ hex_fixed 8 s.seg)

length-digits : (s : Segment) → length (digits s) ≡ 24
length-digits s = omega (
  arith,
  length-append (hex_fixed 8 s.tli) (hex_fixed 8 s.log ++ hex_fixed 8 s.seg),
  length-append (hex_fixed 8 s.log) (hex_fixed 8 s.seg),
  length-hex_fixed 8 s.tli,
  length-hex_fixed 8 s.log,
  length-hex_fixed 8 s.seg,
)

digits-IsHex : (s : Segment) → IsHex (digits s)
digits-IsHex s =
    IsHex-append (hex_fixed 8 s.tli) _ (hex_fixed-IsHex 8 s.tli)
      (IsHex-append (hex_fixed 8 s.log) _ (hex_fixed-IsHex 8 s.log) (hex_fixed-IsHex 8 s.seg))

segment_from_name_match :
    (n b t l s : Bytes)
    → base n ≡ b
    → wal_re b ≡ some (t, l, s)
    → length b ≡ 24
    → segment_from_name n ≡ parse_groups (t, l, s)
unfolding segment_from_name
segment_from_name_match n b t l s at_base matched long = ground arith

segment_from_name-digits : (s : Segment) → IsNonnegative s → segment_from_name (digits s) ≡ some s
unfolding parse_groups
segment_from_name-digits s h =
    segment_from_name_match (digits s) (digits s) _ _ _
      (base_of_hex (digits s) 23 (length-digits s) (digits-IsHex s))
      (wal_re_digits s.tli s.log s.seg) (length-digits s)
    ∙ ground (
      arith,
      parse_int32-hex_fixed 7 s.tli h.tli (omega (arith, h.tli)),
      parse_int32-hex_fixed 7 s.log h.log (omega (arith, h.log)),
      parse_int32-hex_fixed 7 s.seg h.seg (omega (arith, h.seg)),
    )

-- Every segment with no negative field is read back from its name.
pub segment_from_name-name : (s : Segment) → IsNonnegative s → segment_from_name (name s) ≡ some s
segment_from_name-name s h = rw (name_of_nonnegative s h) (segment_from_name-digits s h)

take_hex_all : (k : ℕ) (ds : Bytes) → length ds ≡ k → IsHex ds → take_hex k ds ≡ some (ds, [])
take_hex_all k ds l h =
    ap (λ n. take_hex n ds) (sym l)
    ∙ ap (take_hex (length ds)) (sym (append-nil ds))
    ∙ take_hex-append ds [] h

pub is_wal_file-name : (s : Segment) → IsNonnegative s → is_wal_file (name s) ≡ true
unfolding is_wal_file wal_segment_re
is_wal_file-name s h = rw (
  name_of_nonnegative s h,
  base_of_hex (digits s) 23 (length-digits s) (digits-IsHex s),
  take_hex_all 24 (digits s) (length-digits s) (digits-IsHex s),
  wal_segment_re,
)

wal_groups_split :
    (r l s : Bytes)
    → wal_groups r ≡ some (l, s)
    → 0 < length s
    → (suffix : Bytes) × (r ≡ l ++ (s ++ suffix)) × (length l ≡ 8) × (length s ≡ 8)
unfolding wal_groups
wal_groups_split r l s h pos = elim (Option-cases (take_hex 8 r)) [
  | inl bad ↦ absurd (ground arith)
  | inr ((l', r'), first) ↦ elim (Option-cases (take_hex 8 r')) [
    | inl bad ↦ absurd (ground arith)
    | inr ((s', suffix), second) ↦
        let (whole, eight, _) = take_hex-eq-some 8 r l' r' first in
        let (tail, eight', _) = take_hex-eq-some 8 r' s' suffix second in
        (suffix, ground arith, ground arith, ground arith)
  ]
]

length-append3 : (t l s : Bytes) → length (t ++ (l ++ s)) ≡ length t + (length l + length s)
length-append3 t l s = omega (arith, length-append t (l ++ s), length-append l s)

no_suffix :
    (t l s suffix : Bytes)
    → length (t ++ (l ++ (s ++ suffix))) ≡ length t + (length l + length s)
    → t ++ (l ++ (s ++ suffix)) ≡ t ++ (l ++ s)
no_suffix t l s [] h = ap (λ u. t ++ (l ++ u)) (append-nil s)
no_suffix t l s (c ∷ cs) h =
    absurd (omega (arith, length-append3 t l (s ++ c ∷ cs), length-append s (c ∷ cs)))

-- The three groups, if the segment number took part, are the whole of a name of 24 bytes.
wal_re_split :
    (b t l s : Bytes)
    → wal_re b ≡ some (t, l, s)
    → length b ≡ 24
    → 0 < length s
    → (b ≡ t ++ (l ++ s)) × (length t ≡ 8) × (length l ≡ 8) × (length s ≡ 8)
unfolding wal_re
wal_re_split b t l s h n pos = elim (Option-cases (take_hex 8 b)) [
  | inl bad ↦ absurd (ground arith)
  | inr ((t', r), first) ↦ elim (Option-cases (wal_groups r)) [
    | inl bad ↦ absurd (ground arith)
    | inr ((l', s'), second) ↦
        let (whole, eight, _) = take_hex-eq-some 8 b t' r first in
        let (suffix, tail, eight', eight'') = wal_groups_split r l' s' second (ground arith) in
        let parts : b ≡ t' ++ (l' ++ (s' ++ suffix)) = cc in
        let long : length (t' ++ (l' ++ (s' ++ suffix))) ≡ length t' + (length l' + length s') =
          sym (ap length parts) ∙ omega arith in
        let joined = no_suffix t' l' s' suffix long in ground (arith, parts, joined)
  ]
]

parse_groups_split :
    (t l s : Bytes) (g : Segment)
    → parse_groups (t, l, s) ≡ some g
    → (parse_int32 t ≡ some g.tli) × (parse_int32 l ≡ some g.log) × (parse_int32 s ≡ some g.seg)
unfolding parse_groups
parse_groups_split t l s g h = ground arith

segment_group-nonempty : (s : Bytes) (n : ℕ) → parse_int32 s ≡ some n → 0 < length s
segment_group-nonempty [] n h = cc parse_int32-nil
segment_group-nonempty (c ∷ cs) n h = omega arith

-- What `SegmentFromName` accepts is not negative, and `Name` gives back the file's base name in
-- upper case: the segment stands for the very file that was asked for.
pub name-segment_from_name :
    (n : Bytes) (g : Segment)
    → segment_from_name n ≡ some g
    → IsNonnegative g × (name g ≡ map upper (base n))
unfolding segment_from_name
name-segment_from_name n g h = elim (Option-cases (wal_re (base n))) [
  | inl bad ↦ absurd (ground arith)
  | inr ((t, l, s), matched) ↦
      let (long, parsed) : (length (base n) ≡ 24) × (parse_groups (t, l, s) ≡ some g) =
        ground arith in
      let (pt, pl, ps) = parse_groups_split t l s g parsed in
      let (whole, et, el, es) =
        wal_re_split (base n) t l s matched long (segment_group-nonempty s g.seg ps) in
      let (dt, nt) = hex_fixed-parse_int32 t g.tli pt in
      let (dl, nl) = hex_fixed-parse_int32 l g.log pl in
      let (ds, ns) = hex_fixed-parse_int32 s g.seg ps in
      let nonnegative : IsNonnegative g = record { tli = nt; log = nl; seg = ns } in
      let dt' : hex_fixed 8 g.tli ≡ map upper t = ap (λ m. hex_fixed m g.tli) (sym et) ∙ dt in
      let dl' : hex_fixed 8 g.log ≡ map upper l = ap (λ m. hex_fixed m g.log) (sym el) ∙ dl in
      let ds' : hex_fixed 8 g.seg ≡ map upper s = ap (λ m. hex_fixed m g.seg) (sym es) ∙ ds in
      (nonnegative, name_of_nonnegative g nonnegative ∙ simp (dt', dl', ds', whole, map-append))
]
