-- ===== src/Wal/Segment.antt =====
-- internal/cnpgi/common/wal_import.go: WAL segment names and the segments that follow one.
-- An int32 is its bit pattern, a number below 2 ^ 32.
pub mod RoundTrip
pub mod Walk
use plugin_barman_cloud.Base.{
  ℕ, zero, suc, ◌+◌, ◌-◌, ◌*◌, ◌/◌, ◌%◌, ◌^◌, Bool, true, false, ◌&&◌, ◌||◌, Option, none, some,
  List, [], ◌∷◌, ◌++◌, Bytes, codes, ◌==◌, nat_eq, ltb, is_some, length, if◌then◌else◌,
}
use plugin_barman_cloud.Wal.Hex.{take_hex, parse_int32, int32_limit, hex_fixed}
use plugin_barman_cloud.Wal.FileName.{base}

pub record Segment : Type 0 where
  -- the timeline number
  pub tli : ℕ
  -- the log number
  pub log : ℕ
  -- the segment number
  pub seg : ℕ

-- `DefaultWALSegmentSize`
abbrev pub default_wal_segment_size : ℕ
default_wal_segment_size = 2 ^ 24

-- A text is another.
abbrev pub same : Bytes → Bytes → Bool
same [] [] = true
same [] (d ∷ ds) = false
same (c ∷ cs) [] = false
same (c ∷ cs) (d ∷ ds) = c == d && same cs ds

-- What may follow the 24 digits of `WALRe`: nothing, `.partial`, or an offset and `.backup`.
unfoldable pub wal_suffix : Bytes → Bool
wal_suffix [] = true
wal_suffix (c ∷ cs) =
    same (c ∷ cs) (codes ".partial")
    || (c == b'.'
        && elim (take_hex 8 cs) [ none ↦ false | some (_, rest) ↦ same rest (codes ".backup") ])

-- The alternatives of `WALRe` after the timeline: a log and a segment with a suffix, or `.history`,
-- where the two groups did not take part and are empty.
unfoldable pub wal_groups : Bytes → Option (Bytes × Bytes)
wal_groups s = elim (take_hex 8 s) [
  | none ↦ if same s (codes ".history") then some ([], []) else none
  | some (log, r) ↦ elim (take_hex 8 r) [
    | none ↦ none
    | some (seg, suffix) ↦ if wal_suffix suffix then some (log, seg) else none
  ]
]

-- `WALRe.FindStringSubmatch`: the three groups of a match (group 0 is the whole name).
unfoldable pub wal_re : Bytes → Option (Bytes × Bytes × Bytes)
wal_re s = elim (take_hex 8 s) [
  | none ↦ none
  | some (tli, r) ↦ elim (wal_groups r) [ none ↦ none | some (log, seg) ↦ some (tli, log, seg) ]
]

-- `WALSegmentRe.MatchString`
unfoldable pub wal_segment_re : Bytes → Bool
wal_segment_re s = elim (take_hex 24 s) [ none ↦ false | some (_, rest) ↦ same rest [] ]

unfoldable pub is_wal_file : Bytes → Bool
is_wal_file name = wal_segment_re (base name)

-- The three numbers; any failure is `ErrBadWALSegmentName`.
unfoldable pub parse_groups : Bytes × Bytes × Bytes → Option Segment
parse_groups (t, l, s) = elim (parse_int32 t) [
  | none ↦ none
  | some tli ↦ elim (parse_int32 l) [
    | none ↦ none
    | some log ↦ elim (parse_int32 s) [
      | none ↦ none
      | some seg ↦ some (record { tli = tli; log = log; seg = seg })
    ]
  ]
]

-- `SegmentFromName`; `none` is `ErrBadWALSegmentName`.
unfoldable pub segment_from_name : Bytes → Option Segment
segment_from_name name =
    let base_name = base name in
    elim (wal_re base_name) [
      | none ↦ none
      | some groups ↦ if length base_name == 24 then parse_groups groups else none
    ]

-- `%08X` of an int32: a negative number is its sign and at least seven digits.
unfoldable pub format_int32 : ℕ → Bytes
format_int32 w =
    let magnitude = 2 ^ 32 - w in
    if ltb w int32_limit
    then hex_fixed 8 w
    else b'-' ∷ (if ltb magnitude (16 ^ 7) then hex_fixed 7 magnitude else hex_fixed 8 magnitude)

unfoldable pub name : Segment → Bytes
name s = format_int32 s.tli ++ (format_int32 s.log ++ format_int32 s.seg)

-- `WalSegmentsPerFile`: an int32, or `none` where the division panics.
unfoldable pub wal_segments_per_file : ℕ → Option ℕ
wal_segments_per_file size = if size == 0 then none else some ((0xFFFFFFFF / size) % 2 ^ 32)

-- `a > b` on int32.
abbrev pub gt_int32 : ℕ → ℕ → Bool
gt_int32 a b = ltb ((b + int32_limit) % 2 ^ 32) ((a + int32_limit) % 2 ^ 32)

-- The body of the loop of `NextSegments`, after the append.
unfoldable pub advance : ℕ → Bool → Segment → Segment
advance per_file skip_last s =
    let seg' = (s.seg + 1) % 2 ^ 32 in
    if gt_int32 seg' per_file || (skip_last && seg' == per_file)
    then record s { log = (s.log + 1) % 2 ^ 32; seg = 0 }
    else record s { seg = seg' }

-- The loop, over the segments that are still to be appended.
unfoldable pub next_from : ℕ → Bool → ℕ → Segment → List Segment
next_from per_file skip_last zero s = []
next_from per_file skip_last (suc n) s =
    s ∷ next_from per_file skip_last n (advance per_file skip_last s)

-- `NextSegments`; the size is not negative, `none` is the panic of `WalSegmentsPerFile`.
unfoldable pub next_segments : Segment → ℕ → Option ℕ → Option ℕ → Option (List Segment)
next_segments segment size postgres_version segment_size =
    let chosen : ℕ = elim segment_size [ none ↦ default_wal_segment_size | some s ↦ s ] in
    let skip_last : Bool = elim postgres_version [ none ↦ false | some v ↦ ltb v 90300 ] in
    elim (wal_segments_per_file chosen) [
      | none ↦ none
      | some per_file ↦ some (next_from per_file skip_last size segment)
    ]
