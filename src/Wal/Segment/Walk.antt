-- ===== src/Wal/Segment/Walk.antt =====
-- `NextSegments` walks the log: each segment is the one after the segment before it.
use native.Mathlib.Decide.{dec_lt}
use plugin_barman_cloud.Base.{
  ℕ, zero, suc, ◌+◌, ◌*◌, ◌^◌, ◌<◌, ◌≤◌, ◌≡◌, refl, ◌∙◌, Bool, true, false, nat_eq, some, arith,
  length, get_elem?, if◌then◌else◌,
}
use plugin_barman_cloud.Wal.Hex.{int32_limit}
use plugin_barman_cloud.Wal.Segment.{Segment, advance, next_from}

-- The number of segments in one log file: the last one is skipped before PostgreSQL 9.3.
abbrev pub width : ℕ → Bool → ℕ
width per_file skip_last = if skip_last then per_file else per_file + 1

-- `s` stands `i` places after the segment `seg` of the log `log`, on the same timeline.
pub record IsAt (w : ℕ) (from s : Segment) (i : ℕ) : Type 0 where
  pub same_timeline : s.tli ≡ from.tli
  pub in_file : s.seg < w
  pub position : s.log * w + s.seg ≡ from.log * w + from.seg + i

advance_within :
    (per_file : ℕ) (skip_last : Bool) (s : Segment)
    → per_file + 1 < int32_limit
    → s.seg + 1 < width per_file skip_last
    → advance per_file skip_last s ≡ record s { seg = s.seg + 1 }
unfolding advance
advance_within per_file true s small inside = ground arith
advance_within per_file false s small inside = ground arith

advance_across :
    (per_file : ℕ) (skip_last : Bool) (s : Segment)
    → per_file + 1 < int32_limit
    → s.seg + 1 ≡ width per_file skip_last
    → s.log + 1 < 2 ^ 32
    → advance per_file skip_last s ≡ record s { log = s.log + 1; seg = 0 }
unfolding advance
advance_across per_file true s small last room = ground arith
advance_across per_file false s small last room = ground arith

module _ (per_file : ℕ) (skip_last : Bool) (small : per_file + 1 < int32_limit) where
  advance-IsAt :
      (s : Segment)
      → s.seg < width per_file skip_last
      → s.log + 1 < 2 ^ 32
      → IsAt (width per_file skip_last) s (advance per_file skip_last s) 1
        × ((advance per_file skip_last s).log ≤ s.log + 1)
  advance-IsAt s inside room = elim (dec_lt (s.seg + 1) (width per_file skip_last)) [
    | yes p ↦ rw (advance_within per_file skip_last s small p) (omega arith)
    | no p ↦ rw (advance_across per_file skip_last s small (omega arith) room) (omega arith)
  ]

  -- Where the segments of a file and one more fit into an int32, a walk of `n` segments starts inside
  -- a log, and the log numbers do not wrap: the segment at place `i` is `i` places further on, a log
  -- being as wide as `WalSegmentsPerFile` says, and on the same timeline.
  pub next_from-IsAt :
      (n i : ℕ) (s t : Segment)
      → s.seg < width per_file skip_last
      → s.log + n < 2 ^ 32
      → get_elem? (next_from per_file skip_last n s) i ≡ some t
      → IsAt (width per_file skip_last) s t i
  unfolding next_from
  next_from-IsAt zero i s t inside room h = absurd (cc)
  next_from-IsAt (suc n) zero s t inside room h = ground arith
  next_from-IsAt (suc n) (suc i) s t inside room h =
      let (here, near) = advance-IsAt s inside (omega arith) in
      let there =
        next_from-IsAt n i (advance per_file skip_last s) t here.in_file (omega arith) h in
      record {
        same_timeline = there.same_timeline ∙ here.same_timeline;
        in_file = there.in_file;
        position = omega arith;
      }

pub length-next_from :
    (per_file : ℕ) (skip_last : Bool) (n : ℕ) (s : Segment)
    → length (next_from per_file skip_last n s) ≡ n
unfolding next_from
length-next_from per_file skip_last zero s = refl
length-next_from per_file skip_last (suc n) s =
    omega (arith, length-next_from per_file skip_last n (advance per_file skip_last s))
