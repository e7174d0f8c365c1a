-- ===== src/Allocator/Bitmap/Scan.antt =====
-- `scan`, the test of `alloc` that a range of pages is free, against the pages themselves.
use native.Mathlib.Decide.{dec_lt}
use rv.Base.{ℕ, zero, suc, ◌+◌, ◌≤◌, ◌<◌, ◌≡◌, inl, inr, arith, true, false}
use rv.Base.{
  Option, none, some, List, Run, done, panic, length, get_elem?, get_elem?-lt, Bool-cases,
}
use rv.Allocator.Bitmap.{PageFlags, empty, is_busy, scan}

abbrev pub FreeAt : List PageFlags → ℕ → Type 0
FreeAt ds j = get_elem? ds j ≡ some empty

-- Every page from `i` on, `count` of them, is free.
abbrev pub RangeFree : List PageFlags → ℕ → ℕ → Type 0
RangeFree ds i count = (j : ℕ) → i ≤ j → j < i + count → FreeAt ds j

-- An allocation of `count` pages can start at page `i`. (One of no pages wants a free page too.)
pub record Fits (ds : List PageFlags) (count i : ℕ) : Type 0 where
  pub starts : FreeAt ds i
  pub inside : i + count ≤ length ds
  pub free_pages : RangeFree ds i count

pub FreeAt-not_busy :
    (ds : List PageFlags) (j : ℕ) (d : PageFlags)
    → get_elem? ds j ≡ some d
    → is_busy d ≡ false
    → FreeAt ds j
FreeAt-not_busy ds j d e h = ground arith

pub busy-not-FreeAt :
    (ds : List PageFlags) (j : ℕ) (d : PageFlags)
    → get_elem? ds j ≡ some d
    → is_busy d ≡ true
    → ¬ FreeAt ds j
busy-not-FreeAt ds j d e h f = ground arith

-- What `scan` may return for the range of `count` pages at `i`.
abbrev pub ScanEnds : List PageFlags → ℕ → ℕ → Run (Option ℕ) → Type 0
ScanEnds ds i count (done none) = RangeFree ds i count
ScanEnds ds i count (done (some j)) = (i ≤ j) × (j < i + count) × ¬ FreeAt ds j
ScanEnds ds i count panic = ⊥

ScanEnds-suc :
    (ds : List PageFlags) (i count : ℕ) (r : Run (Option ℕ))
    → FreeAt ds i
    → ScanEnds ds (i + 1) count r
    → ScanEnds ds i (suc count) r
ScanEnds-suc ds i count (done none) f h = λ j p q. elim (dec_lt i j) [
  | yes lt ↦ h j (omega arith) (omega arith)
  | no ge ↦ let e : j ≡ i = omega arith in rw e f
]
ScanEnds-suc ds i count (done (some j)) f h = (omega arith, omega arith, h.2)
ScanEnds-suc ds i count panic f h = h

module _ (ds : List PageFlags) (i count : ℕ) (d : PageFlags) (e : get_elem? ds i ≡ some d) where
  scan-busy : is_busy d ≡ true → scan ds i (suc count) ≡ done (some i)
  unfolding scan
  scan-busy h = ground arith

  scan-idle : is_busy d ≡ false → scan ds i (suc count) ≡ scan ds (i + 1) count
  unfolding scan
  scan-idle h = ground arith

-- A `scan` inside the table ends, with the first page that is taken or because all are free.
pub scan-ScanEnds :
    (ds : List PageFlags) (i count : ℕ)
    → i + count ≤ length ds
    → ScanEnds ds i count (scan ds i count)
unfolding scan
scan-ScanEnds ds i zero h = λ j p q. absurd (omega arith)
scan-ScanEnds ds i (suc count) h =
    let (d, e) = get_elem?-lt ds i (omega arith) in
    elim (Bool-cases (is_busy d)) [
      | inl busy ↦
          rw (scan-busy ds i count d e busy)
            (omega arith, omega arith, busy-not-FreeAt ds i d e busy)
      | inr idle ↦ rw (scan-idle ds i count d e idle) (
          ScanEnds-suc ds i count _ (FreeAt-not_busy ds i d e idle)
            (scan-ScanEnds ds (i + 1) count (omega arith)))
    ]
