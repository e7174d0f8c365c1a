-- ===== src/Allocator/Bitmap/Find.antt =====
-- `find`, the search of `alloc`: it ends, and with the first page where the allocation fits.
use native.Mathlib.Decide.{dec_lt}
use rv.Base.{ℕ, zero, suc, ◌+◌, ◌-◌, ◌≤◌, ◌<◌, ◌≡◌, inl, inr, refl, arith, true, false}
use rv.Base.{
  Option, none, some, List, Run, done, panic, length, get_elem?, get_elem?-lt, get_elem?-ge,
  Bool-cases,
}
use rv.Allocator.Bitmap.Scan.{
  FreeAt, Fits, FreeAt-not_busy, busy-not-FreeAt, ScanEnds, scan-ScanEnds,
}
use rv.Allocator.Bitmap.{PageFlags, is_busy, scan, find}

-- What `find` may return from page `i` on: the first page where the allocation fits, or none if there
-- is no such page.
abbrev pub FindEnds : List PageFlags → ℕ → ℕ → Run (Option ℕ) → Type 0
FindEnds ds count i (done none) = (s : ℕ) → i ≤ s → ¬ Fits ds count s
FindEnds ds count i (done (some k)) =
    (i ≤ k) × Fits ds count k × ((s : ℕ) → i ≤ s → s < k → ¬ Fits ds count s)
FindEnds ds count i panic = ⊥

-- Pages below `i'` where nothing fits can be left out of the search.
FindEnds-skip :
    (ds : List PageFlags) (count i i' : ℕ) (r : Run (Option ℕ))
    → i ≤ i'
    → ((s : ℕ) → i ≤ s → s < i' → ¬ Fits ds count s)
    → FindEnds ds count i' r
    → FindEnds ds count i r
FindEnds-skip ds count i i' (done none) le skip h =
    λ s p. elim (dec_lt s i') [ yes lt ↦ skip s p lt | no ge ↦ h s (omega arith) ]
FindEnds-skip ds count i i' (done (some k)) le skip h = (
  omega arith,
  h.1,
  λ s p q. elim (dec_lt s i') [ yes lt ↦ skip s p lt | no ge ↦ h.2 s (omega arith) q ],
)
FindEnds-skip ds count i i' panic le skip h = h

module _ (fuel : ℕ) (ds : List PageFlags) (pages count i : ℕ) where
  find-end : pages ≤ i → find (suc fuel) ds pages count i ≡ done none
  unfolding find
  find-end h = ground arith

  module _ (lt : i < pages) (d : PageFlags) (e : get_elem? ds i ≡ some d) where
    find-busy :
        is_busy d ≡ true → find (suc fuel) ds pages count i ≡ find fuel ds pages count (i + 1)
    unfolding find
    find-busy h = ground arith

    module _ (h : is_busy d ≡ false) where
      find-short : pages - i < count → find (suc fuel) ds pages count i ≡ done none
      unfolding find
      find-short l = ground arith

      find-taken :
          count ≤ pages - i
          → (j : ℕ) → scan ds i count ≡ done (some j)
          → find (suc fuel) ds pages count i ≡ find fuel ds pages count j
      unfolding find
      find-taken l j s = ground arith

      find-found :
          count ≤ pages - i
          → scan ds i count ≡ done none
          → find (suc fuel) ds pages count i ≡ done (some i)
      unfolding find
      find-found l s = ground arith

pub FreeAt-lt : (ds : List PageFlags) (j : ℕ) → FreeAt ds j → j < length ds
FreeAt-lt ds j f = elim (dec_lt j (length ds)) [
  | yes lt ↦ lt
  | no ge ↦ ground (arith, get_elem?-ge ds j (omega arith))
]

-- One round of the search, from what the rest of the search does.
module _ (fuel : ℕ) (ds : List PageFlags) (count i : ℕ)
    (rest : (j : ℕ)
      → i < j
      → j ≤ length ds
      → FindEnds ds count j (find fuel ds (length ds) count j))
    (lt : i < length ds) (d : PageFlags) (e : get_elem? ds i ≡ some d) where
  find_round-busy : is_busy d ≡ true → FindEnds ds count i (find (suc fuel) ds (length ds) count i)
  find_round-busy busy = rw (find-busy fuel ds (length ds) count i lt d e busy) (
      FindEnds-skip ds count i (i + 1) _ (omega arith)
        (λ s q q' f.
          let same : s ≡ i = omega arith in busy-not-FreeAt ds i d e busy (rw same at f.starts))
        (rest (i + 1) (omega arith) (omega arith)))

  module _ (idle : is_busy d ≡ false) (room : count ≤ length ds - i) where
    later : (j : ℕ) → i ≤ j → ¬ FreeAt ds j → i < j
    later j le taken = elim (dec_lt i j) [
      | yes more ↦ more
      | no ge ↦
          let same : j ≡ i = omega arith in absurd (taken (rw same (FreeAt-not_busy ds i d e idle)))
    ]

    find_round-scan :
        (r : Run (Option ℕ))
        → scan ds i count ≡ r
        → ScanEnds ds i count r
        → FindEnds ds count i (find (suc fuel) ds (length ds) count i)
    find_round-scan (done none) eq ends =
        rw (find-found fuel ds (length ds) count i lt d e idle room eq) (
          omega arith,
          record {
            starts = FreeAt-not_busy ds i d e idle;
            inside = omega arith;
            free_pages = ends;
          },
          λ s q q'. absurd (omega arith),
        )
    find_round-scan (done (some j)) eq ends =
        rw (find-taken fuel ds (length ds) count i lt d e idle room j eq) (
          FindEnds-skip ds count i j _ ends.0
            (λ s q q' f. ends.2 (f.free_pages j (omega arith) (omega arith)))
            (rest j (later j ends.0 ends.2) (omega arith)))
    find_round-scan panic eq ends = absurd ends

  find_round-idle : is_busy d ≡ false → FindEnds ds count i (find (suc fuel) ds (length ds) count i)
  find_round-idle idle = elim (dec_lt (length ds - i) count) [
    | yes short ↦
        rw (find-short fuel ds (length ds) count i lt d e idle short)
          (λ s q f. omega (arith, f.inside))
    | no room ↦
        find_round-scan idle (omega arith) (scan ds i count) refl
          (scan-ScanEnds ds i count (omega arith))
  ]

  find_round : FindEnds ds count i (find (suc fuel) ds (length ds) count i)
  find_round = elim (Bool-cases (is_busy d)) [
    | inl busy ↦ find_round-busy busy
    | inr idle ↦ find_round-idle idle
  ]

-- With more fuel than pages left the search ends, and with the first fit.
pub find-FindEnds :
    (fuel : ℕ) (ds : List PageFlags) (count i : ℕ)
    → length ds < fuel + i
    → 0 < fuel
    → FindEnds ds count i (find fuel ds (length ds) count i)
find-FindEnds zero ds count i h p = elim p [ ]
find-FindEnds (suc fuel) ds count i h p = elim (dec_lt i (length ds)) [
  | no ge ↦
      rw (find-end fuel ds (length ds) count i (omega arith))
        (λ s q f. omega (arith, FreeAt-lt ds s f.starts))
  | yes lt ↦
      let (d, e) = get_elem?-lt ds i lt in
      find_round fuel ds count i
        (λ j q l. find-FindEnds fuel ds count j (omega arith) (omega arith)) lt d e
]
