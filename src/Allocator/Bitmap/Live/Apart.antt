-- ===== src/Allocator/Bitmap/Live/Apart.antt =====
-- Allocations that share no page.
use native.Mathlib.Decide.{dec_lt}
use rv.Base.{ℕ, ◌+◌, ◌-◌, ◌≤◌, ◌<◌, ◌≡◌, ◌⊎◌, inl, inr, ◌∙◌, arith, List, [], ◌∷◌, get_elem?, ap}
use rv.Base.{Remove, here, there}
use rv.Allocator.Bitmap.{PageFlags}
use rv.Allocator.Bitmap.Scan.{FreeAt, RangeFree}
use rv.Allocator.Bitmap.Pages.{IsChunk, SameOutside}
use rv.Allocator.Bitmap.Live.{Chunk}

abbrev pub Apart : ℕ → ℕ → ℕ → ℕ → Type 0
Apart i count i' count' = (i + count ≤ i') ⊎ (i' + count' ≤ i)

pub IsChunk-busy :
    (ds : List PageFlags) (i count j : ℕ)
    → IsChunk ds i count
    → i ≤ j
    → j < i + count
    → ¬ FreeAt ds j
IsChunk-busy ds i count j c p q f = elim (dec_lt (j + 1) (i + count)) [
  | yes lt ↦ cc (c.inner j p lt, f)
  | no ge ↦ let e : j ≡ i + count - 1 = omega arith in cc (c.final, ap (get_elem? ds) e, f)
]

-- A range of free pages is apart from every allocation.
pub RangeFree-Apart :
    (ds : List PageFlags) (i count i' count' : ℕ)
    → RangeFree ds i count
    → 0 < count
    → IsChunk ds i' count'
    → Apart i count i' count'
RangeFree-Apart ds i count i' count' f pos c = elim (dec_lt i' (i + count)) [
  | no ge ↦ inl (omega arith)
  | yes lt ↦ elim (dec_lt i (i' + count')) [
    | no ge ↦ inr (omega arith)
    | yes lt' ↦ elim (dec_lt i i') [
      | yes before ↦ absurd (
          IsChunk-busy ds i' count' i' c (omega arith) (omega (arith, c.some_page))
            (f i' (omega arith) lt))
      | no after ↦
          absurd (IsChunk-busy ds i' count' i c (omega arith) lt' (f i (omega arith) (omega arith)))
    ]
  ]
]

pub SameOutside-at :
    (ds ds' : List PageFlags) (i count j : ℕ)
    → SameOutside ds ds' i count
    → (j < i) ⊎ (i + count ≤ j)
    → get_elem? ds' j ≡ get_elem? ds j
SameOutside-at ds ds' i count j s (inl h) = s.below j h
SameOutside-at ds ds' i count j s (inr h) = s.above j h

-- What is written in one range leaves an allocation apart from it as it was.
pub IsChunk-Apart :
    (ds ds' : List PageFlags) (i count i' count' : ℕ)
    → SameOutside ds ds' i count
    → Apart i count i' count'
    → IsChunk ds i' count'
    → IsChunk ds' i' count'
IsChunk-Apart ds ds' i count i' count' s a c = record {
  some_page = c.some_page;
  inner = λ j p q. at j p (omega arith) ∙ c.inner j p q;
  final = at (i' + count' - 1) (omega (arith, c.some_page)) (omega (arith, c.some_page)) ∙ c.final;
}
  where
    at : (j : ℕ) → i' ≤ j → j < i' + count' → get_elem? ds' j ≡ get_elem? ds j
    at j p q = SameOutside-at ds ds' i count j s (side a)
      where
        side : Apart i count i' count' → (j < i) ⊎ (i + count ≤ j)
        side (inl h) = inr (omega arith)
        side (inr h) = inl (omega arith)

-- `c` is apart from all of the list.
abbrev pub AllApart : Chunk → List Chunk → Type 0
AllApart c [] = Unit
AllApart c (d ∷ l) = Apart c.first c.pages d.first d.pages × AllApart c l

Apart-sym : (i count i' count' : ℕ) → Apart i count i' count' → Apart i' count' i count
Apart-sym i count i' count' (inl h) = inr h
Apart-sym i count i' count' (inr h) = inl h

-- What is apart from all of a list is apart from what is taken out of it and from the rest.
pub AllApart-Remove :
    (c d : Chunk) {l rest : List Chunk}
    → Remove d l rest
    → AllApart c l
    → Apart d.first d.pages c.first c.pages × AllApart c rest
AllApart-Remove c d here a = (Apart-sym c.first c.pages d.first d.pages a.0, a.1)
AllApart-Remove c d (there {b = e} r) a =
    let (one, others) = AllApart-Remove c d r a.1 in (one, (a.0, others))
