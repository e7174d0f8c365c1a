-- ===== src/Allocator/Bitmap/Live/Invariant.antt =====
-- The invariant of a client: live allocations are whole and share no page, and every other page is
-- free.
use rv.Base.{ℕ, ◌+◌, ◌≤◌, ◌<◌, ◌⊎◌, inl, inr, arith}
use rv.Base.{List, [], ◌∷◌, length}
use rv.Base.{Remove, here, there}
use rv.Allocator.Bitmap.{PageFlags}
use rv.Allocator.Bitmap.Scan.{FreeAt, RangeFree}
use rv.Allocator.Bitmap.Pages.{IsChunk, SameOutside}
use rv.Allocator.Bitmap.Alloc.{IsValid}
use rv.Allocator.Bitmap.Live.{Chunk, Client}
use rv.Allocator.Bitmap.Live.Apart.{AllApart, AllApart-Remove, RangeFree-Apart, IsChunk-Apart}

-- Each member is an allocation inside the table, apart from all that follow it.
abbrev pub AllOwned : List PageFlags → List Chunk → Type 0
AllOwned ds [] = Unit
AllOwned ds (c ∷ l) =
    IsChunk ds c.first c.pages × (c.first + c.pages ≤ length ds) × AllApart c l × AllOwned ds l

-- Page `j` belongs to a member.
abbrev pub InSome : List Chunk → ℕ → Type 0
InSome [] j = ⊥
InSome (c ∷ l) j = ((c.first ≤ j) × (j < c.first + c.pages)) ⊎ InSome l j

pub record IsTracked (n : ℕ) (c : Client) : Type 0 where
  pub valid : IsValid n c.bitmap
  pub owned : AllOwned c.bitmap.descriptors c.live
  pub others_free :
      (j : ℕ) → j < length c.bitmap.descriptors → FreeAt c.bitmap.descriptors j ⊎ InSome c.live j

module _ (ds ds' : List PageFlags) (c : Chunk) (s : SameOutside ds ds' c.first c.pages) where
  pub AllOwned-Apart : (l : List Chunk) → AllApart c l → AllOwned ds l → AllOwned ds' l
  AllOwned-Apart [] a o = tt
  AllOwned-Apart (d ∷ l) a o = (
    IsChunk-Apart ds ds' c.first c.pages d.first d.pages s a.0 o.0,
    omega (arith, s.same_length, o.1),
    o.2,
    AllOwned-Apart l a.1 o.3,
  )

pub AllApart-free :
    (ds : List PageFlags) (c : Chunk)
    → RangeFree ds c.first c.pages
    → 0 < c.pages
    → (l : List Chunk) → AllOwned ds l
    → AllApart c l
AllApart-free ds c f pos [] o = tt
AllApart-free ds c f pos (d ∷ l) o =
    (RangeFree-Apart ds c.first c.pages d.first d.pages f pos o.0, AllApart-free ds c f pos l o.3)

-- An allocation that is taken out of the list, and what is left.
pub AllOwned-Remove :
    (ds : List PageFlags) (c : Chunk) {l rest : List Chunk}
    → Remove c l rest
    → AllOwned ds l
    → IsChunk ds c.first c.pages
      × (c.first + c.pages ≤ length ds)
      × AllApart c rest
      × AllOwned ds rest
AllOwned-Remove ds c here o = o
AllOwned-Remove ds c (there {b = d} r) o =
    let (chunk, inside, apart, owned) = AllOwned-Remove ds c r o.3 in
    let (one, others) = AllApart-Remove d c r o.2 in
    (chunk, inside, (one, apart), (o.0, o.1, others, owned))

pub InSome-Remove :
    (c : Chunk) {l rest : List Chunk} (j : ℕ)
    → Remove c l rest
    → InSome l j
    → ((c.first ≤ j) × (j < c.first + c.pages)) ⊎ InSome rest j
InSome-Remove c j here m = m
InSome-Remove c j (there r) (inl m) = inr (inl m)
InSome-Remove c j (there {b = d} {rest} r) (inr m) = skip (InSome-Remove c j r m)
  where
    skip :
        ((c.first ≤ j) × (j < c.first + c.pages)) ⊎ InSome rest j
        → ((c.first ≤ j) × (j < c.first + c.pages)) ⊎ InSome (d ∷ rest) j
    skip (inl h) = inl h
    skip (inr h) = inr (inr h)
