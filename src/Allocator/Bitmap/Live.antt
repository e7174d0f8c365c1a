-- ===== src/Allocator/Bitmap/Live.antt =====
-- A client of the bitmap allocator: a run of calls of `alloc` and `free`, with the allocations that are
-- live after it.
pub mod Apart
pub mod Invariant
pub mod Runs
use rv.Base.{ℕ, ◌<◌, ◌≡◌, Option, none, some, List, [], ◌∷◌, done, Remove}
use rv.Allocator.{Frame}
use rv.Allocator.Bitmap.{Bitmap, alloc, free}
use rv.Allocator.Bitmap.Alloc.{frame_at}

-- An allocation of `pages` pages from page `first` on.
pub record Chunk : Type 0 where
  pub first : ℕ
  pub pages : ℕ

pub record Client : Type 0 where
  pub bitmap : Bitmap
  pub live : List Chunk

-- One call. A client frees only a frame that it was given, and asks for at least one page.
pub data Step (n : ℕ) : Client → Client → Type 0 where
  allocates :
      (c : Client) (count i : ℕ) (b : Bitmap)
      → 0 < count
      → alloc n c.bitmap count ≡ done (some (frame_at n c.bitmap i), b)
      → Step n c (record { bitmap = b; live = record { first = i; pages = count } ∷ c.live })
  is_refused :
      (c : Client) (count : ℕ) (b : Bitmap)
      → 0 < count
      → alloc n c.bitmap count ≡ done (none, b)
      → Step n c (record { bitmap = b; live = c.live })
  frees :
      (c : Client) (d : Chunk) (rest : List Chunk) (b : Bitmap)
      → Remove d c.live rest
      → free n c.bitmap (frame_at n c.bitmap d.first) ≡ done b
      → Step n c (record { bitmap = b; live = rest })

pub data Reach (n : ℕ) (c : Client) : Client → Type 0 where
  start : Reach n c c
  next : {d e : Client} → Reach n c d → Step n d e → Reach n c e
