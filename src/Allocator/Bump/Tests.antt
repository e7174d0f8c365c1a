-- ===== src/Allocator/Bump/Tests.antt =====
-- The bump allocators on small windows.
use rv.Base.{ℕ, ◌+◌, ◌-◌, ◌*◌, ◌≤◌, ◌<◌, ◌≡◌, ◌⊎◌, refl, arith, true}
use rv.Base.{[], ◌∷◌, none, some, done, here}
use rv.Base.Word.{is_power_of_two, is_power_of_two-pow}
use rv.Allocator.{null}
use rv.Allocator.Bump.{Bump, Layout, alloc, dealloc}
use rv.Allocator.Bump.Blocks.{IsValid, Fits, IsTaken, alloc_block}
use rv.Allocator.Bump.Client.{
  Block, Client, Reach, begin, next, allocates, frees, IsTracked, client-IsTracked,
}
use rv.Allocator.Bump.Frames
use rv.Allocator.Bump.Frames.Pages
use rv.Allocator.Bump.Frames.Pages.{alloc_frames}

abbrev heap : Bump
heap = record { start = 0x1000; end = 0x2000; ptr = 0x2000; allocated = 0 }

abbrev two_words : Layout
two_words = record { size = 20; align = 16 }

abbrev used_heap : Bump
used_heap = record { start = 0x1000; end = 0x2000; ptr = 0x1fe0; allocated = 1 }

abbrev held_block : Block
held_block = record { addr = 0x1fe0; size = 20 }

heap-IsValid : IsValid heap
heap-IsValid = omega arith

align_16 : is_power_of_two 16 ≡ true
align_16 = is_power_of_two-pow 4 (omega arith)

alloc_two_words : alloc heap two_words ≡ done (0x1fe0, used_heap)
unfolding alloc
alloc_two_words = refl

alloc_block_example :
    IsTaken heap two_words (alloc heap two_words)
    ⊎ ((alloc heap two_words ≡ done (null, heap)) × ((p : ℕ) → ¬ Fits heap two_words p))
alloc_block_example = alloc_block heap two_words heap-IsValid align_16 (omega arith)

abbrev idle : Client
idle = record { bump = heap; live = [] }

idle-IsTracked : IsTracked idle
idle-IsTracked = record { valid = heap-IsValid; held = tt; counted = refl }

-- One block is taken and given back.
one_block : Reach idle idle
unfolding alloc dealloc
one_block =
    next
      (next begin
        (allocates idle two_words 0x1fe0 used_heap align_16 (omega arith) (omega arith) refl))
      (frees (record { bump = used_heap; live = held_block ∷ [] }) held_block [] heap here refl)

client-IsTracked_example : IsTracked idle
client-IsTracked_example = client-IsTracked idle-IsTracked one_block

abbrev pages : Bump
pages = record { start = 0x8000_0000; end = 0x8000_4000; ptr = 0x8000_1000; allocated = 1 }

pages-IsValid : Pages.IsValid 0x8000_0000 pages
pages-IsValid = omega arith

alloc_frames_example :
    ((0x8000_1000 + 2 * 4096 ≤ 0x8000_4000)
      × (Frames.alloc 4096 0x8000_0000 pages 2
          ≡ done (
            some (record {
              paddr = 0x8000_1000;
              ptr = Frames.phys_to_virt_offset + (0x8000_1000 - 0x8000_0000);
            }),
            record pages { ptr = 0x8000_1000 + 2 * 4096; allocated = 1 + 2 },
          )))
    ⊎ ((0x8000_4000 < 0x8000_1000 + 2 * 4096)
        × (Frames.alloc 4096 0x8000_0000 pages 2 ≡ done (none, pages)))
alloc_frames_example =
    alloc_frames 4096 0x8000_0000 pages 2 pages-IsValid (omega arith) (omega arith)
