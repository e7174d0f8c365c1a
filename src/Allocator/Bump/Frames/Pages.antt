-- ===== src/Allocator/Bump/Frames/Pages.antt =====
-- Which pages `alloc` of the frame allocator hands out.
use native.Mathlib.Decide.{dec_lt}
use rv.Base.{ℕ, ◌+◌, ◌-◌, ◌*◌, ◌^◌, ◌≤◌, ◌<◌, ◌≡◌, ◌⊎◌, inl, inr, arith}
use rv.Base.{none, some, done}
use rv.Addr.Virt.Canonical.{add-eq}
use rv.Allocator.Bump.{Bump}
use rv.Allocator.Bump.Frames.{phys_to_virt_offset, phys_to_virt, alloc}

-- `phys_to_virt` of an address in the first 2 ^ 37 bytes of physical memory.
pub phys_to_virt-place :
    (mem_offset a : ℕ)
    → mem_offset ≤ a
    → a < mem_offset + 2 ^ 37
    → a < 2 ^ 56
    → phys_to_virt mem_offset a ≡ done (phys_to_virt_offset + (a - mem_offset))
unfolding phys_to_virt
phys_to_virt-place mem_offset a low high valid =
    ground (arith, add-eq phys_to_virt_offset (a - mem_offset) (inl (omega arith)))

-- The range of pages lies in physical memory, and `ptr` in it.
pub record IsValid (mem_offset : ℕ) (b : Bump) : Type 0 where
  pub in_memory : mem_offset ≤ b.ptr
  pub high : b.ptr ≤ b.end
  pub mapped : b.end < mem_offset + 2 ^ 37
  pub word : b.end < 2 ^ 56

-- On a valid state `alloc` returns, without a panic, for a byte count within the word. If the pages fit below the end, it hands out
-- those at `ptr` with the address at which the kernel reaches them, and the next ones begin after them;
-- if they do not fit, it returns nothing and changes nothing.
pub alloc_frames :
    (n mem_offset : ℕ) (b : Bump) (count : ℕ)
    → IsValid mem_offset b
    → count * n < 2 ^ 64
    → b.allocated + count < 2 ^ 64
    → ((b.ptr + count * n ≤ b.end)
        × (alloc n mem_offset b count
            ≡ done (
              some (record { paddr = b.ptr; ptr = phys_to_virt_offset + (b.ptr - mem_offset) }),
              record b { ptr = b.ptr + count * n; allocated = b.allocated + count },
            )))
      ⊎ ((b.end < b.ptr + count * n) × (alloc n mem_offset b count ≡ done (none, b)))
unfolding alloc
alloc_frames n mem_offset b count v h c = elim (dec_lt b.end (b.ptr + count * n)) [
  | yes big ↦ inr (big, ground (arith, v.word))
  | no room ↦ inl (
    omega arith,
    ground (
      arith,
      v.word,
      v.mapped,
      v.in_memory,
      phys_to_virt-place mem_offset b.ptr v.in_memory (omega (arith, v.mapped, v.high))
          (omega (arith, v.word, v.high)),
    ),
  )
]
