-- ===== src/Mmu/BumpFrames.antt =====
-- `BumpFrameAllocator<PAGE_SIZE>` as the allocator behind the page tables.
use rv.Base.{ℕ, ◌+◌, ◌-◌, ◌*◌, ◌/◌, ◌%◌, ◌^◌, ◌≤◌, ◌<◌, ◌≡◌, inl, inr, ap, ◌∙◌, arith}
use rv.Base.{some, done}
use rv.Allocator.{Frame}
use rv.Allocator.Bump.{Bump}
use rv.Allocator.Bump.Frames
use rv.Allocator.Bump.Frames.{phys_to_virt_offset}
use rv.Allocator.Bump.Frames.Pages.{IsValid, alloc_frames}
use rv.Mmu.Entry.{page_size}
use rv.Mmu.Space.{FrameAllocator}
use rv.Mmu.Tree.{IsFrameAllocator}

-- `impl FrameAllocator<N> for BumpFrameAllocator<N>`
abbrev pub bump_frames : (mem_offset : ℕ) → FrameAllocator
bump_frames mem_offset = record { State = Bump; alloc = Frames.alloc page_size mem_offset }

-- Page-aligned, below 2 ^ 38, and with no more pages counted than are gone.
pub record IsPaged (mem_offset : ℕ) (b : Bump) : Type 0 where
  pub valid : IsValid mem_offset b
  pub aligned : b.ptr % 2 ^ 12 ≡ 0
  pub entry : b.end < 2 ^ 38
  pub counted : b.start + b.allocated * 2 ^ 12 ≤ b.ptr

-- The pages from `ptr` on have not been handed out.
abbrev pub IsAhead : (mem_offset : ℕ) → Bump → ℕ → Type 0
IsAhead mem_offset b t = phys_to_virt_offset + (b.ptr - mem_offset) ≤ t

-- The state after one page.
pub taken : Bump → Bump
taken b = record b { ptr = b.ptr + 1 * page_size; allocated = b.allocated + 1 }

-- The frame at an address.
pub frame_at : ℕ → ℕ → Frame
frame_at mem_offset ptr = record { paddr = ptr; ptr = phys_to_virt_offset + (ptr - mem_offset) }

pub frame_at-page :
    (mem_offset ptr : ℕ)
    → ptr % 2 ^ 12 ≡ 0
    → frame_at mem_offset ptr ≡ frame_at mem_offset (ptr / 2 ^ 12 * 2 ^ 12)
frame_at-page mem_offset ptr h =
    ap (frame_at mem_offset) {x = ptr} {y = ptr / 2 ^ 12 * 2 ^ 12} (omega arith)

-- The bump allocator of frames is an allocator that the page tables can use.
unfoldable pub bump_frames_laws :
    (mem_offset : ℕ) → IsFrameAllocator (bump_frames mem_offset) mem_offset
unfolding frame_at taken
bump_frames_laws mem_offset = record {
  Valid = IsPaged mem_offset;
  Free = IsAhead mem_offset;
  one = λ b p.
      elim (alloc_frames page_size mem_offset b 1 p.valid (omega arith)
        (omega (arith, p.counted, p.valid.high, p.entry))) [
          | inr (full, e) ↦ inl (b, e, p, λ t f. f)
          | inl (room, e) ↦ inr (
            b.ptr / 2 ^ 12,
            taken b,
            e ∙ ap (λ frame. done (some frame, taken b)) (frame_at-page mem_offset b.ptr p.aligned),
            omega (arith, p.valid.mapped, p.valid.in_memory, p.aligned, p.entry),
            omega (arith, p.aligned),
            λ f. omega (arith, p.aligned, f, p.valid.in_memory),
            omega (
              arith, p.valid.mapped, p.valid.in_memory, p.valid.word, p.aligned, p.entry, p.counted,
            ),
            λ t f. omega (arith, f, p.valid.in_memory),
          )
        ];
}

-- On a page-aligned region within the first 2 ^ 37 bytes of physical memory and below 2 ^ 38, `new`
-- returns, without a panic, an allocator that keeps the laws that the page tables need, in a valid state.
pub new_frames-IsFrameAllocator :
    (mem_offset start end : ℕ)
    → mem_offset ≤ start
    → start ≤ end
    → start % 2 ^ 12 ≡ 0
    → end < mem_offset + 2 ^ 37
    → end < 2 ^ 38
    → (b : Bump) × (Frames.new start end ≡ done b)
      × ((laws : IsFrameAllocator (bump_frames mem_offset) mem_offset) × laws.Valid b)
unfolding Frames.new bump_frames_laws
new_frames-IsFrameAllocator mem_offset start end low le aligned mapped entry = (
  record { start = start; end = end; ptr = start; allocated = 0 },
  ground arith,
  (bump_frames_laws mem_offset, omega arith),
)
