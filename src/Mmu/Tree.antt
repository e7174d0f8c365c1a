-- ===== src/Mmu/Tree.antt =====
-- Well-formed page tables, over a frame allocator that hands out free pages: each table has one level, and an entry that names a table names one of the
-- level below.
use rv.Base.{ℕ, suc, ◌+◌, ◌-◌, ◌*◌, ◌^◌, ◌≤◌, ◌<◌, ◌≡◌, arith}
use rv.Base.{true, false, Option, some, done}
use rv.Addr.Phys.Fields.{from_ppn-eq}
use rv.Allocator.Bump.Frames.{phys_to_virt, phys_to_virt_offset}
use rv.Allocator.Bump.Frames.Pages.{phys_to_virt-place}
use rv.Base.{none, ◌⊎◌}
use rv.Mmu.Space.{FrameAllocator, Space}
use rv.Mmu.Entry.{Entry, is_valid, is_leaf, get_ppn}
use rv.Mmu.Lookup.{table_va}
use rv.Mmu.Space.{Memory}

module _ (mem_offset : ℕ) where
  -- The page lies in the part of physical memory that the kernel maps, and an entry can hold its number.
  pub record InMap (ppn : ℕ) : Type 0 where
    pub entry : ppn < 2 ^ 26
    pub low : mem_offset ≤ ppn * 2 ^ 12
    pub high : ppn * 2 ^ 12 < mem_offset + 2 ^ 37

  -- Where the kernel reaches it.
  abbrev pub va_of : ℕ → ℕ
  va_of ppn = phys_to_virt_offset + (ppn * 2 ^ 12 - mem_offset)

  pub phys_to_virt-eq :
      (ppn : ℕ) → InMap ppn → phys_to_virt mem_offset (ppn * 2 ^ 12) ≡ done (va_of ppn)
  phys_to_virt-eq ppn m =
      phys_to_virt-place mem_offset (ppn * 2 ^ 12) m.low m.high (omega (arith, m.entry))

  pub table_va-eq :
      (e : Entry) → InMap (get_ppn e) → table_va mem_offset e ≡ done (va_of (get_ppn e))
  unfolding table_va
  table_va-eq e m =
      rw (from_ppn-eq (get_ppn e) (omega (arith, m.entry))) (phys_to_virt-eq (get_ppn e) m)

  -- `role t` is the level of the table at `t`, if there is a table.
  pub record IsTree (role : ℕ → Option ℕ) (mem : Memory) : Type 0 where
    pub word : (t i : ℕ) → mem t i < 2 ^ 64
    pub child_in_map :
        (t k i : ℕ)
        → role t ≡ some (suc k)
        → is_valid (mem t i) ≡ true
        → is_leaf (mem t i) ≡ false
        → InMap (get_ppn (mem t i))
    pub child_role :
        (t k i : ℕ)
        → role t ≡ some (suc k)
        → is_valid (mem t i) ≡ true
        → is_leaf (mem t i) ≡ false
        → role (va_of (get_ppn (mem t i))) ≡ some k

-- What the page tables need of a frame allocator: on a valid state, a request for one page returns, and
-- the page that it hands out was free, is not free any more, and lies where the kernel reaches it.
pub record IsFrameAllocator (fa : FrameAllocator) (mem_offset : ℕ) : Type 1 where
  pub Valid : fa.State → Type 0
  pub Free : fa.State → ℕ → Type 0
  pub one :
      (s : fa.State)
      → Valid s
      → ((s' : fa.State) × (fa.alloc s 1 ≡ done (none, s'))
          × Valid s'
          × ((t : ℕ) → Free s' t → Free s t))
        ⊎ ((ppn : ℕ) × (s' : fa.State) × (fa.alloc s 1
              ≡ done (some (record { paddr = ppn * 2 ^ 12; ptr = va_of mem_offset ppn }), s'))
            × InMap mem_offset ppn
            × Free s (va_of mem_offset ppn)
            × (¬ Free s' (va_of mem_offset ppn))
            × Valid s'
            × ((t : ℕ) → Free s' t → Free s t))

-- No page of a table is free.
pub record IsSpace {fa : FrameAllocator} {mem_offset : ℕ} (laws : IsFrameAllocator fa mem_offset)
    (role : ℕ → Option ℕ) (sp : Space fa.State) : Type 0 where
  pub tree : IsTree mem_offset role sp.mem
  pub valid : laws.Valid sp.frames
  pub used : (t k : ℕ) → role t ≡ some k → ¬ laws.Free sp.frames t
