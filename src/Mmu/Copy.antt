-- ===== src/Mmu/Copy.antt =====
-- `copy_kernel_mappings` of kernel/src/arch/riscv/mmu.rs. The kernel's tables are read from the memory that the
-- new tables are written to.
use rv.Base.{
  ℕ, zero, suc, ◌+◌, ◌-◌, ◌*◌, ◌%◌, ◌^◌, ◌≡◌, refl, ◌∙◌, Bool, false, not, ◌&&◌, done, ok, unwrap,
  if◌then◌else◌,
}
use rv.Base.Word.{usize_mod}
use rv.Addr.Phys
use rv.Addr.Virt
use rv.Addr.Virt.{VirtAddr}
use rv.Mmu.Entry.{
  Entry, is_valid, is_user, is_leaf, flags, get_ppn, from_table_level, page_levels, page_shift,
}
use rv.Mmu.Lookup.{table_va}
use rv.Mmu.Space.{
  FrameAllocator, Space, M, ◌>>=◌, ◌>>◌, pure, throw, lift, read, corrupted_page_table,
}
use rv.Mmu.Walker.{map}

-- `e.is_valid() && !e.is_user()`
abbrev pub is_kernel : Entry → Bool
is_kernel e = is_valid e && not (is_user e)

module _ (fa : FrameAllocator) (mem_offset rpt : ℕ) where
  open fa use {State}

  -- The body of the loop, for entry `i`; `inner` copies the table that a non-leaf entry names.
  unfoldable pub copy_entry :
      (level : ℕ)
      → (inner : Entry → VirtAddr → M State (Unit {0})) → VirtAddr
      → ℕ
      → Entry
      → M State (Unit {0})
  copy_entry level inner base i e = do
    vaddr ← lift (Virt.add base (i * 2 ^ (9 * level + page_shift) % usize_mod))
    if is_leaf e
        then (do
          sz ← lift (unwrap (from_table_level level))
          paddr ← lift (Phys.from_ppn (get_ppn e))
          map fa mem_offset rpt vaddr paddr sz (flags e))
        else inner e vaddr

  -- The loop over the entries, with `n` of them left.
  unfoldable pub copy_entries :
      (level : ℕ)
      → (inner : Entry → VirtAddr → M State (Unit {0})) → ℕ
      → VirtAddr
      → (n i : ℕ) → M State (Unit {0})
  copy_entries level inner table base zero i = pure tt
  copy_entries level inner table base (suc n) i = do
    e ← read table i
    if is_kernel e then copy_entry level inner base i e else pure tt
    copy_entries level inner table base n (i + 1)

  -- `_copy_kernel_mappings_recursive`, by recursion on the level.
  unfoldable pub copy_table : (level : ℕ) → ℕ → VirtAddr → M State (Unit {0})
  copy_table zero table base =
      copy_entries zero (λ e v. throw corrupted_page_table) table base 512 0
  copy_table (suc level) table base =
      copy_entries (suc level) (λ e v. lift (table_va mem_offset e) >>= λ t. copy_table level t v)
        table base 512 0

  unfoldable pub copy_kernel_mappings : ℕ → M State (Unit {0})
  unfolding copy_table
  copy_kernel_mappings kernel_pt = copy_table (page_levels - 1) kernel_pt (Virt.new_truncated 0)

  copy_entries-step :
      (level : ℕ) (inner : Entry → VirtAddr → M State (Unit {0})) (table base n i : ℕ)
      (s : Space State)
      → is_kernel (s.mem table i) ≡ false
      → copy_entries level inner table base (suc n) i s
        ≡ copy_entries level inner table base n (i + 1) s
  unfolding copy_entries
  copy_entries-step level inner table base n i s user = rw user refl

  copy_entries-user :
      (level : ℕ) (inner : Entry → VirtAddr → M State (Unit {0})) (table base n i : ℕ)
      (s : Space State)
      → ((k : ℕ) → is_kernel (s.mem table k) ≡ false)
      → copy_entries level inner table base n i s ≡ done (ok tt, s)
  unfolding copy_entries
  copy_entries-user level inner table base zero i s user = refl
  copy_entries-user level inner table base (suc n) i s user =
      copy_entries-step level inner table base n i s (user i)
      ∙ copy_entries-user level inner table base n (i + 1) s user

  -- From a root table with no kernel entry nothing is copied: user mappings are ignored.
  pub copy_kernel_mappings_user :
      (kernel_pt : ℕ) (s : Space State)
      → ((k : ℕ) → is_kernel (s.mem kernel_pt k) ≡ false)
      → copy_kernel_mappings kernel_pt s ≡ done (ok tt, s)
  unfolding copy_kernel_mappings copy_table
  copy_kernel_mappings_user kernel_pt s user = copy_entries-user 2 _ kernel_pt _ 512 0 s user
