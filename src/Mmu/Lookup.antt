-- ===== src/Mmu/Lookup.antt =====
-- The parts of `PageTableWalker` that only read the tables: `get_pte_ptr` and `virt_to_phys`.
pub mod Pages
pub mod Paths
use rv.Base.{ℕ, zero, suc, ◌*◌, ◌%◌, ◌^◌, bit_or, true, false}
use rv.Base.{Option, none, some, Run, done, ◌>>=◌}
use rv.Base.Word.{usize_mod}
use rv.Addr.Phys
use rv.Addr.Phys.{PhysAddr}
use rv.Addr.Virt
use rv.Addr.Virt.{VirtAddr}
use rv.Allocator.Bump.Frames.{phys_to_virt}
use rv.Mmu.Entry.{Entry, is_valid, is_leaf, get_ppn, page_levels}
use rv.Mmu.Space.{Memory}

-- `vpn[i]`
unfoldable pub vpn : VirtAddr → ℕ → ℕ
vpn v zero = Virt.vpn0 v
vpn v (suc zero) = Virt.vpn1 v
vpn v (suc (suc i)) = Virt.vpn2 v

-- `for (lvl, vpn) in vpn.iter().enumerate().take(i) { ppn |= vpn << (lvl * 9) }`
unfoldable pub add_vpns : VirtAddr → ℕ → ℕ → ℕ
unfolding vpn
add_vpns v zero ppn = ppn
add_vpns v (suc i) ppn = bit_or (add_vpns v i ppn) (vpn v i * 2 ^ (i * 9))

-- The address that a leaf at level `i` gives.
unfoldable pub leaf_addr : VirtAddr → ℕ → Entry → Run PhysAddr
unfolding add_vpns
leaf_addr v i e = do
  page ← Phys.new (add_vpns v i (get_ppn e) * 2 ^ 12 % usize_mod)
  Phys.add page (Virt.page_offset v)

-- `phys_to_virt` of the page that an entry names.
unfoldable pub table_va : (mem_offset : ℕ) → Entry → Run ℕ
table_va mem_offset e = Phys.from_ppn (get_ppn e) >>= phys_to_virt mem_offset

-- The loop of `virt_to_phys`, from the table `t` at level `i` with `i + 1` levels left.
unfoldable pub lookup : (mem_offset : ℕ) → Memory → VirtAddr → ℕ → ℕ → Run (Option PhysAddr)
unfolding vpn leaf_addr table_va
lookup mem_offset mem v zero t = done none
lookup mem_offset mem v (suc i) t = elim (is_valid (mem t (vpn v i))) [
  | false ↦ done none
  | true ↦ elim (is_leaf (mem t (vpn v i))) [
    | true ↦ leaf_addr v i (mem t (vpn v i)) >>= λ pa. done (some pa)
    | false ↦ table_va mem_offset (mem t (vpn v i)) >>= λ t'. lookup mem_offset mem v i t'
  ]
]

unfoldable pub virt_to_phys : (mem_offset : ℕ) → Memory → ℕ → VirtAddr → Run (Option PhysAddr)
unfolding lookup
virt_to_phys mem_offset mem rpt v = lookup mem_offset mem v page_levels rpt

-- The loop of `get_pte_ptr`: the table and the index of the entry for `v`.
unfoldable pub pte_ptr : (mem_offset : ℕ) → Memory → VirtAddr → ℕ → ℕ → Run (Option (ℕ × ℕ))
unfolding vpn
pte_ptr mem_offset mem v zero t = elim (is_valid (mem t (vpn v 0))) [
  | true ↦ done (some (t, vpn v 0))
  | false ↦ done none
]
pte_ptr mem_offset mem v (suc i) t = elim (is_valid (mem t (vpn v (suc i)))) [
  | false ↦ done none
  | true ↦ elim (is_leaf (mem t (vpn v (suc i)))) [
    | true ↦ done (some (t, vpn v (suc i)))
    | false ↦ do
      pa ← Phys.new (get_ppn (mem t (vpn v (suc i))) * 2 ^ 12 % usize_mod)
      t' ← phys_to_virt mem_offset pa
      pte_ptr mem_offset mem v i t'
  ]
]

unfoldable pub get_pte_ptr : (mem_offset : ℕ) → Memory → ℕ → VirtAddr → Run (Option (ℕ × ℕ))
unfolding pte_ptr
get_pte_ptr mem_offset mem rpt v = pte_ptr mem_offset mem v 2 rpt
