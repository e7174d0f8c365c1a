-- ===== src/Load/Pages.antt =====
-- The pages of a segment, in `load_elf_into` of kernel/src/proc/elf/mod.rs.
use native.Mathlib.Nat.{div-mul-le_self, div-lt_iff_lt-mul, mul-mod_left}
use rv.Base.{
  ℕ, ◌+◌, ◌-◌, ◌*◌, ◌/◌, ◌^◌, ◌≤◌, ◌<◌, ◌≡◌, ◌⊎◌, arith, inl, inr, true, Run, done, ◌>>=◌,
}
use rv.Base.Word.{is_power_of_two}
use rv.Addr.Align.Bounds.{floor-IsFloor, ceil-IsCeil}
use rv.Addr.Align.Round.{floor, ceil, align_down-eq, align_up-eq, one-le-align}
use rv.Addr.Virt
use rv.Addr.Virt.{VirtAddr}
use rv.Addr.Virt.Canonical.{new-eq, add-eq}
use rv.Load.{LoadSegment}

-- `map_start` and `map_end`
unfoldable pub map_bounds : ℕ → LoadSegment → Run (VirtAddr × VirtAddr)
map_bounds page seg = do
  start ← Virt.align_down seg.vaddr page
  end ← Virt.add seg.vaddr seg.mem_size
  stop ← Virt.align_up end page
  done (start, stop)

-- For a segment in the lower half, a page below its end, the pages cover the segment.
pub map_bounds-covers :
    (page : ℕ) (seg : LoadSegment) {start stop : ℕ}
    → is_power_of_two page ≡ true
    → seg.vaddr + seg.mem_size + page ≤ 2 ^ 38
    → map_bounds page seg ≡ done (start, stop)
    → (start ≤ seg.vaddr) × (seg.vaddr + seg.mem_size ≤ stop) × (stop < 2 ^ 38)
unfolding map_bounds Virt.align_down Virt.align_up
map_bounds-covers page seg pow room e =
    let v = seg.vaddr in
    let t = seg.vaddr + seg.mem_size in
    let one = one-le-align page v pow in
    let low = (floor-IsFloor page v one).below in
    let high = (ceil-IsCeil page t one).above in
    let most = div-mul-le_self (t + page - 1) page in
    let e1 = align_down-eq page v pow (omega arith) in
    let e2 = align_up-eq page t pow (omega arith) in
    let n1 = new-eq (floor v page) (inl (omega arith)) in
    let n2 = new-eq (ceil t page) (inl (omega arith)) in
    let a = add-eq v seg.mem_size (inl (omega arith)) in
    ground (arith, e1, e2, n1, n2, a, e, low, high, most)

-- For such a segment, the pages are those from the page of its first address to that of its last: their
-- bounds are the address rounded down and the end rounded up.
map_bounds-eq :
    (page : ℕ) (seg : LoadSegment) {start stop : ℕ}
    → is_power_of_two page ≡ true
    → seg.vaddr + seg.mem_size + page ≤ 2 ^ 38
    → map_bounds page seg ≡ done (start, stop)
    → (start ≡ floor seg.vaddr page) × (stop ≡ ceil (seg.vaddr + seg.mem_size) page)
unfolding map_bounds Virt.align_down Virt.align_up
map_bounds-eq page seg pow room e =
    let v = seg.vaddr in
    let t = seg.vaddr + seg.mem_size in
    let one = one-le-align page v pow in
    let low = (floor-IsFloor page v one).below in
    let most = div-mul-le_self (t + page - 1) page in
    let e1 = align_down-eq page v pow (omega arith) in
    let e2 = align_up-eq page t pow (omega arith) in
    let n1 = new-eq (floor v page) (inl (omega arith)) in
    let n2 = new-eq (ceil t page) (inl (omega arith)) in
    let a = add-eq v seg.mem_size (inl (omega arith)) in
    (ground (arith, e1, e2, n1, n2, a, e), ground (arith, e1, e2, n1, n2, a, e))

-- An address whose page lies below that of the first address of such a segment, or starts at its end or
-- later, lies outside the pages.
pub map_bounds-outside :
    (page : ℕ) (seg : LoadSegment) (x : ℕ) {start stop : ℕ}
    → is_power_of_two page ≡ true
    → seg.vaddr + seg.mem_size + page ≤ 2 ^ 38
    → map_bounds page seg ≡ done (start, stop)
    → (x / page < seg.vaddr / page) ⊎ (seg.vaddr + seg.mem_size ≤ x / page * page)
    → (x < start) ⊎ (start + (stop - start) ≤ x)
map_bounds-outside page seg x pow room e o =
    let v = seg.vaddr in
    let t = seg.vaddr + seg.mem_size in
    let one = one-le-align page v pow in
    let (low, high) = map_bounds-eq page seg pow room e in
    elim o [
      | inl under ↦
          let below = (div-lt_iff_lt-mul {k = page} {x = x} {y = v / page} one).0 under in
          inl (omega (arith, low, below))
      | inr over ↦
          let up = ceil-IsCeil page t one in
          let least = up.least (x / page * page) (mul-mod_left (x / page) page) over in
          let above = up.above in
          let down = (floor-IsFloor page v one).below in
          let mine = div-mul-le_self x page in
          inr (omega (arith, low, high, least, above, down, mine))
    ]
