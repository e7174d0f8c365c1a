-- ===== src/Mmu/Entry/Links.antt =====
-- The entry that names a new table, and the entry that maps a page.
use rv.Base.{◌≢◌}
use rv.Base.{ℕ, ◌*◌, ◌^◌, ◌<◌, ◌≡◌, arith, true, false}
use rv.Addr.Phys
use rv.Addr.Phys.Fields.{page_index-eq}
use rv.Mmu.Entry.EntryFlags
use rv.Mmu.Entry.{Entry, empty, is_valid, is_leaf, set_flags, get_ppn, set_ppn}
use rv.Mmu.Entry.Fields.{get_ppn-set_ppn, set_ppn-lt}

-- A valid entry that is no leaf and names the page `ppn`.
pub record IsLink (ppn : ℕ) (e : Entry) : Type 0 where
  pub word : e < 2 ^ 64
  pub valid : is_valid e ≡ true
  pub inner : is_leaf e ≡ false
  pub names : get_ppn e ≡ ppn

pub set_ppn-IsLink :
    (ppn : ℕ)
    → ppn < 2 ^ 26
    → IsLink ppn (set_ppn (set_flags empty EntryFlags.valid) (Phys.page_index (ppn * 2 ^ 12)))
unfolding set_flags is_valid is_leaf
set_ppn-IsLink ppn h = record {
  word = set_ppn-lt 1 (Phys.page_index (ppn * 2 ^ 12)) (omega arith);
  valid = (get_ppn-set_ppn 1 (Phys.page_index (ppn * 2 ^ 12)) (omega arith)).2;
  inner = (get_ppn-set_ppn 1 (Phys.page_index (ppn * 2 ^ 12)) (omega arith)).3;
  names = omega (
    arith,
    (get_ppn-set_ppn 1 (Phys.page_index (ppn * 2 ^ 12)) (omega arith)).0,
    page_index-eq (ppn * 2 ^ 12) (omega arith),
  );
}

-- An entry of an empty table is not valid.
pub zero-not_valid : (e : Entry) → e ≡ 0 → is_valid e ≢ true
unfolding is_valid
zero-not_valid e z v = ground (arith, z, v)
