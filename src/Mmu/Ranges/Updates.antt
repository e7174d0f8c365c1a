-- ===== src/Mmu/Ranges/Updates.antt =====
-- What a write of `update_mapping` changes.
use rv.Base.{ℕ, ◌/◌, ◌%◌, ◌^◌, ◌<◌, ◌≡◌, refl, sym, ◌∙◌, arith, true}
use rv.Base.{done, some}
use rv.Mmu.Entry.{Entry, is_valid, is_leaf, write_flags}
use rv.Mmu.Entry.Write.{write_flags-lt, write_flags-rwxug}
use rv.Mmu.Lookup.{get_pte_ptr}
use rv.Mmu.Space.{Memory, put}
use rv.Mmu.Ranges.Same.{
  SameEntry, Same, Same-trans, get_pte_ptr-Same, write_flags-SameEntry, put-each,
}

-- The permissions of an entry are those of `fl`.
abbrev pub HasFlags : ℕ → Entry → Type 0
HasFlags fl e = e / 2 % 2 ^ 5 ≡ fl / 2 % 2 ^ 5

-- Entries are words, and the walk for an address ends only at leaves.
pub record IsLeafy (mem_offset rpt : ℕ) (mem : Memory) : Type 0 where
  pub word : (t i : ℕ) → mem t i < 2 ^ 64
  pub ends :
      (v t i : ℕ) → get_pte_ptr mem_offset mem rpt v ≡ done (some (t, i)) → is_leaf (mem t i) ≡ true

-- The tables translate as before, and entries with the permissions `fl` keep them.
pub record Updated (mem_offset rpt fl : ℕ) (mem mem' : Memory) : Type 0 where
  pub leafy : IsLeafy mem_offset rpt mem'
  pub same : Same mem mem'
  pub keeps : (t i : ℕ) → HasFlags fl (mem t i) → HasFlags fl (mem' t i)

module _ (mem_offset rpt fl : ℕ) where
  pub Updated-refl : (mem : Memory) → IsLeafy mem_offset rpt mem → Updated mem_offset rpt fl mem mem
  Updated-refl mem l = record {
    leafy = l;
    same = λ t i. record { valid = refl; leaf = refl; names = refl };
    keeps = λ t i h. h;
  }

  pub Updated-trans :
      (a b c : Memory)
      → Updated mem_offset rpt fl a b
      → Updated mem_offset rpt fl b c
      → Updated mem_offset rpt fl a c
  Updated-trans a b c p q = record {
    leafy = q.leafy;
    same = Same-trans a b c p.same q.same;
    keeps = λ t i h. q.keeps t i (p.keeps t i h);
  }

  module _ (small : fl < 2 ^ 10) (leaf_flags : is_leaf fl ≡ true) where
    pub Updated-put :
        (mem : Memory) (v t i : ℕ)
        → IsLeafy mem_offset rpt mem
        → get_pte_ptr mem_offset mem rpt v ≡ done (some (t, i))
        → is_valid (mem t i) ≡ true
        → Updated mem_offset rpt fl mem (put mem t i (write_flags (mem t i) fl))
    Updated-put mem v t i l at valid = record {
      leafy = record {
        word = λ x j.
            put-each (λ e e'. e < 2 ^ 64 → e' < 2 ^ 64) mem t i new (λ e h. h)
              (λ h. write_flags-lt (mem t i) fl h (omega arith)) x j (l.word x j);
        ends = λ u x j e.
            (same x j).leaf
            ∙ l.ends u x j (sym (get_pte_ptr-Same mem_offset mem (put mem t i new) same rpt u) ∙ e);
      };
      same = same;
      keeps =
          put-each (λ e e'. HasFlags fl e → HasFlags fl e') mem t i new (λ e h. h)
            (λ h. write_flags-rwxug (mem t i) fl (l.word t i));
    }
      where
        new : Entry
        new = write_flags (mem t i) fl

        same : Same mem (put mem t i new)
        same =
            put-each SameEntry mem t i new (λ e. record { valid = refl; leaf = refl; names = refl })
              (write_flags-SameEntry (mem t i) fl (l.word t i) small valid (l.ends v t i at)
                leaf_flags)
