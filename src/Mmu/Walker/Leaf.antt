-- ===== src/Mmu/Walker/Leaf.antt =====
-- The entry that `map` writes for a page, and well-formed tables with it.
use rv.Base.{ℕ, suc, ◌+◌, ◌*◌, ◌/◌, ◌%◌, ◌^◌, ◌<◌, ◌≡◌, ◌⊎◌, inl, inr, sym, ap, ◌∙◌, arith}
use rv.Base.{true, false, not, ◌==◌, Option, some, bit_or}
use native.Mathlib.Decide.{ℕ_discrete}
use Prim.Native.Nat.{max}
use rv.Base.Bits.{bit_or_step, bit_or-zero, bit_or-lt}
use rv.Addr.Phys
use rv.Addr.Phys.Fields.{page_index-eq}
use rv.Mmu.Entry.EntryFlags
use rv.Mmu.Entry.{Entry, is_valid, is_leaf, write_flags, get_ppn, set_ppn}
use rv.Mmu.Entry.Fields.{get_ppn-set_ppn, set_ppn-lt, is_valid-eq, is_leaf-eq}
use rv.Mmu.Entry.Write.{write_flags-lt, write_flags-is_valid, write_flags-is_leaf}
use rv.Mmu.Space.{Memory, put}
use rv.Mmu.Space.Writes.{put-same, put-other}
use rv.Mmu.Tree.{InMap, va_of, IsTree}

-- The entry that `map` writes over `e`.
pub record IsLeafFor (paddr : ℕ) (e : Entry) : Type 0 where
  pub word : e < 2 ^ 64
  pub valid : is_valid e ≡ true
  pub leaf : is_leaf e ≡ true
  pub names : get_ppn e ≡ paddr / 2 ^ 12

unfoldable pub mapped_entry : Entry → ℕ → ℕ → Entry
mapped_entry e paddr fl =
    set_ppn (write_flags e (bit_or fl EntryFlags.valid)) (Phys.page_index paddr)

flags-half : (fl : ℕ) → bit_or fl 1 ≡ fl / 2 * 2 + max (fl % 2) 1
flags-half fl = omega (arith, bit_or_step fl 1, bit_or-zero (fl / 2))

pub mapped_entry-IsLeafFor :
    (e paddr fl : ℕ)
    → e < 2 ^ 64
    → paddr < 2 ^ 38
    → fl < 2 ^ 64
    → is_leaf fl ≡ true
    → IsLeafFor paddr (mapped_entry e paddr fl)
unfolding mapped_entry
mapped_entry-IsLeafFor e paddr fl he hp hf leaf = record {
  word = set_ppn-lt (write_flags e fl') (Phys.page_index paddr) word;
  valid =
      (get_ppn-set_ppn (write_flags e fl') (Phys.page_index paddr) word).2
      ∙ write_flags-is_valid e fl' he valid';
  leaf =
      (get_ppn-set_ppn (write_flags e fl') (Phys.page_index paddr) word).3
      ∙ write_flags-is_leaf e fl' he
      ∙ leaf';
  names = omega (
    arith,
    (get_ppn-set_ppn (write_flags e fl') (Phys.page_index paddr) word).0,
    page_index-eq paddr (omega arith),
  );
}
  where
    fl' : ℕ
    fl' = bit_or fl EntryFlags.valid

    word : write_flags e fl' < 2 ^ 64
    word = write_flags-lt e fl' he (bit_or-lt 64 fl 1 hf (omega arith))

    valid' : is_valid fl' ≡ true
    valid' = ground (arith, is_valid-eq fl', flags-half fl)

    leaf' : is_leaf fl' ≡ true
    leaf' =
        is_leaf-eq fl'
        ∙ ap (λ (y : ℕ). not (y == 0)) {x = fl' / 2 % 8} {y = fl / 2 % 8}
            (omega (arith, flags-half fl))
        ∙ sym (is_leaf-eq fl)
        ∙ leaf

put_entry : (mem : Memory) (t i e x j : ℕ) → (put mem t i e x j ≡ e) ⊎ (put mem t i e x j ≡ mem x j)
put_entry mem t i e x j = elim (ℕ_discrete x t) [
  | no other ↦ inr (put-other mem t i e x j (inl other))
  | yes same ↦ elim (ℕ_discrete j i) [
    | no other ↦ inr (put-other mem t i e x j (inr other))
    | yes here ↦ inl (rw (same, here) (put-same mem t i e))
  ]
]

-- A leaf may replace any entry of a table at the level of the page.
pub put-IsTree :
    (mem_offset : ℕ) (role : ℕ → Option ℕ) (mem : Memory)
    → IsTree mem_offset role mem
    → (t i paddr e : ℕ) → IsLeafFor paddr e
    → IsTree mem_offset role (put mem t i e)
put-IsTree mem_offset role mem tree t i paddr e l = record {
  word = λ x j. elim (put_entry mem t i e x j) [
    | inl new ↦ omega (arith, new, l.word)
    | inr old ↦ omega (arith, old, tree.word x j)
  ];
  child_in_map = λ x k j r v n. (child x k j r v n).0;
  child_role = λ x k j r v n. (child x k j r v n).1;
}
  where
    true-false : true ≡ false → ⊥
    true-false q = cc q

    child :
        (x k j : ℕ)
        → role x ≡ some (suc k)
        → is_valid (put mem t i e x j) ≡ true
        → is_leaf (put mem t i e x j) ≡ false
        → InMap mem_offset (get_ppn (put mem t i e x j))
          × (role (va_of mem_offset (get_ppn (put mem t i e x j))) ≡ some k)
    child x k j r v n = elim (put_entry mem t i e x j) [
      | inl new ↦ absurd (true-false (sym l.leaf ∙ sym (ap is_leaf new) ∙ n))
      | inr old ↦ rw old (
        tree.child_in_map x k j r (sym (ap is_valid old) ∙ v) (sym (ap is_leaf old) ∙ n),
        tree.child_role x k j r (sym (ap is_valid old) ∙ v) (sym (ap is_leaf old) ∙ n),
      )
    ]
