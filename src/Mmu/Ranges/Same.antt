-- ===== src/Mmu/Ranges/Same.antt =====
-- Tables that translate alike: their entries agree on validity, on being a leaf, and on the page they name.
use native.Mathlib.Decide.{ℕ_discrete}
use rv.Base.{ℕ, zero, suc, ◌*◌, ◌%◌, ◌^◌, ◌<◌, ◌≡◌, inl, inr, refl, sym, ◌∙◌, subst, arith, true}
use rv.Base.{ap₂, Run-cases}
use rv.Base.Word.{usize_mod}
use rv.Addr.Phys
use rv.Allocator.Bump.Frames.{phys_to_virt}
use rv.Mmu.Entry.{Entry, is_valid, is_leaf, get_ppn, write_flags}
use rv.Mmu.Entry.Write.{write_flags_stays_valid, write_flags-is_leaf, get_ppn-write_flags}
use rv.Mmu.Lookup.{vpn, leaf_addr, table_va, lookup, virt_to_phys, pte_ptr, get_pte_ptr}
use rv.Mmu.Space.{Memory, put}
use rv.Mmu.Space.Writes.{put-same, put-other}

pub record SameEntry (e e' : Entry) : Type 0 where
  pub valid : is_valid e' ≡ is_valid e
  pub leaf : is_leaf e' ≡ is_leaf e
  pub names : get_ppn e' ≡ get_ppn e

abbrev pub Same : Memory → Memory → Type 0
Same mem mem' = (t i : ℕ) → SameEntry (mem t i) (mem' t i)

pub Same-trans : (a b c : Memory) → Same a b → Same b c → Same a c
Same-trans a b c p q t i = record {
  valid = (q t i).valid ∙ (p t i).valid;
  leaf = (q t i).leaf ∙ (p t i).leaf;
  names = (q t i).names ∙ (p t i).names;
}

leaf_addr-eq :
    (v i : ℕ) (e e' : Entry) → get_ppn e' ≡ get_ppn e → leaf_addr v i e' ≡ leaf_addr v i e
unfolding leaf_addr
leaf_addr-eq v i e e' same = rw same refl

module _ (mem_offset : ℕ) where
  table_va-eq :
      (e e' : Entry) → get_ppn e' ≡ get_ppn e → table_va mem_offset e' ≡ table_va mem_offset e
  unfolding table_va
  table_va-eq e e' same = rw same refl

  module _ (mem mem' : Memory) (s : Same mem mem') where
    lookup-Same : (v i t : ℕ) → lookup mem_offset mem' v i t ≡ lookup mem_offset mem v i t
    unfolding lookup
    lookup-Same v zero t = refl
    lookup-Same v (suc i) t =
        let same = s t (vpn v i) in
        elim (Run-cases (table_va mem_offset (mem t (vpn v i)))) [
          | inl (t', got) ↦ ground (
            arith,
            same.valid,
            same.leaf,
            leaf_addr-eq v i (mem t (vpn v i)) (mem' t (vpn v i)) same.names,
            table_va-eq (mem t (vpn v i)) (mem' t (vpn v i)) same.names,
            got,
            lookup-Same v i t',
          )
          | inr got ↦ ground (
            arith,
            same.valid,
            same.leaf,
            leaf_addr-eq v i (mem t (vpn v i)) (mem' t (vpn v i)) same.names,
            table_va-eq (mem t (vpn v i)) (mem' t (vpn v i)) same.names,
            got,
          )
        ]

    pub virt_to_phys-Same :
        (rpt v : ℕ) → virt_to_phys mem_offset mem' rpt v ≡ virt_to_phys mem_offset mem rpt v
    unfolding virt_to_phys
    virt_to_phys-Same rpt v = lookup-Same v 3 rpt

    pte_ptr-Same : (v i t : ℕ) → pte_ptr mem_offset mem' v i t ≡ pte_ptr mem_offset mem v i t
    unfolding pte_ptr
    pte_ptr-Same v zero t = ground (arith, (s t (vpn v 0)).valid)
    pte_ptr-Same v (suc i) t =
        let same = s t (vpn v (suc i)) in
        elim (Run-cases (Phys.new (get_ppn (mem t (vpn v (suc i))) * 2 ^ 12 % usize_mod))) [
          | inr got ↦ ground (arith, same.valid, same.leaf, same.names, got)
          | inl (pa, got) ↦ elim (Run-cases (phys_to_virt mem_offset pa)) [
            | inr at ↦ ground (arith, same.valid, same.leaf, same.names, got, at)
            | inl (t', at) ↦
                ground (arith, same.valid, same.leaf, same.names, got, at, pte_ptr-Same v i t')
          ]
        ]

    pub get_pte_ptr-Same :
        (rpt v : ℕ) → get_pte_ptr mem_offset mem' rpt v ≡ get_pte_ptr mem_offset mem rpt v
    unfolding get_pte_ptr
    get_pte_ptr-Same rpt v = pte_ptr-Same v 2 rpt

-- New flags on a leaf that say that it is a leaf change no translation.
pub write_flags-SameEntry :
    (e f : ℕ)
    → e < 2 ^ 64
    → f < 2 ^ 10
    → is_valid e ≡ true
    → is_leaf e ≡ true
    → is_leaf f ≡ true
    → SameEntry e (write_flags e f)
write_flags-SameEntry e f he hf v l lf = record {
  valid = write_flags_stays_valid e f he v ∙ sym v;
  leaf = write_flags-is_leaf e f he ∙ lf ∙ sym l;
  names = get_ppn-write_flags e f he hf;
}

-- A fact about each entry and its successor, of which one entry changes.
pub put-each :
    (P : Entry → Entry → Type 0) (mem : Memory) (t i v : ℕ)
    → ((e : Entry) → P e e)
    → P (mem t i) v
    → (x j : ℕ) → P (mem x j) (put mem t i v x j)
put-each P mem t i v same here x j = elim (ℕ_discrete x t) [
  | no other ↦ subst (P (mem x j)) (sym (put-other mem t i v x j (inl other))) (same (mem x j))
  | yes at ↦ elim (ℕ_discrete j i) [
    | no other ↦ subst (P (mem x j)) (sym (put-other mem t i v x j (inr other))) (same (mem x j))
    | yes at' ↦
        let put_here : put mem t i v x j ≡ v = ap₂ (put mem t i v) at at' ∙ put-same mem t i v in
        let was : mem x j ≡ mem t i = ap₂ mem at at' in
        subst (P (mem x j)) (sym put_here) (subst (λ e. P e v) (sym was) here)
  ]
]
