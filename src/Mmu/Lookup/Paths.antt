-- ===== src/Mmu/Lookup/Paths.antt =====
-- `virt_to_phys` along the entries that lead to a table.
use rv.Base.{ℕ, zero, suc, ◌+◌, ◌/◌, ◌%◌, ◌^◌, ◌<◌, ◌≡◌, ◌≢◌, inl, sym, ap, ◌∙◌, arith}
use rv.Base.{Option, some, done, true, false}
use rv.Mmu.Entry.{Entry, is_valid, is_leaf, get_ppn, PageSize, to_table_level, size}
use rv.Mmu.Lookup.{vpn, lookup, leaf_addr}
use rv.Mmu.Lookup.Pages.{vpn-page, leaf_addr-page}
use rv.Mmu.Space.{Memory, put}
use rv.Mmu.Space.Writes.{put-other}
use rv.Mmu.Tree.{InMap, va_of, table_va-eq, IsTree}
use rv.Mmu.Walker.Descend.{PathTo}

module _ (mem_offset : ℕ) (mem : Memory) where
  lookup-inner :
      (v i t : ℕ)
      → is_valid (mem t (vpn v i)) ≡ true
      → is_leaf (mem t (vpn v i)) ≡ false
      → InMap mem_offset (get_ppn (mem t (vpn v i)))
      → lookup mem_offset mem v (suc i) t
        ≡ lookup mem_offset mem v i (va_of mem_offset (get_ppn (mem t (vpn v i))))
  unfolding lookup
  lookup-inner v i t valid inner m = ground (arith, table_va-eq mem_offset (mem t (vpn v i)) m)

  lookup-leaf :
      (v i t a : ℕ)
      → is_valid (mem t (vpn v i)) ≡ true
      → is_leaf (mem t (vpn v i)) ≡ true
      → leaf_addr v i (mem t (vpn v i)) ≡ done a
      → lookup mem_offset mem v (suc i) t ≡ done (some a)
  unfolding lookup
  lookup-leaf v i t a valid leaf e = ground arith

  pub lookup-path :
      (v level left t t' : ℕ)
      → PathTo mem_offset mem v level left t t'
      → lookup mem_offset mem v (suc (level + left)) t ≡ lookup mem_offset mem v (suc level) t'
  lookup-path v level zero t t' p =
      ap (λ (i : ℕ). lookup mem_offset mem v (suc i) t) {x = level + 0} {y = level} (omega arith)
      ∙ ap (lookup mem_offset mem v (suc level)) p
  lookup-path v level (suc left) t t' (valid, inner, m, p) =
      lookup-inner v (level + suc left) t valid inner m
      ∙ ap
          (λ (i : ℕ).
            lookup mem_offset mem v i
              (va_of mem_offset (get_ppn (mem t (vpn v (level + suc left))))))
          {x = level + suc left} {y = suc (level + left)} (omega arith)
      ∙ lookup-path v level left _ t' p

  -- The addresses of one page have the same path to the table at its level.
  PathTo-page :
      (sz : PageSize) (w v left t t' : ℕ)
      → w / size sz ≡ v / size sz
      → PathTo mem_offset mem v (to_table_level sz) left t t'
      → PathTo mem_offset mem w (to_table_level sz) left t t'
  PathTo-page sz w v zero t t' e p = p
  PathTo-page sz w v (suc left) t t' e (valid, inner, m, p) =
      rw (vpn-page sz w v (to_table_level sz + suc left) e (omega arith))
        (valid, inner, m, PathTo-page sz w v left _ t' e p)

  -- Along a path to a leaf for the page, each of its addresses is translated.
  pub lookup-page :
      (sz : PageSize) (v left t t' paddr : ℕ)
      → PathTo mem_offset mem v (to_table_level sz) left t t'
      → is_valid (mem t' (vpn v (to_table_level sz))) ≡ true
      → is_leaf (mem t' (vpn v (to_table_level sz))) ≡ true
      → get_ppn (mem t' (vpn v (to_table_level sz))) ≡ paddr / 2 ^ 12
      → paddr % size sz ≡ 0
      → paddr < 2 ^ 38
      → (w : ℕ) → w / size sz ≡ v / size sz
      → lookup mem_offset mem w (suc (to_table_level sz + left)) t
        ≡ done (some (paddr + w % size sz))
  lookup-page sz v left t t' paddr p valid leaf named h lt w e =
      lookup-path w (to_table_level sz) left t t' (PathTo-page sz w v left t t' e p)
      ∙ lookup-leaf w (to_table_level sz) t' (paddr + w % size sz) (ap (at is_valid) same ∙ valid)
          (ap (at is_leaf) same ∙ leaf)
          (leaf_addr-page sz w paddr (mem t' (vpn w (to_table_level sz))) h lt
            (ap (λ i. get_ppn (mem t' i)) same ∙ named))
    where
      at : {A : Type 0} → (Entry → A) → ℕ → A
      at f i = f (mem t' i)

      same : vpn w (to_table_level sz) ≡ vpn v (to_table_level sz)
      same = vpn-page sz w v (to_table_level sz) e (omega arith)

-- A write to a table at the end of a path does not touch the path.
pub PathTo-put :
    (mem_offset : ℕ) (role : ℕ → Option ℕ) (mem : Memory)
    → IsTree mem_offset role mem
    → (v level left t t' j x : ℕ) → role t ≡ some (level + left)
    → role t' ≡ some level
    → PathTo mem_offset mem v level left t t'
    → PathTo mem_offset (put mem t' j x) v level left t t'
PathTo-put mem_offset role mem tree v level zero t t' j x at at' p = p
PathTo-put mem_offset role mem tree v level (suc left) t t' j x at at' (valid, inner, m, p) =
    rw (put-other mem t' j x t (vpn v (level + suc left)) (inl apart)) (
      valid,
      inner,
      m,
      PathTo-put mem_offset role mem tree v level left _ t' j x
          (tree.child_role t (level + left) (vpn v (level + suc left))
            (at
              ∙ ap (λ (y : ℕ). some y) {x = level + suc left} {y = suc (level + left)}
                  (omega arith))
            valid inner)
          at' p,
    )
  where
    levels : (a b : ℕ) → some a ≡ some b → a ≡ b
    levels a b e = cc e

    apart : t ≢ t'
    apart same =
        let levels_same : level + suc left ≡ level = levels _ _ (sym at ∙ ap role same ∙ at') in
        omega arith
