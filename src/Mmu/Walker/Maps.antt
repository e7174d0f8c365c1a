-- ===== src/Mmu/Walker/Maps.antt =====
-- What `map` does as a whole, and what `virt_to_phys` then answers.
use rv.Base.{
  ℕ, suc, ◌+◌, ◌-◌, ◌/◌, ◌%◌, ◌^◌, ◌<◌, ◌≡◌, ◌≢◌, ◌⊎◌, inl, inr, refl, sym, ap, ◌∙◌, arith,
}
use rv.Base.{true, false, not, ◌&&◌, ◌==◌, Bool-cases, Option, some, done, ok, err, bit_or}
use rv.Addr.Phys
use rv.Mmu.Entry.EntryFlags
use rv.Mmu.Entry.{
  Entry, is_valid, is_leaf, flags, write_flags, get_ppn, set_ppn, PageSize, kb, mb, gb,
  to_table_level, size,
}
use rv.Mmu.Lookup.{vpn, lookup, virt_to_phys}
use rv.Mmu.Lookup.Paths.{lookup-page, PathTo-put}
use rv.Mmu.Space.{FrameAllocator, MapError, Memory, Space, put, already_mapped, allocation_failed}
use rv.Mmu.Space.Binds.{bind-ok, bind-err}
use rv.Mmu.Space.Writes.{put-same}
use rv.Mmu.Tree.{IsFrameAllocator, IsSpace}
use rv.Mmu.Walker.Leaf.{IsLeafFor, mapped_entry, mapped_entry-IsLeafFor, put-IsTree}
use rv.Mmu.Walker.{descend, set_leaf, map}
use rv.Mmu.Walker.Descend.{NoLeaf, PathTo, Descent, Stopped, descend-outcome}

level_kb : to_table_level kb + (3 - 1 - to_table_level kb) ≡ 2
unfolding to_table_level
level_kb = refl

level_mb : to_table_level mb + (3 - 1 - to_table_level mb) ≡ 2
unfolding to_table_level
level_mb = refl

level_gb : to_table_level gb + (3 - 1 - to_table_level gb) ≡ 2
unfolding to_table_level
level_gb = refl

-- The page's level, and the levels between it and the root.
levels : (sz : PageSize) → to_table_level sz + (3 - 1 - to_table_level sz) ≡ 2
levels kb = level_kb
levels mb = level_mb
levels gb = level_gb

module _ {fa : FrameAllocator} {mem_offset : ℕ} (laws : IsFrameAllocator fa mem_offset) where
  set_leaf-taken :
      (t i paddr fl : ℕ) (sp : Space fa.State)
      → (is_valid (sp.mem t i) && not (flags (sp.mem t i) == fl)) ≡ true
      → set_leaf fa mem_offset t i paddr fl sp ≡ done (err already_mapped, sp)
  unfolding set_leaf
  set_leaf-taken t i paddr fl sp h = rw h refl

  set_leaf-free :
      (t i paddr fl : ℕ) (sp : Space fa.State)
      → (is_valid (sp.mem t i) && not (flags (sp.mem t i) == fl)) ≡ false
      → set_leaf fa mem_offset t i paddr fl sp
        ≡ done (
          ok tt,
          record sp {
            mem = put sp.mem t i (set_ppn (write_flags (sp.mem t i) fl) (Phys.page_index paddr));
          },
        )
  unfolding set_leaf
  set_leaf-free t i paddr fl sp h = rw h refl

  module _ (role : ℕ → Option ℕ) (sp : Space fa.State) (rpt v paddr : ℕ) (sz : PageSize)
      (fl : ℕ) where
    -- The page is mapped: each address of it is translated to its place in the frame.
    pub record Mapped : Type 0 where
      pub after : Space fa.State
      pub role' : ℕ → Option ℕ
      pub returns : map fa mem_offset rpt v paddr sz fl sp ≡ done (ok tt, after)
      pub space : IsSpace laws role' after
      pub grows : (x m : ℕ) → role x ≡ some m → role' x ≡ some m
      pub translates :
          (w : ℕ)
          → w / size sz ≡ v / size sz
          → virt_to_phys mem_offset after.mem rpt w ≡ done (some (paddr + w % size sz))

    -- The entry for the page is in use with other flags.
    pub record InUse (mem : Memory) : Type 0 where
      pub table : ℕ
      pub path : PathTo mem_offset mem v (to_table_level sz) (3 - 1 - to_table_level sz) rpt table
      pub valid : is_valid (mem table (vpn v (to_table_level sz))) ≡ true
      pub differs : flags (mem table (vpn v (to_table_level sz))) ≢ bit_or fl EntryFlags.valid

    -- There is no frame for a table, or the page is mapped with other flags.
    pub record Failed : Type 0 where
      pub after : Space fa.State
      pub role' : ℕ → Option ℕ
      pub error : MapError
      pub reason : (error ≡ allocation_failed) ⊎ ((error ≡ already_mapped) × InUse after.mem)
      pub returns : map fa mem_offset rpt v paddr sz fl sp ≡ done (err error, after)
      pub space : IsSpace laws role' after
      pub grows : (x m : ℕ) → role x ≡ some m → role' x ≡ some m

    map-stopped :
        Stopped laws v (to_table_level sz) role sp (3 - 1 - to_table_level sz) rpt → Failed
    unfolding map
    map-stopped s = record {
      after = s.after;
      role' = s.role';
      error = allocation_failed;
      reason = inl refl;
      returns =
          bind-err (descend fa mem_offset v (to_table_level sz) (3 - 1 - to_table_level sz) rpt) _
            sp s.after allocation_failed s.returns;
      space = s.space;
      grows = s.grows;
    }

    module _ (d : Descent laws v (to_table_level sz) role sp (3 - 1 - to_table_level sz) rpt) where
      fl' : ℕ
      fl' = bit_or fl EntryFlags.valid

      -- The entry for the page, before and after.
      was : Entry
      was = d.after.mem d.table (vpn v (to_table_level sz))

      returns-set_leaf :
          map fa mem_offset rpt v paddr sz fl sp
          ≡ set_leaf fa mem_offset d.table (vpn v (to_table_level sz)) paddr fl' d.after
      unfolding map fl'
      returns-set_leaf =
          bind-ok (descend fa mem_offset v (to_table_level sz) (3 - 1 - to_table_level sz) rpt) _ sp
            d.after d.table d.returns

      in_use : (is_valid was && not (flags was == fl')) ≡ true → InUse d.after.mem
      unfolding was fl'
      in_use h = record {
        table = d.table;
        path = d.path;
        valid = ground (arith, h);
        differs = ground (arith, h);
      }

      map-taken : (is_valid was && not (flags was == fl')) ≡ true → Failed
      unfolding was
      map-taken h = record {
        after = d.after;
        role' = d.role';
        error = already_mapped;
        reason = inr (refl, in_use h);
        returns =
            returns-set_leaf
            ∙ set_leaf-taken d.table (vpn v (to_table_level sz)) paddr fl' d.after h;
        space = d.space;
        grows = d.grows;
      }

      new : Entry
      new = mapped_entry was paddr fl

      mem' : Memory
      mem' = put d.after.mem d.table (vpn v (to_table_level sz)) new

      module _ (root : role rpt ≡ some 2) (lt : paddr < 2 ^ 38) (aligned : paddr % size sz ≡ 0)
          (word : fl < 2 ^ 64) (leaf : is_leaf fl ≡ true) where
        new-IsLeafFor : IsLeafFor paddr new
        unfolding new was
        new-IsLeafFor =
            mapped_entry-IsLeafFor was paddr fl
              (d.space.tree.word d.table (vpn v (to_table_level sz))) lt word leaf

        at_new : mem' d.table (vpn v (to_table_level sz)) ≡ new
        unfolding mem'
        at_new = put-same d.after.mem d.table (vpn v (to_table_level sz)) new

        path' : PathTo mem_offset mem' v (to_table_level sz) (3 - 1 - to_table_level sz) rpt d.table
        unfolding mem'
        path' =
            PathTo-put mem_offset d.role' d.after.mem d.space.tree v (to_table_level sz)
              (3 - 1 - to_table_level sz) rpt d.table (vpn v (to_table_level sz)) new
              (d.grows rpt 2 root ∙ ap (λ (y : ℕ). some y) (sym (levels sz))) d.at_level d.path

        translates :
            (w : ℕ)
            → w / size sz ≡ v / size sz
            → virt_to_phys mem_offset mem' rpt w ≡ done (some (paddr + w % size sz))
        unfolding virt_to_phys
        translates w e =
            ap (λ (i : ℕ). lookup mem_offset mem' w (suc i) rpt) (sym (levels sz))
            ∙ lookup-page mem_offset mem' sz v (3 - 1 - to_table_level sz) rpt d.table paddr path'
                (ap is_valid at_new ∙ new-IsLeafFor.valid) (ap is_leaf at_new ∙ new-IsLeafFor.leaf)
                (ap get_ppn at_new ∙ new-IsLeafFor.names) aligned lt w e

        map-mapped : (is_valid was && not (flags was == fl')) ≡ false → Mapped
        unfolding was mem' new fl' mapped_entry
        map-mapped h = record {
          after = record (d.after) { mem = mem' };
          role' = d.role';
          returns =
              returns-set_leaf
              ∙ set_leaf-free d.table (vpn v (to_table_level sz)) paddr fl' d.after h;
          space = record {
            tree =
                put-IsTree mem_offset d.role' d.after.mem d.space.tree d.table
                  (vpn v (to_table_level sz)) paddr new new-IsLeafFor;
            valid = d.space.valid;
            used = d.space.used;
          };
          grows = d.grows;
          translates = translates;
        }

  -- On well-formed tables whose root is `rpt`, over an allocator that keeps its laws, for a page-aligned
  -- address below 2 ^ 38 and flags of a leaf, and with no larger page mapped on the way: `map` returns
  -- without a panic and the tables stay well-formed, where each table that `role` knows, the root included,
  -- is one still and keeps its level. Either the page is mapped and `virt_to_phys`
  -- translates each address of the page to its place in the frame, or `map` returns `AllocationFailed`, or
  -- it returns `AlreadyMapped` and the entry for the page is valid with other flags.
  pub map-outcome :
      (role : ℕ → Option ℕ) (sp : Space fa.State) (rpt v paddr : ℕ) (sz : PageSize) (fl : ℕ)
      → IsSpace laws role sp
      → role rpt ≡ some 2
      → NoLeaf mem_offset sp.mem v (to_table_level sz) (3 - 1 - to_table_level sz) rpt
      → paddr < 2 ^ 38
      → paddr % size sz ≡ 0
      → fl < 2 ^ 64
      → is_leaf fl ≡ true
      → Mapped role sp rpt v paddr sz fl ⊎ Failed role sp rpt v paddr sz fl
  map-outcome role sp rpt v paddr sz fl inv root way lt aligned word leaf =
      elim (descend-outcome laws v (to_table_level sz) role sp inv (3 - 1 - to_table_level sz) rpt
        (root ∙ ap (λ (y : ℕ). some y) (sym (levels sz))) way) [
          | inl s ↦ inr (map-stopped role sp rpt v paddr sz fl s)
          | inr d ↦
              elim (Bool-cases (
                is_valid (was role sp rpt v paddr sz fl d)
                && not
                    (flags (was role sp rpt v paddr sz fl d) == fl' role sp rpt v paddr sz fl d))) [
                      | inl taken ↦ inr (map-taken role sp rpt v paddr sz fl d taken)
                      | inr free ↦
                          inl
                            (map-mapped role sp rpt v paddr sz fl d root lt aligned word leaf free)
                    ]
        ]
