-- ===== src/Mmu/Walker/Next.antt =====
-- One round of the loop of `map`: the table below an entry, which is allocated if there is none.
use rv.Base.{ℕ, suc, ◌*◌, ◌^◌, ◌≡◌, ◌⊎◌, inl, refl, ap, ◌∙◌, arith}
use rv.Base.{true, false, Option, some, none, done, ok, err}
use rv.Addr.Phys
use rv.Addr.Phys.{from_ppn}
use rv.Addr.Phys.Fields.{from_ppn-eq}
use rv.Allocator.{Frame}
use rv.Mmu.Entry.{Entry, is_valid, is_leaf, get_ppn, set_ppn, set_flags, empty}
use rv.Mmu.Entry.EntryFlags
use rv.Mmu.Space.{FrameAllocator, Memory, Space, put, put_table, allocation_failed}
use rv.Base.{Run, Result, panic}
use rv.Mmu.Space.{MapError}
use rv.Mmu.Space.Binds.{bind-ok, bind-err, lift-eq}
use rv.Mmu.Tree.{InMap, va_of, phys_to_virt-eq, IsFrameAllocator, IsSpace}
use rv.Mmu.Walker.{alloc_frame, table_of, new_table, next_table}

module _ {fa : FrameAllocator} {mem_offset : ℕ} (laws : IsFrameAllocator fa mem_offset) where
  -- The round has returned the table of level `k` that entry `i` of `t` now names.
  pub record Reached (role : ℕ → Option ℕ) (sp : Space fa.State) (t i k : ℕ) : Type 0 where
    pub after : Space fa.State
    pub role' : ℕ → Option ℕ
    pub table : ℕ
    pub returns : next_table fa mem_offset t i sp ≡ done (ok table, after)
    pub space : IsSpace laws role' after
    pub grows : (x m : ℕ) → role x ≡ some m → role' x ≡ some m
    pub level : role' table ≡ some k
    pub valid : is_valid (after.mem t i) ≡ true
    pub inner : is_leaf (after.mem t i) ≡ false
    pub in_map : InMap mem_offset (get_ppn (after.mem t i))
    pub names : va_of mem_offset (get_ppn (after.mem t i)) ≡ table
    pub keeps :
        (x m j : ℕ) → role x ≡ some m → is_valid (sp.mem x j) ≡ true → after.mem x j ≡ sp.mem x j
    pub origin : ((is_valid (sp.mem t i) ≡ true) × (after ≡ sp)) ⊎ ((j : ℕ) → after.mem table j ≡ 0)

  -- There was no frame; the tables are as they were.
  pub record Refused (role : ℕ → Option ℕ) (sp : Space fa.State) (t i : ℕ) : Type 0 where
    pub after : Space fa.State
    pub returns : next_table fa mem_offset t i sp ≡ done (err allocation_failed, after)
    pub space : IsSpace laws role after

  table_of-eq :
      (e : Entry) (sp : Space fa.State)
      → InMap mem_offset (get_ppn e)
      → table_of fa mem_offset e sp ≡ done (ok (va_of mem_offset (get_ppn e)), sp)
  unfolding table_of from_ppn
  table_of-eq e sp m =
      rw
        (from_ppn-eq (get_ppn e) (omega (arith, m.entry)), phys_to_virt-eq mem_offset (get_ppn e) m)

  alloc_frame-none :
      (sp : Space fa.State) (s' : fa.State)
      → fa.alloc sp.frames 1 ≡ done (none, s')
      → alloc_frame fa mem_offset sp ≡ done (err allocation_failed, record sp { frames = s' })
  unfolding alloc_frame
  alloc_frame-none sp s' e =
      ap
        (λ r. elim r as (λ _. Run (Result MapError Frame × Space fa.State)) [
          | panic ↦ panic
          | done (some frame, frames) ↦ done (ok frame, record sp { frames = frames })
          | done (none, frames) ↦ done (err allocation_failed, record sp { frames = frames })
        ])
        e

  alloc_frame-some :
      (sp : Space fa.State) (frame : Frame) (s' : fa.State)
      → fa.alloc sp.frames 1 ≡ done (some frame, s')
      → alloc_frame fa mem_offset sp ≡ done (ok frame, record sp { frames = s' })
  unfolding alloc_frame
  alloc_frame-some sp frame s' e =
      ap
        (λ r. elim r as (λ _. Run (Result MapError Frame × Space fa.State)) [
          | panic ↦ panic
          | done (some frame, frames) ↦ done (ok frame, record sp { frames = frames })
          | done (none, frames) ↦ done (err allocation_failed, record sp { frames = frames })
        ])
        e

  new_table-none :
      (t i : ℕ) (sp : Space fa.State) (s' : fa.State)
      → fa.alloc sp.frames 1 ≡ done (none, s')
      → new_table fa mem_offset t i sp ≡ done (err allocation_failed, record sp { frames = s' })
  unfolding new_table
  new_table-none t i sp s' e =
      bind-err (alloc_frame fa mem_offset) _ sp (record sp { frames = s' }) allocation_failed
        (alloc_frame-none sp s' e)

  unfoldable pub link : ℕ → Entry
  link ppn = set_ppn (set_flags empty EntryFlags.valid) (Phys.page_index (ppn * 2 ^ 12))

  unfoldable pub with_table : Memory → ℕ → ℕ → ℕ → Memory
  with_table mem t i ppn = put_table (put mem t i (link ppn)) (va_of mem_offset ppn)

  pub new_table-some :
      (t i : ℕ) (sp : Space fa.State) (ppn : ℕ) (s' : fa.State)
      → fa.alloc sp.frames 1
        ≡ done (some (record { paddr = ppn * 2 ^ 12; ptr = va_of mem_offset ppn }), s')
      → InMap mem_offset ppn
      → new_table fa mem_offset t i sp
        ≡ done (ok (va_of mem_offset ppn), record { mem = with_table sp.mem t i ppn; frames = s' })
  unfolding new_table with_table link
  new_table-some t i sp ppn s' e m =
      bind-ok (alloc_frame fa mem_offset) _ sp (record sp { frames = s' }) _
        (alloc_frame-some sp _ s' e)
      ∙ lift-eq _ _ _ (phys_to_virt-eq mem_offset ppn m)

  module _ (role : ℕ → Option ℕ) (sp : Space fa.State) (inv : IsSpace laws role sp) (t i k : ℕ)
      (at : role t ≡ some (suc k)) where
    pub present :
        is_valid (sp.mem t i) ≡ true → is_leaf (sp.mem t i) ≡ false → Reached role sp t i k
    unfolding next_table
    present v l = record {
      after = sp;
      role' = role;
      table = va_of mem_offset (get_ppn (sp.mem t i));
      returns = rw v (table_of-eq (sp.mem t i) sp (inv.tree.child_in_map t k i at v l));
      space = inv;
      grows = λ x m e. e;
      level = inv.tree.child_role t k i at v l;
      valid = v;
      inner = l;
      in_map = inv.tree.child_in_map t k i at v l;
      names = refl;
      keeps = λ x m j e w. refl;
      origin = inl (v, refl);
    }

    pub refused :
        is_valid (sp.mem t i) ≡ false
        → (s' : fa.State) → fa.alloc sp.frames 1 ≡ done (none, s')
        → laws.Valid s'
        → ((x : ℕ) → laws.Free s' x → laws.Free sp.frames x)
        → Refused role sp t i
    unfolding next_table
    refused v s' e valid shrinks = record {
      after = record sp { frames = s' };
      returns = rw v (new_table-none t i sp s' e);
      space = record {
        tree = inv.tree;
        valid = valid;
        used = λ x m r f. inv.used x m r (shrinks x f);
      };
    }
