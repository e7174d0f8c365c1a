-- ===== src/Mmu/Walker/Descend.antt =====
-- The loop of `map`: from the root down to the table at the level of the page.
use rv.Base.{ℕ, zero, suc, ◌+◌, ◌≡◌, ◌⊎◌, inl, inr, refl, sym, ap, ◌∙◌, arith}
use rv.Base.{true, false, Bool-cases, Option, some, done, ok, err}
use rv.Mmu.Entry.{is_valid, is_leaf, get_ppn}
use rv.Base.{subst}
use rv.Mmu.Entry.Links.{zero-not_valid}
use rv.Mmu.Lookup.{vpn}
use rv.Mmu.Space.{FrameAllocator, Memory, Space, allocation_failed}
use rv.Mmu.Space.Binds.{bind-ok, bind-err}
use rv.Mmu.Tree.{InMap, va_of, IsFrameAllocator, IsSpace}
use rv.Mmu.Walker.{next_table, descend}
use rv.Mmu.Walker.Next.{Reached, Refused, present, refused}
use rv.Mmu.Walker.Link.{Reached-linked}

-- On the way from `t` at level `level + left` down to `level`, as far as tables exist, no entry for `v`
-- is a leaf.
abbrev pub NoLeaf : (mem_offset : ℕ) → Memory → ℕ → ℕ → ℕ → ℕ → Type 0
NoLeaf mem_offset mem v level zero t = Unit
NoLeaf mem_offset mem v level (suc left) t =
    is_valid (mem t (vpn v (level + suc left))) ≡ true
    → (is_leaf (mem t (vpn v (level + suc left))) ≡ false)
      × NoLeaf mem_offset mem v level left
          (va_of mem_offset (get_ppn (mem t (vpn v (level + suc left)))))

-- The entries for `v` lead from `t` down to the table `t'`.
abbrev pub PathTo : (mem_offset : ℕ) → Memory → ℕ → ℕ → ℕ → ℕ → ℕ → Type 0
PathTo mem_offset mem v level zero t t' = t ≡ t'
PathTo mem_offset mem v level (suc left) t t' =
    (is_valid (mem t (vpn v (level + suc left))) ≡ true)
    × (is_leaf (mem t (vpn v (level + suc left))) ≡ false)
    × InMap mem_offset (get_ppn (mem t (vpn v (level + suc left))))
    × PathTo mem_offset mem v level left
        (va_of mem_offset (get_ppn (mem t (vpn v (level + suc left))))) t'

module _ {fa : FrameAllocator} {mem_offset : ℕ} (laws : IsFrameAllocator fa mem_offset) where
  next_table-outcome :
      (role : ℕ → Option ℕ) (sp : Space fa.State)
      → IsSpace laws role sp
      → (t i k : ℕ) → role t ≡ some (suc k)
      → (is_valid (sp.mem t i) ≡ true → is_leaf (sp.mem t i) ≡ false)
      → Refused laws role sp t i ⊎ Reached laws role sp t i k
  next_table-outcome role sp inv t i k at inner = elim (Bool-cases (is_valid (sp.mem t i))) [
    | inl v ↦ inr (present laws role sp inv t i k at v (inner v))
    | inr v ↦ elim (laws.one sp.frames inv.valid) [
      | inl (s', e, valid, shrinks) ↦ inl (refused laws role sp inv t i k at v s' e valid shrinks)
      | inr (ppn, s', e, m, free, taken, valid, shrinks) ↦
          inr (Reached-linked laws role sp inv t i k at ppn m free v s' e taken valid shrinks)
    ]
  ]

  module _ (v level : ℕ) where
    pub record Descent (role : ℕ → Option ℕ) (sp : Space fa.State) (left t : ℕ) : Type 0 where
      pub after : Space fa.State
      pub role' : ℕ → Option ℕ
      pub table : ℕ
      pub returns : descend fa mem_offset v level left t sp ≡ done (ok table, after)
      pub space : IsSpace laws role' after
      pub grows : (x m : ℕ) → role x ≡ some m → role' x ≡ some m
      pub at_level : role' table ≡ some level
      pub path : PathTo mem_offset after.mem v level left t table
      pub keeps :
          (x m j : ℕ) → role x ≡ some m → is_valid (sp.mem x j) ≡ true → after.mem x j ≡ sp.mem x j

    pub record Stopped (role : ℕ → Option ℕ) (sp : Space fa.State) (left t : ℕ) : Type 0 where
      pub after : Space fa.State
      pub role' : ℕ → Option ℕ
      pub returns : descend fa mem_offset v level left t sp ≡ done (err allocation_failed, after)
      pub space : IsSpace laws role' after
      pub grows : (x m : ℕ) → role x ≡ some m → role' x ≡ some m

    empty-NoLeaf :
        (mem : Memory) (left t : ℕ) → ((j : ℕ) → mem t j ≡ 0) → NoLeaf mem_offset mem v level left t
    empty-NoLeaf mem zero t e = tt
    empty-NoLeaf mem (suc left) t e = λ w. absurd (zero-not_valid _ (e _) w)

    module _ (role : ℕ → Option ℕ) (sp : Space fa.State) (left t : ℕ) where
      module _ (n : Reached laws role sp t (vpn v (level + suc left)) (level + left)) where
        -- What lies below the entry has no leaf on the way either.
        below-NoLeaf :
            NoLeaf mem_offset sp.mem v level (suc left) t
            → NoLeaf mem_offset n.after.mem v level left n.table
        below-NoLeaf h = elim n.origin [
          | inl (w, same) ↦
              subst (λ s. NoLeaf mem_offset s.mem v level left n.table) (sym same)
                (subst (λ y. NoLeaf mem_offset sp.mem v level left y)
                  (ap (λ s. va_of mem_offset (get_ppn (s.mem t (vpn v (level + suc left)))))
                      (sym same)
                    ∙ n.names)
                  (h w).1)
          | inr zeros ↦ empty-NoLeaf n.after.mem left n.table zeros
        ]

        kept :
            (l : ℕ) (d : Descent n.role' n.after left n.table)
            → role t ≡ some l
            → d.after.mem t (vpn v (level + suc left)) ≡ n.after.mem t (vpn v (level + suc left))
        kept l d at = d.keeps t l (vpn v (level + suc left)) (n.grows t l at) n.valid

        go_on :
            (l : ℕ)
            → role t ≡ some l
            → Descent n.role' n.after left n.table
            → Descent role sp (suc left) t
        unfolding descend
        go_on l at d = record {
          after = d.after;
          role' = d.role';
          table = d.table;
          returns =
              bind-ok (next_table fa mem_offset t (vpn v (level + suc left))) _ sp n.after n.table
                n.returns
              ∙ d.returns;
          space = d.space;
          grows = λ x m e. d.grows x m (n.grows x m e);
          at_level = d.at_level;
          path = (
            ap is_valid (kept l d at) ∙ n.valid,
            ap is_leaf (kept l d at) ∙ n.inner,
            subst (λ e. InMap mem_offset (get_ppn e)) (sym (kept l d at)) n.in_map,
            subst (λ y. PathTo mem_offset d.after.mem v level left y d.table)
                (sym (ap (λ e. va_of mem_offset (get_ppn e)) (kept l d at) ∙ n.names)) d.path,
          );
          keeps = λ x m j r w.
              d.keeps x m j (n.grows x m r) (ap is_valid (n.keeps x m j r w) ∙ w)
              ∙ n.keeps x m j r w;
        }

        stop_later : Stopped n.role' n.after left n.table → Stopped role sp (suc left) t
        unfolding descend
        stop_later s = record {
          after = s.after;
          role' = s.role';
          returns =
              bind-ok (next_table fa mem_offset t (vpn v (level + suc left))) _ sp n.after n.table
                n.returns
              ∙ s.returns;
          space = s.space;
          grows = λ x m e. s.grows x m (n.grows x m e);
        }

      stop_now : Refused laws role sp t (vpn v (level + suc left)) → Stopped role sp (suc left) t
      unfolding descend
      stop_now r = record {
        after = r.after;
        role' = role;
        returns =
            bind-err (next_table fa mem_offset t (vpn v (level + suc left))) _ sp r.after
              allocation_failed r.returns;
        space = r.space;
        grows = λ x m e. e;
      }

    -- From a table at level `level + left`, with no leaf on the way: the loop reaches the table for `v`
    -- at `level`, or it stops as there is no frame.
    pub descend-outcome :
        (role : ℕ → Option ℕ) (sp : Space fa.State)
        → IsSpace laws role sp
        → (left t : ℕ) → role t ≡ some (level + left)
        → NoLeaf mem_offset sp.mem v level left t
        → Stopped role sp left t ⊎ Descent role sp left t
    unfolding descend
    descend-outcome role sp inv zero t at h = inr (record {
      after = sp;
      role' = role;
      table = t;
      returns = refl;
      space = inv;
      grows = λ x m e. e;
      at_level = at ∙ ap (λ (y : ℕ). some y) {x = level + 0} {y = level} (omega arith);
      path = refl;
      keeps = λ x m j e w. refl;
    })
    descend-outcome role sp inv (suc left) t at h =
        elim (next_table-outcome role sp inv t (vpn v (level + suc left)) (level + left)
          (at
            ∙ ap (λ (y : ℕ). some y) {x = level + suc left} {y = suc (level + left)} (omega arith))
          (λ w. (h w).0)) [
            | inl r ↦ inl (stop_now role sp left t r)
            | inr n ↦
                elim (descend-outcome n.role' n.after n.space left n.table n.level
                  (below-NoLeaf role sp left t n h)) [
                    | inl s ↦ inl (stop_later role sp left t n s)
                    | inr d ↦ inr (go_on role sp left t n (level + suc left) at d)
                  ]
          ]
