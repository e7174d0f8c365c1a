-- ===== src/Mmu/Ranges/Pages.antt =====
-- The loop of `update_mapping`, and what it does to the translation of addresses.
use native.Mathlib.Decide.{dec_lt}
use rv.Base.{
  ℕ, zero, suc, ◌+◌, ◌*◌, ◌%◌, ◌^◌, ◌≤◌, ◌<◌, ◌≡◌, ◌≢◌, ◌⊎◌, inl, inr, refl, sym, ◌∙◌, subst, arith,
  true,
}
use rv.Base.{Bool-cases, Run-cases, Run, done, panic, Result, ok, err, none, some}
use rv.Base.Word.{usize_mod}
use rv.Addr.Virt
use rv.Mmu.Entry.{is_valid, is_leaf, write_flags, page_shift}
use rv.Mmu.Entry.Write.{write_flags-rwxug}
use rv.Mmu.Lookup.{virt_to_phys, get_pte_ptr}
use rv.Mmu.Space.{Memory, Space, MapError, put}
use rv.Mmu.Space.Writes.{put-same}
use rv.Mmu.Ranges.{update_page, update_pages, update_mapping}
use rv.Mmu.Ranges.Bounds.{page_range}
use rv.Mmu.Ranges.Same.{virt_to_phys-Same, get_pte_ptr-Same}
use rv.Mmu.Ranges.Updates.{HasFlags, IsLeafy, Updated, Updated-refl, Updated-trans, Updated-put}

done-panic : {A : Type 0} {a : A} → done a ≡ panic → ⊥
done-panic e = cc

done-inj :
    {A B : Type 0} {a a' : A} {b b' : B}
    → ◌≡◌ {A = Run (A × B)} (done (a, b)) (done (a', b'))
    → (a ≡ a') × (b ≡ b')
done-inj e = (cc, cc)

err-ok : {A B : Type 0} {a : A} {b : B} → err a ≡ ok b → ⊥
err-ok e = cc

module _ (mem_offset rpt fl : ℕ) where
  -- The entry for the address has the permissions.
  abbrev pub Given : Memory → ℕ → Type 0
  Given mem addr =
      (t : ℕ) × (i : ℕ) × (get_pte_ptr mem_offset mem rpt addr ≡ done (some (t, i)))
      × HasFlags fl (mem t i)

  Given-Updated :
      (mem mem' : Memory) (addr : ℕ)
      → Updated mem_offset rpt fl mem mem'
      → Given mem addr
      → Given mem' addr
  Given-Updated mem mem' addr u (t, i, at, h) =
      (t, i, get_pte_ptr-Same mem_offset mem mem' u.same rpt addr ∙ at, u.keeps t i h)

  -- Page `j` of the range has the permissions.
  abbrev pub GivenPage : Memory → (start j : ℕ) → Type 0
  GivenPage mem start j =
      (addr : ℕ) × (Virt.add start (j * 2 ^ page_shift % usize_mod) ≡ done addr) × Given mem addr

  module _ {S : Type 0} where
    -- One page: an error changes nothing.
    update_page-cases :
        (addr : ℕ) (s s' : Space S) (r : Result MapError (Unit {0}))
        → update_page mem_offset rpt fl addr s ≡ done (r, s')
        → ((s' ≡ s) × (r ≢ ok tt))
          ⊎ ((t : ℕ) × (i : ℕ) × (get_pte_ptr mem_offset s.mem rpt addr ≡ done (some (t, i)))
              × (is_valid (s.mem t i) ≡ true)
              × (s' ≡ record s { mem = put s.mem t i (write_flags (s.mem t i) fl) })
              × (r ≡ ok tt))
    unfolding update_page
    update_page-cases addr s s' r e = elim (Run-cases (get_pte_ptr mem_offset s.mem rpt addr)) [
      | inr at ↦ absurd (ground (arith, e, at))
      | inl (none, at) ↦ inl (ground (arith, e, at), ground (arith, e, at))
      | inl (some (t, i), at) ↦ elim (Bool-cases (is_valid (s.mem t i))) [
        | inr invalid ↦ inl (ground (arith, e, at, invalid), ground (arith, e, at, invalid))
        | inl valid ↦
            inr (t, i, at, valid, ground (arith, e, at, valid), ground (arith, e, at, valid))
      ]
    ]

    -- A round that succeeds, one that fails, and the end.
    update_pages-step :
        (start n i addr : ℕ) (s s1 : Space S)
        → Virt.add start (i * 2 ^ page_shift % usize_mod) ≡ done addr
        → update_page mem_offset rpt fl addr s ≡ done (ok tt, s1)
        → update_pages mem_offset rpt start fl (suc n) i s
          ≡ update_pages mem_offset rpt start fl n (i + 1) s1
    unfolding update_pages
    update_pages-step start n i addr s s1 at e = ground (arith, at, e)

    update_pages-error :
        (start n i addr : ℕ) (s s1 : Space S) (x : MapError)
        → Virt.add start (i * 2 ^ page_shift % usize_mod) ≡ done addr
        → update_page mem_offset rpt fl addr s ≡ done (err x, s1)
        → update_pages mem_offset rpt start fl (suc n) i s ≡ done (err x, s1)
    unfolding update_pages
    update_pages-error start n i addr s s1 x at e = ground (arith, at, e)

    update_pages-panic :
        (start n i addr : ℕ) (s : Space S)
        → Virt.add start (i * 2 ^ page_shift % usize_mod) ≡ done addr
        → update_page mem_offset rpt fl addr s ≡ panic
        → update_pages mem_offset rpt start fl (suc n) i s ≡ panic
    unfolding update_pages
    update_pages-panic start n i addr s at e = ground (arith, at, e)

    update_pages-stuck :
        (start n i : ℕ) (s : Space S)
        → Virt.add start (i * 2 ^ page_shift % usize_mod) ≡ panic
        → update_pages mem_offset rpt start fl (suc n) i s ≡ panic
    unfolding update_pages
    update_pages-stuck start n i s at = ground (arith, at)

    update_pages-none :
        (start i : ℕ) (s s' : Space S) (r : Result MapError (Unit {0}))
        → update_pages mem_offset rpt start fl zero i s ≡ done (r, s')
        → s' ≡ s
    unfolding update_pages
    update_pages-none start i s s' r e = cc

    module _ (small : fl < 2 ^ 10) (leaf_flags : is_leaf fl ≡ true) where
      update_page-Updated :
          (addr : ℕ) (s s' : Space S) (r : Result MapError (Unit {0}))
          → IsLeafy mem_offset rpt s.mem
          → update_page mem_offset rpt fl addr s ≡ done (r, s')
          → Updated mem_offset rpt fl s.mem s'.mem × (r ≡ ok tt → Given s'.mem addr)
      update_page-Updated addr s s' r l e = elim (update_page-cases addr s s' r e) [
        | inl (same, failed) ↦ (
          subst (λ (x : Space S). Updated mem_offset rpt fl s.mem x.mem) (sym same)
              (Updated-refl mem_offset rpt fl s.mem l),
          λ good. absurd (failed good),
        )
        | inr (t, i, at, valid, now, good) ↦
            let u = Updated-put mem_offset rpt fl small leaf_flags s.mem addr t i l at valid in
            let new = put s.mem t i (write_flags (s.mem t i) fl) in
            let flags_now =
              subst (HasFlags fl) (sym (put-same s.mem t i (write_flags (s.mem t i) fl)))
                (write_flags-rwxug (s.mem t i) fl (l.word t i)) in
            (
              subst (λ (x : Space S). Updated mem_offset rpt fl s.mem x.mem) (sym now) u,
              λ ok_there.
                  subst (λ (x : Space S). Given x.mem addr) (sym now)
                    (t, i, get_pte_ptr-Same mem_offset s.mem new u.same rpt addr ∙ at, flags_now),
            )
      ]

      update_pages-Updated :
          (start n i : ℕ) (s s' : Space S) (r : Result MapError (Unit {0}))
          → IsLeafy mem_offset rpt s.mem
          → update_pages mem_offset rpt start fl n i s ≡ done (r, s')
          → Updated mem_offset rpt fl s.mem s'.mem
            × (r ≡ ok tt → (j : ℕ) → i ≤ j → j < i + n → GivenPage s'.mem start j)
      update_pages-Updated start zero i s s' r l e = (
        subst (λ (x : Space S). Updated mem_offset rpt fl s.mem x.mem)
            (sym (update_pages-none start i s s' r e)) (Updated-refl mem_offset rpt fl s.mem l),
        λ good j h h'. absurd (omega arith),
      )
      update_pages-Updated start (suc n) i s s' r l e =
          elim (Run-cases (Virt.add start (i * 2 ^ page_shift % usize_mod))) [
            | inr at ↦ absurd (done-panic (sym e ∙ update_pages-stuck start n i s at))
            | inl (addr, at) ↦ elim (Run-cases (update_page mem_offset rpt fl addr s)) [
              | inr ran ↦ absurd (done-panic (sym e ∙ update_pages-panic start n i addr s at ran))
              | inl ((err x, s1), ran) ↦
                  let (u, _) = update_page-Updated addr s s1 (err x) l ran in
                  let (same_r, same_s) =
                    done-inj (sym (update_pages-error start n i addr s s1 x at ran) ∙ e) in
                  (
                    subst (λ (y : Space S). Updated mem_offset rpt fl s.mem y.mem) same_s u,
                    λ good. absurd (err-ok (same_r ∙ good)),
                  )
              | inl ((ok tt, s1), ran) ↦
                  let (u, given) = update_page-Updated addr s s1 (ok tt) l ran in
                  let (u', later) =
                    update_pages-Updated start n (i + 1) s1 s' r u.leafy
                      (sym (update_pages-step start n i addr s s1 at ran) ∙ e) in
                  (
                    Updated-trans mem_offset rpt fl s.mem s1.mem s'.mem u u',
                    λ good j h h'. elim (dec_lt i j) [
                      | yes more ↦ later good j (omega arith) (omega arith)
                      | no here ↦
                          let same : i ≡ j = omega arith in
                          subst (GivenPage s'.mem start) same
                            (addr, at, Given-Updated s1.mem s'.mem addr u' (given refl))
                    ],
                  )
            ]
          ]

      -- `update_mapping` is this loop, on the pages that the range touches.
      update_mapping-pages :
          (vaddr len : ℕ) (s s' : Space S) (r : Result MapError (Unit {0}))
          → update_mapping mem_offset rpt vaddr len fl s ≡ done (r, s')
          → (start : ℕ) × (count : ℕ) × (page_range vaddr len ≡ done (start, count))
            × (update_pages mem_offset rpt start fl count 0 s ≡ done (r, s'))
      unfolding update_mapping
      update_mapping-pages vaddr len s s' r e = elim (Run-cases (page_range vaddr len)) [
        | inr stuck ↦ absurd (ground (arith, e, stuck))
        | inl ((start, count), got) ↦ (start, count, got, ground (arith, e, got))
      ]

module _ {S : Type 0} (mem_offset rpt fl vaddr len : ℕ) (small : fl < 2 ^ 10)
    (leaf_flags : is_leaf fl ≡ true) (s s' : Space S) (l : IsLeafy mem_offset rpt s.mem) where
  -- In tables whose walks end only at leaves, with flags below bit 10 that make a leaf: whatever
  -- `update_mapping` returns, every address translates as before.
  pub update_mapping-virt_to_phys :
      (r : Result MapError (Unit {0}))
      → update_mapping mem_offset rpt vaddr len fl s ≡ done (r, s')
      → (v : ℕ) → virt_to_phys mem_offset s'.mem rpt v ≡ virt_to_phys mem_offset s.mem rpt v
  update_mapping-virt_to_phys r e v =
      let (start, count, got, run) =
        update_mapping-pages mem_offset rpt fl small leaf_flags vaddr len s s' r e in
      let (u, given) =
        update_pages-Updated mem_offset rpt fl small leaf_flags start count 0 s s' r l run in
      virt_to_phys-Same mem_offset s.mem s'.mem u.same rpt v

  -- In such tables, if it succeeds, the entry for each page that the range touches has the permissions that
  -- the flags say.
  pub update_mapping-GivenPage :
      (start count : ℕ)
      → page_range vaddr len ≡ done (start, count)
      → update_mapping mem_offset rpt vaddr len fl s ≡ done (ok tt, s')
      → (j : ℕ) → j < count
      → GivenPage mem_offset rpt fl s'.mem start j
  update_mapping-GivenPage start count range e j h =
      let (start', count', got, run) =
        update_mapping-pages mem_offset rpt fl small leaf_flags vaddr len s s' (ok tt) e in
      let (u, given) =
        update_pages-Updated mem_offset rpt fl small leaf_flags start' count' 0 s s' (ok tt) l
          run in
      let (same_start, same_count) = done-inj (sym got ∙ range) in
      subst (λ (x : ℕ). GivenPage mem_offset rpt fl s'.mem x j) same_start
        (given refl j (omega arith) (omega (arith, same_count)))
