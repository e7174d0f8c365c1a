-- ===== src/Mmu/Walker/Link.antt =====
-- The tables with a new, empty table that entry `i` of the table `t` names.
use native.Mathlib.Decide.{ℕ_discrete}
use rv.Base.{subst, ap₂}
use rv.Base.{ℕ, suc, ◌*◌, ◌^◌, ◌<◌, ◌≡◌, ◌≢◌, ◌⊎◌, inl, inr, refl, sym, ap, ◌∙◌, arith}
use rv.Base.{true, false, Option, some, done, ◌==◌, if◌then◌else◌}
use rv.Mmu.Entry.{is_valid, is_leaf, get_ppn}
use rv.Mmu.Entry.Links.{IsLink, set_ppn-IsLink}
use rv.Mmu.Space.{FrameAllocator, Memory, Space, put}
use rv.Mmu.Space.Writes.{put-same, put-other, put_table-same, put_table-other}
use rv.Mmu.Tree.{InMap, va_of, IsTree, IsFrameAllocator, IsSpace}
use rv.Mmu.Walker.{next_table}
use rv.Mmu.Walker.Next.{Reached, link, with_table, new_table-some}

-- The roles with a new table of level `k` at `t`.
unfoldable pub with_role : (ℕ → Option ℕ) → ℕ → ℕ → ℕ → Option ℕ
with_role role t k x = if x == t then some k else role x

with_role-new : (role : ℕ → Option ℕ) (t k : ℕ) → with_role role t k t ≡ some k
unfolding with_role
with_role-new role t k = ground arith

with_role-old : (role : ℕ → Option ℕ) (t k x : ℕ) → x ≢ t → with_role role t k x ≡ role x
unfolding with_role
with_role-old role t k x ne = ground arith

zero-is_valid : is_valid 0 ≡ false
unfolding is_valid
zero-is_valid = refl

module _ {fa : FrameAllocator} {mem_offset : ℕ} (laws : IsFrameAllocator fa mem_offset)
    (role : ℕ → Option ℕ) (sp : Space fa.State) (inv : IsSpace laws role sp) (t i k : ℕ)
    (at : role t ≡ some (suc k)) (ppn : ℕ) (m : InMap mem_offset ppn)
    (free : laws.Free sp.frames (va_of mem_offset ppn)) where
  va : ℕ
  va = va_of mem_offset ppn

  mem' : Memory
  mem' = with_table laws sp.mem t i ppn

  not_new : (x l : ℕ) → role x ≡ some l → x ≢ va
  unfolding va
  not_new x l e same = inv.used x l e (subst (λ y. laws.Free sp.frames y) (sym same) free)

  at_new : (j : ℕ) → mem' va j ≡ 0
  unfolding mem' with_table va
  at_new j = put_table-same (put sp.mem t i (link laws ppn)) va j

  at_link : mem' t i ≡ link laws ppn
  unfolding mem' with_table va
  at_link =
      put_table-other (put sp.mem t i (link laws ppn)) va t i (not_new t (suc k) at)
      ∙ put-same sp.mem t i (link laws ppn)

  at_old : (x j : ℕ) → x ≢ va → (x ≢ t) ⊎ (j ≢ i) → mem' x j ≡ sp.mem x j
  unfolding mem' with_table va
  at_old x j ne away =
      put_table-other (put sp.mem t i (link laws ppn)) va x j ne
      ∙ put-other sp.mem t i (link laws ppn) x j away

  -- Which entry is at a place.
  data At (x j : ℕ) : Type 0 where
    new : x ≡ va → mem' x j ≡ 0 → At x j
    linked : x ≢ va → x ≡ t → j ≡ i → mem' x j ≡ link laws ppn → At x j
    old : x ≢ va → (x ≢ t) ⊎ (j ≢ i) → mem' x j ≡ sp.mem x j → At x j

  which : (x j : ℕ) → At x j
  which x j = elim (ℕ_discrete x va) [
    | yes e ↦ new e (ap (λ y. mem' y j) e ∙ at_new j)
    | no ne ↦ elim (ℕ_discrete x t) [
      | no other ↦ old ne (inl other) (at_old x j ne (inl other))
      | yes same ↦ elim (ℕ_discrete j i) [
        | no other ↦ old ne (inr other) (at_old x j ne (inr other))
        | yes here ↦ linked ne same here (rw (same, here) at_link)
      ]
    ]
  ]

  linked_entry : IsLink ppn (link laws ppn)
  unfolding link
  linked_entry = set_ppn-IsLink ppn m.entry

  role' : ℕ → Option ℕ
  role' = with_role role va k

  grows : (x l : ℕ) → role x ≡ some l → role' x ≡ some l
  unfolding role'
  grows x l e = with_role-old role va k x (not_new x l e) ∙ e

  word : (x j : ℕ) → mem' x j < 2 ^ 64
  word x j = elim (which x j) [
    | new _ e ↦ omega (arith, e)
    | linked _ _ _ e ↦ omega (arith, e, linked_entry.word)
    | old _ _ e ↦ omega (arith, e, inv.tree.word x j)
  ]

  Child : ℕ → ℕ → ℕ → Type 0
  Child x l j =
      InMap mem_offset (get_ppn (mem' x j))
      × (role' (va_of mem_offset (get_ppn (mem' x j))) ≡ some l)

  Child-linked :
      (x l j : ℕ) → x ≢ va → x ≡ t → role' x ≡ some (suc l) → mem' x j ≡ link laws ppn → Child x l j
  unfolding Child role' va
  Child-linked x l j ne same r e =
      let named : get_ppn (mem' x j) ≡ ppn = ap get_ppn e ∙ linked_entry.names in
      let old_role : some (suc l) ≡ some (suc k) =
        sym r ∙ with_role-old role va k x ne ∙ ap role same ∙ at in
      rw named (m, with_role-new role va k ∙ below old_role)
    where
      below : some (suc l) ≡ some (suc k) → some k ≡ some l
      below e = cc e

  Child-old :
      (x l j : ℕ)
      → x ≢ va
      → role' x ≡ some (suc l)
      → is_valid (sp.mem x j) ≡ true
      → is_leaf (sp.mem x j) ≡ false
      → mem' x j ≡ sp.mem x j
      → Child x l j
  unfolding Child role'
  Child-old x l j ne r v n e = rw e (
    inv.tree.child_in_map x l j was v n,
    grows (va_of mem_offset (get_ppn (sp.mem x j))) l (inv.tree.child_role x l j was v n),
  )
    where
      was : role x ≡ some (suc l)
      was = sym (with_role-old role va k x ne) ∙ r

  false-true : false ≡ true → ⊥
  false-true e = cc e

  child :
      (x l j : ℕ)
      → role' x ≡ some (suc l)
      → is_valid (mem' x j) ≡ true
      → is_leaf (mem' x j) ≡ false
      → Child x l j
  child x l j r v n = elim (which x j) [
    | new _ e ↦ absurd (false-true (sym zero-is_valid ∙ sym (ap is_valid e) ∙ v))
    | linked ne same here e ↦ Child-linked x l j ne same r e
    | old ne away e ↦ Child-old x l j ne r (sym (ap is_valid e) ∙ v) (sym (ap is_leaf e) ∙ n) e
  ]

  after : fa.State → Space fa.State
  after s' = record { mem = mem'; frames = s' }

  IsTree-after : IsTree mem_offset role' mem'
  unfolding Child
  IsTree-after = record {
    word = word;
    child_in_map = λ x l j r v n. (child x l j r v n).0;
    child_role = λ x l j r v n. (child x l j r v n).1;
  }

  keeps :
      (x l j : ℕ)
      → is_valid (sp.mem t i) ≡ false
      → role x ≡ some l
      → is_valid (sp.mem x j) ≡ true
      → mem' x j ≡ sp.mem x j
  keeps x l j invalid r v = elim (which x j) [
    | new e _ ↦ absurd (not_new x l r e)
    | linked _ same here _ ↦
        absurd (false-true (sym invalid ∙ sym (ap₂ (λ y z. is_valid (sp.mem y z)) same here) ∙ v))
    | old _ _ e ↦ e
  ]

  used_after :
      (s' : fa.State)
      → (¬ laws.Free s' va)
      → ((x : ℕ) → laws.Free s' x → laws.Free sp.frames x)
      → (x l : ℕ) → role' x ≡ some l
      → ¬ laws.Free s' x
  unfolding role'
  used_after s' taken shrinks x l r f = elim (ℕ_discrete x va) [
    | yes same ↦ taken (subst (λ y. laws.Free s' y) same f)
    | no ne ↦ inv.used x l (sym (with_role-old role va k x ne) ∙ r) (shrinks x f)
  ]

  pub Reached-linked :
      is_valid (sp.mem t i) ≡ false
      → (s' : fa.State)
      → fa.alloc sp.frames 1
        ≡ done (some (record { paddr = ppn * 2 ^ 12; ptr = va_of mem_offset ppn }), s')
      → (¬ laws.Free s' (va_of mem_offset ppn))
      → laws.Valid s'
      → ((x : ℕ) → laws.Free s' x → laws.Free sp.frames x)
      → Reached laws role sp t i k
  unfolding next_table after va mem' role' with_role
  Reached-linked invalid s' e taken valid shrinks = record {
    after = after s';
    role' = role';
    table = va;
    returns = rw invalid (new_table-some laws t i sp ppn s' e m);
    space = record { tree = IsTree-after; valid = valid; used = used_after s' taken shrinks };
    grows = grows;
    level = with_role-new role va k;
    valid = ap is_valid at_link ∙ linked_entry.valid;
    inner = ap is_leaf at_link ∙ linked_entry.inner;
    in_map = subst (InMap mem_offset) (sym (ap get_ppn at_link ∙ linked_entry.names)) m;
    names =
        ap (λ e. va_of mem_offset (get_ppn e)) at_link ∙ ap (va_of mem_offset) linked_entry.names;
    keeps = λ x l j r v. keeps x l j invalid r v;
    origin = inr at_new;
  }
