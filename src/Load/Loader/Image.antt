-- ===== src/Load/Loader/Image.antt =====
-- The image that a loaded segment leaves in the address space.
use native.Mathlib.Decide.{dec_lt}
use rv.Base.{
  ℕ, ◌+◌, ◌-◌, ◌^◌, ◌≤◌, ◌<◌, ◌≡◌, ◌⊎◌, inl, inr, refl, sym, ap, ◌∙◌, subst, arith, length,
}
use rv.Base.{done, ok, none, some, get_elem?, get_elem?-lt, get_elem?-ge, Bool-cases, ltb, ◌==◌}
use rv.Base.Stateful.{lift-ok, map_err-ok, >>=-ok, map_err, lift, ◌>>=◌}
use rv.Addr.Virt
use rv.Addr.Virt.Canonical.{new-eq, add-eq}
use rv.Load.{LoadSegment, LoadPolicy, map_failed, zero_failed}
use rv.Load.Pages.{map_bounds-covers}
use rv.Load.Loader.{ElfLoader, zero_tail, drop_write}
use rv.Load.Loader.Steps.{Loaded}
use rv.Load.Loader.Contents.{IsLoader, IsOutside}

-- Byte `i` of the segment in memory: the file's data, then zeros.
abbrev pub image : LoadSegment → ℕ → ℕ
image seg i = elim (get_elem? seg.file_data i) [ none ↦ 0 | some b ↦ b ]

-- The segment's data fits its memory, and the segment lies a page below the end of the lower half.
pub record Fits (page : ℕ) (seg : LoadSegment) : Type 0 where
  pub contents : length seg.file_data ≤ seg.mem_size
  pub room : seg.vaddr + seg.mem_size + page ≤ 2 ^ 38

image-inside : (seg : LoadSegment) (i b : ℕ) → get_elem? seg.file_data i ≡ some b → image seg i ≡ b
image-inside seg i b e = rw (e, image) refl

image-beyond : (seg : LoadSegment) (i : ℕ) → length seg.file_data ≤ i → image seg i ≡ 0
image-beyond seg i h = rw (get_elem?-ge seg.file_data i h, image) refl

-- The address space holds the whole segment.
abbrev pub IsImage : {A : Type 0} → (A → ℕ → ℕ) → A → LoadSegment → Type 0
IsImage byte a seg = (i : ℕ) → i < seg.mem_size → byte a (seg.vaddr + i) ≡ image seg i

module _ {A E : Type 0} (loader : ElfLoader A E) (byte : A → ℕ → ℕ)
    (laws : IsLoader loader byte) where
  drop_write-same :
      (seg : LoadSegment) (start len flags : ℕ) (a a' : A) (x : ℕ)
      → drop_write loader seg start len flags a ≡ done (ok tt, a')
      → byte a' x ≡ byte a x
  unfolding drop_write
  drop_write-same seg start len flags a a' x e = elim (Bool-cases (seg.flags == flags)) [
    | inl same ↦ let still : a' ≡ a = ground (arith, e, same) in ap (λ (s : A). byte s x) still
    | inr other ↦
        let wrote : map_err (λ _. map_failed) (loader.protect_range start len seg.flags) a
            ≡ done (ok tt, a') =
          ground (arith, e, other) in
        laws.protect_same start len seg.flags a a' x (map_err-ok _ _ wrote)
  ]

  -- The call that zeroes the tail, where there is one.
  zero_tail-cases :
      (seg : LoadSegment) (a a' : A)
      → Fits loader.page_size seg
      → zero_tail loader seg a ≡ done (ok tt, a')
      → ((seg.mem_size ≤ length seg.file_data) × (a' ≡ a))
        ⊎ (loader.zero_user
              (seg.vaddr + length seg.file_data)
              (seg.mem_size - length seg.file_data)
              a
            ≡ done (ok tt, a'))
  unfolding zero_tail
  zero_tail-cases seg a a' fit e = elim (Bool-cases (ltb (length seg.file_data) seg.mem_size)) [
    | inr full ↦ inl (ground (arith, full), ground (arith, e, full))
    | inl tail ↦
        let run : (lift (Virt.add seg.vaddr (length seg.file_data)) >>= λ z.
        map_err (λ _. zero_failed) (loader.zero_user z (seg.mem_size - length seg.file_data)))
              a
            ≡ done (ok tt, a') =
          ground (arith, e, tail) in
        let (z, s, e1, k) = >>=-ok _ _ run in
        let (at, same) = lift-ok _ _ e1 in
        let r1 = fit.room in
        let r2 = fit.contents in
        let sum = add-eq seg.vaddr (length seg.file_data) (inl (ground (arith, tail))) in
        let here : z ≡ seg.vaddr + length seg.file_data = ground (arith, at, sum) in
        inr (
          subst (λ v. loader.zero_user v (seg.mem_size - length seg.file_data) a ≡ done (ok tt, a'))
            here
            (subst
              (λ t. loader.zero_user z (seg.mem_size - length seg.file_data) t ≡ done (ok tt, a'))
              same (map_err-ok _ _ k)))
  ]

  -- A byte that the segment's own pages do not hold is left alone.
  module _ (policy : LoadPolicy) (seg : LoadSegment) (a a' : A) (fit : Fits loader.page_size seg)
      (l : Loaded loader policy seg a a') where
    covered : (l.start ≤ seg.vaddr) × (seg.vaddr + seg.mem_size ≤ l.stop) × (l.stop < 2 ^ 38)
    covered = map_bounds-covers loader.page_size seg laws.power fit.room l.bounds

    len-eq : l.len ≡ l.stop - l.start
    unfolding Virt.sub
    len-eq =
        let (c1, c2, c3) = covered in
        ground (arith, l.size, new-eq (l.stop - l.start) (inl (omega arith)))

    zero_tail-outside :
        (x : ℕ) → IsOutside l.start (l.stop - l.start) x → byte l.zeroed x ≡ byte l.copied x
    zero_tail-outside x o = elim (zero_tail-cases seg l.copied l.zeroed fit l.zero) [
      | inl (full, same) ↦ ap (λ (s : A). byte s x) same
      | inr wrote ↦
          let (c1, c2, c3) = covered in
          laws.zero_outside (seg.vaddr + length seg.file_data) (seg.mem_size - length seg.file_data)
            l.copied l.zeroed x wrote (ground (arith, fit.contents, o, c1, c2, c3))
    ]

    pub Loaded-outside : (x : ℕ) → IsOutside l.start (l.stop - l.start) x → byte a' x ≡ byte a x
    Loaded-outside x o =
        let (c1, c2, c3) = covered in
        drop_write-same seg l.start l.len _ l.zeroed a' x l.protect
        ∙ zero_tail-outside x o
        ∙ laws.copy_outside seg.vaddr seg.file_data l.mapped l.copied x l.copy
            (ground (arith, fit.contents, o, c1, c2, c3))
        ∙ laws.map_outside l.start l.len _ a l.mapped x l.map (rw len-eq o)

    zeroed-IsImage : (i : ℕ) → i < seg.mem_size → byte l.zeroed (seg.vaddr + i) ≡ image seg i
    zeroed-IsImage i h = elim (dec_lt i (length seg.file_data)) [
      | yes p ↦
          let (b, at) = get_elem?-lt seg.file_data i p in
          let copied : byte l.copied (seg.vaddr + i) ≡ b =
            laws.copy_inside seg.vaddr seg.file_data l.mapped l.copied i b l.copy at in
          kept i p ∙ copied ∙ sym (image-inside seg i b at)
      | no p ↦ elim (zero_tail-cases seg l.copied l.zeroed fit l.zero) [
        | inl (full, same) ↦ absurd (omega arith)
        | inr wrote ↦
            let z =
              laws.zero_inside (seg.vaddr + length seg.file_data)
                (seg.mem_size - length seg.file_data) l.copied l.zeroed (i - length seg.file_data)
                wrote (omega arith) in
            let place : seg.vaddr + length seg.file_data + (i - length seg.file_data)
                ≡ seg.vaddr + i =
              omega arith in
            subst (λ x. byte l.zeroed x ≡ 0) place z ∙ sym (image-beyond seg i (omega arith))
      ]
    ]
      where
        kept :
            (i : ℕ)
            → i < length seg.file_data
            → byte l.zeroed (seg.vaddr + i) ≡ byte l.copied (seg.vaddr + i)
        kept i p = elim (zero_tail-cases seg l.copied l.zeroed fit l.zero) [
          | inl (full, same) ↦ ap (λ (s : A). byte s (seg.vaddr + i)) same
          | inr wrote ↦
              laws.zero_outside (seg.vaddr + length seg.file_data)
                (seg.mem_size - length seg.file_data) l.copied l.zeroed (seg.vaddr + i) wrote
                (inl (omega arith))
        ]

    pub Loaded-IsImage : IsImage byte a' seg
    Loaded-IsImage i h =
        drop_write-same seg l.start l.len _ l.zeroed a' (seg.vaddr + i) l.protect
        ∙ zeroed-IsImage i h
