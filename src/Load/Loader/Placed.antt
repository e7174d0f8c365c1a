-- ===== src/Load/Loader/Placed.antt =====
-- All segments of a plan in the address space.
use rv.Base.{
  ℕ, zero, suc, ◌+◌, ◌*◌, ◌/◌, ◌≤◌, ◌<◌, ◌≡◌, ◌⊎◌, refl, ap, ◌∙◌, subst, arith, false, ◌&&◌, List,
  [], ◌∷◌,
}
use rv.Base.{done, ok, some, get_elem?}
use rv.Base.Stateful.{map_err-ok, stateless-ok, pure-ok, >>=-ok}
use rv.Mmu.Entry.{contains}
use rv.Mmu.Entry.SegmentFlags
use rv.Load.{LoadSegment, LoadPolicy, LoadPlan, build_load_plan}
use rv.Load.Pages.{map_bounds-outside}
use rv.Load.Loader.{ElfLoader, breaks_wx, load_segments, load_elf_into}
use rv.Load.Loader.Steps.{Loaded, load_segment-Loaded}
use rv.Load.Loader.Contents.{IsLoader}
use rv.Load.Loader.Image.{Fits, IsImage, Loaded-outside, Loaded-IsImage}

-- Address `x` is in no page of the segment: its page lies below the page of the segment's first address, or starts
-- at the segment's end or later.
abbrev pub Misses : ℕ → LoadSegment → ℕ → Type 0
Misses page seg x = (x / page < seg.vaddr / page) ⊎ (seg.vaddr + seg.mem_size ≤ x / page * page)

-- Each segment fits, and no page of a later segment holds a byte of an earlier one.
pub record IsApart (page : ℕ) (segs : List LoadSegment) : Type 0 where
  pub fits : (k : ℕ) (seg : LoadSegment) → get_elem? segs k ≡ some seg → Fits page seg
  pub apart :
      (j k : ℕ) (seg later : LoadSegment)
      → j < k
      → get_elem? segs j ≡ some seg
      → get_elem? segs k ≡ some later
      → (i : ℕ) → i < seg.mem_size
      → Misses page later (seg.vaddr + i)

IsApart-tail :
    (page : ℕ) (seg : LoadSegment) (segs : List LoadSegment)
    → IsApart page (seg ∷ segs)
    → IsApart page segs
IsApart-tail page seg segs w = record {
  fits = λ k s e. w.fits (suc k) s e;
  apart = λ j k s later h e e' i hi. w.apart (suc j) (suc k) s later (omega arith) e e' i hi;
}

module _ {A E : Type 0} (loader : ElfLoader A E) where
  -- The first segment, then the others.
  load_segments-cons :
      (policy : LoadPolicy) (seg : LoadSegment) (segs : List LoadSegment) (a a' : A)
      → load_segments loader policy (seg ∷ segs) a ≡ done (ok tt, a')
      → (m : A) × Loaded loader policy seg a m
        × (load_segments loader policy segs m ≡ done (ok tt, a'))
  unfolding load_segments
  load_segments-cons policy seg segs a a' e =
      let (u, m, e1, k) = >>=-ok _ _ e in (m, load_segment-Loaded loader policy seg a m e1, k)

  load_segments-nil :
      (policy : LoadPolicy) (a a' : A)
      → load_segments loader policy [] a ≡ done (ok tt, a')
      → a' ≡ a
  unfolding load_segments
  load_segments-nil policy a a' e = cc

  -- Where writable and executable at once is forbidden, no segment that was loaded is both.
  load_segments-allowed :
      (policy : LoadPolicy) (segs : List LoadSegment) (a a' : A)
      → load_segments loader policy segs a ≡ done (ok tt, a')
      → (k : ℕ) (seg : LoadSegment) → get_elem? segs k ≡ some seg
      → breaks_wx policy seg.flags ≡ false
  load_segments-allowed policy [] a a' e k seg at = cc
  load_segments-allowed policy (s ∷ segs) a a' e zero seg at =
      let (m, l, rest) = load_segments-cons policy s segs a a' e in
      let same : s ≡ seg = cc in
      subst (λ (t : LoadSegment). breaks_wx policy t.flags ≡ false) same l.allowed
  load_segments-allowed policy (s ∷ segs) a a' e (suc k) seg at =
      let (m, l, rest) = load_segments-cons policy s segs a a' e in
      load_segments-allowed policy segs m a' rest k seg at

  module _ (byte : A → ℕ → ℕ) (laws : IsLoader loader byte) (policy : LoadPolicy) where
    load_segments-outside :
        (segs : List LoadSegment) (a a' : A) (x : ℕ)
        → IsApart loader.page_size segs
        → load_segments loader policy segs a ≡ done (ok tt, a')
        → ((k : ℕ) (seg : LoadSegment)
            → get_elem? segs k ≡ some seg
            → Misses loader.page_size seg x)
        → byte a' x ≡ byte a x
    load_segments-outside [] a a' x w e o =
        ap (λ (s : A). byte s x) (load_segments-nil policy a a' e)
    load_segments-outside (s ∷ segs) a a' x w e o =
        let (m, l, rest) = load_segments-cons policy s segs a a' e in
        load_segments-outside segs m a' x (IsApart-tail loader.page_size s segs w) rest
          (λ k seg at. o (suc k) seg at)
        ∙ Loaded-outside loader byte laws policy s a m (w.fits 0 s refl) l x (
            map_bounds-outside loader.page_size s x laws.power (w.fits 0 s refl).room l.bounds
              (o 0 s refl))

    load_segments-IsImage :
        (segs : List LoadSegment) (a a' : A)
        → IsApart loader.page_size segs
        → load_segments loader policy segs a ≡ done (ok tt, a')
        → (k : ℕ) (seg : LoadSegment) → get_elem? segs k ≡ some seg
        → IsImage byte a' seg
    load_segments-IsImage [] a a' w e k seg at = cc
    load_segments-IsImage (s ∷ segs) a a' w e zero seg at =
        let (m, l, rest) = load_segments-cons policy s segs a a' e in
        let same : s ≡ seg = cc in
        subst (λ t. IsImage byte a' t) same
          (λ i h.
            load_segments-outside segs m a' (s.vaddr + i) (IsApart-tail loader.page_size s segs w)
              rest (λ j later at'. w.apart 0 (suc j) s later (omega arith) refl at' i h)
            ∙ Loaded-IsImage loader byte laws policy s a m (w.fits 0 s refl) l i h)
    load_segments-IsImage (s ∷ segs) a a' w e (suc k) seg at =
        let (m, l, rest) = load_segments-cons policy s segs a a' e in
        load_segments-IsImage segs m a' (IsApart-tail loader.page_size s segs w) rest k seg at

  -- The steps of a whole load.
  pub load_elf_into-parts :
      (bytes : List ℕ) (policy : LoadPolicy) (buf : List LoadSegment) (plan : LoadPlan) (a a' : A)
      → load_elf_into loader bytes policy buf a ≡ done (ok plan, a')
      → (m : A) × (build_load_plan bytes policy buf ≡ done (ok plan))
        × (load_segments loader policy plan.segments a ≡ done (ok tt, m))
        × (loader.finalize_image [] m ≡ done (ok tt, a'))
  unfolding load_elf_into
  load_elf_into-parts bytes policy buf plan a a' e =
      let (p, s1, e1, k1) = >>=-ok _ _ e in
      let (u2, s2, e2, k2) = >>=-ok _ _ k1 in
      let (u3, s3, e3, k3) = >>=-ok _ _ k2 in
      let (c1, q1) = stateless-ok _ _ e1 in
      let c3 = map_err-ok _ _ e3 in
      let (same, same') = pure-ok p s3 k3 in
      (
        s2,
        c1 ∙ ap (λ q. done (ok q)) same,
        subst (λ (q : LoadPlan). load_segments loader policy q.segments a ≡ done (ok tt, s2)) same
            (subst (λ s. load_segments loader policy p.segments s ≡ done (ok tt, s2)) q1 e2),
        subst (λ s. loader.finalize_image [] s2 ≡ done (ok tt, s)) same' c3,
      )

  -- Where the policy forbids it, no segment of a plan that was loaded is both writable and executable.
  pub load_elf_into_allowed :
      (bytes : List ℕ) (policy : LoadPolicy) (buf : List LoadSegment) (plan : LoadPlan) (a a' : A)
      → policy.allow_wx ≡ false
      → load_elf_into loader bytes policy buf a ≡ done (ok plan, a')
      → (k : ℕ) (seg : LoadSegment) → get_elem? plan.segments k ≡ some seg
      → contains seg.flags SegmentFlags.w && contains seg.flags SegmentFlags.x ≡ false
  load_elf_into_allowed bytes policy buf plan a a' wx e k seg at =
      let (m, planned, run, final) = load_elf_into-parts bytes policy buf plan a a' e in
      ground (arith, wx, load_segments-allowed policy plan.segments a m run k seg at)

  module _ (byte : A → ℕ → ℕ) (laws : IsLoader loader byte) (bytes : List ℕ) (policy : LoadPolicy)
      (buf : List LoadSegment) (plan : LoadPlan) (a a' : A)
      (w : IsApart loader.page_size plan.segments)
      (e : load_elf_into loader bytes policy buf a ≡ done (ok plan, a')) where
    -- Where the segments of the plan fit and are apart, a load that succeeds leaves the image of each
    -- segment in the address space: the segment's data, then zeros.
    pub load_elf_into-IsImage :
        (k : ℕ) (seg : LoadSegment) → get_elem? plan.segments k ≡ some seg → IsImage byte a' seg
    load_elf_into-IsImage k seg at i h =
        let (m, planned, run, final) = load_elf_into-parts bytes policy buf plan a a' e in
        laws.finalize_same [] m a' (seg.vaddr + i) final
        ∙ load_segments-IsImage byte laws policy plan.segments a m w run k seg at i h

    -- Where the segments of the plan fit and are apart, a load that succeeds leaves each byte alone
    -- that lies in no page of a segment (`Misses`).
    pub load_elf_into_outside :
        (x : ℕ)
        → ((k : ℕ) (seg : LoadSegment)
            → get_elem? plan.segments k ≡ some seg
            → Misses loader.page_size seg x)
        → byte a' x ≡ byte a x
    load_elf_into_outside x o =
        let (m, planned, run, final) = load_elf_into-parts bytes policy buf plan a a' e in
        laws.finalize_same [] m a' x final
        ∙ load_segments-outside byte laws policy plan.segments a m x w run o
