-- ===== src/Load/Loader/Steps.antt =====
-- What a segment that was loaded went through.
use rv.Base.{ℕ, ◌≡◌, ◌∙◌, subst, arith, bit_or, false}
use rv.Base.{done, ok}
use rv.Base.Stateful.{>>=-ok, map_err-ok, lift-ok, stateless-ok, ensure-ok}
use rv.Addr.Virt
use rv.Mmu.Entry.SegmentFlags
use rv.Load.{LoadSegment, LoadPolicy}
use rv.Load.Pages.{map_bounds}
use rv.Load.Loader.{ElfLoader, breaks_wx, zero_tail, drop_write, load_segment}

module _ {A E : Type 0} (loader : ElfLoader A E) where
  -- The calls of one round that succeeded, with the address space between them.
  pub record Loaded (policy : LoadPolicy) (seg : LoadSegment) (a a' : A) : Type 0 where
    pub allowed : breaks_wx policy seg.flags ≡ false
    pub start : ℕ
    pub stop : ℕ
    pub len : ℕ
    pub mapped : A
    pub copied : A
    pub zeroed : A
    pub bounds : map_bounds loader.page_size seg ≡ done (start, stop)
    pub size : Virt.sub stop start ≡ done len
    pub valid : loader.validate_user_range start len a ≡ done (ok tt)
    pub map :
        loader.map_anonymous start len (bit_or seg.flags SegmentFlags.w) a ≡ done (ok tt, mapped)
    pub copy : loader.copy_to_user seg.vaddr seg.file_data mapped ≡ done (ok tt, copied)
    pub zero : zero_tail loader seg copied ≡ done (ok tt, zeroed)
    pub protect :
        drop_write loader seg start len (bit_or seg.flags SegmentFlags.w) zeroed ≡ done (ok tt, a')

  pub load_segment-Loaded :
      (policy : LoadPolicy) (seg : LoadSegment) (a a' : A)
      → load_segment loader policy seg a ≡ done (ok tt, a')
      → Loaded policy seg a a'
  unfolding load_segment
  load_segment-Loaded policy seg a a' e =
      let (u1, s1, e1, k1) = >>=-ok _ _ e in
      let (b, s2, e2, k2) = >>=-ok _ _ k1 in
      let (len, s3, e3, k3) = >>=-ok _ _ k2 in
      let (u4, s4, e4, k4) = >>=-ok _ _ k3 in
      let (u5, s5, e5, k5) = >>=-ok _ _ k4 in
      let (u6, s6, e6, k6) = >>=-ok _ _ k5 in
      let (u7, s7, e7, k7) = >>=-ok _ _ k6 in
      let (c1, q1) = ensure-ok _ _ _ e1 in
      let (c2, q2) = lift-ok _ _ e2 in
      let (c3, q3) = lift-ok _ _ e3 in
      let (c4, q4) = stateless-ok _ _ (map_err-ok _ _ e4) in
      let c5 = map_err-ok _ _ e5 in
      let c6 = map_err-ok _ _ e6 in
      record {
        allowed = ground (arith, c1);
        start = b.0;
        stop = b.1;
        len = len;
        mapped = s5;
        copied = s6;
        zeroed = s7;
        bounds = c2;
        size = c3;
        valid = subst (λ s. loader.validate_user_range b.0 len s ≡ done (ok tt)) (q3 ∙ q2 ∙ q1) c4;
        map =
            subst
              (λ s.
                loader.map_anonymous b.0 len (bit_or seg.flags SegmentFlags.w) s ≡ done (ok tt, s5))
              (q4 ∙ q3 ∙ q2 ∙ q1) c5;
        copy = c6;
        zero = e7;
        protect = k7;
      }
